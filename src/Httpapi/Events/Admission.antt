-- ===== src/Httpapi/Events/Admission.antt =====
-- Which requests the handler admits, and what it leaves alone when it does not.
use mathlib.Core.Path.{subst}
use webhook_event_route.Prelude.{
  ℕ, ◌+◌, ◌*◌, ◌≤◌, ◌<◌, ◌≡◌, ◌≢◌, refl, sym, ◌∙◌, ◌↔◌, ◌⊎◌, inl, inr, true, Option, none, some, [],
  arith, take, ℤ, pos, negsuc, Text, text_eq_iff, Bool-cases, ◌==◌, ==_iff, Option-cases, length,
  In,
}
use webhook_event_route.Domain.{Members, object, Source, second, unix_epoch}
use webhook_event_route.Runtime.{Runtime}
use webhook_event_route.Webhook.{sign, verify, validate_payload, validate_event_type, max_duration}
use webhook_event_route.Webhook.Checks.{
  verify_iff_sign, validate_payload_lem, validate_event_type_lem, validate_timestamp_iff_window,
}
use webhook_event_route.Config.{Config}
use webhook_event_route.Store.{Result-cases, ok, Store}
use webhook_event_route.Dispatcher.World.{Env, World}
use webhook_event_route.Httpapi.Events.{
  Codec, pass, Admitted, check_parsed, check_timestamp, admit, read_limit,
}

module _ (cfg : Config) where
  -- A timestamp of zero is none; any other is positive and within the window.
  abbrev pub Timely : ℤ → Option ℕ → ℕ → Type 0
  Timely z t now =
      ((z ≡ pos 0) × (t ≡ none))
      ⊎ ((n : ℕ) × (z ≡ pos n)
          × (n ≢ 0)
          × (t ≡ some (unix_epoch + n * second))
          × (unix_epoch + n * second ≤ now + cfg.replay_window)
          × (now ≤ unix_epoch + n * second + cfg.replay_window))

  check_parsed_iff :
      cfg.replay_window < max_duration
      → (n : ℕ) (t : Option ℕ) (now : ℕ)
      → (check_parsed cfg (some (unix_epoch + n * second)) now ≡ pass t) ↔ (
          (t ≡ some (unix_epoch + n * second))
          × (unix_epoch + n * second ≤ now + cfg.replay_window)
          × (now ≤ unix_epoch + n * second + cfg.replay_window))
  check_parsed_iff short n t now =
      ground
        (arith, validate_timestamp_iff_window (unix_epoch + n * second) now cfg.replay_window short)

  pub check_timestamp_iff :
      cfg.replay_window < max_duration
      → (z : ℤ) (t : Option ℕ) (now : ℕ) → (check_timestamp cfg z now ≡ pass t) ↔ Timely z t now
  unfolding check_timestamp
  check_timestamp_iff short (pos n) t now = elim (Bool-cases (n == 0)) [
    | inl e ↦
        let zero_lem : n ≡ 0 = (==_iff n 0).0 e in
        (
          λ h. inl (ground arith),
          λ h. elim h [
            | inl (_, z) ↦ ground arith
            | inr (m, z, ne, _, _, _) ↦ absurd (ground arith)
          ],
        )
    | inr e ↦
        let (there, back) = check_parsed_iff short n t now in
        let step : check_timestamp cfg (pos n) now
            ≡ check_parsed cfg (some (unix_epoch + n * second)) now =
          rw e in
        (
          λ h.
              let (x, y, z) = there (sym step ∙ h) in
              inr (n, refl, (λ k. cc ((==_iff n 0).1 k)), x, y, z),
          λ h. elim h [
            | inl (z, _) ↦ absurd (ground arith)
            | inr (m, z, ne, x, y, u) ↦
                let p : m ≡ n = ground arith in
                step
                ∙ back (
                    subst
                      (λ k.
                        (t ≡ some (unix_epoch + k * second))
                        × (unix_epoch + k * second ≤ now + cfg.replay_window)
                        × (now ≤ unix_epoch + k * second + cfg.replay_window))
                      p (x, y, u))
          ],
        )
  ]
  check_timestamp_iff short (negsuc n) t now =
      (λ h. cc, λ h. elim h [ inl (z, _) ↦ cc | inr (n, z, _, _, _, _) ↦ cc ])

module _ {S : Type 0} (lib : Runtime) (codec : Codec) (st : Store S) (cfg : Config) (env : Env)
    (w : World S) (read : Option Text) (signature : Text) where
  -- What the handler asks of a request before it looks for an earlier event.
  pub record IsAdmissible (whole : Text) (src : Source) (a : Admitted) : Type 0 where
    pub was_read : read ≡ some whole
    pub decoded : codec.decode (take (read_limit cfg.max_payload) whole) ≡ some a.request
    pub named : a.request.event_id ≢ []
    pub raw : a.payload ≡ codec.marshal_raw a.request.payload
    pub known : st.get_source a.request.source_id w.db ≡ ok src
    pub live : src.enabled ≡ true
    pub signed : verify lib src.secret signature (take (read_limit cfg.max_payload) whole) ≡ true
    pub well_formed : validate_payload lib a.payload cfg.max_payload ≡ none
    pub of_type : validate_event_type src a.request.event_type ≡ none
    pub timely : check_timestamp cfg a.request.timestamp (env.now w.ticks) ≡ pass a.timestamp

  abbrev pub Admissible : Admitted → Type 0
  Admissible a = (whole : Text) × (src : Source) × IsAdmissible whole src a

  admit-IsAdmissible :
      (a : Admitted) → admit lib codec st cfg env w read signature ≡ pass a → Admissible a
  unfolding admit
  admit-IsAdmissible a h = elim (Option-cases read) [
    | inl e ↦ absurd (ground arith)
    | inr (whole, e) ↦
        elim (Option-cases (codec.decode (take (read_limit cfg.max_payload) whole))) [
          | inl n ↦ absurd (ground arith)
          | inr (req, d) ↦ elim (Result-cases (st.get_source req.source_id w.db)) [
            | inl (src, k) ↦ (whole, src, ground (arith, text_eq_iff req.event_id []))
            | inr (f, k) ↦ absurd (ground arith)
          ]
        ]
  ]

  IsAdmissible-admit :
      (whole : Text) (src : Source) (a : Admitted)
      → IsAdmissible whole src a
      → admit lib codec st cfg env w read signature ≡ pass a
  unfolding admit
  IsAdmissible-admit whole src a h = ground (arith, text_eq_iff a.request.event_id [])

  -- The meaning of the last four checks, in the terms of the request, the source and the clock.
  pub record Accepts (whole : Text) (src : Source) (a : Admitted) : Type 0 where
    pub was_read : read ≡ some whole
    pub decoded : codec.decode (take (cfg.max_payload + 1) whole) ≡ some a.request
    pub named : a.request.event_id ≢ []
    pub raw : a.payload ≡ codec.marshal_raw a.request.payload
    pub known : st.get_source a.request.source_id w.db ≡ ok src
    pub live : src.enabled ≡ true
    pub signed :
        (src.secret ≢ [])
        × (signature ≢ [])
        × (signature ≡ sign lib src.secret (take (cfg.max_payload + 1) whole))
    pub well_formed :
        (length a.payload ≤ cfg.max_payload)
        × (lib.trim_space a.payload ≢ [])
        × ((m : Members) × (lib.unmarshal a.payload ≡ some (object m)))
    pub of_type : (src.allowed_types ≡ []) ⊎ In a.request.event_type src.allowed_types
    pub timely : Timely cfg a.request.timestamp a.timestamp (env.now w.ticks)

  -- With a limit and a window below the greatest int64, the handler admits a request exactly when its body can
  -- be read and decodes (cut off one byte above the limit), the event's identifier is not empty, the
  -- source exists and is enabled, the signature is the one of that body under the source's secret,
  -- the payload is a JSON object within the limit, the source allows the event type, and the
  -- timestamp is zero or within the window.
  pub admit_iff_Accepts :
      cfg.max_payload < 9223372036854775807
      → cfg.replay_window < max_duration
      → (a : Admitted)
      → (admit lib codec st cfg env w read signature ≡ pass a)
        ↔ ((whole : Text) × (src : Source) × Accepts whole src a)
  admit_iff_Accepts small short a =
      let limit : read_limit cfg.max_payload ≡ cfg.max_payload + 1 = ground arith in
      (
        λ h.
            let (whole, src, k) = admit-IsAdmissible a h in
            (
              whole,
              src,
              record {
                was_read = k.was_read;
                decoded = rw limit at k.decoded;
                named = k.named;
                raw = k.raw;
                known = k.known;
                live = k.live;
                signed = (verify_iff_sign lib src.secret signature _).0 (rw limit at k.signed);
                well_formed =
                    (validate_payload_lem lib a.payload cfg.max_payload).0.0 k.well_formed;
                of_type = (validate_event_type_lem src a.request.event_type).0.0 k.of_type;
                timely = (check_timestamp_iff cfg short _ _ _).0 k.timely;
              },
            ),
        λ (whole, src, k). IsAdmissible-admit whole src a (record {
          was_read = k.was_read;
          decoded = rw limit k.decoded;
          named = k.named;
          raw = k.raw;
          known = k.known;
          live = k.live;
          signed = rw limit ((verify_iff_sign lib src.secret signature _).1 k.signed);
          well_formed = (validate_payload_lem lib a.payload cfg.max_payload).0.1 k.well_formed;
          of_type = (validate_event_type_lem src a.request.event_type).0.1 k.of_type;
          timely = (check_timestamp_iff cfg short _ _ _).1 k.timely;
        }),
      )
