-- ===== src/Httpapi/History/Duplicates.antt =====
-- Idempotence: an event that was accepted is never accepted again.
use mathlib.Core.Path.{subst}
use webhook_event_route.Prelude.{ℕ, ap, sym, refl, ◌∙◌, ◌≡◌, inl, inr, Option, arith, Text}
use webhook_event_route.Domain.{EventStatus}
use webhook_event_route.Runtime.{Runtime}
use webhook_event_route.Config.{Config}
use webhook_event_route.Store.{Result-cases, ok, Store}
use webhook_event_route.Dispatcher.Operated.{operated}
use webhook_event_route.Dispatcher.World.{Env, ticked, with_db}
use webhook_event_route.Httpapi.Events.{
  Admitted, pass, admit, accepted_as, duplicate_of, Server, new_event, store_event, deduplicate,
  handle_create_event,
}
use webhook_event_route.Httpapi.Events.Kept.{route_event_kept}
use webhook_event_route.Httpapi.Events.Effects.{handle_refused}
use webhook_event_route.Store.Resources.{Resources}
use webhook_event_route.Httpapi.Api.{Decoders}
use webhook_event_route.Httpapi.History.{Later, Later_kept}
use webhook_event_route.Httpapi.History.Keys.{Knows, KeyLaws}

module _ {S : Type 0} (lib : Runtime) (dec : Decoders) (st : Store S) (rs : Resources S)
    (laws : KeyLaws st rs) (cfg : Config) (env : Env) where
  -- An event whose routing ends with an answer is known by its key.
  stored_known :
      (s : Server S) (a : Admitted) (id : ℕ)
      → (store_event lib st cfg env s a).1 ≡ accepted_as id
      → Knows st a.request.source_id a.request.event_id id
          (store_event lib st cfg env s a).0.world.db
  unfolding store_event
  stored_known s a id answered =
      let made = st.create_event (env.now s.world.ticks) (new_event a) s.world.db in
      elim (Result-cases made.1) [
        | inr (f, c) ↦ absurd (ground arith)
        | inl (x, c) ↦
            let same : x.id ≡ id = ground arith in
            let P = Knows st a.request.source_id a.request.event_id id in
            rw (c, store_event)
              (route_event_kept st cfg env P
                (operated st cfg env P (laws.known_kept a.request.source_id a.request.event_id id))
                lib (record s { world = with_db s.world made.0 })
                (record (new_event a) { id = x.id; received_at = x.at; created_at = x.at })
                (subst (λ n. Knows st a.request.source_id a.request.event_id n made.0) same
                  (laws.created_known (env.now s.world.ticks) (new_event a) s.world.db x c)))
      ]

  -- An accepted event is known by its key when the handler returns.
  pub accepted_known :
      (s : Server S) (read : Option Text) (signature : Text) (id : ℕ) (a : Admitted)
      → (handle_create_event lib dec.event st cfg env s read signature).1 ≡ accepted_as id
      → admit lib dec.event st cfg env s.world read signature ≡ pass a
      → Knows st a.request.source_id a.request.event_id id
          (handle_create_event lib dec.event st cfg env s read signature).0.world.db
  unfolding handle_create_event deduplicate
  accepted_known s read signature id a answered admitted =
      let s' = record s { world = ticked s.world } in
      elim (Result-cases (st.get_by_key a.request.source_id a.request.event_id s.world.db)) [
        | inl (e, k) ↦ absurd (ground arith)
        | inr (f, k) ↦
            let routed : handle_create_event lib dec.event st cfg env s read signature
                ≡ store_event lib st cfg env s' a =
              rw (admitted, k, handle_create_event, deduplicate) refl in
            rw routed (stored_known s' a id (ap (λ r. r.1) (sym routed) ∙ answered))
      ]

  -- A request with a known key is answered as a duplicate.
  pub known_refused :
      (t : Server S) (read : Option Text) (signature : Text) (source_id : ℕ) (event_id : Text)
      (id : ℕ) (a : Admitted)
      → Knows st source_id event_id id t.world.db
      → admit lib dec.event st cfg env t.world read signature ≡ pass a
      → a.request.source_id ≡ source_id
      → a.request.event_id ≡ event_id
      → (status : EventStatus) × ((handle_create_event lib dec.event st cfg env t read signature).1
          ≡ duplicate_of id status)
        × ((handle_create_event lib dec.event st cfg env t read signature).0.world.db ≡ t.world.db)
        × ((handle_create_event lib dec.event st cfg env t read signature).0.world.requests
            ≡ t.world.requests)
  known_refused t read signature source_id event_id id a (e, found, same) again p q =
      let found' : st.get_by_key a.request.source_id a.request.event_id t.world.db ≡ ok e =
        rw (p, q) found in
      let (answer, db, requests, _) =
        (handle_refused lib dec.event st cfg env t read signature).1 a e again found' in
      (e.status, answer ∙ ap (λ n. duplicate_of n e.status) same, db, requests)

  -- In a store that keeps its keys: once an event was accepted with an identifier, each later request
  -- with the same source and event_id that passes the checks is answered as a duplicate with that
  -- identifier, whatever calls of the interface and retries lie between; the database stays as it
  -- is and nothing is sent.
  pub accepted_once :
      (s t : Server S) (read read' : Option Text) (signature signature' : Text) (id : ℕ)
      (a a' : Admitted)
      → (handle_create_event lib dec.event st cfg env s read signature).1 ≡ accepted_as id
      → admit lib dec.event st cfg env s.world read signature ≡ pass a
      → Later lib dec st rs cfg env
          (handle_create_event lib dec.event st cfg env s read signature).0
          t
      → admit lib dec.event st cfg env t.world read' signature' ≡ pass a'
      → a'.request.source_id ≡ a.request.source_id
      → a'.request.event_id ≡ a.request.event_id
      → (status : EventStatus) × ((handle_create_event lib dec.event st cfg env t read'
            signature').1
          ≡ duplicate_of id status)
        × ((handle_create_event lib dec.event st cfg env t read' signature').0.world.db
            ≡ t.world.db)
        × ((handle_create_event lib dec.event st cfg env t read' signature').0.world.requests
            ≡ t.world.requests)
  accepted_once s t read read' signature signature' id a a' answered admitted l again p q =
      known_refused t read' signature' a.request.source_id a.request.event_id id a'
        (Later_kept lib dec st rs cfg env (Knows st a.request.source_id a.request.event_id id)
          (operated st cfg env (Knows st a.request.source_id a.request.event_id id)
            (laws.known_kept a.request.source_id a.request.event_id id))
          (laws.known_configured a.request.source_id a.request.event_id id)
          (handle_create_event lib dec.event st cfg env s read signature).0 t l
          (accepted_known s read signature id a answered admitted))
        again p q
