-- ===== src/Webhook/Checks.antt =====
-- What each check accepts, and the error of each branch.
use mathlib.Core.List.{cons≢nil}
use webhook_event_route.Prelude.{
  ℕ, ◌+◌, ◌≤◌, ◌<◌, ◌≡◌, ◌≢◌, refl, sym, ◌∙◌, ◌↔◌, ◌⊎◌, inl, inr, Bool, true, false, Option, none,
  some, List, [], ◌∷◌, arith, any, length, if◌then◌else◌, In, Text, codes, text_eq, text_eq_iff,
  Bool-cases,
}
use webhook_event_route.Domain.{Value, Members, object, Source}
use webhook_event_route.Errs.{Code, Error, new, status_of}
use webhook_event_route.Runtime.{Runtime}
use webhook_event_route.Webhook.{
  hex, sign, verify, is_object, validate_payload, validate_event_type, max_duration,
  validate_timestamp,
}

-- `Verify` accepts exactly the signature that `Sign` computes, and nothing for an empty secret or
-- an empty signature.
pub verify_iff_sign :
    (lib : Runtime) (secret signature body : Text)
    → (verify lib secret signature body ≡ true)
      ↔ ((secret ≢ []) × (signature ≢ []) × (signature ≡ sign lib secret body))
unfolding verify
verify_iff_sign lib secret signature body = ground (
  arith,
  text_eq_iff secret [],
  text_eq_iff signature [],
  text_eq_iff (sign lib secret body) signature,
)

hex-injective : (s t : Text) → hex s ≡ hex t → s ≡ t
unfolding hex
hex-injective [] [] e = refl
hex-injective [] (d ∷ t) e = cc
hex-injective (c ∷ s) [] e = cc
hex-injective (c ∷ s) (d ∷ t) e = ground (arith, hex-injective s t)

-- The check of a timestamp passes exactly where it lies within the window on either side of the
-- server's time, for a window below the longest duration.
pub validate_timestamp_iff_window :
    (ts now window : ℕ)
    → window < max_duration
    → (validate_timestamp ts now window ≡ none)
      ↔ ((ts ≢ 0) × (ts ≤ now + window) × (now ≤ ts + window))
unfolding validate_timestamp
validate_timestamp_iff_window ts now window h = ground arith

-- One signature fits two bodies under a secret only where their HMAC sums agree.
pub verify-hmac :
    (lib : Runtime) (secret signature a b : Text)
    → verify lib secret signature a ≡ true
    → verify lib secret signature b ≡ true
    → lib.hmac_sha256 secret a ≡ lib.hmac_sha256 secret b
unfolding sign
verify-hmac lib secret signature a b va vb =
    let (_, _, x) = (verify_iff_sign lib secret signature a).0 va in
    let (_, _, y) = (verify_iff_sign lib secret signature b).0 vb in hex-injective _ _ (sym x ∙ y)

is_object_iff : (o : Option Value) → (is_object o ≡ true) ↔ ((m : Members) × (o ≡ some (object m)))
unfolding is_object
is_object_iff none = (λ e. cc, λ (m, e). cc)
is_object_iff (some (object m)) = (λ _. (m, refl), λ _. refl)
is_object_iff (some _) = (λ e. cc, λ (m, e). cc)

-- Every branch of the check of a payload: within the size, not blank and a JSON object passes;
-- otherwise the first of these that fails gives the error, too large (413) before invalid (400).
pub validate_payload_lem :
    (lib : Runtime) (payload : Text) (max_size : ℕ)
    → ((validate_payload lib payload max_size ≡ none) ↔ (
        (length payload ≤ max_size)
        × (lib.trim_space payload ≢ [])
        × ((m : Members) × (lib.unmarshal payload ≡ some (object m)))))
      × ((e : Error)
          → validate_payload lib payload max_size ≡ some e
          → ((max_size < length payload) × (e.code ≡ Code.payload_too_large) × (e.status ≡ 413))
            ⊎ ((length payload ≤ max_size) × (e.code ≡ Code.payload_invalid) × (e.status ≡ 400)))
unfolding validate_payload new status_of is_object
validate_payload_lem lib payload max_size = (
  (
    λ h. (
      ground (arith, text_eq_iff (lib.trim_space payload) []),
      ground (arith, text_eq_iff (lib.trim_space payload) []),
      (is_object_iff (lib.unmarshal payload)).0 (accepted h),
    ),
    λ (small, inked, (m, e)). ground (arith, text_eq_iff (lib.trim_space payload) []),
  ),
  λ e h. ground (arith, text_eq_iff (lib.trim_space payload) []),
)
  where
    accepted :
        validate_payload lib payload max_size ≡ none → is_object (lib.unmarshal payload) ≡ true
    accepted h = ground arith

any_text_iff : (ts : List Text) (t : Text) → (any (λ a. text_eq a t) ts ≡ true) ↔ In t ts
any_text_iff [] t = (λ e. cc, λ m. elim m [ ])
any_text_iff (s ∷ ts) t = elim (Bool-cases (text_eq s t)) [
  | inl e ↦ (λ _. inl (sym ((text_eq_iff s t).0 e)), λ _. rw e)
  | inr e ↦ (
    λ h. inr ((any_text_iff ts t).0 (rw e at h)),
    λ m. elim m [
      | inl p ↦ cc ((text_eq_iff s t).1 (sym p))
      | inr n ↦ rw e ((any_text_iff ts t).1 n)
    ],
  )
]

-- The check of an event type passes exactly for a source that lists no types, or lists this one;
-- otherwise its error has status 422.
pub validate_event_type_lem :
    (src : Source) (event_type : Text)
    → ((validate_event_type src event_type ≡ none)
        ↔ ((src.allowed_types ≡ []) ⊎ In event_type src.allowed_types))
      × ((e : Error)
          → validate_event_type src event_type ≡ some e
          → (e.code ≡ Code.event_type_not_allowed) × (e.status ≡ 422))
unfolding validate_event_type new status_of
validate_event_type_lem src event_type = by_types src.allowed_types
  where
    verdict :
        (b : Bool)
        → let out : Option Error =
            if b
            then none
            else some
                (new Code.event_type_not_allowed (codes "event type not allowed for source")) in
          ((out ≡ none) ↔ (b ≡ true))
          × ((e : Error) → out ≡ some e → (e.code ≡ Code.event_type_not_allowed) × (e.status ≡ 422))
    verdict true = ((λ _. refl, λ _. refl), λ e h. cc)
    verdict false = ((λ h. cc, λ h. cc), λ e h. ground arith)

    by_types :
        (l : List Text)
        → let out : Option Error = elim l [
          | [] ↦ none
          | t ∷ ts ↦
              if any (λ a. text_eq a event_type) (t ∷ ts)
              then none
              else some
                  (new Code.event_type_not_allowed (codes "event type not allowed for source"))
        ] in
          ((out ≡ none) ↔ ((l ≡ []) ⊎ In event_type l))
          × ((e : Error) → out ≡ some e → (e.code ≡ Code.event_type_not_allowed) × (e.status ≡ 422))
    by_types [] = ((λ _. inl refl, λ _. refl), λ e h. cc)
    by_types (t ∷ ts) =
        let b : Bool = any (λ a. text_eq a event_type) (t ∷ ts) in
        let (p, q) = verdict b in
        let r = any_text_iff (t ∷ ts) event_type in
        (
          (
            λ h. inr (r.0 (p.0 h)),
            λ k. p.1 (elim k [ inl e ↦ absurd (cons≢nil e) | inr m ↦ r.1 m ]),
          ),
          q,
        )
