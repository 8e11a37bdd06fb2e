-- ===== src/Tests/Webhook.antt =====
-- The checks of an event on small inputs.
use webhook_event_route.Prelude.{
  ◌+◌, ◌*◌, ◌≡◌, ◌≢◌, ◌≤◌, ◌<◌, refl, ◌↔◌, ◌⊎◌, true, some, none, [], arith, length, codes,
}
use webhook_event_route.Domain.{Members, object, second}
use webhook_event_route.Errs.{Code, Error}
use webhook_event_route.Webhook.{sign, verify, validate_payload, validate_timestamp}
use webhook_event_route.Webhook.Checks.{
  verify_iff_sign, validate_payload_lem, validate_timestamp_iff_window,
}
use webhook_event_route.Tests.Samples.{plain, noon}

-- "k" followed by "b", in hexadecimal.
sign_kb : sign plain (codes "k") (codes "b") ≡ codes "6b62"
unfolding sign
sign_kb = refl

verify_kb : verify plain (codes "k") (codes "6b62") (codes "b") ≡ true
unfolding verify
verify_kb = refl

verify_iff_sign_example :
    (verify plain (codes "k") (codes "6b62") (codes "b") ≡ true)
    ↔ ((codes "k" ≢ []) × (codes "6b62" ≢ []) × (codes "6b62" ≡ sign plain (codes "k") (codes "b")))
verify_iff_sign_example = verify_iff_sign plain (codes "k") (codes "6b62") (codes "b")

validate_payload_example :
    ((validate_payload plain (codes "{}") 1 ≡ none) ↔ (
      (length (codes "{}") ≤ 1)
      × (plain.trim_space (codes "{}") ≢ [])
      × ((m : Members) × (plain.unmarshal (codes "{}") ≡ some (object m)))))
    × ((e : Error)
        → validate_payload plain (codes "{}") 1 ≡ some e
        → ((1 < length (codes "{}")) × (e.code ≡ Code.payload_too_large) × (e.status ≡ 413))
          ⊎ ((length (codes "{}") ≤ 1) × (e.code ≡ Code.payload_invalid) × (e.status ≡ 400)))
validate_payload_example = validate_payload_lem plain (codes "{}") 1

validate_timestamp_example :
    (validate_timestamp noon (noon + second) (300 * second) ≡ none)
    ↔ ((noon ≢ 0) × (noon ≤ noon + second + 300 * second) × (noon + second ≤ noon + 300 * second))
validate_timestamp_example =
    validate_timestamp_iff_window noon (noon + second) (300 * second) (omega arith)
