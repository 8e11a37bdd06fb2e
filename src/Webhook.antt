-- ===== src/Webhook.antt =====
-- internal/webhook: the checks of an event before it is accepted. `none` stands for a nil error.
pub mod Checks
use webhook_event_route.Prelude.{
  ℕ, ◌+◌, ◌-◌, ◌*◌, ◌/◌, ◌%◌, Bool, true, false, not, ◌||◌, Option, none, some, List, [], ◌∷◌, any,
  length, ltb, leb, ◌==◌, if◌then◌else◌, ℤ, pos, negsuc, is_nonpositive, Text, codes, text_eq,
}
use webhook_event_route.Domain.{Value, object, Source, second, unix_epoch}
use webhook_event_route.Errs.{Code, Error, new}
use webhook_event_route.Runtime.{Runtime}

-- hex.EncodeToString
hex_digit : ℕ → ℕ
hex_digit n = if ltb n 10 then n + b'0' else n - 10 + b'a'

unfoldable pub hex : Text → Text
unfolding hex_digit
hex [] = []
hex (c ∷ s) = hex_digit (c / 16) ∷ hex_digit (c % 16) ∷ hex s

-- The decoded payload is a JSON object.
unfoldable pub is_object : Option Value → Bool
is_object (some (object m)) = true
is_object _ = false

abbrev is_decoded : Option Value → Bool
is_decoded none = false
is_decoded (some v) = true

module _ (lib : Runtime) where
  unfoldable pub sign : Text → Text → Text
  unfolding hex
  sign secret body = hex (lib.hmac_sha256 secret body)

  -- hmac.Equal compares the bytes.
  unfoldable pub verify : Text → Text → Text → Bool
  unfolding sign text_eq
  verify secret signature body =
      if text_eq secret [] || text_eq signature []
      then false
      else text_eq (sign secret body) signature

  unfoldable pub validate_payload : Text → ℕ → Option Error
  unfolding new text_eq is_object
  validate_payload payload max_size =
      if ltb max_size (length payload)
      then some (new Code.payload_too_large (codes "payload exceeds maximum size"))
      else if text_eq (lib.trim_space payload) []
      then some (new Code.payload_invalid (codes "payload is empty"))
      else if not (is_decoded (lib.unmarshal payload))
      then some (new Code.payload_invalid (codes "payload is not valid JSON"))
      else if not (is_object (lib.unmarshal payload))
      then some (new Code.payload_invalid (codes "payload must be a JSON object"))
      else none

unfoldable pub validate_event_type : Source → Text → Option Error
unfolding new text_eq
validate_event_type src event_type = elim src.allowed_types [
  | [] ↦ none
  | t ∷ ts ↦
      if any (λ a. text_eq a event_type) (t ∷ ts)
      then none
      else some (new Code.event_type_not_allowed (codes "event type not allowed for source"))
]

-- A Duration is at most 2^63 - 1 nanoseconds; `Sub` stops there.
abbrev pub max_duration : ℕ
max_duration = 9223372036854775807

-- `now.Sub(ts)` where it is not negative. A negative difference is never above the window, nor is 0.
abbrev since : ℕ → ℕ → ℕ
since now ts = if ltb max_duration (now - ts) then max_duration else now - ts

unfoldable pub validate_timestamp : ℕ → ℕ → ℕ → Option Error
unfolding new
validate_timestamp ts now window =
    if ts == 0
    then some (new Code.replay_rejected (codes "missing or invalid timestamp"))
    else if ltb (now + window) ts
    then some (new Code.replay_rejected (codes "timestamp is in the future"))
    else if ltb window (since now ts)
    then some (new Code.replay_rejected (codes "timestamp is too old"))
    else none

-- `none` where the second result is false. In the code time.Unix wraps within 62135596800 seconds of the
-- greatest int64, to a time before the first year, which the check refuses as too old where the model's
-- time is refused as in the future.
unfoldable pub parse_timestamp : ℤ → Option ℕ
parse_timestamp (pos n) = if n == 0 then none else some (unix_epoch + n * second)
parse_timestamp (negsuc n) = none
