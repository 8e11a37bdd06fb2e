-- ===== src/Errs.antt =====
-- internal/errs/errs.go: typed errors and their HTTP status.
use webhook_event_route.Prelude.{ℕ, Text}

pub data Code : Type 0 where
  payload_invalid signature_invalid source_not_found event_type_not_allowed : Code
  duplicate_event payload_too_large target_not_whitelisted not_found invalid_input : Code
  internal bad_request replay_rejected not_retryable : Code

pub record Error : Type 0 where
  pub code : Code
  pub message : Text
  pub status : ℕ

-- `statusOf`: a code that the switch does not name falls to the default.
unfoldable pub status_of : Code → ℕ
status_of Code.payload_invalid = 400
status_of Code.bad_request = 400
status_of Code.replay_rejected = 400
status_of Code.signature_invalid = 401
status_of Code.source_not_found = 404
status_of Code.not_found = 404
status_of Code.event_type_not_allowed = 422
status_of Code.duplicate_event = 409
status_of Code.not_retryable = 409
status_of Code.payload_too_large = 413
status_of Code.target_not_whitelisted = 403
status_of _ = 500

-- `New`
unfoldable pub new : Code → Text → Error
new code msg = record { code = code; message = msg; status = status_of code }

-- `WithStatus`
unfoldable pub with_status : Error → ℕ → Error
with_status e status = record e { status = status }
