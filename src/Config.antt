-- ===== src/Config.antt =====
-- internal/config/config.go: the settings that the other parts read. Sizes, counts and durations (in
-- nanoseconds) are natural numbers: `Load` refuses the settings that are not positive, but for
-- RETRY_BASE_MS, which is taken here as not negative.
pub mod Load
use webhook_event_route.Prelude.{ℕ, Bool, Text}

pub record Config : Type 0 where
  pub addr : Text
  pub db_path : Text
  pub max_payload : ℕ
  pub max_retries : ℕ
  pub retry_base : ℕ
  pub forward_timeout : ℕ
  pub allow_private : Bool
  pub allow_loopback : Bool
  pub replay_window : ℕ
