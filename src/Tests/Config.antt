-- ===== src/Tests/Config.antt =====
-- The settings from a small environment.
use webhook_event_route.Prelude.{
  ◌≡◌, refl, if◌then◌else◌, Option, some, none, Text, codes, text_eq, pos, negsuc,
}
use webhook_event_route.Config.Load.{
  Settings, loaded, refused, read_settings, get_env_bool, check_settings, load, config_of,
  duration_of,
}
use webhook_event_route.Config.Load.Usable.{IsUsable, load-IsUsable}

abbrev env_of : Text → Text → Text → Option Text
env_of k v name = if text_eq k name then some v else none

run : Unit {0}
unfolding load read_settings check_settings get_env_bool duration_of
run = tt

-- A window of ten seconds; the rest by default.
abbrev ten_seconds : Text → Option Text
ten_seconds = env_of (codes "REPLAY_WINDOW_SEC") (codes "10")

abbrev settings : Settings
settings = read_settings ten_seconds

settings_read : load ten_seconds ≡ loaded settings
unfolding run
settings_read = refl

window_read : settings.replay_window ≡ pos 10000000000
unfolding run
window_read = refl

-- A negative base of the backoff is accepted.
base_read : (read_settings (env_of (codes "RETRY_BASE_MS") (codes "-1"))).retry_base ≡ negsuc 999999
unfolding run
base_read = refl

-- 2 ^ 63 / 10 ^ 9 seconds and more wrap to a negative window.
window_wraps :
    load (env_of (codes "REPLAY_WINDOW_SEC") (codes "9223372037"))
    ≡ refused (codes "REPLAY_WINDOW_SEC must be positive")
unfolding run
window_wraps = refl

load-IsUsable_example : IsUsable settings (config_of settings)
load-IsUsable_example = load-IsUsable ten_seconds settings settings_read
