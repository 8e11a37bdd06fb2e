-- ===== src/Config/Load/Usable.antt =====
-- What the checks of `Load` give the rest of the service.
use webhook_event_route.Prelude.{
  codes, false, is_nonpositive, ℕ, ◌+◌, ◌-◌, ◌*◌, ◌%◌, ◌<◌, ◌≡◌, refl, sym, ℤ, pos, negsuc, Option,
  arith, Text,
}
use webhook_event_route.Webhook.{max_duration}
use webhook_event_route.Config.{Config}
use webhook_event_route.Config.Load.{
  Settings, loaded, natural, two64, signed, duration_of, check_settings, read_settings,
  get_env_int64, load, config_of,
}

-- The settings that must be positive are, and are those of the configuration; the window of the
-- replay check is below the longest duration.
pub record IsUsable (s : Settings) (cfg : Config) : Type 0 where
  pub payload : (0 < cfg.max_payload) × (s.max_payload ≡ pos cfg.max_payload)
  pub retries : (0 < cfg.max_retries) × (s.max_retries ≡ pos cfg.max_retries)
  pub timeout : (0 < cfg.forward_timeout) × (s.forward_timeout ≡ pos cfg.forward_timeout)
  pub window : (0 < cfg.replay_window) × (s.replay_window ≡ pos cfg.replay_window)
  pub window_fits : cfg.replay_window < max_duration

signed_pos : (r n : ℕ) → signed r ≡ pos n → (r ≡ n) × (r < 9223372036854775808)
signed_pos r n h = ground arith

seconds_fit : (z : ℤ) (n : ℕ) → duration_of 1000000000 z ≡ pos n → n < max_duration
unfolding duration_of
seconds_fit (pos k) n h = let (same, small) = signed_pos (k * 1000000000 % two64) n h in omega arith
seconds_fit (negsuc k) n h =
    let (same, small) = signed_pos (two64 - 1 - ((k + 1) * 1000000000 - 1) % two64) n h in
    omega arith

is_positive : (z : ℤ) → is_nonpositive z ≡ false → (0 < natural z) × (z ≡ pos (natural z))
is_positive (pos n) h = (ground arith, refl)
is_positive (negsuc n) h = ground arith

check_passed :
    (s s' : Settings)
    → check_settings s ≡ loaded s'
    → (is_nonpositive s.max_payload ≡ false)
      × (is_nonpositive s.max_retries ≡ false)
      × (is_nonpositive s.forward_timeout ≡ false)
      × (is_nonpositive s.replay_window ≡ false)
      × (s ≡ s')
unfolding check_settings
check_passed s s' h = ground arith

-- Whatever the environment holds, settings that `Load` returns have a positive size limit, number of
-- retries, timeout and replay window, which are those of the configuration that the other parts read,
-- and the window is below the longest duration.
pub load-IsUsable :
    (lookup_env : Text → Option Text) (s : Settings)
    → load lookup_env ≡ loaded s
    → IsUsable s (config_of s)
unfolding load read_settings
load-IsUsable lookup_env s h =
    let (payload, retries, timeout, window, same) = check_passed (read_settings lookup_env) s h in
    rw (sym same) (record {
      payload = is_positive (read_settings lookup_env).max_payload payload;
      retries = is_positive (read_settings lookup_env).max_retries retries;
      timeout = is_positive (read_settings lookup_env).forward_timeout timeout;
      window = is_positive (read_settings lookup_env).replay_window window;
      window_fits =
          seconds_fit (get_env_int64 lookup_env (codes "REPLAY_WINDOW_SEC") (pos 300))
            (natural (read_settings lookup_env).replay_window)
            ((is_positive (read_settings lookup_env).replay_window window).1);
    })
