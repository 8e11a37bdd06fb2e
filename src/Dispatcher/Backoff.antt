-- ===== src/Dispatcher/Backoff.antt =====
-- internal/dispatcher/backoff.go: how long to wait before a retry. A `Duration` is an int64: its bit
-- pattern is kept modulo 2 ^ 64.
pub mod Bounds
use webhook_event_route.Prelude.{
  ℕ, zero, suc, ◌+◌, ◌-◌, ◌*◌, ◌%◌, ◌^◌, ◌≤◌, ◌<◌, ◌≡◌, refl, Bool, true, false, arith, ltb,
  if◌then◌else◌,
}

abbrev pub max_mul : ℕ
max_mul = 16

abbrev pub int64_mod : ℕ
int64_mod = 18446744073709551616

-- The loop: `rounds` turns at most, while `mul` is below the cap.
unfoldable pub double_from : ℕ → ℕ → ℕ
double_from zero mul = mul
double_from (suc rounds) mul =
    let more = double_from rounds (mul * 2) in if ltb mul max_mul then more else mul

-- The multiplier of an attempt; an attempt below 1 counts as 1.
unfoldable pub multiplier : ℕ → ℕ
unfolding double_from
multiplier attempt = double_from (attempt - 1) 1

-- `Duration`, with the draw of `rng.Int63n(base + 1)`.
unfoldable pub duration : ℕ → ℕ → ℕ → ℕ
unfolding multiplier
duration base attempt jitter = (base * multiplier attempt % int64_mod + jitter) % int64_mod
