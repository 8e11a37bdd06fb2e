-- ===== src/Dispatcher/Backoff/Bounds.antt =====
-- The multiplier doubles up to its cap, and the wait lies between the backoff and the backoff with a
-- full jitter.
use webhook_event_route.Prelude.{ℕ, zero, suc, ◌+◌, ◌-◌, ◌*◌, ◌^◌, ◌≤◌, ◌<◌, ◌≡◌, refl, arith}
use webhook_event_route.Dispatcher.Backoff.{double_from, multiplier, duration}

double_from_lem :
    (rounds : ℕ)
    → (rounds ≤ 4 → double_from rounds 1 ≡ 2 ^ rounds) × (4 ≤ rounds → double_from rounds 1 ≡ 16)
unfolding double_from
double_from_lem zero = (λ _. refl, λ h. absurd (omega arith))
double_from_lem (suc zero) = (λ _. refl, λ h. absurd (omega arith))
double_from_lem (suc (suc zero)) = (λ _. refl, λ h. absurd (omega arith))
double_from_lem (suc (suc (suc zero))) = (λ _. refl, λ h. absurd (omega arith))
double_from_lem (suc (suc (suc (suc zero)))) = (λ _. refl, λ _. refl)
double_from_lem (suc (suc (suc (suc (suc k))))) = (λ h. absurd (omega arith), λ _. refl)

-- The multiplier is 2 ^ (attempt - 1) up to the fifth attempt, and 16 from then on.
pub multiplier_lem :
    (attempt : ℕ)
    → (attempt ≤ 5 → multiplier attempt ≡ 2 ^ (attempt - 1))
      × (5 ≤ attempt → multiplier attempt ≡ 16)
unfolding multiplier
multiplier_lem attempt =
    let (low, high) = double_from_lem (attempt - 1) in
    (λ h. low (omega arith), λ h. high (omega arith))

capped : (rounds : ℕ) → double_from rounds 1 ≤ 16
unfolding double_from
capped zero = omega arith
capped (suc zero) = omega arith
capped (suc (suc zero)) = omega arith
capped (suc (suc (suc zero))) = omega arith
capped (suc (suc (suc (suc zero)))) = omega arith
capped (suc (suc (suc (suc (suc k))))) = omega arith

multiplier_le_max : (attempt : ℕ) → multiplier attempt ≤ 16
unfolding multiplier
multiplier_le_max attempt = capped (attempt - 1)

-- Where 17 times the base fits an int64 and the jitter is at most the base, the wait before a retry
-- does not wrap: it is the base times the multiplier, plus the jitter. The multiplier is
-- 2 ^ (attempt - 1) up to the fifth attempt and 16 from then on, so the wait is at most 17 times the
-- base.
pub duration_bounds :
    (base attempt jitter : ℕ)
    → base * 17 < 9223372036854775808
    → jitter ≤ base
    → (duration base attempt jitter ≡ base * multiplier attempt + jitter)
      × (duration base attempt jitter ≤ base * 17)
      × (attempt ≤ 5 → multiplier attempt ≡ 2 ^ (attempt - 1))
      × (5 ≤ attempt → multiplier attempt ≡ 16)
unfolding duration
duration_bounds base attempt jitter h j =
    let m : base * multiplier attempt ≤ base * 16 = grind (arith, multiplier_le_max attempt) in
    (omega arith, omega arith, (multiplier_lem attempt).0, (multiplier_lem attempt).1)
