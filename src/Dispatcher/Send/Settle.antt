-- ===== src/Dispatcher/Send/Settle.antt =====
-- A delivery that is sent again for as long as it is retrying comes to rest.
use webhook_event_route.Prelude.{
  ℕ, zero, suc, ◌+◌, ◌≤◌, ◌<◌, ◌≡◌, ◌⊎◌, Bool, true, false, arith, Text, inl, inr, if◌then◌else◌,
}
use webhook_event_route.Domain.{Target, Delivery, DeliveryStatus, delivered, retrying, dead}
use webhook_event_route.Config.{Config}
use webhook_event_route.Store.{Store}
use webhook_event_route.Dispatcher.World.{Env, World}
use webhook_event_route.Dispatcher.Send.{send}

abbrev pub is_retrying : DeliveryStatus → Bool
is_retrying retrying = true
is_retrying _ = false

-- One `send` leaves a delivery delivered, dead, or retrying with more attempts than before.
pub send_progress :
    {S : Type 0} (st : Store S) (cfg : Config) (env : Env) (w : World S) (d : Delivery)
    (target : Target) (body : Text)
    → let d' = (send st cfg env w d target body).1 in
      (d'.status ≡ delivered)
      ⊎ ((d'.status ≡ dead) × (cfg.max_retries ≤ d'.attempts))
      ⊎ ((d'.status ≡ retrying) × (d.attempts < d'.attempts) × (d'.attempts < cfg.max_retries))
unfolding send
send_progress st cfg env w d target body = ground arith

module _ {S : Type 0} (st : Store S) (cfg : Config) (env : Env) (target : Target)
    (body : Text) where
  -- At most `n` sends, as long as the delivery is retrying.
  unfoldable pub settle : ℕ → World S → Delivery → World S × Delivery
  settle zero w d = (w, d)
  settle (suc n) w d =
      let (w', d') = send st cfg env w d target body in
      let rest = settle n w' d' in if is_retrying d'.status then rest else (w', d')

  -- Whatever the network answers: `n` sends, one at least, bring a delivery to rest, where `n` and
  -- the attempts counted so far reach the maximal number of attempts. It is then delivered, or dead
  -- with that number of attempts counted.
  pub settle_ends :
      (n : ℕ) (w : World S) (d : Delivery)
      → 0 < n
      → cfg.max_retries ≤ d.attempts + n
      → let d' = (settle n w d).1 in
        (d'.status ≡ delivered) ⊎ ((d'.status ≡ dead) × (cfg.max_retries ≤ d'.attempts))
  unfolding settle
  settle_ends zero w d h m = absurd (omega arith)
  settle_ends (suc n) w d h m = elim (send_progress st cfg env w d target body) [
    | inl done ↦ rw done (inl done)
    | inr (inl (gone, most)) ↦ rw gone (inr (gone, most))
    | inr (inr (again, more, less)) ↦ rw again (
        settle_ends n (send st cfg env w d target body).0 (send st cfg env w d target body).1
          (omega arith) (omega arith))
  ]
