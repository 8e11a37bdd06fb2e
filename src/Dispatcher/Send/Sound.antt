-- ===== src/Dispatcher/Send/Sound.antt =====
-- The delivery state machine: what holds of a delivery after each operation of the dispatcher.
use webhook_event_route.Prelude.{ℕ, ◌<◌, ◌≡◌, ◌≢◌, refl, ◌⊎◌, false, none, [], arith, Text, codes}
use webhook_event_route.Domain.{
  Event, Target, Rule, Delivery, pending, sent, delivered, failed, retrying, dead,
}
use webhook_event_route.Errs.{Code, Error, new, status_of}
use webhook_event_route.Config.{Config}
use webhook_event_route.Dispatcher.Allow.{allowed}
use webhook_event_route.Store.{Failure, typed, Result, ok, err, Store}
use webhook_event_route.Dispatcher.World.{Env, World}
use webhook_event_route.Dispatcher.Send.{save, mark_failed, send, deliver, requeue}

-- A delivery at rest, for a maximal number of attempts: dead with its time of death and no further
-- try planned, retrying with a try planned and attempts left, or alive and not dead. `sent` and
-- `failed` are statuses of attempts only.
pub record IsSound (max : ℕ) (d : Delivery) : Type 0 where
  pub dead_marked : d.status ≡ dead → (d.dead_at ≢ none) × (d.next_retry_at ≡ none)
  pub retry_planned :
      d.status ≡ retrying → (d.next_retry_at ≢ none) × (d.dead_at ≡ none) × (d.attempts < max)
  pub alive : (d.status ≡ pending) ⊎ (d.status ≡ delivered) → d.dead_at ≡ none
  pub proper : (d.status ≢ sent) × (d.status ≢ failed)

module _ {S : Type 0} (st : Store S) (cfg : Config) (env : Env) where
  pub save-IsSound :
      (w : World S) (d : Delivery)
      → IsSound cfg.max_retries d
      → IsSound cfg.max_retries (save st cfg env w d).1
  unfolding save
  save-IsSound w d h = stamped-IsSound (st.update_delivery (env.now w.ticks) d w.db).1
    where
      stamped-IsSound :
          (r : Result ℕ)
          → IsSound cfg.max_retries (elim r [ ok at ↦ record d { updated_at = at } | err e ↦ d ])
      stamped-IsSound (ok at) = record {
        dead_marked = h.dead_marked;
        retry_planned = h.retry_planned;
        alive = h.alive;
        proper = h.proper;
      }
      stamped-IsSound (err e) = h

  mark_failed-IsSound :
      (w : World S) (d : Delivery) (reason : Text)
      → d.dead_at ≡ none
      → IsSound cfg.max_retries (mark_failed st cfg env w d reason).1
  unfolding mark_failed
  mark_failed-IsSound w d reason h = ground arith

  -- Whatever the database, the network and the clock do, a delivery that is not marked as dead is after
  -- `send` delivered, retrying or dead, and it is sound: one that is retrying has a try planned,
  -- attempts left and no time of death, one that is dead has its time and no try planned, and one that
  -- is delivered has no time of death.
  pub send-IsSound :
      (w : World S) (d : Delivery) (target : Target) (body : Text)
      → d.dead_at ≡ none
      → let after = (send st cfg env w d target body).1 in
        ((after.status ≡ delivered) ⊎ (after.status ≡ retrying) ⊎ (after.status ≡ dead))
        × IsSound cfg.max_retries after
  unfolding send
  send-IsSound w d target body h = (ground arith, ground arith)

  -- A delivery that `Deliver` returns is sound, and belongs to the event, the rule and the target.
  -- Where `Deliver` fails, it has sent nothing.
  pub deliver-IsSound :
      (w : World S) (event : Event) (rule : Rule) (target : Target)
      → ((d : Delivery)
          → (deliver st cfg env w event rule target).1 ≡ ok d
          → IsSound cfg.max_retries d
            × (d.event_id ≡ event.id)
            × (d.rule_id ≡ rule.id)
            × (d.target_id ≡ target.id))
        × ((e : Failure)
            → (deliver st cfg env w event rule target).1 ≡ err e
            → (deliver st cfg env w event rule target).0.requests ≡ w.requests)
  unfolding deliver
  deliver-IsSound w event rule target = (λ d h. ground arith, λ e h. ground arith)

  -- `Deliver` contacts no target that the whitelist refuses: it sends no request, and the delivery is
  -- dead with no attempt, no further try planned and the reason recorded.
  pub deliver_blocked :
      (w : World S) (event : Event) (rule : Rule) (target : Target)
      → allowed env.net target.url cfg.allow_private cfg.allow_loopback ≡ false
      → ((deliver st cfg env w event rule target).0.requests ≡ w.requests)
        × ((d : Delivery)
            → (deliver st cfg env w event rule target).1 ≡ ok d
            → (d.status ≡ dead)
              × (d.attempts ≡ 0)
              × (d.next_retry_at ≡ none)
              × (d.dead_at ≢ none)
              × (d.last_error ≡ codes "target not whitelisted"))
  unfolding deliver
  deliver_blocked w event rule target h = (ground arith, λ d e. ground arith)

  -- `Requeue` succeeds only on a dead delivery: it comes back retrying with no attempts, no error, no
  -- time of death and a try planned. On one that is not dead it fails with 409, and the database
  -- stays as it is. It sends no request.
  pub requeue_lem :
      (w : World S) (id : ℕ) (d : Delivery)
      → st.get_delivery id w.db ≡ ok d
      → ((d.status ≢ dead)
          → ((requeue st cfg env w id).0.db ≡ w.db)
            × ((e : Error) × ((requeue st cfg env w id).1 ≡ err (typed e)) × (e.status ≡ 409)))
        × ((d' : Delivery)
            → (requeue st cfg env w id).1 ≡ ok d'
            → (d.status ≡ dead)
              × (d'.id ≡ d.id)
              × (d'.status ≡ retrying)
              × (d'.attempts ≡ 0)
              × (d'.last_error ≡ [])
              × (d'.dead_at ≡ none)
              × (d'.next_retry_at ≢ none))
        × ((requeue st cfg env w id).0.requests ≡ w.requests)
  unfolding requeue new status_of
  requeue_lem w id d found = (
    λ alive. (
      ground arith,
      (
        new Code.not_retryable (codes "only dead deliveries can be retried manually"),
        ground arith,
        refl,
      ),
    ),
    λ d' h. ground arith,
    ground arith,
  )

  -- A delivery that comes out of `Requeue` is sound, where at least one attempt is allowed.
  requeue-IsSound :
      (w : World S) (id : ℕ) (d : Delivery)
      → 0 < cfg.max_retries
      → (requeue st cfg env w id).1 ≡ ok d
      → IsSound cfg.max_retries d
  unfolding requeue
  requeue-IsSound w id d pos_max h = ground arith
