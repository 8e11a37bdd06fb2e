-- ===== src/Dispatcher/Worker.antt =====
-- internal/dispatcher/dispatcher.go, `Retry`: the background worker's turn.
pub mod Load
use webhook_event_route.Prelude.{ℕ, ◌/◌, ◌-◌, List, [], ◌∷◌}
use webhook_event_route.Domain.{Delivery, second, unix_epoch}
use webhook_event_route.Config.{Config}
use webhook_event_route.Store.{ok, err, Store}
use webhook_event_route.Dispatcher.World.{Env, World, ticked}
use webhook_event_route.Dispatcher.Send.{send}

-- `t.Unix()`, for a time after the epoch.
abbrev pub unix_seconds : ℕ → ℕ
unix_seconds t = (t - unix_epoch) / second

module _ {S : Type 0} (st : Store S) (cfg : Config) (env : Env) where
  -- One turn of the loop: the event and the target are read again, and the delivery is sent.
  unfoldable pub retry_one : World S → Delivery → World S
  unfolding send
  retry_one w d = elim (st.get_event d.event_id w.db) [
    | err e ↦ w
    | ok event ↦ elim (st.get_target d.target_id w.db) [
      | err e ↦ w
      | ok target ↦ (send st cfg env w d target event.payload).0
    ]
  ]

  unfoldable pub retry_all : World S → List Delivery → World S
  unfolding retry_one
  retry_all w [] = w
  retry_all w (d ∷ due) = retry_all (retry_one w d) due

  abbrev pub batch : ℕ
  batch = 100

  unfoldable pub retry : World S → World S
  unfolding retry_all
  retry w = elim (st.due_deliveries (unix_seconds (env.now w.ticks)) batch w.db) [
    | err e ↦ ticked w
    | ok due ↦ retry_all (ticked w) due
  ]
