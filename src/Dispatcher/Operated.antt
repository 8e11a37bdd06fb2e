-- ===== src/Dispatcher/Operated.antt =====
-- Predicates on the state of a store that whole operations of the service keep, though a single write
-- of one of them may not.
use webhook_event_route.Prelude.{ℕ, Text}
use webhook_event_route.Domain.{Event, EventStatus, Rule, Target}
use webhook_event_route.Config.{Config}
use webhook_event_route.Store.{Store}
use webhook_event_route.Store.Kept.{IsAlwaysKept}
use webhook_event_route.Dispatcher.World.{Env, World}
use webhook_event_route.Dispatcher.Send.{deliver, requeue}
use webhook_event_route.Dispatcher.Send.Kept.{deliver_kept, requeue_kept, retry_kept}
use webhook_event_route.Dispatcher.Worker.{retry}

module _ {S : Type 0} (st : Store S) (cfg : Config) (env : Env) (P : S → Type 0) where
  -- The writes of the event handler and the methods of the dispatcher keep it.
  pub record IsOperated : Type 0 where
    pub by_create_event : (now : ℕ) (e : Event) (s : S) → P s → P (st.create_event now e s).0
    pub by_update_status :
        (id : ℕ) (status : EventStatus) (reason : Text) (s : S)
        → P s
        → P (st.update_status id status reason s).0
    pub by_deliver :
        (w : World S) (event : Event) (rule : Rule) (target : Target)
        → P w.db
        → P (deliver st cfg env w event rule target).0.db
    pub by_requeue : (w : World S) (id : ℕ) → P w.db → P (requeue st cfg env w id).0.db
    pub by_retry : (w : World S) → P w.db → P (retry st cfg env w).db

  -- What every write keeps, every operation keeps.
  pub operated : IsAlwaysKept st P → IsOperated
  operated k = record {
    by_create_event = k.by_create_event;
    by_update_status = k.kept.by_update_status;
    by_deliver = deliver_kept st cfg env P k.kept;
    by_requeue = requeue_kept st cfg env P k.kept;
    by_retry = retry_kept st cfg env P k.kept;
  }
