-- ===== src/Httpapi/Events/Requests.antt =====
-- Where the requests of an event go, on the SQLite store.
use mathlib.Core.Path.{subst}
use webhook_event_route.Prelude.{◌∙◌, ◌==◌, ℕ, ◌≡◌, refl, ◌⊎◌, inl, inr, true, List, arith, In}
use webhook_event_route.Domain.{DeliveryAttempt, Event, Target, Delivery}
use webhook_event_route.Store.Kept.{IsAlwaysKept}
use webhook_event_route.Dispatcher.Operated.{operated}
use webhook_event_route.Sqlite.Conn.{Conn}
use webhook_event_route.Sqlite.Tables.{Db, find, row}
use webhook_event_route.Sqlite.Events.{get_target, create_event, update_status}
use webhook_event_route.Sqlite.Deliveries.{
  create_delivery, update_delivery, create_delivery_attempt,
}
use webhook_event_route.Sqlite.Instance.{sqlite_store}
use webhook_event_route.Runtime.{Runtime}
use webhook_event_route.Config.{Config}
use webhook_event_route.Store.{ok}
use webhook_event_route.Dispatcher.Allow.{allowed}
use webhook_event_route.Dispatcher.World.{Request, Env}
use webhook_event_route.Httpapi.Events.{Server, route_event}
use webhook_event_route.Httpapi.Events.Routed.{routed_requests}

-- The statements on the traffic leave the targets alone.
abbrev SameTargets : List Target → Db → Type 0
SameTargets ts db = db.targets ≡ ts

created_delivery_targets :
    (conn : Conn) (now : ℕ) (d : Delivery) (db : Db)
    → (create_delivery conn now d db).0.targets ≡ db.targets
unfolding create_delivery
created_delivery_targets conn now d db = ground arith

created_attempt_targets :
    (now : ℕ) (a : DeliveryAttempt) (db : Db)
    → (create_delivery_attempt now a db).0.targets ≡ db.targets
unfolding create_delivery_attempt
created_attempt_targets now a db = ground arith

created_event_targets :
    (conn : Conn) (now : ℕ) (e : Event) (db : Db)
    → (create_event conn now e db).0.targets ≡ db.targets
unfolding create_event
created_event_targets conn now e db = ground arith

SameTargets-IsAlwaysKept :
    (conn : Conn) (ts : List Target) → IsAlwaysKept (sqlite_store conn) (SameTargets ts)
unfolding update_delivery update_status
SameTargets-IsAlwaysKept conn ts = record {
  kept = record {
    by_create_delivery = λ now d db p. created_delivery_targets conn now d db ∙ p;
    by_update_delivery = λ now d db p. p;
    by_create_attempt = λ now a db p. created_attempt_targets now a db ∙ p;
    by_update_status = λ id status reason db p. p;
  };
  by_create_event = λ now e db p. created_event_targets conn now e db ∙ p;
}

-- On the SQLite store: each call of `client.Do` while a stored event is routed carries the payload of the
-- event, and goes to the URL of an enabled target that stood in the table of targets before, and that
-- the whitelist lets through. The redirects that the client follows inside of a call are not among
-- the calls.
pub route_event_requests :
    (conn : Conn) (cfg : Config) (env : Env) (lib : Runtime) (s : Server Db) (event : Event)
    (r : Request)
    → In r (route_event lib (sqlite_store conn) cfg env s event).0.world.requests
    → In r s.world.requests
      ⊎ ((tid : ℕ) × (target : Target) × (get_target tid s.world.db ≡ ok target)
          × (target.enabled ≡ true)
          × (allowed env.net target.url cfg.allow_private cfg.allow_loopback ≡ true)
          × (r ≡ record { url = target.url; body = event.payload }))
unfolding get_target
route_event_requests conn cfg env lib s event r m =
    let st = sqlite_store conn in
    let P = SameTargets s.world.db.targets in
    elim (routed_requests st cfg env P (operated st cfg env P (SameTargets-IsAlwaysKept conn _)) lib
      s event r refl m) [
        | inl old ↦ inl old
        | inr (tid, target, db, same, found, on, open_, e) ↦ inr (
          tid,
          target,
          subst (λ ts. row (find (λ t. t.id == tid) ts) ≡ ok target) same found,
          on,
          open_,
          e,
        )
      ]
