-- ===== src/Sqlite/Budget/Turns.antt =====
-- The worker comes to rest: what it can send before new work comes is bounded.
use webhook_event_route.Sqlite.Conn.{Conn}
use webhook_event_route.Prelude.{
  ℕ, zero, suc, ◌+◌, ◌≡◌, ◌≢◌, ◌≤◌, refl, sym, List, [], ◌∷◌, map, inl, inr, In, In-map, Distinct,
  length, true, Text, arith,
}
use mathlib.Core.Path.{subst}
use webhook_event_route.Domain.{Delivery, Target}
use webhook_event_route.Config.{Config}
use webhook_event_route.Store.{Result-cases}
use webhook_event_route.Store.Kept.{kept_for}
use webhook_event_route.Dispatcher.World.{Env, World, ticked}
use webhook_event_route.Dispatcher.Send.{send}
use webhook_event_route.Dispatcher.Send.Kept.{retry_one_kept_for, retry_kept}
use webhook_event_route.Dispatcher.Worker.{retry_one, retry_all, retry, unix_seconds, batch}
use webhook_event_route.Dispatcher.Worker.Load.{send_one}
use webhook_event_route.Sqlite.Tables.{Db}
use webhook_event_route.Sqlite.Events.{get_event, get_target}
use webhook_event_route.Sqlite.Deliveries.{may_retry, due_deliveries}
use webhook_event_route.Sqlite.Instance.{sqlite_store}
use webhook_event_route.Sqlite.Invariant.{IsWellFormed}
use webhook_event_route.Sqlite.Invariant.Kept.{formed_kept}
use webhook_event_route.Sqlite.Settled.{due-In, due_once, Stands, Stands-IsKeptFor}
use webhook_event_route.Sqlite.Budget.{budget, budget-updated}
use webhook_event_route.Sqlite.Budget.Sends.{send_row, tries-send}

module _ (conn : Conn) (cfg : Config) (env : Env) where
  -- The requests sent so far and the tries that are left.
  abbrev pub total : World Db → ℕ
  total w = length w.requests + budget cfg.max_retries w.db.deliveries

  total-send :
      (w : World Db) (d : Delivery) (target : Target) (body : Text)
      → IsWellFormed w.db
      → In d w.db.deliveries
      → may_retry d.status ≡ true
      → total (send (sqlite_store conn) cfg env w d target body).0 ≤ total w
  total-send w d target body formed m waits =
      let st = sqlite_store conn in
      let (now, row) = send_row conn cfg env w d target body in
      rw row (
        omega (
          arith,
          budget-updated cfg.max_retries now (send st cfg env w d target body).1 d w.db.deliveries
              formed.deliveries_once m,
          tries-send conn cfg env w d target body waits,
          send_one st cfg env w d target body,
        ))

  total-retry_one :
      (w : World Db) (d : Delivery)
      → IsWellFormed w.db
      → In d w.db.deliveries
      → may_retry d.status ≡ true
      → total (retry_one (sqlite_store conn) cfg env w d) ≤ total w
  unfolding retry_one
  total-retry_one w d formed m waits = elim (Result-cases (get_event d.event_id w.db)) [
    | inr (f, e) ↦ rw (e, retry_one) (omega arith)
    | inl (event, e) ↦ elim (Result-cases (get_target d.target_id w.db)) [
      | inr (f, g) ↦ rw (e, g, retry_one) (omega arith)
      | inl (target, g) ↦ rw (e, g, retry_one) (total-send w d target event.payload formed m waits)
    ]
  ]

  total-retry_all :
      (due : List Delivery) (w : World Db)
      → IsWellFormed w.db
      → Distinct (map (λ r. r.id) due)
      → ((x : Delivery) → In x due → In x w.db.deliveries × (may_retry x.status ≡ true))
      → total (retry_all (sqlite_store conn) cfg env w due) ≤ total w
  unfolding retry_all
  total-retry_all [] w formed distinct rows = omega arith
  total-retry_all (d ∷ due) w formed (new, distinct) rows =
      let st = sqlite_store conn in
      let (stored, waits) = rows d (inl refl) in
      let after : World Db = retry_one st cfg env w d in
      let other : (x : Delivery) → In x due → d.id ≢ x.id = λ x m e.
        new (subst (λ k. In k (map (λ r. r.id) due)) (sym e) (In-map (λ r. r.id) due x m)) in
      let rest =
        total-retry_all due after
          (retry_one_kept_for st cfg env IsWellFormed d.id
            (kept_for st IsWellFormed d.id (formed_kept conn).kept) w d refl formed)
          distinct
          (λ x m. (
            retry_one_kept_for st cfg env (Stands conn cfg env x) d.id
                (Stands-IsKeptFor conn cfg env x d.id (other x m)) w d refl (rows x (inr m)).0,
            (rows x (inr m)).1,
          )) in
      omega (arith, rest, total-retry_one w d formed stored waits)

  total-retry :
      (w : World Db) → IsWellFormed w.db → total (retry (sqlite_store conn) cfg env w) ≤ total w
  unfolding retry
  total-retry w formed =
      let st = sqlite_store conn in
      let now = unix_seconds (env.now w.ticks) in
      elim (Result-cases (due_deliveries conn now (batch st cfg env) w.db)) [
        | inr (f, e) ↦ rw (e, retry) (omega arith)
        | inl (due, e) ↦
            rw (e, retry)
              (total-retry_all due (ticked w) formed
                (due_once conn now (batch st cfg env) w.db due e formed.deliveries_once)
                (due-In conn now (batch st cfg env) w.db due e))
      ]

  -- The worker, for a number of turns.
  unfoldable pub turns : ℕ → World Db → World Db
  unfolding retry
  turns zero w = w
  turns (suc n) w = turns n (retry (sqlite_store conn) cfg env w)

  -- On well-formed tables of the SQLite store: whatever the network answers and whenever they come,
  -- any number of turns of the worker together hand at most as many requests to the client as the
  -- failed and retrying deliveries have tries left, which are the attempts up to the maximal number,
  -- and one at least. The redirects that the client follows inside of a request are not counted.
  pub turns-total :
      (n : ℕ) (w : World Db)
      → IsWellFormed w.db
      → length (turns n w).requests + budget cfg.max_retries (turns n w).db.deliveries
        ≤ length w.requests + budget cfg.max_retries w.db.deliveries
  unfolding turns
  turns-total zero w formed = omega arith
  turns-total (suc n) w formed = omega (
    arith,
    total-retry w formed,
    turns-total n (retry (sqlite_store conn) cfg env w)
        (retry_kept (sqlite_store conn) cfg env IsWellFormed (formed_kept conn).kept w formed),
  )
