-- ===== src/Sqlite/Sound/Operations.antt =====
-- The deliveries of the table at rest: what the operations of the service leave.
use mathlib.Core.Path.{subst}
use webhook_event_route.Sqlite.Conn.{Conn}
use webhook_event_route.Prelude.{
  ℕ, ◌+◌, ◌<◌, ◌≡◌, refl, true, List, [], ◌∷◌, inl, inr, In, arith, not, none, some,
}
use webhook_event_route.Domain.{Event, Rule, Target, Delivery, retrying}
use webhook_event_route.Config.{Config}
use webhook_event_route.Store.{Result, Assigned, Result-cases, ok, err}
use webhook_event_route.Store.Kept.{both_branches}
use webhook_event_route.Dispatcher.Operated.{IsOperated}
use webhook_event_route.Dispatcher.World.{Env, World, ticked, with_db}
use webhook_event_route.Dispatcher.Send.{
  new_delivery, assign, deliver_created, deliver, is_dead, requeue_read, requeue, next_retry,
}
use webhook_event_route.Dispatcher.Send.Sound.{IsSound}
use webhook_event_route.Dispatcher.Worker.{retry_one, retry_all, retry, unix_seconds, batch}
use webhook_event_route.Sqlite.Tables.{Db}
use webhook_event_route.Sqlite.Events.{get_event, get_target, create_event, update_status}
use webhook_event_route.Sqlite.Deliveries.{
  may_retry, create_delivery, update_delivery, get_delivery, due_deliveries,
}
use webhook_event_route.Sqlite.Instance.{sqlite_store}
use webhook_event_route.Sqlite.Settled.{due-In}
use webhook_event_route.Sqlite.Sound.{
  AreSound, updated-AreSound, create_delivery-AreSound, send-AreSound, deliver_created-AreSound,
}

module _ (conn : Conn) (cfg : Config) (env : Env) where
  -- The deliveries of a database are sound for the maximal number of attempts of the settings.
  abbrev pub HasSound : Db → Type 0
  HasSound db = AreSound cfg.max_retries db.deliveries

  deliver-HasSound :
      (w : World Db) (event : Event) (rule : Rule) (target : Target)
      → HasSound w.db
      → HasSound (deliver (sqlite_store conn) cfg env w event rule target).0.db
  unfolding deliver
  deliver-HasSound w event rule target all =
      let st = sqlite_store conn in
      let d = new_delivery st cfg env event rule target in
      let made = create_delivery conn (env.now w.ticks) d w.db in
      by_created made.1 made.0 (
        create_delivery-AreSound cfg.max_retries conn (env.now w.ticks) d w.db
          (λ id created updated. ground arith) all)
    where
      by_created :
          (r : Result Assigned) (db : Db)
          → HasSound db
          → HasSound
              (elim r as (λ _. World Db × Result Delivery) [
                | err e ↦ (with_db w db, err e)
                | ok a ↦
                    let (w', d') =
                      deliver_created
                        (sqlite_store conn)
                        cfg
                        env
                        (with_db w db)
                        (assign
                          (sqlite_store conn)
                          cfg
                          env
                          (new_delivery (sqlite_store conn) cfg env event rule target)
                          a)
                        event
                        target in
                    (w', ok d')
              ]).0.db
      by_created (err e) db all = all
      by_created (ok a) db all =
          deliver_created-AreSound conn cfg env (with_db w db)
            (assign (sqlite_store conn) cfg env
              (new_delivery (sqlite_store conn) cfg env event rule target) a)
            event target refl refl all

  -- A sound delivery that may be retried is not marked as dead.
  waiting_alive :
      (d : Delivery) → IsSound cfg.max_retries d → may_retry d.status ≡ true → d.dead_at ≡ none
  waiting_alive d h waits = ground (arith, h.retry_planned, h.proper)

  retry_one-HasSound :
      (w : World Db) (d : Delivery)
      → d.dead_at ≡ none
      → HasSound w.db
      → HasSound (retry_one (sqlite_store conn) cfg env w d).db
  unfolding retry_one
  retry_one-HasSound w d alive all = elim (Result-cases (get_event d.event_id w.db)) [
    | inr (f, e) ↦ rw (e, retry_one) all
    | inl (event, e) ↦ elim (Result-cases (get_target d.target_id w.db)) [
      | inr (f, g) ↦ rw (e, g, retry_one) all
      | inl (target, g) ↦
          rw (e, g, retry_one) (send-AreSound conn cfg env w d target event.payload alive all)
    ]
  ]

  retry_all-HasSound :
      (due : List Delivery) (w : World Db)
      → ((x : Delivery) → In x due → x.dead_at ≡ none)
      → HasSound w.db
      → HasSound (retry_all (sqlite_store conn) cfg env w due).db
  unfolding retry_all
  retry_all-HasSound [] w alive all = all
  retry_all-HasSound (d ∷ due) w alive all =
      retry_all-HasSound due (retry_one (sqlite_store conn) cfg env w d) (λ x m. alive x (inr m))
        (retry_one-HasSound w d (alive d (inl refl)) all)

  retry-HasSound :
      (w : World Db) → HasSound w.db → HasSound (retry (sqlite_store conn) cfg env w).db
  unfolding retry
  retry-HasSound w all =
      let st = sqlite_store conn in
      let now = unix_seconds (env.now w.ticks) in
      elim (Result-cases (due_deliveries conn now (batch st cfg env) w.db)) [
        | inr (f, e) ↦ rw (e, retry) all
        | inl (due, e) ↦
            let alive : (x : Delivery) → In x due → x.dead_at ≡ none = λ x m.
              let (stored, waits) = due-In conn now (batch st cfg env) w.db due e x m in
              waiting_alive x (all x stored) waits in
            rw (e, retry) (retry_all-HasSound due (ticked w) alive all)
      ]

  module _ (some_try : 0 < cfg.max_retries) where
    requeue_read-HasSound :
        (w : World Db) (d : Delivery)
        → HasSound w.db
        → HasSound (requeue_read (sqlite_store conn) cfg env w d).0.db
    unfolding requeue_read update_delivery
    requeue_read-HasSound w d all =
        let again = record d {
          attempts = 0;
          status = retrying;
          last_error = [];
          dead_at = none;
          next_retry_at = some (next_retry (sqlite_store conn) cfg env w 1);
        } in
        let sound : IsSound cfg.max_retries again = ground (arith, some_try) in
        both_branches (λ (r : World Db × Result Delivery). HasSound r.0.db) (not (is_dead d.status))
          _ _ all
          (updated-AreSound cfg.max_retries (env.now (w.ticks + 1)) d.id again w.db.deliveries sound
            all)

    requeue-HasSound :
        (w : World Db) (id : ℕ)
        → HasSound w.db
        → HasSound (requeue (sqlite_store conn) cfg env w id).0.db
    unfolding requeue
    requeue-HasSound w id all = elim (Result-cases (get_delivery id w.db)) [
      | inr (f, e) ↦ rw (e, requeue) all
      | inl (d, e) ↦ rw (e, requeue) (requeue_read-HasSound w d all)
    ]

    create_event_rows :
        (now : ℕ) (e : Event) (db : Db) → db.deliveries ≡ (create_event conn now e db).0.deliveries
    unfolding create_event
    create_event_rows now e db = ground arith

    pub HasSound-IsOperated : IsOperated (sqlite_store conn) cfg env HasSound
    unfolding update_status
    HasSound-IsOperated = record {
      by_create_event = λ now e db. subst (AreSound cfg.max_retries) (create_event_rows now e db);
      by_update_status = λ id status reason db all. all;
      by_deliver = deliver-HasSound;
      by_requeue = requeue-HasSound;
      by_retry = retry-HasSound;
    }
