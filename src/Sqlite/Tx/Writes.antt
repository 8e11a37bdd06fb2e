-- ===== src/Sqlite/Tx/Writes.antt =====
-- What every statement of the configuration does to the tables, the writes that consist of them do.
use webhook_event_route.Prelude.{arith, ℕ, ℤ, pos, ◌≡◌, List, [], ◌∷◌, Text, codes}
use webhook_event_route.Domain.{Source, Target, Rule, ChangeLog}
use webhook_event_route.Store.{at_id, ok}
use webhook_event_route.Sqlite.Tables.{Db}
use webhook_event_route.Sqlite.Events.{get_source, get_target}
use webhook_event_route.Sqlite.Rules.{get_rule}
use webhook_event_route.Sqlite.Tx.{Pool, exec, pure, ◌>>◌}
use webhook_event_route.Sqlite.Tx.Effects.{
  IsPreorder, Relates, Effect, exec-Relates, bind-Relates, pool_read-Relates, pure-Relates,
  tx-Relates,
}
use webhook_event_route.Sqlite.Audit.{Host, entry_of, create_change_log, log_change}
use webhook_event_route.Sqlite.Sources.{
  insert_source, change_source, remove_source, create_source, update_source, delete_source,
}
use webhook_event_route.Sqlite.Targets.{
  insert_target, change_target, remove_target, create_target, update_target, delete_target,
}
use webhook_event_route.Sqlite.Rules.Writes.{
  insert_rule, change_rule, remove_rule, insert_rule_target, add_targets, persist_targets,
  clear_targets, target_list, create_rule, update_rule, delete_rule,
}

pub record StatementEffects (R : Db → Db → Type 0) : Type 0 where
  pub order : IsPreorder R
  pub of_insert_source : (now : ℕ) (src : Source) → Effect R (insert_source now src)
  pub of_change_source : (now : ℕ) (src : Source) → Effect R (change_source now src)
  pub of_remove_source : (id : ℤ) → Effect R (remove_source id)
  pub of_insert_target : (now : ℕ) (t : Target) → Effect R (insert_target now t)
  pub of_change_target : (now : ℕ) (t : Target) → Effect R (change_target now t)
  pub of_remove_target : (id : ℤ) → Effect R (remove_target id)
  pub of_insert_rule : (now : ℕ) (r : Rule) → Effect R (insert_rule now r)
  pub of_change_rule : (now : ℕ) (r : Rule) → Effect R (change_rule now r)
  pub of_remove_rule : (id : ℤ) → Effect R (remove_rule id)
  pub of_insert_rule_target : (rule_id tid : ℕ) → Effect R (insert_rule_target rule_id tid)
  pub of_clear_targets : (id : ℤ) → Effect R (clear_targets id)
  pub of_log : (now : ℕ) (cl : ChangeLog) (db : Db) → R db (create_change_log now cl db).0

module _ (R : Db → Db → Type 0) (e : StatementEffects R) where
  log_change-Relates :
      (now : ℕ) (entity action before after : Text) (n : ℤ)
      → Relates R (log_change now entity n action before after)
  unfolding log_change
  log_change-Relates now entity action before after n =
      let cl = entry_of entity n action before after in
      exec-Relates R {A = Unit {0}} (λ db. ok (tt, (create_change_log now cl db).0))
        (λ db db' a h.
          let k : (create_change_log now cl db).0 ≡ db' = ground arith in
          rw (← k) (e.of_log now cl db))

  add_targets-Relates : (rule_id : ℕ) (tids : List ℕ) → Relates R (add_targets rule_id tids)
  unfolding add_targets
  add_targets-Relates rule_id [] = pure-Relates R e.order tt
  add_targets-Relates rule_id (tid ∷ tids) =
      bind-Relates R e.order (exec (insert_rule_target rule_id tid)) (λ _. add_targets rule_id tids)
        (exec-Relates R _ (e.of_insert_rule_target rule_id tid))
        (λ _. add_targets-Relates rule_id tids)

  persist_targets-Relates : (r : Rule) → Relates R (persist_targets r)
  unfolding persist_targets
  persist_targets-Relates r = add_targets-Relates r.id (target_list r)

  logged :
      {A : Type 0} (now : ℕ) (entity action before after : Text) (n : ℤ) (a : A)
      → Relates R (log_change now entity n action before after >> pure a)
  logged now entity action before after n a =
      bind-Relates R e.order _ _ (log_change-Relates now entity action before after n)
        (λ _. pure-Relates R e.order a)

  module _ (host : Host) (now : ℕ) (db : Db) where
    pub create_source_related : (src : Source) → R db (create_source host now src db).0
    unfolding create_source
    create_source_related src = tx-Relates R e.order _ db (
        bind-Relates R e.order _ _
          (exec-Relates R (insert_source now src) (e.of_insert_source now src))
          (λ id. logged _ _ _ _ _ (pos id) _))

    pub update_source_related :
        (pool : Pool) (src : Source) → R db (update_source host pool now src db).0
    unfolding update_source
    update_source_related pool src = tx-Relates R e.order _ db (
        bind-Relates R e.order _ _ (pool_read-Relates R e.order pool (get_source src.id db)) (λ x.
          bind-Relates R e.order _ _
            (exec-Relates R (change_source now src) (e.of_change_source now src))
            (λ _. logged _ _ _ _ _ (pos src.id) _)))

    pub delete_source_related : (pool : Pool) (id : ℤ) → R db (delete_source host pool now id db).0
    unfolding delete_source
    delete_source_related pool id = tx-Relates R e.order _ db (
        bind-Relates R e.order _ _ (pool_read-Relates R e.order pool (at_id get_source id db)) (λ x.
          bind-Relates R e.order _ _ (exec-Relates R (remove_source id) (e.of_remove_source id))
            (λ _. log_change-Relates now _ _ _ _ id)))

    pub create_target_related : (t : Target) → R db (create_target host now t db).0
    unfolding create_target
    create_target_related t = tx-Relates R e.order _ db (
        bind-Relates R e.order _ _ (exec-Relates R (insert_target now t) (e.of_insert_target now t))
          (λ id. logged _ _ _ _ _ (pos id) _))

    pub update_target_related :
        (pool : Pool) (t : Target) → R db (update_target host pool now t db).0
    unfolding update_target
    update_target_related pool t = tx-Relates R e.order _ db (
        bind-Relates R e.order _ _ (pool_read-Relates R e.order pool (get_target t.id db)) (λ x.
          bind-Relates R e.order _ _
            (exec-Relates R (change_target now t) (e.of_change_target now t))
            (λ _. logged _ _ _ _ _ (pos t.id) _)))

    pub delete_target_related : (pool : Pool) (id : ℤ) → R db (delete_target host pool now id db).0
    unfolding delete_target
    delete_target_related pool id = tx-Relates R e.order _ db (
        bind-Relates R e.order _ _ (pool_read-Relates R e.order pool (at_id get_target id db)) (λ x.
          bind-Relates R e.order _ _ (exec-Relates R (remove_target id) (e.of_remove_target id))
            (λ _. log_change-Relates now _ _ _ _ id)))

    pub create_rule_related : (r : Rule) → R db (create_rule host now r db).0
    unfolding create_rule
    create_rule_related r = tx-Relates R e.order _ db (
        bind-Relates R e.order _ _ (exec-Relates R (insert_rule now r) (e.of_insert_rule now r))
          (λ id.
            let at = host.next_reading now in
            let r' : Rule = record r { id = id; created_at = at; updated_at = at } in
            bind-Relates R e.order _ _ (persist_targets-Relates r') (λ _.
              logged _ (codes "rule") (codes "create") [] (host.rule_text r') (pos id)
                (record { id = id; at = at }))))

    pub update_rule_related : (pool : Pool) (r : Rule) → R db (update_rule host pool now r db).0
    unfolding update_rule
    update_rule_related pool r = tx-Relates R e.order _ db (
        bind-Relates R e.order _ _ (pool_read-Relates R e.order pool (get_rule r.id db)) (λ x.
          bind-Relates R e.order _ _ (exec-Relates R (change_rule now r) (e.of_change_rule now r))
            (λ _.
              bind-Relates R e.order _ _
                (exec-Relates R (clear_targets (pos r.id)) (e.of_clear_targets (pos r.id)))
                (λ _.
                  bind-Relates R e.order _ _ (persist_targets-Relates r)
                    (λ _. logged _ _ _ _ _ (pos r.id) _)))))

    pub delete_rule_related : (pool : Pool) (id : ℤ) → R db (delete_rule host pool now id db).0
    unfolding delete_rule
    delete_rule_related pool id = tx-Relates R e.order _ db (
        bind-Relates R e.order _ _ (pool_read-Relates R e.order pool (at_id get_rule id db)) (λ x.
          bind-Relates R e.order _ _ (exec-Relates R (clear_targets id) (e.of_clear_targets id))
            (λ _.
              bind-Relates R e.order _ _ (exec-Relates R (remove_rule id) (e.of_remove_rule id))
                (λ _. log_change-Relates now _ _ _ _ id))))
