-- ===== src/Sqlite/Audit/Trail/Writes.antt =====
-- The writes of sources, targets and rules, and the change log.
use webhook_event_route.Prelude.{ℕ, ℤ, pos, refl, [], codes}
use webhook_event_route.Domain.{Source, Target, Rule}
use webhook_event_route.Sqlite.Tables.{Db}
use webhook_event_route.Sqlite.Tx.{Pool}
use webhook_event_route.Sqlite.Audit.{Host}
use webhook_event_route.Sqlite.Sources.{
  insert_source, change_source, remove_source, create_source, update_source, delete_source,
}
use webhook_event_route.Sqlite.Targets.{
  insert_target, change_target, remove_target, create_target, update_target, delete_target,
}
use webhook_event_route.Sqlite.Rules.Writes.{
  insert_rule, change_rule, remove_rule, clear_targets, create_rule, update_rule, delete_rule,
}
use webhook_event_route.Sqlite.Tx.Effects.{exec-Relates, pool_read-Relates}
use webhook_event_route.Sqlite.Tx.Aside.{
  IsAside, IsAside-order, insert_source-IsAside, change_source-IsAside, remove_source-IsAside,
  insert_target-IsAside, change_target-IsAside, remove_target-IsAside, insert_rule-IsAside,
  change_rule-IsAside, remove_rule-IsAside, clear_targets-IsAside, persist_targets-IsAside,
}
use webhook_event_route.Sqlite.Audit.Trail.{
  IsRecorded, bind-Logs, log_change-Logs, log-Logs, tx_records,
}

module _ (host : Host) (now : ℕ) (db : Db) where
  pub create_source-IsRecorded :
      (src : Source)
      → IsRecorded
          (codes "source")
          (codes "create")
          (λ a. pos a.id)
          db
          (create_source host now src db)
  unfolding create_source
  create_source-IsRecorded src = tx_records _ _ _ _ db (
      bind-Logs _ _ _ _ _
        (exec-Relates IsAside (insert_source now src) (insert_source-IsAside now src))
        (λ id. log-Logs _ _ _ _ _ (pos id) _ _ refl))

  pub update_source-IsRecorded :
      (pool : Pool) (src : Source)
      → IsRecorded
          (codes "source")
          (codes "update")
          (λ _. pos src.id)
          db
          (update_source host pool now src db)
  unfolding update_source
  update_source-IsRecorded pool src = tx_records _ _ _ _ db (
      bind-Logs _ _ _ _ _ (pool_read-Relates IsAside IsAside-order pool _) (λ r.
        bind-Logs _ _ _ _ _
          (exec-Relates IsAside (change_source now src) (change_source-IsAside now src))
          (λ _. log-Logs _ _ _ _ _ (pos src.id) _ _ refl)))

  pub delete_source-IsRecorded :
      (pool : Pool) (id : ℤ)
      → IsRecorded
          (codes "source")
          (codes "delete")
          (λ _. id)
          db
          (delete_source host pool now id db)
  unfolding delete_source
  delete_source-IsRecorded pool id = tx_records _ _ _ _ db (
      bind-Logs _ _ _ _ _ (pool_read-Relates IsAside IsAside-order pool _) (λ r.
        bind-Logs _ _ _ _ _ (exec-Relates IsAside (remove_source id) (remove_source-IsAside id))
          (λ _. log_change-Logs now _ _ _ _ id)))

  pub create_target-IsRecorded :
      (t : Target)
      → IsRecorded
          (codes "target")
          (codes "create")
          (λ a. pos a.id)
          db
          (create_target host now t db)
  unfolding create_target
  create_target-IsRecorded t = tx_records _ _ _ _ db (
      bind-Logs _ _ _ _ _ (exec-Relates IsAside (insert_target now t) (insert_target-IsAside now t))
        (λ id. log-Logs _ _ _ _ _ (pos id) _ _ refl))

  pub update_target-IsRecorded :
      (pool : Pool) (t : Target)
      → IsRecorded
          (codes "target")
          (codes "update")
          (λ _. pos t.id)
          db
          (update_target host pool now t db)
  unfolding update_target
  update_target-IsRecorded pool t = tx_records _ _ _ _ db (
      bind-Logs _ _ _ _ _ (pool_read-Relates IsAside IsAside-order pool _) (λ r.
        bind-Logs _ _ _ _ _
          (exec-Relates IsAside (change_target now t) (change_target-IsAside now t))
          (λ _. log-Logs _ _ _ _ _ (pos t.id) _ _ refl)))

  pub delete_target-IsRecorded :
      (pool : Pool) (id : ℤ)
      → IsRecorded
          (codes "target")
          (codes "delete")
          (λ _. id)
          db
          (delete_target host pool now id db)
  unfolding delete_target
  delete_target-IsRecorded pool id = tx_records _ _ _ _ db (
      bind-Logs _ _ _ _ _ (pool_read-Relates IsAside IsAside-order pool _) (λ r.
        bind-Logs _ _ _ _ _ (exec-Relates IsAside (remove_target id) (remove_target-IsAside id))
          (λ _. log_change-Logs now _ _ _ _ id)))

  pub create_rule-IsRecorded :
      (r : Rule)
      → IsRecorded (codes "rule") (codes "create") (λ a. pos a.id) db (create_rule host now r db)
  unfolding create_rule
  create_rule-IsRecorded r = tx_records _ _ _ _ db (
      bind-Logs _ _ _ _ _ (exec-Relates IsAside (insert_rule now r) (insert_rule-IsAside now r))
        (λ id.
          let at = host.next_reading now in
          let r' : Rule = record r { id = id; created_at = at; updated_at = at } in
          bind-Logs _ _ _ _ _ (persist_targets-IsAside r') (λ _.
            log-Logs _ (codes "rule") (codes "create") [] (host.rule_text r') (pos id)
              (record { id = id; at = at }) _ refl)))

  pub update_rule-IsRecorded :
      (pool : Pool) (r : Rule)
      → IsRecorded
          (codes "rule")
          (codes "update")
          (λ _. pos r.id)
          db
          (update_rule host pool now r db)
  unfolding update_rule
  update_rule-IsRecorded pool r = tx_records _ _ _ _ db (
      bind-Logs _ _ _ _ _ (pool_read-Relates IsAside IsAside-order pool _) (λ x.
        bind-Logs _ _ _ _ _ (exec-Relates IsAside (change_rule now r) (change_rule-IsAside now r))
          (λ _.
            bind-Logs _ _ _ _ _
              (exec-Relates IsAside (clear_targets (pos r.id)) (clear_targets-IsAside (pos r.id)))
              (λ _.
                bind-Logs _ _ _ _ _ (persist_targets-IsAside r)
                  (λ _. log-Logs _ _ _ _ _ (pos r.id) _ _ refl)))))

  pub delete_rule-IsRecorded :
      (pool : Pool) (id : ℤ)
      → IsRecorded (codes "rule") (codes "delete") (λ _. id) db (delete_rule host pool now id db)
  unfolding delete_rule
  delete_rule-IsRecorded pool id = tx_records _ _ _ _ db (
      bind-Logs _ _ _ _ _ (pool_read-Relates IsAside IsAside-order pool _) (λ x.
        bind-Logs _ _ _ _ _ (exec-Relates IsAside (clear_targets id) (clear_targets-IsAside id))
          (λ _.
            bind-Logs _ _ _ _ _ (exec-Relates IsAside (remove_rule id) (remove_rule-IsAside id))
              (λ _. log_change-Logs now _ _ _ _ id))))

  -- The writes with these arguments, each as an action on an entity of that identifier.
  abbrev pub AreRecorded : Pool → Source → Target → Rule → ℤ → Type 0
  AreRecorded pool src t r id =
      (IsRecorded (codes "source") (codes "create") (λ a. pos a.id) db
          (create_source host now src db)
        × IsRecorded (codes "source") (codes "update") (λ _. pos src.id) db
            (update_source host pool now src db)
        × IsRecorded (codes "source") (codes "delete") (λ _. id) db
            (delete_source host pool now id db))
      × (IsRecorded (codes "target") (codes "create") (λ a. pos a.id) db
            (create_target host now t db)
          × IsRecorded (codes "target") (codes "update") (λ _. pos t.id) db
              (update_target host pool now t db)
          × IsRecorded (codes "target") (codes "delete") (λ _. id) db
              (delete_target host pool now id db))
      × (IsRecorded (codes "rule") (codes "create") (λ a. pos a.id) db (create_rule host now r db)
          × IsRecorded (codes "rule") (codes "update") (λ _. pos r.id) db
              (update_rule host pool now r db)
          × IsRecorded (codes "rule") (codes "delete") (λ _. id) db
              (delete_rule host pool now id db))

  -- On any pool, every write of a source, a target or a rule is atomic and audited: where it fails, the tables are
  -- left as they were; where it succeeds, the change log is longer by exactly one entry, which names
  -- the kind of the entity, its identifier and the action.
  pub writes-IsRecorded :
      (pool : Pool) (src : Source) (t : Target) (r : Rule) (id : ℤ) → AreRecorded pool src t r id
  writes-IsRecorded pool src t r id = (
    (
      create_source-IsRecorded src,
      update_source-IsRecorded pool src,
      delete_source-IsRecorded pool id,
    ),
    (create_target-IsRecorded t, update_target-IsRecorded pool t, delete_target-IsRecorded pool id),
    (create_rule-IsRecorded r, update_rule-IsRecorded pool r, delete_rule-IsRecorded pool id),
  )
