-- ===== src/Sqlite/Targets.antt =====
-- internal/store/sqlite/target_store.go: the writes and the list.
use webhook_event_route.Prelude.{
  ℕ, ◌+◌, Bool, not, ◌&&◌, ◌||◌, List, [], ◌∷◌, ◌++◌, any, ◌==◌, ℤ, pos, if◌then◌else◌, Text, codes,
  text_eq,
}
use webhook_event_route.Domain.{Target}
use webhook_event_route.Store.{at_id, Result, ok, err, Assigned}
use webhook_event_route.Sqlite.Tables.{Db, find, update_where, select_where, is_some, constraint}
use webhook_event_route.Sqlite.Events.{get_target}
use webhook_event_route.Sqlite.Tx.{Pool, exec, pool_read, pure, tx, ◌>>=◌, ◌>>◌}
use webhook_event_route.Sqlite.Audit.{Host, is_id, log_change, before_text}

-- UNIQUE(name), for a row with the given identifier.
abbrev pub name_taken : ℕ → Text → Db → Bool
name_taken id name db = any (λ s. not (s.id == id) && text_eq s.name name) db.targets

unfoldable pub insert_target : ℕ → Target → Db → Result (ℕ × Db)
unfolding text_eq
insert_target now t db =
    let id = db.last_target + 1 in
    if any (λ s. text_eq s.name t.name) db.targets
    then err constraint
    else ok (
      id,
      record db {
        targets = db.targets ++ record t { id = id; created_at = now; updated_at = now } ∷ [];
        last_target = id;
      },
    )

abbrev pub set_target : ℕ → Target → Target → Target
set_target now t old = record old {
  name = t.name;
  url = t.url;
  enabled = t.enabled;
  updated_at = now;
}

unfoldable pub change_target : ℕ → Target → Db → Result (Unit {0} × Db)
unfolding text_eq find is_some update_where
change_target now t db =
    if is_some (find (λ s. s.id == t.id) db.targets) && name_taken t.id t.name db
    then err constraint
    else ok
        (tt, record db { targets = update_where (λ s. s.id == t.id) (set_target now t) db.targets })

-- A rule, a delivery or a row of rule_targets refers to the target.
abbrev pub target_in_use : ℤ → Db → Bool
target_in_use id db =
    any (λ r. is_id id r.target_id) db.rules
    || any (λ d. is_id id d.target_id) db.deliveries
    || any (λ p. is_id id p.target_id) db.rule_targets

unfoldable pub remove_target : ℤ → Db → Result (Unit {0} × Db)
unfolding select_where
remove_target id db =
    if target_in_use id db
    then err constraint
    else ok (tt, record db { targets = select_where (λ s. not (is_id id s.id)) db.targets })

unfoldable pub list_targets : Db → Result (List Target)
list_targets db = ok db.targets

module _ (host : Host) where
  unfoldable pub create_target : ℕ → Target → Db → Db × Result Assigned
  unfolding tx insert_target log_change
  create_target now t = tx (do
    id ← exec (insert_target now t)
    let then_ = host.next_reading now
    let t' = record t { id = id; created_at = then_; updated_at = then_ }
    log_change (host.next_reading (host.next_reading now)) (codes "target") (pos id)
        (codes "create") [] (host.target_text t')
    pure (record { id = id; at = then_ }))

  unfoldable pub update_target : Pool → ℕ → Target → Db → Db × Result ℕ
  unfolding tx change_target log_change get_target
  update_target pool now t db =
      tx
        (do
          existing ← pool_read pool (get_target t.id db)
          exec (change_target now t)
          log_change (host.next_reading (host.next_reading now)) (codes "target") (pos t.id)
              (codes "update") (before_text host.target_text existing)
              (host.target_text (record t { updated_at = host.next_reading now }))
          pure (host.next_reading now))
        db

  unfoldable pub delete_target : Pool → ℕ → ℤ → Db → Db × Result (Unit {0})
  unfolding tx remove_target log_change get_target
  delete_target pool now id db =
      tx
        (do
          existing ← pool_read pool (at_id get_target id db)
          exec (remove_target id)
          log_change now (codes "target") id (codes "delete")
              (before_text host.target_text existing) [])
        db
