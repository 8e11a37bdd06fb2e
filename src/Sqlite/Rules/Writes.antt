-- ===== src/Sqlite/Rules/Writes.antt =====
-- internal/store/sqlite/rule_store.go and rule_target_store.go: the writes.
use webhook_event_route.Prelude.{
  ℕ, ◌+◌, Bool, true, not, ◌&&◌, ◌||◌, none, some, List, [], ◌∷◌, ◌++◌, any, ◌==◌, ℤ, pos,
  if◌then◌else◌, codes,
}
use webhook_event_route.Domain.{Rule}
use webhook_event_route.Store.{at_id, Result, ok, err, Assigned}
use webhook_event_route.Sqlite.Tables.{
  Db, RuleTarget, find, update_where, select_where, is_some, constraint,
}
use webhook_event_route.Sqlite.Rules.{get_rule}
use webhook_event_route.Sqlite.Tx.{Pool, Action, exec, pool_read, pure, tx, ◌>>=◌, ◌>>◌}
use webhook_event_route.Sqlite.Audit.{Host, is_id, log_change, before_text}

-- The references of a rule's own columns.
unfoldable pub may_refer : Rule → Db → Bool
unfolding find is_some
may_refer r db =
    elim r.source_id [ none ↦ true | some s ↦ is_some (find (λ x. x.id == s) db.sources) ]
    && is_some (find (λ t. t.id == r.target_id) db.targets)

-- The row of a rule has no list of targets.
abbrev pub rule_row : ℕ → ℕ → Rule → Rule
rule_row id now r = record r { id = id; target_ids = []; created_at = now; updated_at = now }

unfoldable pub insert_rule : ℕ → Rule → Db → Result (ℕ × Db)
unfolding may_refer
insert_rule now r db =
    let id = db.last_rule + 1 in
    if not (may_refer r db)
    then err constraint
    else ok (id, record db { rules = db.rules ++ rule_row id now r ∷ []; last_rule = id })

abbrev pub is_pair : ℕ → ℕ → RuleTarget → Bool
is_pair rule_id target_id p = p.rule_id == rule_id && p.target_id == target_id

-- INSERT OR IGNORE: a pair that stands in the table is left alone; a missing rule or target fails.
unfoldable pub insert_rule_target : ℕ → ℕ → Db → Result (Unit {0} × Db)
unfolding find is_some
insert_rule_target rule_id target_id db =
    if any (is_pair rule_id target_id) db.rule_targets
    then ok (tt, db)
    else if is_some (find (λ r. r.id == rule_id) db.rules)
        && is_some (find (λ t. t.id == target_id) db.targets)
    then ok (
      tt,
      record db {
        rule_targets = db.rule_targets ++ record { rule_id = rule_id; target_id = target_id } ∷ [];
      },
    )
    else err constraint

-- The loop over the targets.
unfoldable pub add_targets : ℕ → List ℕ → Action (Unit {0})
unfolding insert_rule_target
add_targets rule_id [] = pure tt
add_targets rule_id (tid ∷ tids) = do
  exec (insert_rule_target rule_id tid)
  add_targets rule_id tids

-- The targets that `persistTargets` writes: the list, or else the single target.
unfoldable pub target_list : Rule → List ℕ
target_list r = elim r.target_ids [
  | [] ↦ if r.target_id == 0 then [] else r.target_id ∷ []
  | t ∷ ts ↦ t ∷ ts
]

unfoldable pub persist_targets : Rule → Action (Unit {0})
unfolding add_targets target_list
persist_targets r = add_targets r.id (target_list r)

unfoldable pub clear_targets : ℤ → Db → Result (Unit {0} × Db)
unfolding select_where
clear_targets rule_id db = ok (
  tt,
  record db { rule_targets = select_where (λ p. not (is_id rule_id p.rule_id)) db.rule_targets },
)

abbrev pub set_rule : ℕ → Rule → Rule → Rule
set_rule now r old = record old {
  name = r.name;
  source_id = r.source_id;
  event_type = r.event_type;
  condition = r.condition;
  target_id = r.target_id;
  priority = r.priority;
  enabled = r.enabled;
  updated_at = now;
}

unfoldable pub change_rule : ℕ → Rule → Db → Result (Unit {0} × Db)
unfolding may_refer find is_some update_where
change_rule now r db =
    if is_some (find (λ x. x.id == r.id) db.rules) && not (may_refer r db)
    then err constraint
    else ok (tt, record db { rules = update_where (λ x. x.id == r.id) (set_rule now r) db.rules })

-- A delivery or a row of rule_targets refers to the rule.
abbrev pub rule_in_use : ℤ → Db → Bool
rule_in_use id db =
    any (λ d. is_id id d.rule_id) db.deliveries || any (λ p. is_id id p.rule_id) db.rule_targets

unfoldable pub remove_rule : ℤ → Db → Result (Unit {0} × Db)
unfolding select_where
remove_rule id db =
    if rule_in_use id db
    then err constraint
    else ok (tt, record db { rules = select_where (λ r. not (is_id id r.id)) db.rules })

unfoldable pub create_rule_targets : ℕ → List ℕ → Db → Db × Result (Unit {0})
unfolding tx add_targets
create_rule_targets rule_id target_ids = tx (add_targets rule_id target_ids)

unfoldable pub delete_rule_targets : ℤ → Db → Db × Result (Unit {0})
unfolding select_where
delete_rule_targets rule_id db = (
  record db { rule_targets = select_where (λ p. not (is_id rule_id p.rule_id)) db.rule_targets },
  ok tt,
)

module _ (host : Host) where
  unfoldable pub create_rule : ℕ → Rule → Db → Db × Result Assigned
  unfolding tx insert_rule persist_targets log_change
  create_rule now r = tx (do
    id ← exec (insert_rule now r)
    let then_ = host.next_reading now
    let r' = record r { id = id; created_at = then_; updated_at = then_ }
    persist_targets r'
    log_change (host.next_reading (host.next_reading now)) (codes "rule") (pos id) (codes "create")
        [] (host.rule_text r')
    pure (record { id = id; at = then_ }))

  unfoldable pub update_rule : Pool → ℕ → Rule → Db → Db × Result ℕ
  unfolding tx change_rule clear_targets persist_targets log_change get_rule
  update_rule pool now r db =
      tx
        (do
          existing ← pool_read pool (get_rule r.id db)
          exec (change_rule now r)
          exec (clear_targets (pos r.id))
          persist_targets r
          log_change (host.next_reading (host.next_reading now)) (codes "rule") (pos r.id)
              (codes "update") (before_text host.rule_text existing)
              (host.rule_text (record r { updated_at = host.next_reading now }))
          pure (host.next_reading now))
        db

  unfoldable pub delete_rule : Pool → ℕ → ℤ → Db → Db × Result (Unit {0})
  unfolding tx clear_targets remove_rule log_change get_rule
  delete_rule pool now id db =
      tx
        (do
          existing ← pool_read pool (at_id get_rule id db)
          exec (clear_targets id)
          exec (remove_rule id)
          log_change now (codes "rule") id (codes "delete") (before_text host.rule_text existing)
              [])
        db
