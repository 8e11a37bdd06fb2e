-- ===== src/Sqlite/Readback/Written.antt =====
-- What CreateRule writes.
use webhook_event_route.Prelude.{ℕ, ◌+◌, ◌≡◌, sym, ap, [], ◌∷◌, ◌++◌, arith, pos, Text, ℤ}
use webhook_event_route.Domain.{Rule}
use webhook_event_route.Store.{Assigned, ok}
use webhook_event_route.Sqlite.Tables.{Db}
use webhook_event_route.Sqlite.Tx.{Tx}
use webhook_event_route.Sqlite.Tx.Steps.{
  Ends, Ensures, bind-Ensures, then-Ensures, exec-Ensures, pure-Ensures, tx-Ends,
}
use webhook_event_route.Sqlite.Audit.{Host, log_change}
use webhook_event_route.Sqlite.Rules.Writes.{
  rule_row, insert_rule, target_list, persist_targets, create_rule,
}
use webhook_event_route.Sqlite.Readback.Pairs.{Adds, Adds-aside, add_targets-Adds}

-- The rules and their targets are those of before.
abbrev SameRules : Tx → Tx → Type 0
SameRules t u = (u.tables.rules ≡ t.tables.rules) × (u.tables.rule_targets ≡ t.tables.rule_targets)

log_keeps_rules :
    (now : ℕ) (entity action before after : Text) (n : ℤ) (t : Tx)
    → Ensures (λ _ u. SameRules t u) (log_change now entity n action before after) t
unfolding log_change
log_keeps_rules now entity action before after n t = record { after = λ _ u h. ground arith }

-- The tables with the new row, before its targets are written.
abbrev pub with_row : ℕ → Rule → Db → Db
with_row now r db = record db {
  rules = db.rules ++ rule_row (db.last_rule + 1) now r ∷ [];
  last_rule = db.last_rule + 1;
}

inserted_row :
    (now : ℕ) (r : Rule) (db db' : Db) (id : ℕ)
    → insert_rule now r db ≡ ok (id, db')
    → (id ≡ db.last_rule + 1) × (with_row now r db ≡ db')
unfolding insert_rule
inserted_row now r db db' id h = ground arith

-- What the new rule and its targets look like in the tables, at the two readings of the clock.
abbrev pub IsWritten : ℕ → ℕ → Rule → Db → Assigned → Db → Type 0
IsWritten now at r db a db' =
    (record { id = db.last_rule + 1; at = at } ≡ a)
    × Adds (db.last_rule + 1) (target_list r) (with_row now r db) db'

persisted :
    (now at : ℕ) (r : Rule) (db : Db) (id : ℕ) (t : Tx)
    → id ≡ db.last_rule + 1
    → with_row now r db ≡ t.tables
    → Ensures
        (λ _ u. Adds (db.last_rule + 1) (target_list r) (with_row now r db) u.tables)
        (persist_targets (record r { id = id; created_at = at; updated_at = at }))
        t
unfolding persist_targets target_list
persisted now at r db id t given row = record {
  after = λ _ u done. rw (row, ← given) (add_targets-Adds id (target_list r) t u _ done);
}

pub created_rule :
    (host : Host) (now : ℕ) (r : Rule) (db : Db)
    → Ends (IsWritten now (host.next_reading now) r db) (create_rule host now r db)
unfolding create_rule
created_rule host now r db = tx-Ends (IsWritten now (host.next_reading now) r db) _ db (
    bind-Ensures (λ id t. (id ≡ db.last_rule + 1) × (with_row now r db ≡ t.tables)) _ _ _ _
      (exec-Ensures _ (insert_rule now r) _ (λ id db'. inserted_row now r db db' id))
      (λ id t (given, row).
        then-Ensures (λ u. Adds (db.last_rule + 1) (target_list r) (with_row now r db) u.tables) _ _
          _ _ (persisted now (host.next_reading now) r db id t given row)
          (λ u adds.
            then-Ensures (SameRules u) _ _ _ _ (log_keeps_rules _ _ _ _ _ (pos id) u)
              (λ v (rules, pairs). pure-Ensures _ _ v (
                ap (λ n. record { id = n; at = host.next_reading now }) (sym given),
                Adds-aside _ _ _ u.tables v.tables adds rules pairs,
              )))))
