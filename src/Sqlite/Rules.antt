-- ===== src/Sqlite/Rules.antt =====
-- internal/store/sqlite/rule_store.go and rule_target_store.go: the reads.
pub mod Writes
use webhook_event_route.Prelude.{
  Option, none, some, ℕ, Bool, not, ◌&&◌, ◌||◌, List, [], ◌∷◌, map, ◌==◌, ltb, lt_ℤ,
}
use webhook_event_route.Domain.{Rule}
use webhook_event_route.Store.{Result, ok, err, Failure}
use webhook_event_route.Sqlite.Tables.{Db, find, row, select_where, order_by}

-- SELECT target_id … ORDER BY target_id
unfoldable pub list_rule_targets : ℕ → Db → List ℕ
unfolding select_where order_by
list_rule_targets rule_id db =
    order_by ltb (map (λ r. r.target_id) (select_where (λ r. r.rule_id == rule_id) db.rule_targets))

-- `loadTargets`
abbrev pub with_targets : Rule → List ℕ → Rule
with_targets r [] = r
with_targets r (t ∷ ts) = record r { target_ids = t ∷ ts }

unfoldable pub load_targets : Db → Rule → Rule
unfolding list_rule_targets
load_targets db r = with_targets r (list_rule_targets r.id db)

-- ORDER BY priority DESC, id
abbrev pub before : Rule → Rule → Bool
before a b = lt_ℤ b.priority a.priority || (not (lt_ℤ a.priority b.priority) && ltb a.id b.id)

unfoldable pub list_rules : Db → Result (List Rule)
unfolding order_by load_targets
list_rules db = ok (map (load_targets db) (order_by before db.rules))

-- The error is that of the query, of a row or of the targets of a rule, if there is one.
unfoldable pub list_enabled_rules : Option Failure → Db → Result (List Rule)
unfolding order_by load_targets select_where
list_enabled_rules (some e) db = err e
list_enabled_rules none db =
    ok (map (load_targets db) (order_by before (select_where (λ r. r.enabled) db.rules)))

abbrev loaded : Db → Result Rule → Result Rule
loaded db (ok r) = ok (load_targets db r)
loaded db (err e) = err e

unfoldable pub get_rule : ℕ → Db → Result Rule
unfolding load_targets find
get_rule id db = loaded db (row (find (λ r. r.id == id) db.rules))
