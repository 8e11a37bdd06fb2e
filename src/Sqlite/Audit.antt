-- ===== src/Sqlite/Audit.antt =====
-- internal/store/sqlite: the change log, `logChange`, changelog.go and audit_store.go.
pub mod Trail
use mathlib.Core.List.{reverse}
use webhook_event_route.Prelude.{
  ℕ, ◌+◌, ◌-◌, ◌*◌, Bool, true, false, ◌&&◌, ◌||◌, List, [], ◌∷◌, ◌++◌, take, drop, ℤ, pos, negsuc,
  ◌==◌, is_nonpositive, Text, codes, text_eq,
}
use webhook_event_route.Domain.{ChangeLog, Source, Target, Rule}
use webhook_event_route.Store.{Result, ok, err}
use webhook_event_route.Sqlite.Tables.{Db, select_where}
use webhook_event_route.Sqlite.Tx.{Action, exec}
use webhook_event_route.Sqlite.Deliveries.{page_limit, page_offset}

-- What the stores of the configuration call: encoding/json on the structs (`mustJSON`), and time.Now
-- after a reading that gave this time.
pub record Host : Type 0 where
  pub source_text : Source → Text
  pub target_text : Target → Text
  pub rule_text : Rule → Text
  pub next_reading : ℕ → ℕ

-- The text that the change log has of the row before the change.
abbrev pub before_text : {A : Type 0} → (A → Text) → Result A → Text
before_text text (ok a) = text a
before_text text (err e) = []

abbrev pub is_id : ℤ → ℕ → Bool
is_id (pos n) m = n == m
is_id (negsuc n) m = false

abbrev pub same_id : ℤ → ℤ → Bool
same_id (pos n) (pos m) = n == m
same_id (negsuc n) (negsuc m) = n == m
same_id _ _ = false

unfoldable pub create_change_log : ℕ → ChangeLog → Db → Db × Result (Unit {0})
create_change_log now cl db =
    let id = db.last_change_log + 1 in
    (
      record db {
        change_logs = db.change_logs ++ record cl { id = id; created_at = now } ∷ [];
        last_change_log = id;
      },
      ok tt,
    )

abbrev pub entry_of : Text → ℤ → Text → Text → Text → ChangeLog
entry_of entity_type entity_id action before after = record {
  id = 0;
  entity_type = entity_type;
  entity_id = entity_id;
  action = action;
  before = before;
  after = after;
  actor = [];
  created_at = 0;
}

-- `logChange`: the same INSERT, in the transaction.
unfoldable pub log_change : ℕ → Text → ℤ → Text → Text → Text → Action (Unit {0})
unfolding create_change_log
log_change now entity_type entity_id action before after = exec (λ db.
    ok (tt, (create_change_log now (entry_of entity_type entity_id action before after) db).0))

abbrev pub log_listed : Text → ℤ → ChangeLog → Bool
log_listed entity_type entity_id cl =
    (text_eq entity_type [] || text_eq cl.entity_type entity_type)
    && (is_nonpositive entity_id || same_id cl.entity_id entity_id)

-- ORDER BY id DESC
unfoldable pub list_change_logs : Text → ℤ → ℤ → ℤ → Db → Result (List ChangeLog)
unfolding select_where page_limit page_offset text_eq
list_change_logs entity_type entity_id page limit db = ok (
    take (page_limit limit) (
      drop (page_offset page limit)
        (reverse (select_where (log_listed entity_type entity_id) db.change_logs))))
