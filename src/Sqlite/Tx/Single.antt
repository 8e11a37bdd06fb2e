-- ===== src/Sqlite/Tx/Single.antt =====
-- The pool of one connection that `Open` sets up, and the writes that read inside their transaction.
use webhook_event_route.Prelude.{ℕ, ℤ, ◌≡◌, refl}
use webhook_event_route.Domain.{Source, Target, Rule}
use webhook_event_route.Store.{err}
use webhook_event_route.Sqlite.Tables.{Db}
use webhook_event_route.Sqlite.Tx.{single, done_error}
use webhook_event_route.Sqlite.Audit.{Host}
use webhook_event_route.Sqlite.Sources.{update_source, delete_source}
use webhook_event_route.Sqlite.Targets.{update_target, delete_target}
use webhook_event_route.Sqlite.Rules.Writes.{update_rule, delete_rule}

-- Each update and each delete leaves the tables as they are, with the error of an ended transaction.
abbrev pub WritesFail : Host → ℕ → Db → Type 0
WritesFail host now db =
    ((s : Source) → update_source host single now s db ≡ (db, err done_error))
    × ((t : Target) → update_target host single now t db ≡ (db, err done_error))
    × ((r : Rule) → update_rule host single now r db ≡ (db, err done_error))
    × ((id : ℤ)
        → (delete_source host single now id db ≡ (db, err done_error))
          × (delete_target host single now id db ≡ (db, err done_error))
          × (delete_rule host single now id db ≡ (db, err done_error)))

-- On a pool of one connection no update and no delete of a source, a target or a rule ever succeeds:
-- the tables stay as they are, and the error is that the transaction is over.
pub single-WritesFail : (host : Host) (now : ℕ) (db : Db) → WritesFail host now db
unfolding update_source update_target update_rule delete_source delete_target delete_rule
single-WritesFail host now db = (λ s. refl, λ t. refl, λ r. refl, λ id. (refl, refl, refl))
