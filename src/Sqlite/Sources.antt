-- ===== src/Sqlite/Sources.antt =====
-- internal/store/sqlite/source_store.go: the writes and the list.
use webhook_event_route.Prelude.{
  ℕ, ◌+◌, Bool, false, not, ◌&&◌, ◌||◌, none, some, List, [], ◌∷◌, ◌++◌, any, ◌==◌, ℤ, pos,
  if◌then◌else◌, Text, codes, text_eq,
}
use webhook_event_route.Domain.{Source}
use webhook_event_route.Store.{at_id, Result, ok, err, Assigned}
use webhook_event_route.Sqlite.Tables.{Db, find, update_where, select_where, is_some, constraint}
use webhook_event_route.Sqlite.Events.{get_source}
use webhook_event_route.Sqlite.Tx.{Pool, exec, pool_read, pure, tx, ◌>>=◌, ◌>>◌}
use webhook_event_route.Sqlite.Audit.{Host, is_id, log_change, before_text}

-- UNIQUE(name), for a row with the given identifier.
abbrev pub name_taken : ℕ → Text → Db → Bool
name_taken id name db = any (λ s. not (s.id == id) && text_eq s.name name) db.sources

unfoldable pub insert_source : ℕ → Source → Db → Result (ℕ × Db)
unfolding text_eq
insert_source now src db =
    let id = db.last_source + 1 in
    if any (λ s. text_eq s.name src.name) db.sources
    then err constraint
    else ok (
      id,
      record db {
        sources = db.sources ++ record src { id = id; created_at = now; updated_at = now } ∷ [];
        last_source = id;
      },
    )

abbrev pub set_source : ℕ → Source → Source → Source
set_source now src old = record old {
  name = src.name;
  secret = src.secret;
  enabled = src.enabled;
  allowed_types = src.allowed_types;
  updated_at = now;
}

unfoldable pub change_source : ℕ → Source → Db → Result (Unit {0} × Db)
unfolding text_eq find is_some update_where
change_source now src db =
    if is_some (find (λ s. s.id == src.id) db.sources) && name_taken src.id src.name db
    then err constraint
    else ok (
      tt,
      record db { sources = update_where (λ s. s.id == src.id) (set_source now src) db.sources },
    )

-- A rule or an event refers to the source.
abbrev pub source_in_use : ℤ → Db → Bool
source_in_use id db =
    any (λ e. is_id id e.source_id) db.events
    || any (λ r. elim r.source_id [ none ↦ false | some s ↦ is_id id s ]) db.rules

unfoldable pub remove_source : ℤ → Db → Result (Unit {0} × Db)
unfolding select_where
remove_source id db =
    if source_in_use id db
    then err constraint
    else ok (tt, record db { sources = select_where (λ s. not (is_id id s.id)) db.sources })

unfoldable pub list_sources : Db → Result (List Source)
list_sources db = ok db.sources

module _ (host : Host) where
  unfoldable pub create_source : ℕ → Source → Db → Db × Result Assigned
  unfolding tx insert_source log_change
  create_source now src = tx (do
    id ← exec (insert_source now src)
    let then_ = host.next_reading now
    let src' = record src { id = id; created_at = then_; updated_at = then_ }
    log_change (host.next_reading (host.next_reading now)) (codes "source") (pos id)
        (codes "create") [] (host.source_text src')
    pure (record { id = id; at = then_ }))

  unfoldable pub update_source : Pool → ℕ → Source → Db → Db × Result ℕ
  unfolding tx change_source log_change get_source
  update_source pool now src db =
      tx
        (do
          existing ← pool_read pool (get_source src.id db)
          exec (change_source now src)
          log_change (host.next_reading (host.next_reading now)) (codes "source") (pos src.id)
              (codes "update") (before_text host.source_text existing)
              (host.source_text (record src { updated_at = host.next_reading now }))
          pure (host.next_reading now))
        db

  unfoldable pub delete_source : Pool → ℕ → ℤ → Db → Db × Result (Unit {0})
  unfolding tx remove_source log_change get_source
  delete_source pool now id db =
      tx
        (do
          existing ← pool_read pool (at_id get_source id db)
          exec (remove_source id)
          log_change now (codes "source") id (codes "delete")
              (before_text host.source_text existing) [])
        db
