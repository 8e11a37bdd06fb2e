-- ===== src/Sqlite/Events.antt =====
-- internal/store/sqlite/event_store.go, and the reads of source_store.go and target_store.go.
pub mod Keys
use webhook_event_route.Prelude.{
  ℕ, ◌+◌, Bool, not, ◌&&◌, none, [], ◌∷◌, ◌++◌, ◌==◌, if◌then◌else◌, Text, codes, text_eq,
}
use webhook_event_route.Domain.{Source, Event, EventStatus, Target}
use webhook_event_route.Store.{other, Result, ok, err, Assigned}
use webhook_event_route.Sqlite.Conn.{Conn}
use webhook_event_route.Sqlite.Tables.{Db, find, row, update_where, is_some}

unfoldable pub get_source : ℕ → Db → Result Source
unfolding find
get_source id db = row (find (λ s. s.id == id) db.sources)

unfoldable pub get_target : ℕ → Db → Result Target
unfolding find
get_target id db = row (find (λ t. t.id == id) db.targets)

-- The timestamp of an event has no column: it reads back as nil.
abbrev pub scanned : Event → Event
scanned e = record e { timestamp = none }

unfoldable pub get_event : ℕ → Db → Result Event
unfolding find
get_event id db = row (find (λ e. e.id == id) db.events)

abbrev pub has_key : ℕ → Text → Event → Bool
has_key source_id event_id e = e.source_id == source_id && text_eq e.event_id event_id

unfoldable pub get_by_key : ℕ → Text → Db → Result Event
unfolding find text_eq
get_by_key source_id event_id db = row (find (has_key source_id event_id) db.events)

-- UNIQUE(source_id, event_id) and the reference to the source.
unfoldable pub may_insert_event : Event → Db → Bool
unfolding find is_some text_eq
may_insert_event e db =
    is_some (find (λ s. s.id == e.source_id) db.sources)
    && not (is_some (find (has_key e.source_id e.event_id) db.events))

-- The row that `CreateEvent` inserts.
abbrev pub event_row : ℕ → ℕ → Event → Event
event_row id now e = record (scanned e) { id = id; received_at = now; created_at = now }

-- The row has one reading of the clock, and the event that the caller holds gets the next.
unfoldable pub create_event : Conn → ℕ → Event → Db → Db × Result Assigned
unfolding may_insert_event
create_event conn now e db =
    let id = db.last_event + 1 in
    if may_insert_event e db
    then (
      record db { events = db.events ++ event_row id now e ∷ []; last_event = id },
      ok (record { id = id; at = conn.next_reading now }),
    )
    else (db, err (other (codes "constraint failed")))

unfoldable pub update_status : ℕ → EventStatus → Text → Db → Db × Result (Unit {0})
unfolding update_where
update_status id status reason db = (
  record db {
    events =
        update_where (λ e. e.id == id) (λ e. record e { status = status; reject_reason = reason })
          db.events;
  },
  ok tt,
)
