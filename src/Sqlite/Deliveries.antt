-- ===== src/Sqlite/Deliveries.antt =====
-- internal/store/sqlite/delivery_store.go and attempt_store.go.
use Prim.Native.Nat.{Ordering}
use webhook_event_route.Sqlite.Conn.{Conn}
use webhook_event_route.Prelude.{
  ℕ, ◌+◌, ◌-◌, ◌*◌, ◌%◌, Bool, true, false, ◌&&◌, ◌||◌, Option, none, some, List, [], ◌∷◌, ◌++◌,
  ◌==◌, ltb, if◌then◌else◌, take, drop, ℤ, pos, negsuc, Text, codes, text_eq, compare_text,
}
use webhook_event_route.Domain.{
  Delivery, DeliveryAttempt, DeliveryStatus, failed, retrying, second, unix_epoch,
}
use webhook_event_route.Store.{other, Result, ok, err, Assigned}
use webhook_event_route.Metrics.{delivery_status_text}
use webhook_event_route.Sqlite.Tables.{Db, find, row, update_where, select_where, order_by, is_some}

-- The three references of a delivery.
unfoldable pub may_insert_delivery : Delivery → Db → Bool
unfolding find is_some
may_insert_delivery d db =
    is_some (find (λ e. e.id == d.event_id) db.events)
    && is_some (find (λ r. r.id == d.rule_id) db.rules)
    && is_some (find (λ t. t.id == d.target_id) db.targets)

-- Each time of the row is a reading of the clock of its own, and so is that which the caller's delivery
-- gets.
unfoldable pub create_delivery : Conn → ℕ → Delivery → Db → Db × Result Assigned
unfolding may_insert_delivery
create_delivery conn now d db =
    let id = db.last_delivery + 1 in
    let then_ = conn.next_reading now in
    if may_insert_delivery d db
    then (
      record db {
        deliveries =
            db.deliveries ++ record d { id = id; created_at = now; updated_at = then_ } ∷ [];
        last_delivery = id;
      },
      ok (record { id = id; at = conn.next_reading then_ }),
    )
    else (db, err (other (codes "constraint failed")))

unfoldable pub get_delivery : ℕ → Db → Result Delivery
unfolding find
get_delivery id db = row (find (λ d. d.id == id) db.deliveries)

-- The columns that an UPDATE sets.
abbrev pub set_columns : ℕ → Delivery → Delivery → Delivery
set_columns now d old = record old {
  status = d.status;
  attempts = d.attempts;
  next_retry_at = d.next_retry_at;
  dead_at = d.dead_at;
  last_error = d.last_error;
  updated_at = now;
}

-- The code reads the clock once for the row and again for the caller's delivery; here one reading stands
-- for both.
unfoldable pub update_delivery : ℕ → Delivery → Db → Db × Result ℕ
unfolding update_where
update_delivery now d db = (
  record db { deliveries = update_where (λ r. r.id == d.id) (set_columns now d) db.deliveries },
  ok now,
)

-- The page size and the page number that `ListDeliveries` and `ListChangeLogs` use.
unfoldable pub page_limit : ℤ → ℕ
page_limit (pos n) = if n == 0 || ltb 1000 n then 100 else n
page_limit (negsuc n) = 100

unfoldable pub page_number : ℤ → ℕ
page_number (pos n) = if n == 0 then 1 else n
page_number (negsuc n) = 1

-- OFFSET (page - 1) * limit, which wraps as an int64; SQLite takes a negative one as 0.
unfoldable pub page_offset : ℤ → ℤ → ℕ
unfolding page_limit page_number
page_offset page limit =
    let o = (page_number page - 1) * page_limit limit % 18446744073709551616 in
    if ltb o 9223372036854775808 then o else 0

-- The two optional conditions: a positive event, a status that is not empty.
abbrev pub of_event : ℤ → ℕ → Bool
of_event (pos n) event_id = n == 0 || n == event_id
of_event (negsuc n) event_id = true

abbrev pub listed : ℤ → Text → Delivery → Bool
listed event_id status d =
    of_event event_id d.event_id
    && (text_eq status [] || text_eq (delivery_status_text d.status) status)

unfoldable pub list_deliveries : ℤ → Text → ℤ → ℤ → Db → Result (List Delivery)
unfolding select_where page_limit page_offset text_eq delivery_status_text
list_deliveries event_id status page limit db = ok (
    take (page_limit limit)
      (drop (page_offset page limit) (select_where (listed event_id status) db.deliveries)))

unfoldable pub list_by_event : ℕ → Db → Result (List Delivery)
unfolding list_deliveries
list_by_event event_id db = list_deliveries (pos event_id) [] (pos 1) (pos 1000) db

-- The statuses of which `DueDeliveries` asks.
abbrev pub may_retry : DeliveryStatus → Bool
may_retry failed = true
may_retry retrying = true
may_retry _ = false

module _ (conn : Conn) where
  abbrev pub text_le : ℕ → ℕ → Bool
  text_le a b = elim (compare_text (conn.format_time a) (conn.format_time b)) [
    | Ordering.gt ↦ false
    | _ ↦ true
  ]

  abbrev pub planned_by : ℕ → Option ℕ → Bool
  planned_by now none = false
  planned_by now (some t) = text_le t now

  -- The conditions of `DueDeliveries`; times are compared by their RFC 3339 texts.
  abbrev pub is_due : ℕ → Delivery → Bool
  is_due now d = may_retry d.status && planned_by now d.next_retry_at

  abbrev pub earlier : Option ℕ → Option ℕ → Bool
  earlier (some a) (some b) = elim (compare_text (conn.format_time a) (conn.format_time b)) [
    | Ordering.lt ↦ true
    | _ ↦ false
  ]
  earlier _ _ = false

  unfoldable pub due_deliveries : ℕ → ℕ → Db → Result (List Delivery)
  unfolding select_where order_by compare_text
  due_deliveries now_unix limit db = ok (
      take limit (
        order_by (λ a b. earlier a.next_retry_at b.next_retry_at)
          (select_where (is_due (unix_epoch + now_unix * second)) db.deliveries)))

-- Both times of the row are the time of the insertion, for which one reading stands here.
unfoldable pub create_delivery_attempt : ℕ → DeliveryAttempt → Db → Db × Result ℕ
unfolding find is_some
create_delivery_attempt now a db =
    let id = db.last_attempt + 1 in
    if is_some (find (λ d. d.id == a.delivery_id) db.deliveries)
    then (
      record db {
        attempts = db.attempts ++ record a { id = id; started_at = now; finished_at = now } ∷ [];
        last_attempt = id;
      },
      ok id,
    )
    else (db, err (other (codes "constraint failed")))

unfoldable pub list_by_delivery : ℕ → Db → Result (List DeliveryAttempt)
unfolding select_where
list_by_delivery delivery_id db = ok (select_where (λ a. a.delivery_id == delivery_id) db.attempts)
