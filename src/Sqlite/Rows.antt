-- ===== src/Sqlite/Rows.antt =====
-- internal/store/sqlite/delivery_store.go: the rows of `deliveries` as the schema declares them, with
-- texts for statuses and times, and the statements on them. The time texts are those of
-- `Format(time.RFC3339Nano)` and `time.Parse`, which are arguments.
pub mod Refine
use Prim.Native.Nat.{Ordering}
use webhook_event_route.Sqlite.Conn.{Conn}
use webhook_event_route.Prelude.{
  ℕ, ◌+◌, ◌*◌, Bool, true, false, ◌&&◌, ◌||◌, Option, none, some, List, [], ◌∷◌, ◌++◌, ◌==◌,
  if◌then◌else◌, take, Text, codes, text_eq, compare_text,
}
use webhook_event_route.Domain.{
  Delivery, DeliveryStatus, pending, sent, delivered, failed, retrying, dead, second, unix_epoch,
}
use webhook_event_route.Metrics.{delivery_status_text}
use webhook_event_route.Sqlite.Tables.{update_where, select_where, order_by}

pub record DeliveryRow : Type 0 where
  pub id : ℕ
  pub event_id : ℕ
  pub rule_id : ℕ
  pub target_id : ℕ
  pub status : Text
  pub attempts : ℕ
  pub next_retry_at : Option Text
  pub dead_at : Option Text
  pub last_error : Text
  pub created_at : Text
  pub updated_at : Text

-- The constants of the statuses of a delivery. The statements store no other text.
unfoldable pub status_of_text : Text → Option DeliveryStatus
unfolding text_eq
status_of_text t =
    if text_eq t (codes "pending")
    then some pending
    else if text_eq t (codes "sent")
    then some sent
    else if text_eq t (codes "delivered")
    then some delivered
    else if text_eq t (codes "failed")
    then some failed
    else if text_eq t (codes "retrying")
    then some retrying
    else if text_eq t (codes "dead")
    then some dead
    else none

-- `status IN ('failed','retrying')`
unfoldable pub waits : Text → Bool
unfolding text_eq
waits t = text_eq t (codes "failed") || text_eq t (codes "retrying")

-- `<=` and `<` on texts; a comparison with NULL does not hold.
abbrev pub text_at_most : Text → Option Text → Bool
text_at_most bound none = false
text_at_most bound (some t) = elim (compare_text t bound) [ Ordering.gt ↦ false | _ ↦ true ]

abbrev pub text_before : Option Text → Option Text → Bool
text_before (some a) (some b) = elim (compare_text a b) [ Ordering.lt ↦ true | _ ↦ false ]
text_before _ _ = false

module _ (conn : Conn) where
  abbrev pub nullable_time : Option ℕ → Option Text
  nullable_time none = none
  nullable_time (some t) = some (conn.format_time t)

  -- The row that `CreateDelivery` inserts.
  abbrev pub insert_row : ℕ → ℕ → Delivery → DeliveryRow
  insert_row id now d = record {
    id = id;
    event_id = d.event_id;
    rule_id = d.rule_id;
    target_id = d.target_id;
    status = delivery_status_text d.status;
    attempts = d.attempts;
    next_retry_at = nullable_time d.next_retry_at;
    dead_at = nullable_time d.dead_at;
    last_error = d.last_error;
    created_at = conn.format_time now;
    updated_at = conn.format_time (conn.next_reading now);
  }

  -- The columns that `UpdateDelivery` sets.
  abbrev pub set_texts : ℕ → Delivery → DeliveryRow → DeliveryRow
  set_texts now d old = record old {
    status = delivery_status_text d.status;
    attempts = d.attempts;
    next_retry_at = nullable_time d.next_retry_at;
    dead_at = nullable_time d.dead_at;
    last_error = d.last_error;
    updated_at = conn.format_time now;
  }

  unfoldable pub update_rows : ℕ → Delivery → List DeliveryRow → List DeliveryRow
  unfolding update_where
  update_rows now d rows = update_where (λ r. r.id == d.id) (set_texts now d) rows

  -- The condition, the order and the limit of `DueDeliveries`.
  unfoldable pub due_rows : ℕ → ℕ → List DeliveryRow → List DeliveryRow
  unfolding select_where order_by waits compare_text
  due_rows now_unix limit rows =
      let bound = conn.format_time (unix_epoch + now_unix * second) in
      take limit (
        order_by (λ a b. text_before a.next_retry_at b.next_retry_at)
          (select_where (λ r. waits r.status && text_at_most bound r.next_retry_at) rows))

-- The first time of the year 10000, which RFC 3339 does not write.
abbrev pub year_10000 : ℕ
year_10000 = 3652059 * 86400 * second

module _ (parse : Text → Option ℕ) where
  -- `parseTime`: a text that is no time is the zero time.
  abbrev pub parse_time : Text → ℕ
  parse_time t = elim (parse t) [ none ↦ 0 | some at ↦ at ]

  abbrev pub scan_time : Option Text → Option ℕ
  scan_time none = none
  scan_time (some t) = some (parse_time t)

  unfoldable pub scan_delivery : DeliveryRow → Option Delivery
  unfolding status_of_text
  scan_delivery r = elim (status_of_text r.status) [
    | none ↦ none
    | some status ↦ some (record {
      id = r.id;
      event_id = r.event_id;
      rule_id = r.rule_id;
      target_id = r.target_id;
      status = status;
      attempts = r.attempts;
      next_retry_at = scan_time r.next_retry_at;
      last_error = r.last_error;
      dead_at = scan_time r.dead_at;
      created_at = parse_time r.created_at;
      updated_at = parse_time r.updated_at;
    })
  ]

  -- The loop over the rows of a SELECT.
  unfoldable pub scan_all : List DeliveryRow → Option (List Delivery)
  unfolding scan_delivery
  scan_all [] = some []
  scan_all (r ∷ rows) =
      let rest = scan_all rows in
      elim (scan_delivery r) [
        | none ↦ none
        | some d ↦ elim rest [ none ↦ none | some ds ↦ some (d ∷ ds) ]
      ]
