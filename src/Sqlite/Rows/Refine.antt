-- ===== src/Sqlite/Rows/Refine.antt =====
-- The statements on the rows of `deliveries` do what the model does with the structs.
use webhook_event_route.Sqlite.Conn.{Conn}
use webhook_event_route.Prelude.{
  ℕ, ◌+◌, ◌*◌, ◌≡◌, refl, sym, ap, ◌∙◌, Bool, true, Option, none, some, List, [], ◌∷◌, ◌++◌, ◌==◌,
  map, take, Text, inl, inr, ◌&&◌, ◌<◌, In,
}
use webhook_event_route.Domain.{
  Delivery, DeliveryStatus, pending, sent, delivered, failed, retrying, dead, second, unix_epoch,
}
use webhook_event_route.Metrics.{delivery_status_text}
use webhook_event_route.Store.{ok, err}
use webhook_event_route.Sqlite.Tables.{Db, select_where, order_by}
use webhook_event_route.Sqlite.Tables.Images.{
  select_where-map, order_by-map, take-map, update_where-map,
}
use webhook_event_route.Sqlite.Deliveries.{
  may_retry, planned_by, earlier, may_insert_delivery, set_columns, is_due, create_delivery,
  update_delivery, due_deliveries,
}
use webhook_event_route.Sqlite.Invariant.{map-append}
use webhook_event_route.Sqlite.Settled.{due-In}
use webhook_event_route.Sqlite.Rows.{
  DeliveryRow, status_of_text, waits, text_at_most, text_before, nullable_time, insert_row,
  set_texts, update_rows, due_rows, year_10000, parse_time, scan_time, scan_delivery, scan_all,
}

status_of-status_text : (s : DeliveryStatus) → status_of_text (delivery_status_text s) ≡ some s
unfolding status_of_text delivery_status_text
status_of-status_text pending = refl
status_of-status_text sent = refl
status_of-status_text delivered = refl
status_of-status_text failed = refl
status_of-status_text retrying = refl
status_of-status_text dead = refl

waits-status_text : (s : DeliveryStatus) → waits (delivery_status_text s) ≡ may_retry s
unfolding waits delivery_status_text
waits-status_text pending = refl
waits-status_text sent = refl
waits-status_text delivered = refl
waits-status_text failed = refl
waits-status_text retrying = refl
waits-status_text dead = refl

-- The times of a delivery are before the year 10000.
pub record IsDated (d : Delivery) : Type 0 where
  pub planned : (t : ℕ) → d.next_retry_at ≡ some t → t < year_10000
  pub died : (t : ℕ) → d.dead_at ≡ some t → t < year_10000
  pub created : d.created_at < year_10000
  pub updated : d.updated_at < year_10000

module _ (conn : Conn) where
  -- The row of a delivery.
  abbrev pub row_of : Delivery → DeliveryRow
  row_of d = record (insert_row conn d.id d.created_at d) {
    updated_at = conn.format_time d.updated_at;
  }

  abbrev pub rows_of : List Delivery → List DeliveryRow
  rows_of = map row_of

  at_most-nullable :
      (now : ℕ) (t : Option ℕ)
      → text_at_most (conn.format_time now) (nullable_time conn t) ≡ planned_by conn now t
  at_most-nullable now none = refl
  at_most-nullable now (some t) = refl

  before-nullable :
      (a b : Option ℕ)
      → text_before (nullable_time conn a) (nullable_time conn b) ≡ earlier conn a b
  before-nullable none b = refl
  before-nullable (some a) none = refl
  before-nullable (some a) (some b) = refl

  due-rows_of :
      (now_unix limit : ℕ) (db : Db) (due : List Delivery)
      → due_deliveries conn now_unix limit db ≡ ok due
      → due_rows conn now_unix limit (rows_of db.deliveries) ≡ rows_of due
  unfolding due_rows due_deliveries
  due-rows_of now_unix limit db due e =
      let now = unix_epoch + now_unix * second in
      let less : Delivery → Delivery → Bool = λ a b. earlier conn a.next_retry_at b.next_retry_at in
      let chosen = select_where (is_due conn now) db.deliveries in
      let same : take limit (order_by less chosen) ≡ due =
        ap (λ r. elim r [ ok l ↦ l | err f ↦ due ]) e in
      let passes =
        select_where-map row_of
          (λ r. waits r.status && text_at_most (conn.format_time now) r.next_retry_at)
          (is_due conn now) db.deliveries
          (λ d. rw (waits-status_text d.status, at_most-nullable now d.next_retry_at) refl) in
      let ordered =
        order_by-map row_of (λ a b. text_before a.next_retry_at b.next_retry_at) less chosen
          (λ a b. before-nullable a.next_retry_at b.next_retry_at) in
      rw (passes, ordered) (take-map row_of limit (order_by less chosen) ∙ ap rows_of same)

  update-rows_of :
      (now : ℕ) (d : Delivery) (db : Db)
      → update_rows conn now d (rows_of db.deliveries)
        ≡ rows_of (update_delivery now d db).0.deliveries
  unfolding update_rows update_delivery
  update-rows_of now d db =
      update_where-map row_of (λ r. r.id == d.id) (λ r. r.id == d.id) (set_texts conn now d)
        (set_columns now d) db.deliveries (λ x. refl) (λ x. refl)

  insert-rows_of :
      (now : ℕ) (d : Delivery) (db : Db)
      → may_insert_delivery d db ≡ true
      → rows_of db.deliveries ++ insert_row conn (db.last_delivery + 1) now d ∷ []
        ≡ rows_of (create_delivery conn now d db).0.deliveries
  unfolding create_delivery
  insert-rows_of now d db fits =
      let new = record d {
        id = db.last_delivery + 1;
        created_at = now;
        updated_at = conn.next_reading now;
      } in
      rw (fits, create_delivery) (sym (map-append row_of db.deliveries (new ∷ [])))

  module _ (parse : Text → Option ℕ)
      (read_back : (t : ℕ) → t < year_10000 → parse (conn.format_time t) ≡ some t) where
    parse-format_time : (t : ℕ) → t < year_10000 → parse_time parse (conn.format_time t) ≡ t
    parse-format_time t dated = ap (λ o. elim o [ none ↦ 0 | some at ↦ at ]) (read_back t dated)

    scan-nullable :
        (t : Option ℕ)
        → ((x : ℕ) → t ≡ some x → x < year_10000)
        → scan_time parse (nullable_time conn t) ≡ t
    scan-nullable none dated = refl
    scan-nullable (some t) dated = ap some (parse-format_time t (dated t refl))

    scan-row_of : (d : Delivery) → IsDated d → scan_delivery parse (row_of d) ≡ some d
    unfolding scan_delivery
    scan-row_of d dated =
        rw
          (
            status_of-status_text d.status,
            scan-nullable d.next_retry_at dated.planned,
            scan-nullable d.dead_at dated.died,
            parse-format_time d.created_at dated.created,
            parse-format_time d.updated_at dated.updated,
            scan_delivery,
          )
          refl

    scan_all-rows_of :
        (ds : List Delivery)
        → ((d : Delivery) → In d ds → IsDated d)
        → scan_all parse (rows_of ds) ≡ some ds
    unfolding scan_all
    scan_all-rows_of [] dated = refl
    scan_all-rows_of (d ∷ ds) dated =
        rw
          (
            scan-row_of d (dated d (inl refl)),
            scan_all-rows_of ds (λ x m. dated x (inr m)),
            scan_all,
          )
          refl

    -- Where `time.Parse` reads what `Format` writes of the times before the year 10000, and the stored
    -- deliveries have such times: the table of texts stands for the table of structs. Its rows are
    -- scanned as the deliveries; the UPDATE of a delivery, and the INSERT of one whose references are
    -- stored, lead to the rows of the deliveries that the model's statements lead to; and the rows that
    -- the SELECT of the due ones finds, in its order and up to its limit, are scanned as the deliveries
    -- that the model's statement finds.
    pub rows_refine :
        (db : Db)
        → ((d : Delivery) → In d db.deliveries → IsDated d)
        → (scan_all parse (rows_of db.deliveries) ≡ some db.deliveries)
          × ((now : ℕ) (d : Delivery)
              → update_rows conn now d (rows_of db.deliveries)
                ≡ rows_of (update_delivery now d db).0.deliveries)
          × ((now : ℕ) (d : Delivery)
              → may_insert_delivery d db ≡ true
              → rows_of db.deliveries ++ insert_row conn (db.last_delivery + 1) now d ∷ []
                ≡ rows_of (create_delivery conn now d db).0.deliveries)
          × ((now_unix limit : ℕ) (due : List Delivery)
              → due_deliveries conn now_unix limit db ≡ ok due
              → scan_all parse (due_rows conn now_unix limit (rows_of db.deliveries)) ≡ some due)
    rows_refine db dated = (
      scan_all-rows_of db.deliveries dated,
      λ now d. update-rows_of now d db,
      λ now d fits. insert-rows_of now d db fits,
      λ now_unix limit due e.
          rw (due-rows_of now_unix limit db due e)
            (scan_all-rows_of due (λ d m. dated d (due-In conn now_unix limit db due e d m).0)),
    )
