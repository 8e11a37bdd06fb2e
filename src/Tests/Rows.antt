-- ===== src/Tests/Rows.antt =====
-- The table of texts for a small database.
use webhook_event_route.Prelude.{
  ℕ, ◌≡◌, refl, true, Option, none, some, List, [], ◌∷◌, ◌++◌, In, inl, inr, arith, Text,
}
use webhook_event_route.Domain.{Delivery, retrying}
use webhook_event_route.Store.{ok}
use webhook_event_route.Sqlite.Tables.{Db}
use webhook_event_route.Sqlite.Deliveries.{
  may_insert_delivery, create_delivery, update_delivery, due_deliveries,
}
use webhook_event_route.Sqlite.Rows.{insert_row, update_rows, due_rows, scan_all}
use webhook_event_route.Sqlite.Rows.Refine.{rows_of, IsDated, rows_refine}
use webhook_event_route.Tests.Samples.{db, noon, delivery, dead_delivery, conn}

-- Reads what `format_time` of these tests writes.
abbrev read_time : Text → Option ℕ
read_time [] = none
read_time (t ∷ rest) = some t

abbrev two_rows : Db
two_rows = record db {
  deliveries =
      record delivery { id = 1; status = retrying; next_retry_at = some noon }
      ∷ record dead_delivery { id = 2 }
      ∷ [];
  last_delivery = 2;
}

two_rows-IsDated : (d : Delivery) → In d two_rows.deliveries → IsDated d
two_rows-IsDated d (inl e) = rw e (record {
  planned = λ t p. ground arith;
  died = λ t p. ground arith;
  created = omega arith;
  updated = omega arith;
})
two_rows-IsDated d (inr (inl e)) = rw e (record {
  planned = λ t p. ground arith;
  died = λ t p. ground arith;
  created = omega arith;
  updated = omega arith;
})
two_rows-IsDated d (inr (inr m)) = elim m [ ]

rows_refine_example :
    (scan_all read_time (rows_of conn two_rows.deliveries) ≡ some two_rows.deliveries)
    × ((now : ℕ) (d : Delivery)
        → update_rows conn now d (rows_of conn two_rows.deliveries)
          ≡ rows_of conn (update_delivery now d two_rows).0.deliveries)
    × ((now : ℕ) (d : Delivery)
        → may_insert_delivery d two_rows ≡ true
        → rows_of conn two_rows.deliveries ++ insert_row conn 3 now d ∷ []
          ≡ rows_of conn (create_delivery conn now d two_rows).0.deliveries)
    × ((now_unix limit : ℕ) (due : List Delivery)
        → due_deliveries conn now_unix limit two_rows ≡ ok due
        → scan_all read_time (due_rows conn now_unix limit (rows_of conn two_rows.deliveries))
          ≡ some due)
rows_refine_example = rows_refine conn read_time (λ t dated. refl) two_rows two_rows-IsDated
