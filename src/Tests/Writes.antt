-- ===== src/Tests/Writes.antt =====
-- The writes of sources, targets and rules on a small database.
use mathlib.Core.List.{reverse}
use webhook_event_route.Prelude.{◌+◌, true, take, ◌*◌, arith, ◌≡◌, refl, pos, []}
use webhook_event_route.Store.{ok}
use webhook_event_route.Sqlite.Tx.Single.{WritesFail, single-WritesFail}
use webhook_event_route.Sqlite.Sources.{update_source}
use webhook_event_route.Sqlite.Rules.Writes.{create_rule}
use webhook_event_route.Sqlite.Audit.Trail.Writes.{AreRecorded, writes-IsRecorded}
use webhook_event_route.Sqlite.Tables.{select_where}
use webhook_event_route.Sqlite.Deliveries.{listed, list_deliveries}
use webhook_event_route.Sqlite.Audit.{log_listed, list_change_logs}
use webhook_event_route.Sqlite.Pages.{pages, list_pages}
use webhook_event_route.Tests.Samples.{source, target, rule, db, host, noon}

single-WritesFail_example : WritesFail host noon db
single-WritesFail_example = single-WritesFail host noon db

-- With a spare connection the same update succeeds.
update_source_spare :
    (update_source host (record { spare = true }) noon source db).1 ≡ ok (noon + 1)
unfolding update_source
update_source_spare = refl

create_rule_assigned : (create_rule host noon rule db).1 ≡ ok (record { id = 8; at = noon + 1 })
unfolding create_rule
create_rule_assigned = refl

writes-IsRecorded_example :
    AreRecorded host noon db (record { spare = true }) source (target 5 []) rule (pos 7)
writes-IsRecorded_example =
    writes-IsRecorded host noon db (record { spare = true }) source (target 5 []) rule (pos 7)

list_pages_example :
    (pages (λ p. list_deliveries (pos 0) [] p (pos 1) db) 2
      ≡ take (2 * 1) (select_where (listed (pos 0) []) db.deliveries))
    × (pages (λ p. list_change_logs [] (pos 0) p (pos 1) db) 2
        ≡ take (2 * 1) (reverse (select_where (log_listed [] (pos 0)) db.change_logs)))
list_pages_example =
    list_pages db 1 2 (pos 0) [] [] (pos 0) (omega arith) (omega arith) (omega arith)
