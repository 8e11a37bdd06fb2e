-- ===== src/Sqlite/Configured/Kept.antt =====
-- What the writes of sources, targets and rules keep in the SQLite store.
use webhook_event_route.Prelude.{ℕ, refl}
use webhook_event_route.Domain.{ChangeLog}
use webhook_event_route.Store.Kept.{IsConfigKept}
use webhook_event_route.Sqlite.Tables.{Db}
use webhook_event_route.Sqlite.Tx.{Pool}
use webhook_event_route.Sqlite.Tx.Aside.{
  SameTraffic, traffic_order, insert_source-IsAside, change_source-IsAside, remove_source-IsAside,
  insert_target-IsAside, change_target-IsAside, remove_target-IsAside, insert_rule-IsAside,
  change_rule-IsAside, remove_rule-IsAside, clear_targets-IsAside, insert_rule_target-IsAside,
}
use webhook_event_route.Sqlite.Tx.Writes.{
  StatementEffects, create_source_related, update_source_related, delete_source_related,
  create_target_related, update_target_related, delete_target_related, create_rule_related,
  update_rule_related, delete_rule_related,
}
use webhook_event_route.Sqlite.Audit.{Host, create_change_log}
use webhook_event_route.Sqlite.Configured.{sqlite_resources}

log_same : (now : ℕ) (cl : ChangeLog) (db : Db) → SameTraffic db (create_change_log now cl db).0
unfolding create_change_log
log_same now cl db = record {
  events = refl;
  last_event = refl;
  deliveries = refl;
  last_delivery = refl;
  attempts = refl;
}

traffic_effects : StatementEffects SameTraffic
traffic_effects = record {
  order = traffic_order;
  of_insert_source = λ now src d d' a h. (insert_source-IsAside now src d d' a h).traffic;
  of_change_source = λ now src d d' a h. (change_source-IsAside now src d d' a h).traffic;
  of_remove_source = λ id d d' a h. (remove_source-IsAside id d d' a h).traffic;
  of_insert_target = λ now t d d' a h. (insert_target-IsAside now t d d' a h).traffic;
  of_change_target = λ now t d d' a h. (change_target-IsAside now t d d' a h).traffic;
  of_remove_target = λ id d d' a h. (remove_target-IsAside id d d' a h).traffic;
  of_insert_rule = λ now r d d' a h. (insert_rule-IsAside now r d d' a h).traffic;
  of_change_rule = λ now r d d' a h. (change_rule-IsAside now r d d' a h).traffic;
  of_remove_rule = λ id d d' a h. (remove_rule-IsAside id d d' a h).traffic;
  of_insert_rule_target = λ id tid d d' a h. (insert_rule_target-IsAside id tid d d' a h).traffic;
  of_clear_targets = λ id d d' a h. (clear_targets-IsAside id d d' a h).traffic;
  of_log = log_same;
}

module _ (host : Host) (pool : Pool) (P : Db → Type 0) where
  -- A predicate that every statement keeps.
  pub statements_kept :
      StatementEffects (λ d d'. P d → P d') → IsConfigKept (sqlite_resources host pool) P
  statements_kept e = record {
    by_create_source = λ now a s p. create_source_related _ e host now s a p;
    by_update_source = λ now a s p. update_source_related _ e host now s pool a p;
    by_delete_source = λ now id s p. delete_source_related _ e host now s pool id p;
    by_create_target = λ now a s p. create_target_related _ e host now s a p;
    by_update_target = λ now a s p. update_target_related _ e host now s pool a p;
    by_delete_target = λ now id s p. delete_target_related _ e host now s pool id p;
    by_create_rule = λ now a s p. create_rule_related _ e host now s a p;
    by_update_rule = λ now a s p. update_rule_related _ e host now s pool a p;
    by_delete_rule = λ now id s p. delete_rule_related _ e host now s pool id p;
  }

  -- A predicate on the rows of the traffic.
  pub traffic_kept :
      ((d d' : Db) → SameTraffic d d' → P d → P d') → IsConfigKept (sqlite_resources host pool) P
  traffic_kept respects = record {
    by_create_source =
        λ now a s. respects _ _ (create_source_related _ traffic_effects host now s a);
    by_update_source =
        λ now a s. respects _ _ (update_source_related _ traffic_effects host now s pool a);
    by_delete_source =
        λ now id s. respects _ _ (delete_source_related _ traffic_effects host now s pool id);
    by_create_target =
        λ now a s. respects _ _ (create_target_related _ traffic_effects host now s a);
    by_update_target =
        λ now a s. respects _ _ (update_target_related _ traffic_effects host now s pool a);
    by_delete_target =
        λ now id s. respects _ _ (delete_target_related _ traffic_effects host now s pool id);
    by_create_rule = λ now a s. respects _ _ (create_rule_related _ traffic_effects host now s a);
    by_update_rule =
        λ now a s. respects _ _ (update_rule_related _ traffic_effects host now s pool a);
    by_delete_rule =
        λ now id s. respects _ _ (delete_rule_related _ traffic_effects host now s pool id);
  }
