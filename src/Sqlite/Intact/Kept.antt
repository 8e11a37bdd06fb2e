-- ===== src/Sqlite/Intact/Kept.antt =====
-- Every statement on sources, targets and rules keeps the foreign keys.
use webhook_event_route.Prelude.{ℕ}
use webhook_event_route.Domain.{ChangeLog}
use webhook_event_route.Store.Kept.{IsConfigKept}
use webhook_event_route.Sqlite.Tables.{Db}
use webhook_event_route.Sqlite.Tx.{Pool}
use webhook_event_route.Sqlite.Tx.Writes.{StatementEffects}
use webhook_event_route.Sqlite.Audit.{Host, create_change_log}
use webhook_event_route.Sqlite.Configured.{sqlite_resources}
use webhook_event_route.Sqlite.Configured.Kept.{statements_kept}
use webhook_event_route.Sqlite.Intact.{Keeps, IsIntact}
use webhook_event_route.Sqlite.Intact.Sources.{
  insert_source_intact, change_source_intact, remove_source_intact,
}
use webhook_event_route.Sqlite.Intact.Targets.{
  insert_target_intact, change_target_intact, remove_target_intact,
}
use webhook_event_route.Sqlite.Intact.Rules.{
  insert_rule_intact, change_rule_intact, remove_rule_intact,
}
use webhook_event_route.Sqlite.Intact.Pairs.{clear_targets_intact, insert_rule_target_intact}

log_intact : (now : ℕ) (cl : ChangeLog) (db : Db) → Keeps db (create_change_log now cl db).0
unfolding create_change_log
log_intact now cl db i = record {
  source_table = i.source_table;
  target_table = i.target_table;
  rule_table = i.rule_table;
  event_sources = i.event_sources;
  rule_sources = i.rule_sources;
  rule_targets = i.rule_targets;
  pair_rules = i.pair_rules;
  pair_targets = i.pair_targets;
  delivery_rules = i.delivery_rules;
  delivery_targets = i.delivery_targets;
}

intact_effects : StatementEffects Keeps
intact_effects = record {
  order = record { same = λ db i. i; join = λ a b c p q i. q (p i) };
  of_insert_source = insert_source_intact;
  of_change_source = change_source_intact;
  of_remove_source = remove_source_intact;
  of_insert_target = insert_target_intact;
  of_change_target = change_target_intact;
  of_remove_target = remove_target_intact;
  of_insert_rule = insert_rule_intact;
  of_change_rule = change_rule_intact;
  of_remove_rule = remove_rule_intact;
  of_insert_rule_target = insert_rule_target_intact;
  of_clear_targets = clear_targets_intact;
  of_log = log_intact;
}

pub IsIntact-configured :
    (host : Host) (pool : Pool) → IsConfigKept (sqlite_resources host pool) IsIntact
IsIntact-configured host pool = statements_kept host pool IsIntact intact_effects
