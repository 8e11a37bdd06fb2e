-- ===== src/Sqlite/Configured.antt =====
-- The SQLite store as an implementation of the interfaces behind the handlers.
pub mod Kept
use webhook_event_route.Prelude.{ℕ, Text}
use webhook_event_route.Store.Resources.{Resources}
use webhook_event_route.Sqlite.Tables.{Db}
use webhook_event_route.Sqlite.Tx.{Pool}
use webhook_event_route.Sqlite.Audit.{Host, list_change_logs}
use webhook_event_route.Sqlite.Sources.{create_source, list_sources, update_source, delete_source}
use webhook_event_route.Sqlite.Targets.{create_target, list_targets, update_target, delete_target}
use webhook_event_route.Sqlite.Rules.{list_rules, get_rule}
use webhook_event_route.Sqlite.Rules.Writes.{create_rule, update_rule, delete_rule}
use webhook_event_route.Sqlite.Deliveries.{list_by_event, list_deliveries, list_by_delivery}

abbrev pub sqlite_resources : Host → Pool → Resources Db
sqlite_resources host pool = record {
  create_source = create_source host;
  list_sources = list_sources;
  update_source = update_source host pool;
  delete_source = delete_source host pool;
  create_target = create_target host;
  list_targets = list_targets;
  update_target = update_target host pool;
  delete_target = delete_target host pool;
  create_rule = create_rule host;
  list_rules = list_rules;
  get_rule = get_rule;
  update_rule = update_rule host pool;
  delete_rule = delete_rule host pool;
  list_by_event = list_by_event;
  list_deliveries = list_deliveries;
  list_by_delivery = list_by_delivery;
  list_change_logs = list_change_logs;
}
