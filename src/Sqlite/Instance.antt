-- ===== src/Sqlite/Instance.antt =====
-- The SQLite store as an implementation of the store interface.
use webhook_event_route.Store.{Store}
use webhook_event_route.Sqlite.Conn.{Conn}
use webhook_event_route.Sqlite.Tables.{Db}
use webhook_event_route.Sqlite.Events.{
  get_source, get_target, create_event, get_event, get_by_key, update_status,
}
use webhook_event_route.Sqlite.Deliveries.{
  create_delivery, get_delivery, update_delivery, due_deliveries, create_delivery_attempt,
}
use webhook_event_route.Sqlite.Rules.{list_enabled_rules}

abbrev pub sqlite_store : Conn → Store Db
sqlite_store conn = record {
  get_source = get_source;
  get_target = get_target;
  list_enabled_rules = λ db. list_enabled_rules (conn.rules_error db) db;
  create_event = create_event conn;
  get_event = get_event;
  get_by_key = get_by_key;
  update_status = update_status;
  create_delivery = create_delivery conn;
  get_delivery = get_delivery;
  update_delivery = update_delivery;
  due_deliveries = due_deliveries conn;
  create_delivery_attempt = create_delivery_attempt;
}
