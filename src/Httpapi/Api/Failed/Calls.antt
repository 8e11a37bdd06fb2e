-- ===== src/Httpapi/Api/Failed/Calls.antt =====
-- The calls of the interface that are answered with an error status.
use webhook_event_route.Sqlite.Conn.{Conn}
use webhook_event_route.Runtime.{Runtime}
use webhook_event_route.Config.{Config}
