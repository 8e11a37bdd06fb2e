-- ===== src/Httpapi/History/Formed.antt =====
-- The constraints of the schema hold throughout the history of the service on the SQLite store.
use webhook_event_route.Sqlite.Conn.{Conn}
use webhook_event_route.Runtime.{Runtime}
use webhook_event_route.Config.{Config}
use webhook_event_route.Dispatcher.Operated.{operated}
use webhook_event_route.Dispatcher.World.{Env}
use webhook_event_route.Sqlite.Tables.{Db}
use webhook_event_route.Sqlite.Tx.{Pool}
use webhook_event_route.Sqlite.Audit.{Host}
use webhook_event_route.Sqlite.Instance.{sqlite_store}
use webhook_event_route.Sqlite.Configured.{sqlite_resources}
use webhook_event_route.Sqlite.Configured.Kept.{traffic_kept}
use webhook_event_route.Sqlite.Invariant.{IsWellFormed}
use webhook_event_route.Sqlite.Invariant.Kept.{formed_kept, formed_configured}
use webhook_event_route.Sqlite.Intact.{IsIntact}
use webhook_event_route.Sqlite.Intact.Kept.{IsIntact-configured}
use webhook_event_route.Sqlite.Intact.Traffic.{IsIntact-kept}
use webhook_event_route.Httpapi.Events.{Server}
use webhook_event_route.Httpapi.Api.{Decoders}
use webhook_event_route.Httpapi.History.{Later, Later_kept}

module _ (lib : Runtime) (dec : Decoders) (conn : Conn) (host : Host) (pool : Pool) (cfg : Config)
    (env : Env) (s t : Server Db)
    (later : Later lib dec (sqlite_store conn) (sqlite_resources host pool) cfg env s t) where
  -- On the SQLite store, whatever calls of the interface and retries come: the identifiers of events
  -- and deliveries stay unique and at most the last one given out, no two events get the same source
  -- and event_id, each delivery is of a stored event, and each attempt of a stored delivery.
  pub service-IsWellFormed : IsWellFormed s.world.db → IsWellFormed t.world.db
  service-IsWellFormed =
      Later_kept lib dec (sqlite_store conn) (sqlite_resources host pool) cfg env IsWellFormed
        (operated (sqlite_store conn) cfg env IsWellFormed (formed_kept conn))
        (traffic_kept host pool IsWellFormed formed_configured) s t later

  -- On the SQLite store, whatever calls of the interface and retries come: the identifiers of sources,
  -- targets and rules stay unique and at most the last one given out; the source of each event and
  -- rule, the targets of each rule, and the rule and the target of each delivery stay stored.
  pub service-IsIntact : IsIntact s.world.db → IsIntact t.world.db
  service-IsIntact =
      Later_kept lib dec (sqlite_store conn) (sqlite_resources host pool) cfg env IsIntact
        (operated (sqlite_store conn) cfg env IsIntact (IsIntact-kept conn))
        (IsIntact-configured host pool) s t later
