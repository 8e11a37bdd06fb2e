-- ===== src/Httpapi/History/Sound.antt =====
-- Every stored delivery is sound throughout the history of the service on the SQLite store.
use webhook_event_route.Sqlite.Conn.{Conn}
use webhook_event_route.Prelude.{◌<◌}
use webhook_event_route.Runtime.{Runtime}
use webhook_event_route.Config.{Config}
use webhook_event_route.Dispatcher.World.{Env}
use webhook_event_route.Sqlite.Tables.{Db}
use webhook_event_route.Sqlite.Tx.{Pool}
use webhook_event_route.Sqlite.Audit.{Host}
use webhook_event_route.Sqlite.Instance.{sqlite_store}
use webhook_event_route.Sqlite.Configured.{sqlite_resources}
use webhook_event_route.Sqlite.Configured.Kept.{traffic_kept}
use webhook_event_route.Sqlite.Tx.Aside.{SameTraffic}
use webhook_event_route.Sqlite.Sound.{AreSound}
use webhook_event_route.Sqlite.Sound.Operations.{HasSound, HasSound-IsOperated}
use webhook_event_route.Httpapi.Events.{Server}
use webhook_event_route.Httpapi.Api.{Decoders}
use webhook_event_route.Httpapi.History.{Later, Later_kept}

module _ (lib : Runtime) (dec : Decoders) (conn : Conn) (host : Host) (pool : Pool) (cfg : Config)
    (env : Env) where
  configured-HasSound :
      (d d' : Db) → SameTraffic d d' → HasSound conn cfg env d → HasSound conn cfg env d'
  configured-HasSound d d' same all = λ x m. all x (rw same.deliveries at m)

  -- On the SQLite store, where at least one attempt is allowed and all deliveries are sound at first:
  -- whatever calls of the interface and turns of the worker come, and whatever clock and network do,
  -- every stored delivery is sound. One that is dead has its time of death and no try planned; one
  -- that is retrying has a try planned, attempts left and no time of death; one that is pending or
  -- delivered has no time of death; and no delivery has the status sent or failed.
  pub service-AreSound :
      (s t : Server Db)
      → Later lib dec (sqlite_store conn) (sqlite_resources host pool) cfg env s t
      → 0 < cfg.max_retries
      → AreSound cfg.max_retries s.world.db.deliveries
      → AreSound cfg.max_retries t.world.db.deliveries
  service-AreSound s t later some_try =
      Later_kept lib dec (sqlite_store conn) (sqlite_resources host pool) cfg env
        (HasSound conn cfg env) (HasSound-IsOperated conn cfg env some_try)
        (traffic_kept host pool (HasSound conn cfg env) configured-HasSound) s t later
