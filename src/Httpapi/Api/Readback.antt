-- ===== src/Httpapi/Api/Readback.antt =====
-- What was created through the interface, read back through it.
use webhook_event_route.Sqlite.Conn.{Conn}
use webhook_event_route.Prelude.{pos, ◌≡◌, ap, arith, Text, some}
use webhook_event_route.Domain.{Source, Target, Rule}
use webhook_event_route.Runtime.{Runtime}
use webhook_event_route.Config.{Config}
use webhook_event_route.Strconv.{atoi}
use webhook_event_route.Dispatcher.World.{Env}
use webhook_event_route.Sqlite.Tables.{Db}
use webhook_event_route.Sqlite.Tx.{Pool}
use webhook_event_route.Sqlite.Audit.{Host}
use webhook_event_route.Sqlite.Instance.{sqlite_store}
use webhook_event_route.Sqlite.Configured.{sqlite_resources}
use webhook_event_route.Sqlite.Intact.{IsIntact}
use webhook_event_route.Httpapi.Events.{Server}
use webhook_event_route.Httpapi.Api.{Decoders, Call, Response, of_source, of_target, of_rule, serve}
use webhook_event_route.Httpapi.Resources.{created, fetched}
use webhook_event_route.Httpapi.Resources.Readback.{
  SameSource, SameTarget, SameRule, post_source_lem, post_target_lem, post_rule_lem,
}

module _ (lib : Runtime) (dec : Decoders) (conn : Conn) (host : Host) (pool : Pool) (cfg : Config)
    (env : Env) (s : Server Db) where
  abbrev pub answer : Server Db → Call → Server Db × Response
  answer = serve lib dec (sqlite_store conn) (sqlite_resources host pool) cfg env

  -- On well-formed tables of the SQLite store: when a POST answers a source as created, a GET of its
  -- identifier answers next with a source of the same identifier and other members but for the times.
  -- Those that are read are the reading of the clock with which the row was written, and those that
  -- the POST answers are the next reading.
  pub get-post_source :
      (body path_id : Text) (src : Source)
      → IsIntact s.world.db
      → (answer s (Call.post_source body)).1 ≡ of_source (created src)
      → atoi path_id ≡ some (pos src.id)
      → (read : Source) × ((answer (answer s (Call.post_source body)).0 (Call.get_source path_id)).1
          ≡ of_source (fetched read))
        × SameSource host (env.now s.world.ticks) src read
  unfolding serve
  get-post_source body path_id src intact done path =
      let (read, found, same) =
        post_source_lem dec.source conn host pool env s body path_id src intact (ground arith)
          path in
      (read, ap of_source found, same)

  -- On well-formed tables of the SQLite store: when a POST answers a target as created, a GET of its
  -- identifier answers next with a target of the same identifier and other members but for the times.
  -- Those that are read are the reading of the clock with which the row was written, and those that
  -- the POST answers are the next reading.
  pub get-post_target :
      (body path_id : Text) (t : Target)
      → IsIntact s.world.db
      → (answer s (Call.post_target body)).1 ≡ of_target (created t)
      → atoi path_id ≡ some (pos t.id)
      → (read : Target) × ((answer (answer s (Call.post_target body)).0 (Call.get_target path_id)).1
          ≡ of_target (fetched read))
        × SameTarget host (env.now s.world.ticks) t read
  unfolding serve
  get-post_target body path_id t intact done path =
      let (read, found, same) =
        post_target_lem dec.target conn host pool env s body path_id t intact (ground arith) path in
      (read, ap of_target found, same)

  -- On well-formed tables of the SQLite store: when a POST answers a rule as created, a GET of its
  -- identifier answers next with a rule of the same identifier, conditions and other members, of which
  -- the engine resolves the same targets. Only the list of targets may be written differently, and the
  -- times that are read are the reading of the clock with which the row was written, where those that
  -- the POST answers are the next reading.
  pub get-post_rule :
      (body path_id : Text) (r : Rule)
      → IsIntact s.world.db
      → (answer s (Call.post_rule body)).1 ≡ of_rule (created r)
      → atoi path_id ≡ some (pos r.id)
      → (read : Rule) × ((answer (answer s (Call.post_rule body)).0 (Call.get_rule path_id)).1
          ≡ of_rule (fetched read))
        × SameRule host (env.now s.world.ticks) r read
  unfolding serve
  get-post_rule body path_id r intact done path =
      let (read, found, same) =
        post_rule_lem dec.rule host pool env s body path_id r intact (ground arith) path in
      (read, ap of_rule found, same)
