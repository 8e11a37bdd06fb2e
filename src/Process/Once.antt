-- ===== src/Process/Once.antt =====
-- Idempotence for the whole time that a database file is in use.
use mathlib.Core.Path.{subst}
use webhook_event_route.Sqlite.Conn.{Conn}
use webhook_event_route.Prelude.{ℕ, ◌≡◌, true, false, Option, List, ◌∷◌, all, lt_ℤ, pos, Text}
use webhook_event_route.Domain.{EventStatus}
use webhook_event_route.Runtime.{Runtime}
use webhook_event_route.Config.Load.{config_of}
use webhook_event_route.Dispatcher.World.{Env}
use webhook_event_route.Sqlite.Tables.{Db}
use webhook_event_route.Sqlite.Tx.{single}
use webhook_event_route.Sqlite.Audit.{Host}
use webhook_event_route.Sqlite.Open.{File}
use webhook_event_route.Sqlite.Events.Keys.{sqlite_keys}
use webhook_event_route.Sqlite.Instance.{sqlite_store}
use webhook_event_route.Sqlite.Configured.{sqlite_resources}
use webhook_event_route.Httpapi.Events.{
  Admitted, pass, admit, Answer, accepted_as, duplicate_of, Server, handle_create_event,
}
use webhook_event_route.Httpapi.Api.{Decoders}
use webhook_event_route.Httpapi.History.Keys.{Knows}
use webhook_event_route.Httpapi.History.Duplicates.{accepted_known, known_refused}
use webhook_event_route.Process.{Process, running, start, Happening, run, Life, file_of, lives}
use webhook_event_route.Process.Lives.{Holds, start-Holds, run_kept, lives_kept, base_allowed}

module _ (lib : Runtime) (dec : Decoders) (conn : Conn) (host : Host) where
  -- The handler and its checks in a process with these surroundings.
  abbrev pub post : Env → Process → Option Text → Text → Server Db × Answer
  post env p =
      handle_create_event lib dec.event (sqlite_store conn) (config_of p.settings) env p.server

  abbrev pub Admits : Env → Process → Option Text → Text → Admitted → Type 0
  Admits env p read signature a =
      admit lib dec.event (sqlite_store conn) (config_of p.settings) env p.server.world read
        signature
      ≡ pass a

  -- Once a process accepted an event with an identifier, each later request with the same source and
  -- event_id that passes the checks is answered as a duplicate with that identifier, and nothing is
  -- stored or sent: whatever happens to this process, whatever processes are started on its file
  -- after it, and whatever happened to the one that gets the request. No process has a negative base
  -- of the backoff.
  pub accepted_for_good :
      (env : Env) (p : Process) (read : Option Text) (signature : Text) (id : ℕ) (a : Admitted)
      (hs : List Happening) (ls : List Life) (l : Life) (f : File) (q : Process)
      (read' : Option Text) (signature' : Text) (a' : Admitted)
      → lt_ℤ p.settings.retry_base (pos 0) ≡ false
      → all base_allowed (l ∷ ls) ≡ true
      → (post env p read signature).1 ≡ accepted_as id
      → Admits env p read signature a
      → start l.os l.lookup_env (
          lives lib dec conn host
            (file_of lib dec conn host
              (run lib dec conn host env (record p { server = (post env p read signature).0 }) hs))
            ls)
        ≡ (f, running q)
      → let now = run lib dec conn host l.env q l.happenings in
        Admits l.env now read' signature' a'
        → a'.request.source_id ≡ a.request.source_id
        → a'.request.event_id ≡ a.request.event_id
        → (status : EventStatus) × ((post l.env now read' signature').1 ≡ duplicate_of id status)
          × ((post l.env now read' signature').0.world.db ≡ now.server.world.db)
          × ((post l.env now read' signature').0.world.requests ≡ now.server.world.requests)
  accepted_for_good env p read signature id a hs ls l f q read' signature' a' base bases answered
        admitted started again same_source same_id =
      let st = sqlite_store conn in
      let laws = sqlite_keys conn host single in
      let P = Knows st a.request.source_id a.request.event_id id in
      let k = laws.known_kept a.request.source_id a.request.event_id id in
      let c = laws.known_configured a.request.source_id a.request.event_id id in
      let known =
        accepted_known lib dec st (sqlite_resources host single) laws (config_of p.settings) env
          p.server read signature id a answered admitted in
      let ran = run_kept lib dec conn host P k c env hs _ known in
      let lived = lives_kept lib dec conn host P k c ls _ ran in
      let opened : P q.server.world.db =
        subst (Holds P) started (start-Holds P l.os l.lookup_env _ lived) in
      let now = run lib dec conn host l.env q l.happenings in
      known_refused lib dec st (sqlite_resources host single) laws (config_of now.settings) l.env
        now.server read' signature' a.request.source_id a.request.event_id id a'
        (run_kept lib dec conn host P k c l.env l.happenings q opened) again same_source same_id
