-- ===== src/Process.antt =====
-- cmd/server/main.go: the process, from its start to its end, and the lives of a database file in which
-- one process after the other is started.
pub mod Lives
pub mod Once
use webhook_event_route.Sqlite.Conn.{Conn}
use webhook_event_route.Prelude.{
  ℕ, Bool, true, false, not, ◌&&◌, Option, none, some, List, [], ◌∷◌, ◌++◌, if◌then◌else◌, ℤ, pos,
  negsuc, Text, codes, text_eq,
}
use webhook_event_route.Runtime.{Runtime}
use webhook_event_route.Config.Load.{Settings, loaded, refused, load, config_of}
use webhook_event_route.Dispatcher.World.{Env}
use webhook_event_route.Dispatcher.Worker.{retry}
use webhook_event_route.Sqlite.Tables.{Db}
use webhook_event_route.Sqlite.Tx.{single}
use webhook_event_route.Sqlite.Audit.{Host}
use webhook_event_route.Sqlite.Open.{File, tables_of, Driver, open_db}
use webhook_event_route.Sqlite.Instance.{sqlite_store}
use webhook_event_route.Sqlite.Configured.{sqlite_resources}
use webhook_event_route.Httpapi.Events.{Server}
use webhook_event_route.Httpapi.Api.{Decoders, Call, serve}

-- Where `main` is: before the signal, between it and the cancellation of the worker, or at its end.
pub data Phase : Type 0 where
  serving : Phase
  draining : Phase
  stopped : Phase

-- The server and the database that the process has opened.
pub record Process : Type 0 where
  pub settings : Settings
  pub server : Server Db
  pub versions : List ℕ
  pub phase : Phase

-- log.Fatalf ends the process with a message.
pub data Started : Type 0 where
  fatal : Text → Started
  running : Process → Started

-- filepath.Dir, os.MkdirAll with its error, and the database driver.
pub record Platform : Type 0 where
  pub dir : Text → Text
  pub mkdir_all : Text → Option Text
  pub driver : Driver

-- The directory of the file is made unless it is the current one.
unfoldable pub make_dir : Platform → Text → Option Text
unfolding text_eq
make_dir os path =
    let dir = os.dir path in
    if not (text_eq dir []) && not (text_eq dir (codes ".")) then os.mkdir_all dir else none

-- The process that serves the tables of the file, with an empty registry of counters.
abbrev pub new_process : Settings → File → Process
new_process s f = record {
  settings = s;
  server = record {
    world = record { db = tables_of f; ticks = 0; requests = [] };
    metrics = some [];
  };
  versions = f.versions;
  phase = serving;
}

abbrev pub opened : Settings → File × Option Text → File × Started
opened s (f, some e) = (f, fatal (codes "open db: " ++ e))
opened s (f, none) = (f, running (new_process s f))

-- `main` up to the start of its goroutines.
unfoldable pub start : Platform → (Text → Option Text) → File → File × Started
unfolding make_dir open_db load
start os lookup_env f = elim (load lookup_env) [
  | refused e ↦ (f, fatal (codes "config: " ++ e))
  | loaded s ↦ elim (make_dir os s.db_path) [
    | some e ↦ (f, fatal (codes "mkdir data dir: " ++ e))
    | none ↦ opened s (open_db os.driver s.db_path f)
  ]
]

-- What happens to a process: a call of its interface, a tick of the worker's ticker, the signal, and the
-- end of `Shutdown`, after which the worker is cancelled.
pub data Happening : Type 0 where
  called : Call → Happening
  ticker : Happening
  signal : Happening
  shut_down : Happening

-- One process: its surroundings, and what happens until it ends, by itself or killed.
pub record Life : Type 0 where
  pub os : Platform
  pub lookup_env : Text → Option Text
  pub env : Env
  pub happenings : List Happening

abbrev pub is_stopped : Phase → Bool
is_stopped stopped = true
is_stopped _ = false

abbrev pub after_signal : Phase → Phase
after_signal serving = draining
after_signal phase = phase

abbrev pub after_shutdown : Phase → Phase
after_shutdown draining = stopped
after_shutdown phase = phase

module _ (lib : Runtime) (dec : Decoders) (conn : Conn) (host : Host) where
  module _ (env : Env) where
    abbrev pub answered : Process → Call → Process
    answered p call = record p {
      server =
          (serve lib dec (sqlite_store conn) (sqlite_resources host single) (config_of p.settings)
            env p.server call).0;
    }

    abbrev pub turned : Process → Process
    turned p = record p {
      server = record p.server {
        world = retry (sqlite_store conn) (config_of p.settings) env p.server.world;
      };
    }

    -- Calls that came before the signal are still answered while `Shutdown` waits for them, and the
    -- worker runs until it is cancelled.
    unfoldable pub advance : Process → Happening → Process
    unfolding serve retry
    advance p (called call) = if is_stopped p.phase then p else answered p call
    advance p ticker = if is_stopped p.phase then p else turned p
    advance p signal = record p { phase = after_signal p.phase }
    advance p shut_down = record p { phase = after_shutdown p.phase }

    unfoldable pub run : Process → List Happening → Process
    unfolding advance
    run p [] = p
    run p (h ∷ hs) = run (advance p h) hs

  abbrev pub file_of : Process → File
  file_of p = record { tables = some p.server.world.db; versions = p.versions }

  abbrev pub ended : Env → List Happening → File × Started → File
  ended env hs (f, fatal msg) = f
  ended env hs (f, running p) = file_of (run env p hs)

  -- The file after a process, which may have failed to start.
  unfoldable pub live : File → Life → File
  unfolding start run
  live f l = ended l.env l.happenings (start l.os l.lookup_env f)

  unfoldable pub lives : File → List Life → File
  unfolding live
  lives f [] = f
  lives f (l ∷ ls) = lives (live f l) ls
