-- ===== src/Process/Lives.antt =====
-- What holds of a database file however often the process is started, stopped and killed.
use mathlib.Core.Path.{subst}
use webhook_event_route.Sqlite.Conn.{Conn}
use webhook_event_route.Prelude.{
  ℕ, ◌≡◌, sym, Bool, true, Option, none, some, List, [], ◌∷◌, arith, Text, codes, ◌++◌, not, all,
  lt_ℤ, pos,
}
use webhook_event_route.Runtime.{Runtime}
use webhook_event_route.Store.Kept.{IsAlwaysKept, IsConfigKept, both_branches}
use webhook_event_route.Config.Load.{Settings, Loaded, loaded, refused, load, config_of}
use webhook_event_route.Dispatcher.Operated.{operated}
use webhook_event_route.Dispatcher.World.{Env}
use webhook_event_route.Dispatcher.Send.Kept.{retry_kept}
use webhook_event_route.Sqlite.Tables.{Db}
use webhook_event_route.Sqlite.Tx.{single}
use webhook_event_route.Sqlite.Audit.{Host}
use webhook_event_route.Sqlite.Open.{File, no_rows, tables_of, Driver, migrate, open_db}
use webhook_event_route.Sqlite.Instance.{sqlite_store}
use webhook_event_route.Sqlite.Configured.{sqlite_resources}
use webhook_event_route.Sqlite.Configured.Kept.{traffic_kept}
use webhook_event_route.Sqlite.Invariant.{IsWellFormed}
use webhook_event_route.Sqlite.Invariant.Kept.{formed_kept, formed_configured}
use webhook_event_route.Sqlite.Intact.{IsTable, IsIntact}
use webhook_event_route.Sqlite.Intact.Kept.{IsIntact-configured}
use webhook_event_route.Sqlite.Intact.Traffic.{IsIntact-kept}
use webhook_event_route.Httpapi.Api.{Decoders}
use webhook_event_route.Httpapi.Api.Kept.{serve_kept}
use webhook_event_route.Process.{
  Process, Started, fatal, running, Platform, make_dir, opened, start, Happening, called, ticker,
  signal, shut_down, is_stopped, advance, run, Life, ended, live, lives,
}

-- Opening a file leaves its rows alone.
open_db_keeps :
    (driver : Driver) (path : Text) (f : File) → tables_of (open_db driver path f).0 ≡ tables_of f
unfolding open_db migrate
open_db_keeps driver path f = ground arith

module _ (P : Db → Type 0) where
  abbrev pub Holds : File × Started → Type 0
  Holds (f, fatal msg) = P (tables_of f)
  Holds (f, running p) = P p.server.world.db

  opened-Holds : (s : Settings) (o : File × Option Text) → P (tables_of o.0) → Holds (opened s o)
  opened-Holds s (f, some e) p = p
  opened-Holds s (f, none) p = p

  pub start-Holds :
      (os : Platform) (lookup_env : Text → Option Text) (f : File)
      → P (tables_of f)
      → Holds (start os lookup_env f)
  unfolding start
  start-Holds os lookup_env f p = by_settings (load lookup_env)
    where
      by_dir :
          (s : Settings) (o : Option Text)
          → Holds (elim o [
            | some e ↦ (f, fatal (codes "mkdir data dir: " ++ e))
            | none ↦ opened s (open_db os.driver s.db_path f)
          ])
      by_dir s (some e) = p
      by_dir s none =
          opened-Holds s (open_db os.driver s.db_path f)
            (subst P (sym (open_db_keeps os.driver s.db_path f)) p)

      by_settings :
          (l : Loaded)
          → Holds (elim l [
            | refused e ↦ (f, fatal (codes "config: " ++ e))
            | loaded s ↦ elim (make_dir os s.db_path) [
              | some e ↦ (f, fatal (codes "mkdir data dir: " ++ e))
              | none ↦ opened s (open_db os.driver s.db_path f)
            ]
          ])
      by_settings (refused e) = p
      by_settings (loaded s) = by_dir s (make_dir os s.db_path)

module _ (lib : Runtime) (dec : Decoders) (conn : Conn) (host : Host) (P : Db → Type 0)
    (k : IsAlwaysKept (sqlite_store conn) P)
    (c : IsConfigKept (sqlite_resources host single) P) where
  advance_kept :
      (env : Env) (p : Process) (h : Happening)
      → P p.server.world.db
      → P (advance lib dec conn host env p h).server.world.db
  unfolding advance
  advance_kept env p (called call) q =
      both_branches (λ (r : Process). P r.server.world.db) (is_stopped p.phase) _ _ q
        (serve_kept lib dec (sqlite_store conn) (sqlite_resources host single)
          (config_of p.settings) env P (operated (sqlite_store conn) (config_of p.settings) env P k)
          c p.server call q)
  advance_kept env p ticker q =
      both_branches (λ (r : Process). P r.server.world.db) (is_stopped p.phase) _ _ q
        (retry_kept (sqlite_store conn) (config_of p.settings) env P k.kept p.server.world q)
  advance_kept env p signal q = q
  advance_kept env p shut_down q = q

  pub run_kept :
      (env : Env) (hs : List Happening) (p : Process)
      → P p.server.world.db
      → P (run lib dec conn host env p hs).server.world.db
  unfolding run
  run_kept env [] p q = q
  run_kept env (h ∷ hs) p q =
      run_kept env hs (advance lib dec conn host env p h) (advance_kept env p h q)

  ended_kept :
      (env : Env) (hs : List Happening) (o : File × Started)
      → Holds P o
      → P (tables_of (ended lib dec conn host env hs o))
  ended_kept env hs (f, fatal msg) q = q
  ended_kept env hs (f, running p) q = run_kept env hs p q

  pub lives_kept :
      (ls : List Life) (f : File) → P (tables_of f) → P (tables_of (lives lib dec conn host f ls))
  unfolding lives live
  lives_kept [] f q = q
  lives_kept (l ∷ ls) f q = lives_kept ls (live lib dec conn host f l) (
      ended_kept l.env l.happenings (start l.os l.lookup_env f)
        (start-Holds P l.os l.lookup_env f q))

no_rows-IsWellFormed : IsWellFormed no_rows
no_rows-IsWellFormed = record {
  events_given = λ id m. elim m [ ];
  events_once = tt;
  keys_once = tt;
  deliveries_given = λ id m. elim m [ ];
  deliveries_once = tt;
  deliveries_of_events = λ id m. m;
  attempts_of_deliveries = λ id m. m;
}

no_ids : IsTable [] 0
no_ids = record { given = λ n m. elim m [ ]; once = tt }

no_rows-IsIntact : IsIntact no_rows
no_rows-IsIntact = record {
  source_table = no_ids;
  target_table = no_ids;
  rule_table = no_ids;
  event_sources = λ n m. elim m [ ];
  rule_sources = λ n m. elim m [ ];
  rule_targets = λ n m. elim m [ ];
  pair_rules = λ n m. elim m [ ];
  pair_targets = λ n m. elim m [ ];
  delivery_rules = λ n m. elim m [ ];
  delivery_targets = λ n m. elim m [ ];
}

-- The constraints on the rows of the traffic and on the configuration.
pub record IsConsistent (f : File) : Type 0 where
  pub formed : IsWellFormed (tables_of f)
  pub intact : IsIntact (tables_of f)

-- A base of the backoff that is not negative, which the configuration stands for.
abbrev pub base_allowed : Life → Bool
base_allowed l = elim (load l.lookup_env) [
  | refused e ↦ true
  | loaded s ↦ not (lt_ℤ s.retry_base (pos 0))
]

-- A database file that held no tables at first is consistent after any number of processes, none of
-- them with a negative base of the backoff: whatever their surroundings and settings are, whether they
-- start or fail to, whatever calls, turns and signals come, and wherever between two of these a
-- process is killed.
pub lives-IsConsistent :
    (lib : Runtime) (dec : Decoders) (conn : Conn) (host : Host) (versions : List ℕ)
    (ls : List Life)
    → all base_allowed ls ≡ true
    → IsConsistent (lives lib dec conn host (record { tables = none; versions = versions }) ls)
lives-IsConsistent lib dec conn host versions ls allowed = record {
  formed =
      lives_kept lib dec conn host IsWellFormed (formed_kept conn)
        (traffic_kept host single IsWellFormed formed_configured) ls _ no_rows-IsWellFormed;
  intact =
      lives_kept lib dec conn host IsIntact (IsIntact-kept conn) (IsIntact-configured host single)
        ls _ no_rows-IsIntact;
}
