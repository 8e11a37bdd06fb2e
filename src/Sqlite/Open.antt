-- ===== src/Sqlite/Open.antt =====
-- internal/store/sqlite/db.go: `Open` and `migrate`, on the file that the path names.
use webhook_event_route.Prelude.{ℕ, Option, none, some, List, [], ◌∷◌, ◌++◌, Text, codes}
use webhook_event_route.Sqlite.Tables.{Db}

-- What the file holds: no tables, or those of the schema; and the rows of schema_version, which has
-- no key.
pub record File : Type 0 where
  pub tables : Option Db
  pub versions : List ℕ

-- The tables that the schema creates.
abbrev pub no_rows : Db
no_rows = record {
  sources = [];
  last_source = 0;
  events = [];
  last_event = 0;
  targets = [];
  last_target = 0;
  rules = [];
  last_rule = 0;
  deliveries = [];
  last_delivery = 0;
  rule_targets = [];
  attempts = [];
  last_attempt = 0;
  change_logs = [];
  last_change_log = 0;
}

-- CREATE TABLE IF NOT EXISTS
abbrev pub tables_of : File → Db
tables_of f = elim f.tables [ none ↦ no_rows | some db ↦ db ]

-- What database/sql and its driver report, each by its error: opening the data source, and running
-- the schema and the insertion of the version. A schema that fails is taken to create no table.
pub record Driver : Type 0 where
  pub connect : Text → Option Text
  pub run_schema : Option Text
  pub insert_version : Option Text

unfoldable pub migrate : Driver → File → File × Option Text
migrate driver f = elim driver.run_schema [
  | some e ↦ (f, some e)
  | none ↦ elim driver.insert_version [
    | some e ↦ (record f { tables = some (tables_of f) }, some e)
    | none ↦ (record { tables = some (tables_of f); versions = f.versions ++ 1 ∷ [] }, none)
  ]
]

abbrev pub data_source : Text → Text
data_source path =
    codes "file:"
    ++ path
    ++ codes "?_pragma=busy_timeout(5000)&_pragma=journal_mode(WAL)&_pragma=foreign_keys(1)"

-- The file, and the error if there is one.
unfoldable pub open_db : Driver → Text → File → File × Option Text
unfolding migrate
open_db driver path f = elim (driver.connect (data_source path)) [
  | some e ↦ (f, some e)
  | none ↦ migrate driver f
]
