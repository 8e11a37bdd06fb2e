-- ===== src/Sqlite/Conn.antt =====
-- What the statements on the traffic get from outside of the database.
use webhook_event_route.Prelude.{ℕ, Option, Text}
use webhook_event_route.Store.{Failure}
use webhook_event_route.Sqlite.Tables.{Db}

pub record Conn : Type 0 where
  -- `Format(time.RFC3339Nano)` of a time in UTC.
  pub format_time : ℕ → Text
  -- What time.Now gives after a reading that gave this time.
  pub next_reading : ℕ → ℕ
  -- The error with which ListEnabledRules ends on these tables, if any: of the driver, or of a request
  -- that is cancelled. It is called right after the insertion of an event, so no two calls of it find
  -- the same tables.
  pub rules_error : Db → Option Failure
