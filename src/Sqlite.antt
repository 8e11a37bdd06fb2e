-- ===== src/Sqlite.antt =====
-- internal/store/sqlite: the tables, and the statements of the stores on them. A row is the struct
-- that is scanned from it: its JSON columns are kept decoded and its time columns as times, but where
-- a statement compares the text of a time; Rows relates the deliveries to rows of texts. Each table
-- counts the identifiers it gave out (AUTOINCREMENT). A statement fails where a constraint of the
-- schema is violated; disk errors are not modelled, and a cancelled context only where a transaction
-- waits for a connection (Tx) and where the rules are read for a stored event (Conn).
pub mod Tables
pub mod Conn
pub mod Tx
pub mod Events
pub mod Deliveries
pub mod Audit
pub mod Sources
pub mod Targets
pub mod Rules
pub mod Instance
pub mod Configured
pub mod Invariant
pub mod Open
pub mod Intact
pub mod Readback
pub mod Pages
pub mod Settled
pub mod Budget
pub mod Sound
pub mod Rows
