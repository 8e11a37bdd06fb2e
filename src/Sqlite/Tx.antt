-- ===== src/Sqlite/Tx.antt =====
-- internal/store/sqlite/db.go, `tx`: a transaction on the one connection of the pool.
pub mod Single
pub mod Effects
pub mod Aside
pub mod Writes
pub mod Steps
use webhook_event_route.Prelude.{Bool, true, false, if◌then◌else◌, codes}
use webhook_event_route.Store.{other, Failure, Result, ok, err}
use webhook_event_route.Sqlite.Tables.{Db}

-- What database/sql does for a query through the pool while a transaction holds a connection: with a
-- spare one it is run on the committed rows; without one it waits until the context of the call is
-- done, which also ends the transaction.
pub record Pool : Type 0 where
  pub spare : Bool

-- `conn.SetMaxOpenConns(1)`
abbrev pub single : Pool
single = record { spare = false }

-- The rows as the transaction sees them, and whether it is still running.
pub record Tx : Type 0 where
  pub tables : Db
  pub live : Bool

-- A part of the function that runs in a transaction. An error returns from that function.
abbrev pub Action : Type 0 → Type 0
Action A = Tx → Result (A × Tx)

infixl 5 ◌>>=◌ ◌>>◌
abbrev pub ◌>>=◌ : {A B : Type 0} → Action A → (A → Action B) → Action B
◌>>=◌ m f t = elim (m t) [ err e ↦ err e | ok (a, t') ↦ f a t' ]

abbrev pub ◌>>◌ : {B : Type 0} → Action (Unit {0}) → Action B → Action B
m >> k = m >>= λ _. k

abbrev pub pure : {A : Type 0} → A → Action A
pure a t = ok (a, t)

-- What database/sql reports of a transaction that is over: this, or from the commit the error of the
-- context, whichever of its goroutines comes first. No code here tells the two apart.
abbrev pub done_error : Failure
done_error = other (codes "sql: transaction has already been committed or rolled back")

-- `Exec` on the transaction.
abbrev pub exec : {A : Type 0} → (Db → Result (A × Db)) → Action A
exec statement t =
    if t.live
    then elim (statement t.tables) [ err e ↦ err e | ok (a, db) ↦ ok (a, record t { tables = db }) ]
    else err done_error

-- A read through the pool, of the committed rows; its error is handed to the caller.
abbrev pub pool_read : {A : Type 0} → Pool → Result A → Action (Result A)
pool_read pool r t =
    if pool.spare
    then ok (r, t)
    else ok (err (other (codes "context deadline exceeded")), record t { live = false })

-- `tx`: the changes are kept where the function and the commit succeed, and dropped otherwise.
unfoldable pub tx : {A : Type 0} → Action A → Db → Db × Result A
tx body db = elim (body (record { tables = db; live = true })) [
  | err e ↦ (db, err e)
  | ok (a, t) ↦ if t.live then (t.tables, ok a) else (db, err done_error)
]
