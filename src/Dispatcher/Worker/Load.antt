-- ===== src/Dispatcher/Worker/Load.antt =====
-- How many requests a turn of the worker sends.
use webhook_event_route.Sqlite.Conn.{Conn}
use webhook_event_route.Prelude.{
  refl, ℕ, ◌+◌, ◌≤◌, ◌≡◌, List, [], ◌∷◌, length, length-append, length-take-le, arith, inl, inr,
  Text,
}
use webhook_event_route.Domain.{Delivery, Target}
use webhook_event_route.Config.{Config}
use webhook_event_route.Store.{Result-cases, ok, Store}
use webhook_event_route.Dispatcher.World.{Env, World, ticked}
use webhook_event_route.Dispatcher.Send.{send}
use webhook_event_route.Dispatcher.Send.Outcome.{asks, send_requests}
use webhook_event_route.Sqlite.Tables.{Db}
use webhook_event_route.Sqlite.Deliveries.{due_deliveries}
use webhook_event_route.Sqlite.Instance.{sqlite_store}
use webhook_event_route.Dispatcher.Worker.{retry_one, retry_all, retry, unix_seconds, batch}

module _ {S : Type 0} (st : Store S) (cfg : Config) (env : Env) where
  length-asks-le :
      (w : World S) (d : Delivery) (target : Target) (body : Text)
      → length (asks st cfg env w d target body) ≤ 1
  length-asks-le w d target body = ground arith

  pub send_one :
      (w : World S) (d : Delivery) (target : Target) (body : Text)
      → length (send st cfg env w d target body).0.requests ≤ length w.requests + 1
  send_one w d target body = rw (send_requests st cfg env w d target body) (
      omega (
        arith,
        length-append w.requests (asks st cfg env w d target body),
        length-asks-le w d target body,
      ))

  retry_one_load :
      (w : World S) (d : Delivery)
      → length (retry_one st cfg env w d).requests ≤ length w.requests + 1
  unfolding retry_one
  retry_one_load w d = elim (Result-cases (st.get_event d.event_id w.db)) [
    | inr (f, e) ↦ rw (e, retry_one) (omega arith)
    | inl (event, e) ↦ elim (Result-cases (st.get_target d.target_id w.db)) [
      | inr (f, g) ↦ rw (e, g, retry_one) (omega arith)
      | inl (target, g) ↦ rw (e, g, retry_one) (send_one w d target event.payload)
    ]
  ]

  retry_all_load :
      (due : List Delivery) (w : World S)
      → length (retry_all st cfg env w due).requests ≤ length w.requests + length due
  unfolding retry_all
  retry_all_load [] w = omega arith
  retry_all_load (d ∷ due) w =
      omega (arith, retry_one_load w d, retry_all_load due (retry_one st cfg env w d))

  -- A turn of the worker sends at most one request for each delivery that the store says is due.
  pub retry_load :
      (w : World S) (due : List Delivery)
      → st.due_deliveries (unix_seconds (env.now w.ticks)) (batch st cfg env) w.db ≡ ok due
      → length (retry st cfg env w).requests ≤ length w.requests + length due
  unfolding retry
  retry_load w due e = rw (e, retry) (retry_all_load due (ticked w))

due_limited :
    (conn : Conn) (now_unix : ℕ) (db : Db)
    → (due : List Delivery) × (due_deliveries conn now_unix 100 db ≡ ok due) × (length due ≤ 100)
unfolding due_deliveries
due_limited conn now_unix db = (_, refl, length-take-le 100 _)

-- On the SQLite store a turn of the worker hands at most 100 requests to the client. The redirects that
-- the client follows inside of one are not counted.
pub sqlite_turn_le :
    (conn : Conn) (cfg : Config) (env : Env) (w : World Db)
    → length (retry (sqlite_store conn) cfg env w).requests ≤ length w.requests + 100
sqlite_turn_le conn cfg env w =
    let (due, e, short) = due_limited conn (unix_seconds (env.now w.ticks)) w.db in
    omega (arith, short, retry_load (sqlite_store conn) cfg env w due e)
