-- ===== src/Httpapi/Api/Failed/Traffic.antt =====
-- The posts of events and the manual retries that are answered with an error status.
use mathlib.Core.Path.{subst}
use webhook_event_route.Prelude.{
  sym, none, ◌+◌, ◌++◌, ◌∷◌, [], Option-cases, ℕ, pos, negsuc, ◌≡◌, ◌<◌, refl, Option, some, arith,
  Text, inl, inr,
}
use webhook_event_route.Errs.{new, status_of}
use webhook_event_route.Store.{Assigned, ok, Failure, Result-cases, err}
use webhook_event_route.Dispatcher.World.{with_db, Env, World, ticked}
use webhook_event_route.Sqlite.Events.{event_row, create_event, get_by_key}
use webhook_event_route.Httpapi.Api.Status.{error_status, check_status, answer_status}
use webhook_event_route.Httpapi.Api.Failed.{IsUnrouted, IsPosted, left, IsQuiet, Fails}
use webhook_event_route.Sqlite.Conn.{Conn}
use webhook_event_route.Domain.{Event}
use webhook_event_route.Runtime.{Runtime}
use webhook_event_route.Config.{Config}
use webhook_event_route.Dispatcher.Send.{requeue}
use webhook_event_route.Sqlite.Tables.{Db}
use webhook_event_route.Sqlite.Tx.{Pool}
use webhook_event_route.Sqlite.Audit.{Host}
use webhook_event_route.Sqlite.Rules.{list_enabled_rules}
use webhook_event_route.Sqlite.Deliveries.{update_delivery}
use webhook_event_route.Sqlite.Instance.{sqlite_store}
use webhook_event_route.Httpapi.Events.{
  Admitted, admit, Server, new_event, finish, route_event, store_event, deduplicate,
  handle_create_event,
}
use webhook_event_route.Httpapi.Events.Effects.{Check-cases}
use webhook_event_route.Httpapi.Queries.{handle_retry_delivery}
use webhook_event_route.Httpapi.Resources.{parse_id}
use webhook_event_route.Httpapi.Api.{Decoders}

module _ (lib : Runtime) (dec : Decoders) (conn : Conn) (host : Host) (pool : Pool) (cfg : Config)
    (env : Env) (s : Server Db) where
  -- Where the rules are read, the handler answers 202 or panics from the new event's row on.
  route_event_low :
      (t : Server Db) (event : Event) (n : ℕ)
      → conn.rules_error t.world.db ≡ none
      → answer_status (route_event lib (sqlite_store conn) cfg env t event).1 ≡ some n
      → n < 400
  unfolding route_event list_enabled_rules finish
  route_event_low t event n e h = ground arith

  route_event_high :
      (t : Server Db) (event : Event) (n : ℕ) (f : Failure)
      → conn.rules_error t.world.db ≡ some f
      → answer_status (route_event lib (sqlite_store conn) cfg env t event).1 ≡ some n
      → (n ≡ 500) × ((route_event lib (sqlite_store conn) cfg env t event).0 ≡ t)
  unfolding route_event list_enabled_rules error_status new status_of
  route_event_high t event n f e h = ground arith

  create_event-Fails : (now : ℕ) (e : Event) → Fails s.world.db (create_event conn now e s.world.db)
  unfolding create_event
  create_event-Fails now e f h = ground arith

  create_event_row :
      (now : ℕ) (e : Event) (x : Assigned)
      → (create_event conn now e s.world.db).1 ≡ ok x
      → (create_event conn now e s.world.db).0 ≡ record s.world.db {
        events = s.world.db.events ++ event_row (s.world.db.last_event + 1) now e ∷ [];
        last_event = s.world.db.last_event + 1;
      }
  unfolding create_event
  create_event_row now e x h = ground arith

  store_event-IsPosted :
      (a : Admitted) → IsPosted conn s (store_event lib (sqlite_store conn) cfg env s a)
  unfolding store_event
  store_event-IsPosted a n q high =
      let now = env.now s.world.ticks in
      let made = create_event conn now (new_event a) s.world.db in
      elim (Result-cases made.1) [
        | inr (f, c) ↦
            let same = create_event-Fails now (new_event a) f c in
            inl (rw (c, store_event) (record { same_db = same; same_requests = refl }))
        | inl (x, c) ↦
            let t : Server Db = record s { world = with_db s.world made.0 } in
            let event : Event = record (new_event a) {
              id = x.id;
              received_at = x.at;
              created_at = x.at;
            } in
            let answered = rw (c, store_event) at q in
            elim (Option-cases (conn.rules_error made.0)) [
              | inl e ↦ absurd (omega (arith, high, route_event_low t event n e answered))
              | inr (f, e) ↦
                  let (code, same) = route_event_high t event n f e answered in
                  let stored : IsUnrouted conn
                      (event_row (s.world.db.last_event + 1) now (new_event a)) s t =
                    record {
                      appended = create_event_row now (new_event a) x c;
                      kept_accepted = refl;
                      unread = (f, e);
                      same_requests = refl;
                    } in
                  inr (
                    code,
                    (
                      event_row (s.world.db.last_event + 1) now (new_event a),
                      rw (c, store_event) (subst (IsUnrouted conn _ s) (sym same) stored),
                    ),
                  )
            ]
      ]

  deduplicate-IsPosted :
      (a : Admitted) → IsPosted conn s (deduplicate lib (sqlite_store conn) cfg env s a)
  unfolding deduplicate
  deduplicate-IsPosted a n q high =
      elim (Result-cases (get_by_key a.request.source_id a.request.event_id s.world.db)) [
        | inl (e, k) ↦ inl (rw (k, deduplicate) (record { same_db = refl; same_requests = refl }))
        | inr (f, k) ↦
            rw (k, deduplicate) (store_event-IsPosted a n (rw (k, deduplicate) at q) high)
      ]

  requeue-Fails :
      (w : World Db) (id : ℕ) (e : Failure)
      → (requeue (sqlite_store conn) cfg env w id).1 ≡ err e
      → ((requeue (sqlite_store conn) cfg env w id).0.db ≡ w.db)
        × ((requeue (sqlite_store conn) cfg env w id).0.requests ≡ w.requests)
  unfolding requeue update_delivery
  requeue-Fails w id e h = ground arith

module _ (lib : Runtime) (dec : Decoders) (conn : Conn) (host : Host) (pool : Pool) (cfg : Config)
    (env : Env) (s : Server Db) where
  pub post_event-IsPosted :
      (read : Option Text) (signature : Text)
      → IsPosted conn s
          (handle_create_event lib dec.event (sqlite_store conn) cfg env s read signature)
  unfolding handle_create_event
  post_event-IsPosted read signature n q high =
      elim (Check-cases (admit lib dec.event (sqlite_store conn) cfg env s.world read signature)) [
        | inr (e, c) ↦
            inl (rw (c, handle_create_event) (record { same_db = refl; same_requests = refl }))
        | inl (a, c) ↦
            let s' : Server Db = record s { world = ticked s.world } in
            rw (c, handle_create_event)
              (elim (deduplicate-IsPosted lib dec conn host pool cfg env s' a n
                (rw (c, handle_create_event) at q) high) [
                  | inl k ↦ inl (record { same_db = k.same_db; same_requests = k.same_requests })
                  | inr (code, (row, u)) ↦ inr (
                    code,
                    (
                      row,
                      record {
                        appended = u.appended;
                        kept_accepted = u.kept_accepted;
                        unread = u.unread;
                        same_requests = u.same_requests;
                      },
                    ),
                  )
                ])
      ]

  pub retry-IsQuiet :
      (path_id : Text)
      → IsQuiet
          (λ c. some (check_status c))
          s
          (handle_retry_delivery (sqlite_store conn) cfg env s path_id)
  unfolding handle_retry_delivery
  retry-IsQuiet path_id n q high = elim (Check-cases (parse_id path_id)) [
    | inr (e, c) ↦ rw (c, handle_retry_delivery) (left s)
    | inl (negsuc id, c) ↦
        rw (c, handle_retry_delivery) (record { same_db = refl; same_requests = refl })
    | inl (pos id, c) ↦ elim (Result-cases (requeue (sqlite_store conn) cfg env s.world id).1) [
      | inl (d, r) ↦
          absurd
            (let low : some 200 ≡ some n = rw (c, r, handle_retry_delivery) at q in ground arith)
      | inr (e, r) ↦
          let (db, requests) = requeue-Fails lib dec conn host pool cfg env s s.world id e r in
          rw (c, handle_retry_delivery) (record { same_db = db; same_requests = requests })
    ]
  ]
