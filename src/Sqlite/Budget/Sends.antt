-- ===== src/Sqlite/Budget/Sends.antt =====
-- What one `send` writes to the table of deliveries.
use mathlib.Core.Path.{subst}
use webhook_event_route.Sqlite.Conn.{Conn}
use webhook_event_route.Prelude.{
  ℕ, ◌+◌, ◌≡◌, ◌≤◌, refl, true, List, leb, take, Text, arith, inl, inr, Option-cases,
}
use webhook_event_route.Domain.{Delivery, DeliveryAttempt, Target, sent, failed}
use webhook_event_route.Config.{Config}
use webhook_event_route.Store.Kept.{both_branches}
use webhook_event_route.Dispatcher.World.{
  Env, World, Reply, Request, transport_error, response, ticked, requested,
}
use webhook_event_route.Dispatcher.Send.{
  save, record_attempt, mark_failed, start_attempt, send_error, is_success, body_limit,
  send_response, send_request, send,
}
use webhook_event_route.Sqlite.Tables.{Db}
use webhook_event_route.Sqlite.Deliveries.{may_retry, update_delivery, create_delivery_attempt}
use webhook_event_route.Sqlite.Instance.{sqlite_store}
use webhook_event_route.Sqlite.Budget.{tries, updated}

module _ (conn : Conn) (cfg : Config) (env : Env) where
  -- The row of `d` gets the columns of the delivery that comes back, and no other row changes.
  abbrev pub Rewrites : List Delivery → Delivery → World Db × Delivery → Type 0
  Rewrites ds d r = (now : ℕ) × (r.0.db.deliveries ≡ updated 0 now r.1 d.id ds)

  pub save_row :
      (w : World Db) (d : Delivery)
      → Rewrites w.db.deliveries d (save (sqlite_store conn) cfg env w d)
  unfolding save update_delivery
  save_row w d = (env.now w.ticks, refl)

  attempt_rows :
      (w : World Db) (a : DeliveryAttempt)
      → (record_attempt (sqlite_store conn) cfg env w a).db.deliveries ≡ w.db.deliveries
  unfolding record_attempt create_delivery_attempt
  attempt_rows w a = ground arith

  mark_failed_row :
      (w : World Db) (d : Delivery) (reason : Text)
      → Rewrites w.db.deliveries d (mark_failed (sqlite_store conn) cfg env w d reason)
  unfolding mark_failed
  mark_failed_row w d reason =
      both_branches (Rewrites w.db.deliveries d) (leb cfg.max_retries (d.attempts + 1)) _ _
        (save_row (ticked w) _) (save_row (ticked w) _)

  send_error_row :
      (w : World Db) (d : Delivery) (a : DeliveryAttempt) (e : Text)
      → Rewrites w.db.deliveries d (send_error (sqlite_store conn) cfg env w d a e)
  unfolding send_error
  send_error_row w d a e =
      let done = record a { status = failed; error = e; finished_at = env.now w.ticks } in
      let after = record_attempt (sqlite_store conn) cfg env (ticked w) done in
      subst (λ ds. Rewrites ds d (send_error (sqlite_store conn) cfg env w d a e))
        (attempt_rows (ticked w) done) (mark_failed_row after d e)

  send_response_row :
      (w : World Db) (d : Delivery) (a : DeliveryAttempt) (status : ℕ) (body : Text)
      → Rewrites w.db.deliveries d (send_response (sqlite_store conn) cfg env w d a status body)
  unfolding send_response
  send_response_row w d a status body =
      let done = record a {
        status = sent;
        response_status = status;
        response_body = take body_limit body;
        finished_at = env.now w.ticks;
      } in
      let after = record_attempt (sqlite_store conn) cfg env (ticked w) done in
      subst (λ ds. Rewrites ds d (send_response (sqlite_store conn) cfg env w d a status body))
        (attempt_rows (ticked w) done)
        (both_branches (Rewrites after.db.deliveries d) (is_success status) _ _ (save_row after _)
          (mark_failed_row after (record d { attempts = d.attempts + 1 }) _))

  send_request_row :
      (w : World Db) (d : Delivery) (a : DeliveryAttempt) (r : Request)
      → Rewrites w.db.deliveries d (send_request (sqlite_store conn) cfg env w d a r)
  unfolding send_request
  send_request_row w d a r = by_reply (env.perform w.ticks r)
    where
      by_reply :
          (reply : Reply)
          → Rewrites w.db.deliveries d (elim reply [
            | transport_error e ↦ send_error (sqlite_store conn) cfg env (requested w r) d a e
            | response status body ↦
                send_response (sqlite_store conn) cfg env (requested w r) d a status body
          ])
      by_reply (transport_error e) = send_error_row (requested w r) d a e
      by_reply (response status body) = send_response_row (requested w r) d a status body

  pub send_row :
      (w : World Db) (d : Delivery) (target : Target) (body : Text)
      → Rewrites w.db.deliveries d (send (sqlite_store conn) cfg env w d target body)
  unfolding send
  send_row w d target body = elim (Option-cases (env.new_request target.url)) [
    | inl e ↦
        rw (e, send)
          (send_request_row (ticked w) d (start_attempt (sqlite_store conn) cfg env w d body)
            (record { url = target.url; body = body }))
    | inr (x, e) ↦
        rw (e, send)
          (send_error_row (ticked w) d (start_attempt (sqlite_store conn) cfg env w d body) x)
  ]

  -- A send uses up one of the tries.
  pub tries-send :
      (w : World Db) (d : Delivery) (target : Target) (body : Text)
      → may_retry d.status ≡ true
      → tries cfg.max_retries (send (sqlite_store conn) cfg env w d target body).1 + 1
        ≤ tries cfg.max_retries d
  unfolding send
  tries-send w d target body h = ground arith
