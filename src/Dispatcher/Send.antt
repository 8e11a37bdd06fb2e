-- ===== src/Dispatcher/Send.antt =====
-- internal/dispatcher/dispatcher.go, deadletter.go: one delivery. A method that changes the delivery
-- behind its pointer returns it.
pub mod Kept
pub mod Sound
pub mod Settle
pub mod Outcome
use webhook_event_route.Prelude.{
  ℕ, ◌+◌, Bool, true, false, not, ◌&&◌, none, some, [], ◌++◌, leb, ltb, if◌then◌else◌, take, Text,
  codes,
}
use webhook_event_route.Domain.{
  Event, Target, Rule, Delivery, DeliveryAttempt, DeliveryStatus, pending, sent, delivered, failed,
  retrying, dead,
}
use webhook_event_route.Errs.{Code, new}
use webhook_event_route.Config.{Config}
use webhook_event_route.Store.{typed, Result, ok, err, Assigned, Store}
use webhook_event_route.Dispatcher.Backoff.{duration}
use webhook_event_route.Dispatcher.Allow.{allowed}
use webhook_event_route.Dispatcher.World.{
  Request, transport_error, response, Env, World, ticked, with_db, requested, add_time,
}

-- The reader of a response stops after 1 MiB.
abbrev pub body_limit : ℕ
body_limit = 1048576

abbrev pub is_success : ℕ → Bool
is_success status = leb 200 status && ltb status 300

abbrev pub is_dead : DeliveryStatus → Bool
is_dead dead = true
is_dead _ = false

module _ {S : Type 0} (st : Store S) (cfg : Config) (env : Env) where
  -- `UpdateDelivery`, its error dropped; where it succeeds it sets `UpdatedAt`.
  unfoldable pub save : World S → Delivery → World S × Delivery
  save w d =
      let (db, r) = st.update_delivery (env.now w.ticks) d w.db in
      (with_db w db, elim r [ ok at ↦ record d { updated_at = at } | err e ↦ d ])

  -- `CreateDeliveryAttempt`, its error dropped.
  unfoldable pub record_attempt : World S → DeliveryAttempt → World S
  record_attempt w a =
      let (db, r) = st.create_delivery_attempt (env.now w.ticks) a w.db in with_db w db

  -- `time.Now().Add(d.backoff.Duration(attempt))`
  unfoldable pub next_retry : World S → ℕ → ℕ
  unfolding duration add_time
  next_retry w attempt =
      add_time (env.now w.ticks)
        (duration cfg.retry_base attempt (env.int63n w.ticks (cfg.retry_base + 1)))

  unfoldable pub mark_failed : World S → Delivery → Text → World S × Delivery
  unfolding save next_retry
  mark_failed w delivery reason =
      let d = record delivery { attempts = delivery.attempts + 1; last_error = reason } in
      if leb cfg.max_retries d.attempts
      then save (ticked w)
          (record d { status = dead; next_retry_at = none; dead_at = some (env.now w.ticks) })
      else save (ticked w)
          (record d { status = retrying; next_retry_at = some (next_retry w d.attempts) })

  abbrev pub start_attempt : World S → Delivery → Text → DeliveryAttempt
  start_attempt w delivery body = record {
    id = 0;
    delivery_id = delivery.id;
    status = pending;
    request_body = body;
    response_status = 0;
    response_body = [];
    error = [];
    started_at = env.now w.ticks;
    finished_at = 0;
  }

  -- The two branches of `send` in which no response came.
  unfoldable pub send_error : World S → Delivery → DeliveryAttempt → Text → World S × Delivery
  unfolding record_attempt mark_failed
  send_error w delivery att e =
      let done = record att { status = failed; error = e; finished_at = env.now w.ticks } in
      mark_failed (record_attempt (ticked w) done) delivery e

  -- The rest of `send`, once a response came.
  unfoldable pub send_response :
      World S → Delivery → DeliveryAttempt → ℕ → Text → World S × Delivery
  unfolding record_attempt mark_failed save
  send_response w delivery att status body =
      let done = record att {
        status = sent;
        response_status = status;
        response_body = take body_limit body;
        finished_at = env.now w.ticks;
      } in
      let after = record_attempt (ticked w) done in
      let d = record delivery { attempts = delivery.attempts + 1 } in
      if is_success status
      then save after (record d { status = delivered; last_error = [] })
      else mark_failed after d (codes "unexpected status " ++ env.status_text status)

  unfoldable pub send_request : World S → Delivery → DeliveryAttempt → Request → World S × Delivery
  unfolding send_error send_response
  send_request w delivery att req = elim (env.perform w.ticks req) [
    | transport_error e ↦ send_error (requested w req) delivery att e
    | response status body ↦ send_response (requested w req) delivery att status body
  ]

  unfoldable pub send : World S → Delivery → Target → Text → World S × Delivery
  unfolding send_error send_request
  send w delivery target body =
      let att = start_attempt w delivery body in
      elim (env.new_request target.url) [
        | some e ↦ send_error (ticked w) delivery att e
        | none ↦ send_request (ticked w) delivery att (record { url = target.url; body = body })
      ]

  -- The delivery that `Deliver` creates.
  abbrev pub new_delivery : Event → Rule → Target → Delivery
  new_delivery event rule target = record {
    id = 0;
    event_id = event.id;
    rule_id = rule.id;
    target_id = target.id;
    status = pending;
    attempts = 0;
    next_retry_at = none;
    last_error = [];
    dead_at = none;
    created_at = 0;
    updated_at = 0;
  }

  abbrev pub assign : Delivery → Assigned → Delivery
  assign d a = record d { id = a.id; created_at = a.at; updated_at = a.at }

  -- `Deliver`, once the delivery is created.
  unfoldable pub deliver_created : World S → Delivery → Event → Target → World S × Delivery
  unfolding allowed save send
  deliver_created w d event target =
      if not (allowed env.net target.url cfg.allow_private cfg.allow_loopback)
      then save (ticked w) (record d {
        status = dead;
        last_error = codes "target not whitelisted";
        dead_at = some (env.now w.ticks);
      })
      else send w d target event.payload

  unfoldable pub deliver : World S → Event → Rule → Target → World S × Result Delivery
  unfolding deliver_created
  deliver w event rule target =
      let d = new_delivery event rule target in
      let (db, r) = st.create_delivery (env.now w.ticks) d w.db in
      elim r [
        | err e ↦ (with_db w db, err e)
        | ok a ↦
            let (w', d') = deliver_created (with_db w db) (assign d a) event target in (w', ok d')
      ]

  -- `Requeue`, for the delivery that was read.
  unfoldable pub requeue_read : World S → Delivery → World S × Result Delivery
  unfolding next_retry new
  requeue_read w d =
      let d' = record d {
        attempts = 0;
        status = retrying;
        last_error = [];
        dead_at = none;
        next_retry_at = some (next_retry w 1);
      } in
      let (db, r) = st.update_delivery (env.now (w.ticks + 1)) d' w.db in
      if not (is_dead d.status)
      then (
        w,
        err (typed (new Code.not_retryable (codes "only dead deliveries can be retried manually"))),
      )
      else (
        with_db (ticked w) db,
        elim r [ ok at ↦ ok (record d' { updated_at = at }) | err e ↦ err e ],
      )

  unfoldable pub requeue : World S → ℕ → World S × Result Delivery
  unfolding requeue_read
  requeue w delivery_id = elim (st.get_delivery delivery_id w.db) [
    | err e ↦ (w, err e)
    | ok d ↦ requeue_read w d
  ]
