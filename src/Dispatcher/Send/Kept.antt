-- ===== src/Dispatcher/Send/Kept.antt =====
-- What the writes of the store keep, the operations of the dispatcher keep.
use webhook_event_route.Prelude.{
  ℕ, ◌≡◌, refl, List, [], ◌∷◌, ◌+◌, inl, inr, Option-cases, Text, leb, not, take,
}
use webhook_event_route.Domain.{Event, Target, Rule, Delivery, DeliveryAttempt, sent}
use webhook_event_route.Config.{Config}
use webhook_event_route.Dispatcher.Allow.{allowed}
use webhook_event_route.Store.{Result, Result-cases, ok, err, Assigned, Store}
use webhook_event_route.Store.Kept.{IsKept, IsKeptFor, kept_for, both_branches}
use webhook_event_route.Dispatcher.World.{
  Env, World, Request, Reply, transport_error, response, requested, ticked, with_db,
}
use webhook_event_route.Dispatcher.Send.{
  save, record_attempt, mark_failed, send_error, send_response, send_request, send, deliver_created,
  deliver, requeue, requeue_read, is_success, is_dead, body_limit, new_delivery, assign,
  start_attempt,
}
use webhook_event_route.Dispatcher.Worker.{retry_one, retry_all, retry, batch, unix_seconds}

module _ {S : Type 0} (st : Store S) (cfg : Config) (env : Env) (P : S → Type 0) (id : ℕ)
    (k : IsKeptFor st P id) where
  save_kept : (w : World S) (d : Delivery) → d.id ≡ id → P w.db → P (save st cfg env w d).0.db
  unfolding save
  save_kept w d e p = k.by_update (env.now w.ticks) d w.db e p

  record_attempt_kept :
      (w : World S) (a : DeliveryAttempt) → P w.db → P (record_attempt st cfg env w a).db
  unfolding record_attempt
  record_attempt_kept w a p = k.by_attempt (env.now w.ticks) a w.db p

  mark_failed_kept :
      (w : World S) (d : Delivery) (reason : Text)
      → d.id ≡ id
      → P w.db
      → P (mark_failed st cfg env w d reason).0.db
  unfolding mark_failed
  mark_failed_kept w d reason own p =
      both_branches (λ (r : World S × Delivery). P r.0.db) (leb cfg.max_retries (d.attempts + 1)) _
        _ (save_kept (ticked w) _ own p) (save_kept (ticked w) _ own p)

  send_error_kept :
      (w : World S) (d : Delivery) (a : DeliveryAttempt) (e : Text)
      → d.id ≡ id
      → P w.db
      → P (send_error st cfg env w d a e).0.db
  unfolding send_error
  send_error_kept w d a e own p =
      mark_failed_kept (record_attempt st cfg env (ticked w) _) d e own
        (record_attempt_kept (ticked w) _ p)

  send_response_kept :
      (w : World S) (d : Delivery) (a : DeliveryAttempt) (status : ℕ) (body : Text)
      → d.id ≡ id
      → P w.db
      → P (send_response st cfg env w d a status body).0.db
  unfolding send_response
  send_response_kept w d a status body own p =
      let done = record a {
        status = sent;
        response_status = status;
        response_body = take body_limit body;
        finished_at = env.now w.ticks;
      } in
      let after = record_attempt st cfg env (ticked w) done in
      let q = record_attempt_kept (ticked w) done p in
      both_branches (λ (r : World S × Delivery). P r.0.db) (is_success status) _ _
        (save_kept after _ own q)
        (mark_failed_kept after (record d { attempts = d.attempts + 1 }) _ own q)

  send_request_kept :
      (w : World S) (d : Delivery) (a : DeliveryAttempt) (r : Request)
      → d.id ≡ id
      → P w.db
      → P (send_request st cfg env w d a r).0.db
  unfolding send_request
  send_request_kept w d a r own p = by_reply (env.perform w.ticks r)
    where
      by_reply :
          (reply : Reply)
          → P
              (elim reply as (λ _. World S × Delivery) [
                | transport_error e ↦ send_error st cfg env (requested w r) d a e
                | response status body ↦ send_response st cfg env (requested w r) d a status body
              ]).0.db
      by_reply (transport_error e) = send_error_kept (requested w r) d a e own p
      by_reply (response status body) = send_response_kept (requested w r) d a status body own p

  pub send_kept :
      (w : World S) (d : Delivery) (target : Target) (body : Text)
      → d.id ≡ id
      → P w.db
      → P (send st cfg env w d target body).0.db
  unfolding send
  send_kept w d target body own p = elim (Option-cases (env.new_request target.url)) [
    | inl e ↦
        rw (e, send)
          (send_request_kept (ticked w) d (start_attempt st cfg env w d body)
            (record { url = target.url; body = body }) own p)
    | inr (x, e) ↦
        rw (e, send) (send_error_kept (ticked w) d (start_attempt st cfg env w d body) x own p)
  ]

  pub retry_one_kept_for :
      (w : World S) (d : Delivery) → d.id ≡ id → P w.db → P (retry_one st cfg env w d).db
  unfolding retry_one
  retry_one_kept_for w d own p = elim (Result-cases (st.get_event d.event_id w.db)) [
    | inr (f, e) ↦ rw (e, retry_one) p
    | inl (event, e) ↦ elim (Result-cases (st.get_target d.target_id w.db)) [
      | inr (f, g) ↦ rw (e, g, retry_one) p
      | inl (target, g) ↦ rw (e, g, retry_one) (send_kept w d target event.payload own p)
    ]
  ]

module _ {S : Type 0} (st : Store S) (cfg : Config) (env : Env) (P : S → Type 0)
    (k : IsKept st P) where
  deliver_created_kept :
      (w : World S) (d : Delivery) (event : Event) (target : Target)
      → P w.db
      → P (deliver_created st cfg env w d event target).0.db
  unfolding deliver_created
  deliver_created_kept w d event target p =
      both_branches (λ (r : World S × Delivery). P r.0.db)
        (not (allowed env.net target.url cfg.allow_private cfg.allow_loopback)) _ _
        (save_kept st cfg env P d.id (kept_for st P d.id k) (ticked w) _ refl p)
        (send_kept st cfg env P d.id (kept_for st P d.id k) w d target event.payload refl p)

  pub deliver_kept :
      (w : World S) (event : Event) (rule : Rule) (target : Target)
      → P w.db
      → P (deliver st cfg env w event rule target).0.db
  unfolding deliver
  deliver_kept w event rule target p =
      by_created
        (st.create_delivery (env.now w.ticks) (new_delivery st cfg env event rule target) w.db).1
        (st.create_delivery (env.now w.ticks) (new_delivery st cfg env event rule target) w.db).0
        (k.by_create_delivery (env.now w.ticks) (new_delivery st cfg env event rule target) w.db p)
    where
      by_created :
          (r : Result Assigned) (db : S)
          → P db
          → P
              (elim r as (λ _. World S × Result Delivery) [
                | err e ↦ (with_db w db, err e)
                | ok a ↦
                    let (w', d') =
                      deliver_created st cfg env
                        (with_db w db)
                        (assign st cfg env (new_delivery st cfg env event rule target) a)
                        event
                        target in
                    (w', ok d')
              ]).0.db
      by_created (err e) db q = q
      by_created (ok a) db q =
          deliver_created_kept (with_db w db)
            (assign st cfg env (new_delivery st cfg env event rule target) a) event target q

  retry_all_kept : (due : List Delivery) (w : World S) → P w.db → P (retry_all st cfg env w due).db
  unfolding retry_all
  retry_all_kept [] w p = p
  retry_all_kept (d ∷ due) w p =
      retry_all_kept due (retry_one st cfg env w d)
        (retry_one_kept_for st cfg env P d.id (kept_for st P d.id k) w d refl p)

  pub retry_kept : (w : World S) → P w.db → P (retry st cfg env w).db
  unfolding retry
  retry_kept w p =
      elim (Result-cases
        (st.due_deliveries (unix_seconds (env.now w.ticks)) (batch st cfg env) w.db)) [
          | inr (f, e) ↦ rw (e, retry) p
          | inl (due, e) ↦ rw (e, retry) (retry_all_kept due (ticked w) p)
        ]

  requeue_read_kept : (w : World S) (d : Delivery) → P w.db → P (requeue_read st cfg env w d).0.db
  unfolding requeue_read
  requeue_read_kept w d p =
      both_branches (λ (r : World S × Result Delivery). P r.0.db) (not (is_dead d.status)) _ _ p
        (k.by_update_delivery (env.now (w.ticks + 1)) _ w.db p)

  pub requeue_kept : (w : World S) (id : ℕ) → P w.db → P (requeue st cfg env w id).0.db
  unfolding requeue requeue_read
  requeue_kept w id p = elim (Result-cases (st.get_delivery id w.db)) [
    | inr (f, e) ↦ rw (e, requeue) p
    | inl (d, e) ↦ rw (e, requeue) (requeue_read_kept w d p)
  ]
