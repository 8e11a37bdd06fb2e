-- ===== src/Tests/Dispatcher.antt =====
-- Deliveries on a small database.
use webhook_event_route.Prelude.{
  In, inl, length, [], ◌∷◌, ℕ, ◌+◌, ◌-◌, ◌*◌, ◌^◌, ◌≡◌, ◌≢◌, ◌≤◌, refl, ◌↔◌, ◌⊎◌, true, false, some,
  none, [], ◌++◌, arith, Text, codes, text_eq,
}
use webhook_event_route.Domain.{Delivery, delivered, retrying, dead}
use webhook_event_route.Errs.{Error}
use webhook_event_route.Store.{Failure, typed, ok, err, Store}
use webhook_event_route.Dispatcher.Backoff.{duration, multiplier}
use webhook_event_route.Dispatcher.Backoff.Bounds.{duration_bounds}
use webhook_event_route.Dispatcher.Allow.{Url, allowed}
use webhook_event_route.Dispatcher.Allow.Address.{MayContact, allowed_iff_MayContact}
use webhook_event_route.Dispatcher.World.{Env, transport_error, response, World}
use webhook_event_route.Dispatcher.Send.{is_success, send, deliver, requeue}
use webhook_event_route.Dispatcher.Send.Sound.{
  IsSound, send-IsSound, deliver-IsSound, deliver_blocked, requeue_lem,
}
use webhook_event_route.Dispatcher.Send.Outcome.{after_failure, asked, send_lem}
use webhook_event_route.Dispatcher.Send.Settle.{settle, settle_ends}
use webhook_event_route.Sqlite.Tables.{Db}
use webhook_event_route.Sqlite.Deliveries.{
  get_delivery, update_delivery, create_delivery_attempt, due_deliveries,
}
use webhook_event_route.Sqlite.Settled.{retry_keeps_settled}
use webhook_event_route.Sqlite.Instance.{sqlite_store}
use webhook_event_route.Dispatcher.Worker.{retry}
use webhook_event_route.Dispatcher.Worker.Load.{sqlite_turn_le}
use webhook_event_route.Sqlite.Events.{get_event, get_target}
use webhook_event_route.Sqlite.Invariant.{IsWellFormed}
use webhook_event_route.Sqlite.Budget.{budget}
use webhook_event_route.Sqlite.Budget.Turns.{turns, turns-total}
use webhook_event_route.Tests.Samples.{
  db, noon, cfg, net, answering, target, rule, event, delivery, dead_delivery, world, conn,
  db-IsWellFormed,
}

abbrev st : Store Db
st = sqlite_store conn

-- Every request is answered with 500.
abbrev failing : Env
failing = answering (response 500 [])

duration_bounds_example :
    (duration 1000 3 7 ≡ 1000 * multiplier 3 + 7)
    × (duration 1000 3 7 ≤ 1000 * 17)
    × (3 ≤ 5 → multiplier 3 ≡ 2 ^ (3 - 1))
    × (5 ≤ 3 → multiplier 3 ≡ 16)
duration_bounds_example = duration_bounds 1000 3 7 (omega arith) (omega arith)

allowed_example : (allowed net (codes "local") false false ≡ true) ↔ (
    (u : Url) × (ip : Text) × (net.parse_url (codes "local") ≡ some u)
    × MayContact net false false u ip)
allowed_example = allowed_iff_MayContact net false false (codes "local")

send-IsSound_example :
    let after' = (send st cfg failing world delivery (target 5 (codes "host")) (codes "{}")).1 in
    ((after'.status ≡ delivered) ⊎ (after'.status ≡ retrying) ⊎ (after'.status ≡ dead))
    × IsSound 5 after'
send-IsSound_example =
    send-IsSound st cfg failing world delivery (target 5 (codes "host")) (codes "{}") refl

-- Three answers of 500 are enough for five attempts.
three_sends_die :
    ((settle st cfg failing (target 5 (codes "host")) (codes "{}") 3 world delivery).1.status
      ≡ dead)
    × ((settle st cfg failing (target 5 (codes "host")) (codes "{}") 2 world delivery).1.status
        ≡ retrying)
unfolding settle send update_delivery create_delivery_attempt
three_sends_die = (refl, refl)

settle_ends_example :
    let d = (settle st cfg failing (target 5 (codes "host")) (codes "{}") 5 world delivery).1 in
    (d.status ≡ delivered) ⊎ ((d.status ≡ dead) × (5 ≤ d.attempts))
settle_ends_example =
    settle_ends st cfg failing (target 5 (codes "host")) (codes "{}") 5 world delivery (omega arith)
      (omega arith)

send_example :
    let after' = send st cfg failing world delivery (target 5 (codes "host")) (codes "{}") in
    ((e : Text)
      → (failing.new_request (codes "host") ≡ some e)
        ⊎ ((failing.new_request (codes "host") ≡ none)
            × (asked st cfg failing world delivery (target 5 (codes "host")) (codes "{}")
                ≡ transport_error e))
      → (after'.1.attempts ≡ 0 + 1)
        × (after'.1.last_error ≡ e)
        × (after'.1.status ≡ after_failure 5 (0 + 1)))
    × ((status : ℕ) (reply : Text)
        → failing.new_request (codes "host") ≡ none
        → asked st cfg failing world delivery (target 5 (codes "host")) (codes "{}")
          ≡ response status reply
        → (is_success status ≡ true
            → (after'.1.attempts ≡ 0 + 1)
              × (after'.1.last_error ≡ [])
              × (after'.1.status ≡ delivered))
          × (is_success status ≡ false
              → (after'.1.attempts ≡ 0 + 2)
                × (after'.1.last_error ≡ codes "unexpected status " ++ failing.status_text status)
                × (after'.1.status ≡ after_failure 5 (0 + 2))))
send_example = send_lem st cfg failing world delivery (target 5 (codes "host")) (codes "{}")

deliver-IsSound_example :
    ((d : Delivery)
      → (deliver st cfg failing world event rule (target 5 (codes "host"))).1 ≡ ok d
      → IsSound 5 d × (d.event_id ≡ 1) × (d.rule_id ≡ 7) × (d.target_id ≡ 5))
    × ((e : Failure)
        → (deliver st cfg failing world event rule (target 5 (codes "host"))).1 ≡ err e
        → (deliver st cfg failing world event rule (target 5 (codes "host"))).0.requests ≡ [])
deliver-IsSound_example = deliver-IsSound st cfg failing world event rule (target 5 (codes "host"))

deliver_blocked_example :
    ((deliver st cfg failing world event rule (target 6 (codes "local"))).0.requests ≡ [])
    × ((d : Delivery)
        → (deliver st cfg failing world event rule (target 6 (codes "local"))).1 ≡ ok d
        → (d.status ≡ dead)
          × (d.attempts ≡ 0)
          × (d.next_retry_at ≡ none)
          × (d.dead_at ≢ none)
          × (d.last_error ≡ codes "target not whitelisted"))
unfolding allowed text_eq
deliver_blocked_example =
    deliver_blocked st cfg failing world event rule (target 6 (codes "local")) refl

requeue_example :
    ((dead ≢ dead)
      → ((requeue st cfg failing world 1).0.db ≡ world.db)
        × ((e : Error) × ((requeue st cfg failing world 1).1 ≡ err (typed e)) × (e.status ≡ 409)))
    × ((d : Delivery)
        → (requeue st cfg failing world 1).1 ≡ ok d
        → (dead ≡ dead)
          × (d.id ≡ 1)
          × (d.status ≡ retrying)
          × (d.attempts ≡ 0)
          × (d.last_error ≡ [])
          × (d.dead_at ≡ none)
          × (d.next_retry_at ≢ none))
    × ((requeue st cfg failing world 1).0.requests ≡ [])
unfolding get_delivery
requeue_example = requeue_lem st cfg failing world 1 dead_delivery refl

abbrev due_world : World Db
due_world = record world {
  db = record db {
    deliveries = record delivery { status = retrying; next_retry_at = some noon } ∷ [];
  };
}

one_is_sent :
    (retry st cfg failing due_world).requests
    ≡ record { url = codes "host"; body = codes "{}" } ∷ []
unfolding retry send get_event get_target due_deliveries update_delivery create_delivery_attempt
one_is_sent = refl

sqlite_turn_le_example : length (retry st cfg failing due_world).requests ≤ 100
sqlite_turn_le_example = sqlite_turn_le conn cfg failing due_world

retry_keeps_settled_example :
    In dead_delivery
      (retry (sqlite_store conn) cfg (answering (response 200 [])) world).db.deliveries
retry_keeps_settled_example =
    retry_keeps_settled conn cfg (answering (response 200 [])) dead_delivery world db-IsWellFormed
      (inl refl) refl

abbrev due_delivery : Delivery
due_delivery = record delivery { status = retrying; next_retry_at = some noon }

due-IsWellFormed : IsWellFormed due_world.db
due-IsWellFormed = record {
  events_given = λ id m. ground arith;
  events_once = ground arith;
  keys_once = ground arith;
  deliveries_given = λ id m. ground arith;
  deliveries_once = ground arith;
  deliveries_of_events = λ id m. ground arith;
  attempts_of_deliveries = λ id m. ground arith;
}

turns-total_example :
    length (turns conn cfg failing 3 due_world).requests
      + budget 5 (turns conn cfg failing 3 due_world).db.deliveries
    ≤ 0 + budget 5 (due_delivery ∷ [])
turns-total_example = turns-total conn cfg failing 3 due_world due-IsWellFormed
