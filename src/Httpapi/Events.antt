-- ===== src/Httpapi/Events.antt =====
-- internal/httpapi/events.go: POST /api/v1/events.
pub mod Admission
pub mod Kept
pub mod Effects
pub mod Routing
pub mod Routed
pub mod Requests
use webhook_event_route.Prelude.{
  ℕ, ◌+◌, Bool, true, false, not, ◌&&◌, Option, none, some, List, [], ◌∷◌, any, ◌==◌, ltb,
  if◌then◌else◌, take, ℤ, pos, negsuc, Text, codes, text_eq,
}
use webhook_event_route.Domain.{
  Source, Event, Target, Rule, Delivery, EventStatus, accepted, delivered, partially_failed, failed,
  duplicate, DeliveryStatus,
}
use webhook_event_route.Errs.{Code, Error, new}
use webhook_event_route.Runtime.{Runtime}
use webhook_event_route.Engine.Match.{RuleMatch, is_seen, match_rules}
use webhook_event_route.Webhook.{
  verify, validate_payload, validate_event_type, validate_timestamp, parse_timestamp,
}
use webhook_event_route.Config.{Config}
use webhook_event_route.Store.{Failure, not_found, Result, ok, err, Assigned, Store}
use webhook_event_route.Metrics.{Counters, count_event, count_delivery}
use webhook_event_route.Dispatcher.World.{Env, World, ticked, with_db}
use webhook_event_route.Dispatcher.Send.{deliver}

-- `createEventRequest`; the payload is the raw JSON of that member.
pub record CreateEventRequest : Type 0 where
  pub source_id : ℕ
  pub event_type : Text
  pub event_id : Text
  pub payload : Text
  pub timestamp : ℤ

-- encoding/json on the request: decoding the body, and writing the raw payload out again.
pub record Codec : Type 0 where
  pub decode : Text → Option CreateEventRequest
  pub marshal_raw : Text → Text

-- A check of the handler passes with a value, or the handler answers with an error and returns.
pub data Check (A : Type 0) : Type 0 where
  pass : A → Check A
  refuse : Error → Check A

infixl 5 ◌>>=◌ ◌>>◌
abbrev pub ◌>>=◌ : {A B : Type 0} → Check A → (A → Check B) → Check B
pass a >>= f = f a
refuse e >>= f = refuse e

abbrev pub ◌>>◌ : {B : Type 0} → Check (Unit {0}) → Check B → Check B
m >> k = m >>= λ _. k

abbrev pub require : Bool → Code → Text → Check (Unit {0})
require true code msg = pass tt
require false code msg = refuse (new code msg)

abbrev pub no_error : Option Error → Check (Unit {0})
no_error none = pass tt
no_error (some e) = refuse e

abbrev pub present : {A : Type 0} → Option A → Code → Text → Check A
present none code msg = refuse (new code msg)
present (some a) code msg = pass a

abbrev pub source_found : Result Source → Check Source
source_found (ok src) = pass src
source_found (err not_found) = refuse (new Code.source_not_found (codes "source not found"))
source_found (err _) = refuse (new Code.internal (codes "internal error"))

-- What the checks hand on to the rest of the handler.
pub record Admitted : Type 0 where
  pub request : CreateEventRequest
  pub payload : Text
  pub timestamp : Option ℕ

abbrev pub is_zero : ℤ → Bool
is_zero (pos n) = n == 0
is_zero (negsuc n) = false

module _ (cfg : Config) where
  -- The timestamp of the request: zero is none, else it must parse and lie in the window.
  abbrev pub check_parsed : Option ℕ → ℕ → Check (Option ℕ)
  check_parsed none now = refuse (new Code.replay_rejected (codes "invalid timestamp"))
  check_parsed (some ts) now = do
    no_error (validate_timestamp ts now cfg.replay_window)
    pass (some ts)

  unfoldable pub check_timestamp : ℤ → ℕ → Check (Option ℕ)
  unfolding parse_timestamp
  check_timestamp timestamp now =
      if is_zero timestamp then pass none else check_parsed (parse_timestamp timestamp) now

-- `MaxPayload+1` wraps as an int64, and a LimitReader of a negative limit yields no byte.
abbrev pub read_limit : ℕ → ℕ
read_limit max_payload = if ltb max_payload 9223372036854775807 then max_payload + 1 else 0

module _ {S : Type 0} (lib : Runtime) (codec : Codec) (st : Store S) (cfg : Config)
    (env : Env) where
  -- The handler from reading the body to the check of the timestamp. `read` is the body, `none` where
  -- it cannot be read; at most one byte more than the limit is taken from it.
  unfoldable pub admit : World S → Option Text → Text → Check Admitted
  unfolding new
  admit w read signature = do
    whole ← present read Code.bad_request (codes "failed to read body")
    let body = take (read_limit cfg.max_payload) whole
    req ← present (codec.decode body) Code.payload_invalid (codes "request is not valid JSON")
    require (not (text_eq req.event_id [])) Code.payload_invalid (codes "event_id is required")
    let payload = codec.marshal_raw req.payload
    src ← source_found (st.get_source req.source_id w.db)
    require src.enabled Code.source_not_found (codes "source is disabled")
    require (verify lib src.secret signature body) Code.signature_invalid
        (codes "signature invalid")
    no_error (validate_payload lib payload cfg.max_payload)
    no_error (validate_event_type src req.event_type)
    ts ← check_timestamp cfg req.timestamp (env.now w.ticks)
    pass (record { request = req; payload = payload; timestamp = ts })

-- What the handler writes: an error, 409 with the earlier event, 202 with the new event; or it
-- panics, and writes nothing.
pub data Answer : Type 0 where
  failure : Error → Answer
  duplicate_of : (id : ℕ) (status : EventStatus) → Answer
  accepted_as : (id : ℕ) → Answer
  panicked : Answer

-- The state that the handler acts on; without a registry nothing is counted.
pub record Server (S : Type 0) : Type 0 where
  pub world : World S
  pub metrics : Option Counters

-- The variables of the loop over the targets. `crashed` marks the panic, which ends the loop.
pub record Tally (S : Type 0) : Type 0 where
  pub server : Server S
  pub delivered_count : ℕ
  pub failed_count : ℕ
  pub seen_target : List ℕ
  pub crashed : Bool

abbrev pub is_delivered : DeliveryStatus → Bool
is_delivered DeliveryStatus.delivered = true
is_delivered _ = false

-- The status of the event after its deliveries.
unfoldable pub final_status : ℕ → ℕ → EventStatus
final_status delivered_count failed_count =
    if ltb 0 delivered_count && ltb 0 failed_count
    then partially_failed
    else if delivered_count == 0 && ltb 0 failed_count
    then failed
    else if delivered_count == 0 && failed_count == 0
    then accepted
    else delivered

-- The event that is stored.
abbrev pub new_event : Admitted → Event
new_event a = record {
  id = 0;
  source_id = a.request.source_id;
  event_type = a.request.event_type;
  event_id = a.request.event_id;
  payload = a.payload;
  status = accepted;
  received_at = 0;
  created_at = 0;
  reject_reason = [];
  timestamp = a.timestamp;
}

abbrev pub start_tally : {S : Type 0} → Server S → Tally S
start_tally s = record {
  server = s;
  delivered_count = 0;
  failed_count = 0;
  seen_target = [];
  crashed = false;
}

module _ {S : Type 0} (st : Store S) (cfg : Config) (env : Env) where
  -- `recordDeliveryStatus` and the switch on the status of the delivery that came back. With an error
  -- there is no delivery, and reading its status panics.
  unfoldable pub tally_delivery : Tally S → ℕ → World S × Result Delivery → Tally S
  unfolding count_delivery
  tally_delivery t tid (w, r) = elim r [
    | err e ↦ record t {
      server = record { world = w; metrics = t.server.metrics };
      seen_target = tid ∷ t.seen_target;
      crashed = true;
    }
    | ok dv ↦ record t {
      server = record { world = w; metrics = count_delivery t.server.metrics dv.status };
      delivered_count = if is_delivered dv.status then t.delivered_count + 1 else t.delivered_count;
      failed_count = if is_delivered dv.status then t.failed_count else t.failed_count + 1;
      seen_target = tid ∷ t.seen_target;
    }
  ]

  -- A target that is read: skipped if disabled, else delivered to.
  unfoldable pub visit_found : Tally S → Event → Rule → ℕ → Result Target → Tally S
  unfolding tally_delivery deliver
  visit_found t event rule tid (err e) = t
  visit_found t event rule tid (ok target) =
      if not target.enabled
      then t
      else tally_delivery t tid (deliver st cfg env t.server.world event rule target)

  -- The body of the inner loop.
  unfoldable pub visit_target : Tally S → Event → Rule → ℕ → Tally S
  unfolding visit_found is_seen
  visit_target t event rule tid =
      if t.crashed
      then t
      else if is_seen t.seen_target tid
      then t
      else visit_found t event rule tid (st.get_target tid t.server.world.db)

  unfoldable pub visit_targets : Tally S → Event → Rule → List ℕ → Tally S
  unfolding visit_target
  visit_targets t event rule [] = t
  visit_targets t event rule (tid ∷ tids) =
      visit_targets (visit_target t event rule tid) event rule tids

  unfoldable pub visit_matches : Tally S → Event → List RuleMatch → Tally S
  unfolding visit_targets
  visit_matches t event [] = t
  visit_matches t event (m ∷ ms) =
      visit_matches (visit_targets t event m.rule m.target_ids) event ms

  -- After the loop: the event's status is updated, its error dropped, and the event is counted.
  unfoldable pub finish : Tally S → Event → Server S × Answer
  unfolding count_event final_status
  finish t event =
      let w = t.server.world in
      let (db, r) =
        st.update_status event.id (final_status t.delivered_count t.failed_count) [] w.db in
      if t.crashed then (t.server, panicked) else (
        record { world = with_db w db; metrics = count_event t.server.metrics accepted },
        accepted_as event.id,
      )

module _ {S : Type 0} (lib : Runtime) (st : Store S) (cfg : Config) (env : Env) where
  -- The handler from the new event's row on.
  unfoldable pub route_event : Server S → Event → Server S × Answer
  unfolding visit_matches finish match_rules new
  route_event s event = elim (st.list_enabled_rules s.world.db) [
    | err e ↦ (s, failure (new Code.internal (codes "failed to load rules")))
    | ok rules ↦
        finish st cfg env
          (visit_matches st cfg env (start_tally s) event
            (match_rules lib rules event.source_id event.event_type event.payload))
          event
  ]

  -- `CreateEvent`, and what follows it.
  unfoldable pub store_event : Server S → Admitted → Server S × Answer
  unfolding route_event new
  store_event s a =
      let event = new_event a in
      let (db, r) = st.create_event (env.now s.world.ticks) event s.world.db in
      let s' = record s { world = with_db s.world db } in
      elim r [
        | err e ↦ (s', failure (new Code.internal (codes "failed to persist event")))
        | ok x ↦ route_event s' (record event { id = x.id; received_at = x.at; created_at = x.at })
      ]

  -- The lookup of an earlier event with the same key. Any error of it counts as none found.
  unfoldable pub deduplicate : Server S → Admitted → Server S × Answer
  unfolding store_event count_event
  deduplicate s a = elim (st.get_by_key a.request.source_id a.request.event_id s.world.db) [
    | ok existing ↦ (
      record s { metrics = count_event s.metrics duplicate },
      duplicate_of existing.id existing.status,
    )
    | err e ↦ store_event s a
  ]

module _ {S : Type 0} (lib : Runtime) (codec : Codec) (st : Store S) (cfg : Config)
    (env : Env) where
  -- `handleCreateEvent`: the body, the X-Signature header.
  unfoldable pub handle_create_event : Server S → Option Text → Text → Server S × Answer
  unfolding admit deduplicate
  handle_create_event s read signature =
      let s' = record s { world = ticked s.world } in
      elim (admit lib codec st cfg env s.world read signature) [
        | refuse e ↦ (s', failure e)
        | pass a ↦ deduplicate lib st cfg env s' a
      ]
