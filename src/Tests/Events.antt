-- ===== src/Tests/Events.antt =====
-- The event handler on a small database.
use webhook_event_route.Prelude.{
  ℕ, true, false, ◌≡◌, ◌≢◌, refl, ◌↔◌, ◌⊎◌, inl, some, [], ◌∷◌, arith, In, Text, codes,
}
use webhook_event_route.Domain.{Source, Event, Target}
use webhook_event_route.Store.{ok, Store, Assigned}
use webhook_event_route.Dispatcher.World.{Env, Request, response}
use webhook_event_route.Engine.Match.{matched}
use webhook_event_route.Httpapi.Events.{
  Admitted, pass, admit, accepted_as, new_event, visit_matches, start_tally, check_timestamp,
  handle_create_event,
}
use webhook_event_route.Httpapi.Events.Admission.{Accepts, admit_iff_Accepts}
use webhook_event_route.Httpapi.Events.Effects.{handle_accepted}
use webhook_event_route.Httpapi.Events.Routing.{IsTallied, routing-IsTallied}
use webhook_event_route.Httpapi.Events.Requests.{route_event_requests}
use webhook_event_route.Sqlite.Tables.{Db}
use webhook_event_route.Sqlite.Events.{
  get_source, get_target, get_by_key, create_event, update_status, get_event,
}
use webhook_event_route.Webhook.{verify, validate_payload, validate_event_type, validate_timestamp}
use webhook_event_route.Sqlite.Deliveries.{
  create_delivery, update_delivery, create_delivery_attempt, get_delivery, due_deliveries,
}
use webhook_event_route.Sqlite.Rules.{list_enabled_rules}
use webhook_event_route.Sqlite.Instance.{sqlite_store}
use webhook_event_route.Dispatcher.Send.{requeue}
use webhook_event_route.Dispatcher.Worker.{retry}
use webhook_event_route.Dispatcher.Allow.{allowed}
use webhook_event_route.Tests.Samples.{
  conn, plain, cfg, answering, codec, rule, event, server, world, conn, request, noon,
}

abbrev pub st : Store Db
st = sqlite_store conn

abbrev pub env : Env
env = answering (response 200 [])

-- The signature of the body "n" under the secret "k".
abbrev pub signature : Text
signature = codes "6b6e"

-- What the tests see through.
run : Unit {0}
unfolding handle_create_event requeue retry get_delivery due_deliveries get_event admit get_source
    get_target get_by_key create_event create_delivery update_delivery create_delivery_attempt
    list_enabled_rules update_status verify validate_payload validate_event_type validate_timestamp
    check_timestamp
run = tt

pub new_is_accepted :
    (handle_create_event plain codec st cfg env server (some (codes "n")) signature).1
    ≡ accepted_as 2
unfolding run
new_is_accepted = refl

abbrev pub admitted : Text → Admitted
admitted body = record { request = request body; payload = codes "{}"; timestamp = some noon }

pub admit_new :
    admit plain codec st cfg env world (some (codes "n")) signature ≡ pass (admitted (codes "n"))
unfolding run
admit_new = refl

admit_example :
    (admit plain codec st cfg env world (some (codes "n")) signature ≡ pass (admitted (codes "n")))
    ↔ ((whole : Text) × (src : Source) × Accepts plain codec st cfg env world
          (some (codes "n"))
          signature
          whole
          src
          (admitted (codes "n")))
admit_example =
    admit_iff_Accepts plain codec st cfg env world (some (codes "n")) signature (omega arith)
      (omega arith) (admitted (codes "n"))

handle_accepted_example :
    (a : Admitted) × (admit plain codec st cfg env world (some (codes "n")) signature ≡ pass a)
    × ((e : Event) → st.get_by_key a.request.source_id a.request.event_id world.db ≢ ok e)
    × (x : Assigned) × ((st.create_event (env.now 1) (new_event a) world.db).1 ≡ ok x)
    × (x.id ≡ 2)
handle_accepted_example =
    handle_accepted plain codec st cfg env server (some (codes "n")) signature 2 new_is_accepted

routing_example :
    IsTallied (visit_matches st cfg env (start_tally server) event (matched rule ∷ []))
routing_example = routing-IsTallied st cfg env (matched rule ∷ []) server event

route_example :
    let r : Request = record { url = codes "host"; body = codes "{}" } in
    In r []
    ⊎ ((tid : ℕ) × (target : Target) × (get_target tid world.db ≡ ok target)
        × (target.enabled ≡ true)
        × (allowed env.net target.url false false ≡ true)
        × (r ≡ record { url = target.url; body = codes "{}" }))
unfolding run
route_example =
    route_event_requests conn cfg env plain server event
      (record { url = codes "host"; body = codes "{}" }) (inl refl)
