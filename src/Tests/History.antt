-- ===== src/Tests/History.antt =====
-- The history of the service on a small database.
use webhook_event_route.Errs.{status_of}
use webhook_event_route.Store.{other}
use webhook_event_route.Sqlite.Conn.{Conn}
use webhook_event_route.Sqlite.Instance.{sqlite_store}
use webhook_event_route.Httpapi.Api.Status.{status_of_response}
use webhook_event_route.Prelude.{arith, inl, inr, ◌≡◌, refl, some, codes}
use webhook_event_route.Domain.{EventStatus}
use webhook_event_route.Httpapi.Events.{
  pass, admit, duplicate_of, check_timestamp, Server, handle_create_event,
}
use webhook_event_route.Sqlite.Tables.{Db}
use webhook_event_route.Sqlite.Events.{
  get_source, get_target, get_by_key, create_event, update_status, get_event,
}
use webhook_event_route.Webhook.{verify, validate_payload, validate_event_type, validate_timestamp}
use webhook_event_route.Sqlite.Deliveries.{
  create_delivery, update_delivery, create_delivery_attempt, get_delivery, due_deliveries,
}
use webhook_event_route.Sqlite.Rules.{list_enabled_rules}
use webhook_event_route.Sqlite.Events.Keys.{sqlite_keys}
use webhook_event_route.Dispatcher.Send.{requeue}
use webhook_event_route.Dispatcher.Worker.{retry}
use webhook_event_route.Sqlite.Tx.{single}
use webhook_event_route.Sqlite.Configured.{sqlite_resources}
use webhook_event_route.Strconv.{atoi}
use webhook_event_route.Httpapi.Queries.{handle_retry_delivery}
use webhook_event_route.Httpapi.Api.{Call, serve, post_event, retry_delivery}
use webhook_event_route.Httpapi.History.{Later, still, served, turn}
use webhook_event_route.Httpapi.History.Duplicates.{accepted_once}
use webhook_event_route.Httpapi.History.Formed.{service-IsWellFormed, service-IsIntact}
use webhook_event_route.Httpapi.History.Sound.{service-AreSound}
use webhook_event_route.Sqlite.Sound.{AreSound}
use webhook_event_route.Sqlite.Invariant.{IsWellFormed}
use webhook_event_route.Sqlite.Intact.{IsIntact}
use webhook_event_route.Tests.Samples.{
  plain, cfg, codec, dec, host, server, conn, db-IsWellFormed, db-IsIntact,
}
use webhook_event_route.Tests.Events.{st, env, signature, admitted, new_is_accepted, admit_new}

-- What the tests see through.
run : Unit {0}
unfolding handle_create_event requeue retry get_delivery due_deliveries get_event admit get_source
    get_target get_by_key create_event create_delivery update_delivery create_delivery_attempt
    list_enabled_rules update_status verify validate_payload validate_event_type validate_timestamp
    check_timestamp handle_retry_delivery atoi serve
run = tt

-- The event that was accepted, sent again after a turn of the worker and a manual retry.
abbrev first : Server Db
first = (handle_create_event plain codec st cfg env server (some (codes "n")) signature).0

abbrev again : Call
again = retry_delivery (codes "1")

abbrev later : Server Db
later =
    let turned = record first { world = retry st cfg env first.world } in
    (serve plain dec st (sqlite_resources host single) cfg env turned again).0

admit_again :
    admit plain codec st cfg env later.world (some (codes "n")) signature
    ≡ pass (admitted (codes "n"))
unfolding run
admit_again = refl

accepted_once_example :
    (status : EventStatus) × ((handle_create_event plain codec st cfg env later
        (some (codes "n"))
        signature).1
      ≡ duplicate_of 2 status)
    × ((handle_create_event plain codec st cfg env later (some (codes "n")) signature).0.world.db
        ≡ later.world.db)
    × ((handle_create_event plain codec st cfg env later
          (some (codes "n"))
          signature).0.world.requests
        ≡ later.world.requests)
accepted_once_example =
    accepted_once plain dec st (sqlite_resources host single) (sqlite_keys conn host single) cfg env
      server later (some (codes "n")) (some (codes "n")) signature signature 2
      (admitted (codes "n")) (admitted (codes "n")) new_is_accepted admit_new
      (turn (served again still)) admit_again refl refl

history : Later plain dec st (sqlite_resources host single) cfg env server later
unfolding serve handle_create_event
history = served {s = server} (post_event (some (codes "n")) signature) (turn (served again still))

service-IsWellFormed_example : IsWellFormed later.world.db
service-IsWellFormed_example =
    service-IsWellFormed plain dec conn host single cfg env server later history db-IsWellFormed

service-IsIntact_example : IsIntact later.world.db
service-IsIntact_example =
    service-IsIntact plain dec conn host single cfg env server later history db-IsIntact

first-AreSound : AreSound 5 server.world.db.deliveries
first-AreSound x (inl e) = rw e (ground arith)
first-AreSound x (inr m) = elim m [ ]

service-AreSound_example : AreSound 5 later.world.db.deliveries
service-AreSound_example =
    service-AreSound plain dec conn host single cfg env server later history (omega arith)
      first-AreSound

-- A request that is cancelled right after its event is stored.
abbrev cancelled : Conn
cancelled = record conn { rules_error = λ db. some (other (codes "context canceled")) }

cancelled_is_stored :
    let out =
      serve plain dec
        (sqlite_store cancelled)
        (sqlite_resources host single)
        cfg
        env
        server
        (post_event (some (codes "n")) signature) in
    (status_of_response out.1 ≡ some 500) × (out.0.world.db.last_event ≡ 2)
unfolding run status_of status_of_response
cancelled_is_stored = (refl, refl)
