-- ===== src/Tests/Process.antt =====
-- Processes on one small database file, one after the other.
use webhook_event_route.Prelude.{
  ◌≡◌, refl, true, false, some, none, Option, [], ◌∷◌, all, pos, Text, codes, text_eq,
  if◌then◌else◌, List,
}
use webhook_event_route.Domain.{EventStatus}
use webhook_event_route.Strconv.{atoi}
use webhook_event_route.Config.Load.{
  Settings, loaded, read_settings, get_env_bool, check_settings, load, duration_of,
}
use webhook_event_route.Dispatcher.Send.{requeue}
use webhook_event_route.Dispatcher.Worker.{retry}
use webhook_event_route.Sqlite.Deliveries.{
  create_delivery, update_delivery, create_delivery_attempt, get_delivery, due_deliveries,
}
use webhook_event_route.Sqlite.Events.{
  get_event, get_source, get_target, get_by_key, create_event, update_status,
}
use webhook_event_route.Sqlite.Open.{File, open_db, migrate}
use webhook_event_route.Sqlite.Rules.{list_enabled_rules}
use webhook_event_route.Webhook.{verify, validate_payload, validate_event_type, validate_timestamp}
use webhook_event_route.Httpapi.Events.{
  accepted_as, duplicate_of, admit, check_timestamp, handle_create_event,
}
use webhook_event_route.Httpapi.Queries.{handle_retry_delivery}
use webhook_event_route.Httpapi.Api.{serve, post_event, retry_delivery}
use webhook_event_route.Process.{
  Process, running, Platform, start, make_dir, new_process, Happening, called, ticker, signal,
  shut_down, advance, run, Life, file_of, live, lives,
}
use webhook_event_route.Process.Lives.{base_allowed, IsConsistent, lives-IsConsistent}
use webhook_event_route.Process.Once.{post, Admits, accepted_for_good}
use webhook_event_route.Tests.Samples.{plain, dec, host, db, conn}
use webhook_event_route.Tests.Events.{env, signature, admitted}

-- What the tests see through.
seen : Unit {0}
unfolding handle_create_event requeue retry get_delivery due_deliveries get_event admit get_source
    get_target get_by_key create_event create_delivery update_delivery create_delivery_attempt
    list_enabled_rules update_status verify validate_payload validate_event_type validate_timestamp
    check_timestamp handle_retry_delivery atoi serve load read_settings check_settings get_env_bool
    duration_of make_dir open_db migrate start advance run live lives
seen = tt

-- Every part of the system does what it is asked to.
abbrev os : Platform
os = record {
  dir = λ path. codes ".";
  mkdir_all = λ path. none;
  driver = record { connect = λ source. none; run_schema = none; insert_version = none };
}

abbrev unset : Text → Option Text
unset name = none

-- No retry is allowed: the process does not start.
abbrev no_retries : Text → Option Text
no_retries name = if text_eq name (codes "MAX_RETRIES") then some (codes "0") else none

abbrev settings : Settings
settings = record {
  addr = codes ":8080";
  db_path = codes "./data/router.db";
  max_payload = pos 1048576;
  max_retries = pos 5;
  retry_base = pos 1000000000;
  forward_timeout = pos 5000000000;
  allow_private = false;
  allow_loopback = false;
  replay_window = pos 300000000000;
}

default_settings : load unset ≡ loaded settings
unfolding seen
default_settings = refl

abbrev life : List Happening → Life
life hs = record { os = os; lookup_env = unset; env = env; happenings = hs }

abbrev failing_life : Life
failing_life = record { os = os; lookup_env = no_retries; env = env; happenings = ticker ∷ [] }

abbrev two_lives : List Life
two_lives =
    life (called (post_event (some (codes "n")) signature) ∷ ticker ∷ signal ∷ [])
    ∷ failing_life
    ∷ []

bases_allowed : all base_allowed two_lives ≡ true
unfolding seen
bases_allowed = refl

lives-IsConsistent_example :
    IsConsistent (lives plain dec conn host (record { tables = none; versions = [] }) two_lives)
lives-IsConsistent_example = lives-IsConsistent plain dec conn host [] two_lives bases_allowed

-- Each process that opens the file leaves a row in schema_version.
versions_grow :
    (lives plain dec conn host
      (record { tables = none; versions = [] })
      (life [] ∷ life [] ∷ [])).versions
    ≡ 1 ∷ 1 ∷ []
unfolding seen
versions_grow = refl

abbrev first : Process
first = new_process settings (record { tables = some db; versions = 1 ∷ [] })

abbrev happened : List Happening
happened = ticker ∷ called (retry_delivery (codes "1")) ∷ signal ∷ shut_down ∷ []

first_accepts : (post plain dec conn host env first (some (codes "n")) signature).1 ≡ accepted_as 2
unfolding seen
first_accepts = refl

first-Admits :
    Admits plain dec conn host env first (some (codes "n")) signature (admitted (codes "n"))
unfolding seen
first-Admits = refl

abbrev left : File
left =
    lives plain dec conn host
      (file_of plain dec conn host (
        run plain dec conn host env
          (record first {
            server = (post plain dec conn host env first (some (codes "n")) signature).0;
          })
          happened))
      (failing_life ∷ [])

abbrev second : Process
second = new_process settings (record left { versions = 1 ∷ 1 ∷ [] })

second_starts : start os unset left ≡ (record left { versions = 1 ∷ 1 ∷ [] }, running second)
unfolding seen
second_starts = refl

abbrev now : Process
now = run plain dec conn host env second (ticker ∷ [])

second-Admits :
    Admits plain dec conn host env now (some (codes "n")) signature (admitted (codes "n"))
unfolding seen
second-Admits = refl

second_bases : all base_allowed (life (ticker ∷ []) ∷ failing_life ∷ []) ≡ true
unfolding seen
second_bases = refl

accepted_for_good_example :
    let answer = post plain dec conn host env now (some (codes "n")) signature in
    (status : EventStatus) × (answer.1 ≡ duplicate_of 2 status)
    × (answer.0.world.db ≡ now.server.world.db)
    × (answer.0.world.requests ≡ now.server.world.requests)
accepted_for_good_example =
    accepted_for_good plain dec conn host env first (some (codes "n")) signature 2
      (admitted (codes "n")) happened (failing_life ∷ []) (life (ticker ∷ []))
      (record left { versions = 1 ∷ 1 ∷ [] }) second (some (codes "n")) signature
      (admitted (codes "n")) refl second_bases first_accepts first-Admits second_starts
      second-Admits refl refl
