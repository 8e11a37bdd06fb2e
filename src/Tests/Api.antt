-- ===== src/Tests/Api.antt =====
-- Calls of the interface on a small database.
use webhook_event_route.Prelude.{◌+◌, ◌≡◌, refl, some, pos, codes, [], ◌∷◌, true}
use webhook_event_route.Domain.{Source, Target, Rule, none_left}
use webhook_event_route.Strconv.{atoi}
use webhook_event_route.Sqlite.Tables.{Db}
use webhook_event_route.Sqlite.Tx.{single}
use webhook_event_route.Sqlite.Sources.{create_source}
use webhook_event_route.Sqlite.Targets.{create_target}
use webhook_event_route.Sqlite.Rules.Writes.{create_rule}
use webhook_event_route.Httpapi.Events.{Server}
use webhook_event_route.Httpapi.Resources.{created, fetched}
use webhook_event_route.Httpapi.Resources.Sources.{handle_create_source}
use webhook_event_route.Httpapi.Resources.Targets.{handle_create_target}
use webhook_event_route.Httpapi.Resources.Rules.{handle_create_rule}
use webhook_event_route.Httpapi.Api.{Call, Response, of_source, of_target, of_rule, serve}
use webhook_event_route.Httpapi.Api.Readback.{answer, get-post_source, get-post_rule}
use webhook_event_route.Httpapi.Resources.Readback.{SameSource, SameRule}
use webhook_event_route.Tests.Samples.{plain, cfg, dec, host, server, noon, conn, db-IsIntact}
use webhook_event_route.Tests.Events.{env}

abbrev call : Server Db → Call → Server Db × Response
call = answer plain dec conn host single cfg env server

run : Unit {0}
unfolding serve atoi handle_create_source handle_create_target handle_create_rule create_source
    create_target create_rule
run = tt

abbrev new_source : Source
new_source = record {
  id = 2;
  name = codes "new";
  secret = codes "q";
  enabled = true;
  allowed_types = [];
  created_at = noon + 1;
  updated_at = noon + 1;
}

abbrev new_target : Target
new_target = record {
  id = 7;
  name = codes "new";
  url = codes "host2";
  enabled = true;
  created_at = noon + 1;
  updated_at = noon + 1;
}

abbrev new_rule : Rule
new_rule = record {
  id = 8;
  name = codes "new";
  source_id = some 1;
  event_type = [];
  condition = none_left;
  target_id = 6;
  target_ids = 6 ∷ 5 ∷ 6 ∷ [];
  priority = pos 3;
  enabled = true;
  created_at = noon + 1;
  updated_at = noon + 1;
}

source_posted : (call server (Call.post_source [])).1 ≡ of_source (created new_source)
unfolding run
source_posted = refl

target_posted : (call server (Call.post_target [])).1 ≡ of_target (created new_target)
unfolding run
target_posted = refl

rule_posted : (call server (Call.post_rule [])).1 ≡ of_rule (created new_rule)
unfolding run
rule_posted = refl

two_read : atoi (codes "2") ≡ some (pos 2)
unfolding run
two_read = refl

seven_read : atoi (codes "7") ≡ some (pos 7)
unfolding run
seven_read = refl

eight_read : atoi (codes "8") ≡ some (pos 8)
unfolding run
eight_read = refl

get-post_source_example :
    (read : Source) × ((call (call server (Call.post_source [])).0 (Call.get_source (codes "2"))).1
      ≡ of_source (fetched read))
    × SameSource host noon new_source read
get-post_source_example =
    get-post_source plain dec conn host single cfg env server [] (codes "2") new_source db-IsIntact
      source_posted two_read

get-post_rule_example :
    (read : Rule) × ((call (call server (Call.post_rule [])).0 (Call.get_rule (codes "8"))).1
      ≡ of_rule (fetched read))
    × SameRule host noon new_rule read
get-post_rule_example =
    get-post_rule plain dec conn host single cfg env server [] (codes "8") new_rule db-IsIntact
      rule_posted eight_read
