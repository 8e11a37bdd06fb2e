-- ===== src/Tests/Samples.antt =====
-- A runtime, a network and a database that are small enough to run.
use webhook_event_route.Sqlite.Conn.{Conn}
use webhook_event_route.Prelude.{
  arith, ℕ, ◌+◌, ◌*◌, ◌↔◌, inl, inr, true, false, Option, none, some, List, [], ◌∷◌, ◌++◌, ltb, pos,
  In, Text, codes, contains_text, text_eq, if◌then◌else◌,
}
use webhook_event_route.Domain.{
  Value, null, string, object, end, member, Condition, condition, none_left, Source, Event,
  accepted, Target, Rule, Delivery, pending, dead, second, unix_epoch,
}
use webhook_event_route.Runtime.{Runtime, VisitsEntries}
use webhook_event_route.Config.{Config}
use webhook_event_route.Dispatcher.Allow.{Net}
use webhook_event_route.Dispatcher.World.{Env, Reply, World}
use webhook_event_route.Httpapi.Events.{CreateEventRequest, Codec, Server}
use webhook_event_route.Httpapi.Api.{Decoders}
use webhook_event_route.Httpapi.Resources.Sources.{SourceRequest}
use webhook_event_route.Httpapi.Resources.Targets.{TargetRequest}
use webhook_event_route.Httpapi.Resources.Rules.{RuleRequest}
use webhook_event_route.Sqlite.Audit.{Host}
use webhook_event_route.Sqlite.Tables.{Db}
use webhook_event_route.Sqlite.Invariant.{IsWellFormed}
use webhook_event_route.Sqlite.Intact.{IsIntact}

-- {"a": "x", "b": null}
abbrev pub doc : Value
doc = object (member (codes "a") (string (codes "x")) (member (codes "b") null end))

-- Every text but the empty one decodes to the document.
abbrev pub decode_any : Text → Option Value
decode_any [] = none
decode_any (c ∷ s) = some doc

abbrev pub plain : Runtime
plain = record {
  format_float = λ f. f ∷ [];
  parse_float = λ s. none;
  float_of_int = λ i. 0;
  float_gt = λ a b. ltb b a;
  float_lt = ltb;
  sprint = λ v. [];
  compile = λ p. some (λ s. contains_text s p);
  unmarshal = decode_any;
  hmac_sha256 = λ k m. k ++ m;
  trim_space = λ s. s;
  range = λ m. m;
}

pub plain-VisitsEntries : VisitsEntries plain
plain-VisitsEntries = record { visits = λ m e. (λ h. h, λ h. h) }

-- The first two entries the other way round.
abbrev pub swapped : List (Text × Value) → List (Text × Value)
swapped (a ∷ b ∷ m) = b ∷ a ∷ m
swapped m = m

pub swapped-VisitsEntries : VisitsEntries (record plain { range = swapped })
swapped-VisitsEntries = record { visits = same }
  where
    same : (m : List (Text × Value)) (e : Text × Value) → In e (swapped m) ↔ In e m
    same (a ∷ b ∷ m) e = (
      λ h. elim h [ inl x ↦ inr (inl x) | inr (inl y) ↦ inl y | inr (inr z) ↦ inr (inr z) ],
      λ h. elim h [ inl x ↦ inr (inl x) | inr (inl y) ↦ inl y | inr (inr z) ↦ inr (inr z) ],
    )
    same (a ∷ []) e = (λ h. h, λ h. h)
    same [] e = (λ h. h, λ h. h)

-- a == "x"
abbrev pub a_is_x : Condition
a_is_x = condition (codes "eq") (codes "a") (string (codes "x")) none_left

-- Any member equals "x".
abbrev pub any_is_x : Condition
any_is_x = condition (codes "eq") (codes "*") (string (codes "x")) none_left

-- Any member exists.
abbrev pub any_exists : Condition
any_exists = condition (codes "exists") (codes "*") null none_left

abbrev pub cfg : Config
cfg = record {
  addr = [];
  db_path = [];
  max_payload = 100;
  max_retries = 5;
  retry_base = 1000;
  forward_timeout = 1000;
  allow_private = false;
  allow_loopback = false;
  replay_window = 300 * second;
}

-- Names resolve to the address 1, but "local" to the loopback address 0.
abbrev pub net : Net
net = record {
  parse_url = λ u. some (record { scheme = codes "http"; hostname = u });
  parse_ip = λ h. none;
  lookup_ip = λ h. some ((if text_eq h (codes "local") then codes "0" else codes "1") ∷ []);
  is_loopback = λ ip. text_eq ip (codes "0");
  is_private = λ ip. false;
}

abbrev pub noon : ℕ
noon = unix_epoch + 1000 * second

-- A network that answers every request alike.
abbrev pub answering : Reply → Env
answering reply = record {
  now = λ n. noon + n;
  int63n = λ n bound. 0;
  new_request = λ u. none;
  perform = λ n r. reply;
  status_text = λ s. codes "status";
  net = net;
}

abbrev pub source : Source
source = record {
  id = 1;
  name = codes "s";
  secret = codes "k";
  enabled = true;
  allowed_types = [];
  created_at = noon;
  updated_at = noon;
}

abbrev pub target : ℕ → Text → Target
target id url = record {
  id = id;
  name = url;
  url = url;
  enabled = true;
  created_at = noon;
  updated_at = noon;
}

abbrev pub rule : Rule
rule = record {
  id = 7;
  name = codes "r";
  source_id = none;
  event_type = [];
  condition = none_left;
  target_id = 5;
  target_ids = 5 ∷ 6 ∷ 5 ∷ [];
  priority = pos 0;
  enabled = true;
  created_at = noon;
  updated_at = noon;
}

abbrev pub event : Event
event = record {
  id = 1;
  source_id = 1;
  event_type = codes "push";
  event_id = codes "e";
  payload = codes "{}";
  status = accepted;
  received_at = noon;
  created_at = noon;
  reject_reason = [];
  timestamp = none;
}

abbrev pub delivery : Delivery
delivery = record {
  id = 1;
  event_id = 1;
  rule_id = 7;
  target_id = 5;
  status = pending;
  attempts = 0;
  next_retry_at = none;
  last_error = [];
  dead_at = none;
  created_at = noon;
  updated_at = noon;
}

abbrev pub dead_delivery : Delivery
dead_delivery = record delivery { status = dead; attempts = 5; dead_at = some noon }

abbrev pub db : Db
db = record {
  sources = source ∷ [];
  last_source = 1;
  events = event ∷ [];
  last_event = 1;
  targets = target 5 (codes "host") ∷ target 6 (codes "local") ∷ [];
  last_target = 6;
  rules = record rule { target_ids = [] } ∷ [];
  last_rule = 7;
  deliveries = dead_delivery ∷ [];
  last_delivery = 1;
  rule_targets = record { rule_id = 7; target_id = 5 } ∷ record { rule_id = 7; target_id = 6 } ∷ [];
  attempts = [];
  last_attempt = 0;
  change_logs = [];
  last_change_log = 0;
}

abbrev pub world : World Db
world = record { db = db; ticks = 0; requests = [] }

abbrev pub server : Server Db
server = record { world = world; metrics = some [] }

-- A time as a text of one byte, in the order of the times.
-- A reading of the clock that follows one is a nanosecond later.
abbrev pub conn : Conn
conn = record { format_time = λ t. t ∷ []; next_reading = λ t. t + 1; rules_error = λ db. none }

-- Every body decodes to this request, for the event named by the body.
abbrev pub request : Text → CreateEventRequest
request body = record {
  source_id = 1;
  event_type = codes "push";
  event_id = body;
  payload = codes "{}";
  timestamp = pos 1000;
}

abbrev pub codec : Codec
codec = record { decode = λ body. some (request body); marshal_raw = λ p. p }

-- Every body of a request for a source, a target or a rule decodes to these.
abbrev pub source_request : SourceRequest
source_request = record {
  name = codes "new";
  secret = codes "q";
  enabled = none;
  allowed_types = none;
}

abbrev pub target_request : TargetRequest
target_request = record { name = codes "new"; url = codes "host2"; enabled = none }

abbrev pub rule_request : RuleRequest
rule_request = record {
  name = codes "new";
  source_id = some 1;
  event_type = [];
  condition = none;
  target_id = 0;
  target_ids = 6 ∷ 5 ∷ 6 ∷ [];
  priority = pos 3;
  enabled = none;
}

abbrev pub dec : Decoders
dec = record {
  event = codec;
  source = λ body. some source_request;
  target = λ body. some target_request;
  rule = λ body. some rule_request;
  format_int = λ n. n ∷ [];
}

-- The JSON of a struct is its name.
abbrev pub host : Host
host = record {
  source_text = λ s. s.name;
  target_text = λ t. t.name;
  rule_text = λ r. r.name;
  next_reading = λ t. t + 1;
}

pub db-IsWellFormed : IsWellFormed db
db-IsWellFormed = record {
  events_given = λ id m. ground arith;
  events_once = ground arith;
  keys_once = ground arith;
  deliveries_given = λ id m. ground arith;
  deliveries_once = ground arith;
  deliveries_of_events = λ id m. ground arith;
  attempts_of_deliveries = λ id m. ground arith;
}

pub db-IsIntact : IsIntact db
db-IsIntact = record {
  source_table = record { given = λ n m. ground arith; once = ground arith };
  target_table = record { given = λ n m. ground arith; once = ground arith };
  rule_table = record { given = λ n m. ground arith; once = ground arith };
  event_sources = λ n m. ground arith;
  rule_sources = λ n m. ground arith;
  rule_targets = λ n m. ground arith;
  pair_rules = λ n m. ground arith;
  pair_targets = λ n m. ground arith;
  delivery_rules = λ n m. ground arith;
  delivery_targets = λ n m. ground arith;
}
