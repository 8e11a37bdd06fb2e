-- ===== src/Domain.antt =====
-- internal/domain/domain.go: the entities, and the values that a JSON document decodes to.
-- An int64 identifier is its bit pattern, since identifiers are only compared for equality and with
-- zero. A `time.Time` is the number of nanoseconds since its zero value.
use webhook_event_route.Prelude.{ℕ, ◌*◌, ℤ, Bool, Option, List, Text}

-- The Unix epoch and a second, in nanoseconds since the zero time.
abbrev pub second : ℕ
second = 1000000000

abbrev pub unix_epoch : ℕ
unix_epoch = 62135596800 * second

-- The dynamic types that an `any` holds here. A float64 is its bit pattern; a map is the list of its
-- entries, in some order.
mutual
  pub data Value : Type 0 where
    null : Value
    bool : Bool → Value
    number : ℕ → Value
    integer : ℤ → Value
    string : Text → Value
    json_number : Text → Value
    strings : List Text → Value
    array : Values → Value
    object : Members → Value

  pub data Values : Type 0 where
    nil : Values
    cons : Value → Values → Values

  pub data Members : Type 0 where
    end : Members
    member : Text → Value → Members → Members

-- Op, Path, Value and Children of a `Condition`.
mutual
  pub data Condition : Type 0 where
    condition : (op path : Text) (value : Value) (children : Conditions) → Condition

  pub data Conditions : Type 0 where
    none_left : Conditions
    next : Condition → Conditions → Conditions

pub data EventStatus : Type 0 where
  received accepted delivered partially_failed failed rejected duplicate : EventStatus

pub data DeliveryStatus : Type 0 where
  pending sent delivered failed retrying dead : DeliveryStatus

pub record Source : Type 0 where
  pub id : ℕ
  pub name : Text
  pub secret : Text
  pub enabled : Bool
  pub allowed_types : List Text
  pub created_at : ℕ
  pub updated_at : ℕ

pub record Event : Type 0 where
  pub id : ℕ
  pub source_id : ℕ
  pub event_type : Text
  pub event_id : Text
  pub payload : Text
  pub status : EventStatus
  pub received_at : ℕ
  pub created_at : ℕ
  pub reject_reason : Text
  pub timestamp : Option ℕ

pub record Target : Type 0 where
  pub id : ℕ
  pub name : Text
  pub url : Text
  pub enabled : Bool
  pub created_at : ℕ
  pub updated_at : ℕ

pub record Rule : Type 0 where
  pub id : ℕ
  pub name : Text
  pub source_id : Option ℕ
  pub event_type : Text
  pub condition : Conditions
  pub target_id : ℕ
  pub target_ids : List ℕ
  pub priority : ℤ
  pub enabled : Bool
  pub created_at : ℕ
  pub updated_at : ℕ

pub record Delivery : Type 0 where
  pub id : ℕ
  pub event_id : ℕ
  pub rule_id : ℕ
  pub target_id : ℕ
  pub status : DeliveryStatus
  pub attempts : ℕ
  pub next_retry_at : Option ℕ
  pub last_error : Text
  pub dead_at : Option ℕ
  pub created_at : ℕ
  pub updated_at : ℕ

pub record DeliveryAttempt : Type 0 where
  pub id : ℕ
  pub delivery_id : ℕ
  pub status : DeliveryStatus
  pub request_body : Text
  pub response_status : ℕ
  pub response_body : Text
  pub error : Text
  pub started_at : ℕ
  pub finished_at : ℕ

pub record ChangeLog : Type 0 where
  pub id : ℕ
  pub entity_type : Text
  pub entity_id : ℤ
  pub action : Text
  pub before : Text
  pub after : Text
  pub actor : Text
  pub created_at : ℕ
