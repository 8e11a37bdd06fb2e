-- ===== src/Metrics.antt =====
-- internal/metrics/metrics.go: the counters behind GET /metrics. The lock makes each call one step; a
-- `map[string]string` of labels and the counters are lists of entries.
pub mod Counting
use Prim.Native.Nat.{Ordering}
use webhook_event_route.Prelude.{
  ℕ, ◌+◌, Option, none, some, List, [], ◌∷◌, ◌++◌, if◌then◌else◌, Text, codes, text_eq,
  compare_text,
}
use webhook_event_route.Domain.{
  EventStatus, received, accepted, partially_failed, rejected, duplicate, DeliveryStatus, pending,
  sent, retrying, dead,
}

abbrev pub Labels : Type 0
Labels = List (Text × Text)

abbrev pub Counters : Type 0
Counters = List (Text × ℕ)

-- The texts of the status constants.
unfoldable pub event_status_text : EventStatus → Text
event_status_text received = codes "received"
event_status_text accepted = codes "accepted"
event_status_text EventStatus.delivered = codes "delivered"
event_status_text partially_failed = codes "partially_failed"
event_status_text EventStatus.failed = codes "failed"
event_status_text rejected = codes "rejected"
event_status_text duplicate = codes "duplicate"

unfoldable pub delivery_status_text : DeliveryStatus → Text
delivery_status_text pending = codes "pending"
delivery_status_text sent = codes "sent"
delivery_status_text DeliveryStatus.delivered = codes "delivered"
delivery_status_text DeliveryStatus.failed = codes "failed"
delivery_status_text retrying = codes "retrying"
delivery_status_text dead = codes "dead"

-- sort.Strings on the keys of the labels, each with its value.
unfoldable pub insert_label : Text × Text → Labels → Labels
unfolding compare_text
insert_label l [] = l ∷ []
insert_label l (m ∷ ms) =
    let later = m ∷ insert_label l ms in
    elim (compare_text l.0 m.0) [ Ordering.gt ↦ later | _ ↦ l ∷ m ∷ ms ]

unfoldable pub sort_labels : Labels → Labels
unfolding insert_label
sort_labels [] = []
sort_labels (l ∷ ls) = insert_label l (sort_labels ls)

unfoldable pub print_label : Text × Text → Text
print_label l = l.0 ++ codes "=\"" ++ l.1 ++ codes "\""

unfoldable pub print_labels : Labels → Text
unfolding print_label
print_labels [] = []
print_labels (l ∷ []) = print_label l
print_labels (l ∷ m ∷ ms) = print_label l ++ codes "," ++ print_labels (m ∷ ms)

unfoldable pub metric_key : Text → Labels → Text
unfolding sort_labels print_labels
metric_key name [] = name
metric_key name (l ∷ ls) = name ++ codes "{" ++ print_labels (sort_labels (l ∷ ls)) ++ codes "}"

-- `counters[key] += delta`
unfoldable pub add_to : Text → ℕ → Counters → Counters
unfolding text_eq
add_to key delta [] = (key, delta) ∷ []
add_to key delta ((k, n) ∷ cs) =
    if text_eq k key then (k, n + delta) ∷ cs else (k, n) ∷ add_to key delta cs

-- The value of a counter; an absent one reads as 0.
unfoldable pub value_of : Text → Counters → ℕ
unfolding text_eq
value_of key [] = 0
value_of key ((k, n) ∷ cs) = if text_eq k key then n else value_of key cs

-- `Inc` on a registry that may be nil.
unfoldable pub inc : Option Counters → Text → Labels → ℕ → Option Counters
unfolding metric_key add_to
inc none name labels delta = none
inc (some cs) name labels delta = some (add_to (metric_key name labels) delta cs)

unfoldable pub count_event : Option Counters → EventStatus → Option Counters
unfolding inc event_status_text
count_event r status =
    inc r (codes "webhook_events_total") ((codes "status", event_status_text status) ∷ []) 1

unfoldable pub count_delivery : Option Counters → DeliveryStatus → Option Counters
unfolding inc delivery_status_text
count_delivery r status =
    inc r (codes "webhook_deliveries_total") ((codes "status", delivery_status_text status) ∷ []) 1

-- sort.Strings on the keys of the counters, each with its value.
unfoldable pub insert_counter : Text × ℕ → Counters → Counters
unfolding compare_text
insert_counter c [] = c ∷ []
insert_counter c (d ∷ ds) =
    let later = d ∷ insert_counter c ds in
    elim (compare_text c.0 d.0) [ Ordering.gt ↦ later | _ ↦ c ∷ d ∷ ds ]

unfoldable pub sort_counters : Counters → Counters
unfolding insert_counter
sort_counters [] = []
sort_counters (c ∷ cs) = insert_counter c (sort_counters cs)

-- `Handler`: a line for each counter, given strconv.FormatInt.
unfoldable pub render : (ℕ → Text) → Counters → Text
unfolding sort_counters
render format_int cs = lines (sort_counters cs)
  where
    lines : Counters → Text
    lines [] = []
    lines ((k, n) ∷ rest) = k ++ b' ' ∷ format_int n ++ 10 ∷ lines rest
