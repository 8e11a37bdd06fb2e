-- ===== src/Metrics/Counting.antt =====
-- What counting does to the value of each counter.
use webhook_event_route.Prelude.{
  ap, sym, ◌∙◌, ==_iff, ◌-◌, map, Option, List, codes, ◌==◌, if◌then◌else◌, ℕ, ◌+◌, ◌≡◌, refl,
  false, some, [], ◌∷◌, Text, text_eq, text_eq_refl, eq_of_text_eq, arith, Bool-cases, inl, inr,
}
use webhook_event_route.Domain.{
  EventStatus, received, accepted, partially_failed, rejected, duplicate, DeliveryStatus, pending,
  sent, retrying, dead,
}
use webhook_event_route.Metrics.{
  Counters, metric_key, add_to, value_of, inc, count_event, count_delivery, event_status_text,
  delivery_status_text,
}

value_of-add_to :
    (key : Text) (delta : ℕ) (cs : Counters)
    → value_of key (add_to key delta cs) ≡ value_of key cs + delta
unfolding value_of add_to
value_of-add_to key delta [] = ground (arith, text_eq_refl key)
value_of-add_to key delta ((k, n) ∷ cs) = ground (arith, value_of-add_to key delta cs)

other_value_of-add_to :
    (key other : Text) (delta : ℕ) (cs : Counters)
    → text_eq key other ≡ false
    → value_of other (add_to key delta cs) ≡ value_of other cs
unfolding value_of add_to
other_value_of-add_to key other delta [] h = ground arith
other_value_of-add_to key other delta ((k, n) ∷ cs) h =
    ground (arith, other_value_of-add_to key other delta cs h, eq_of_text_eq k key)

-- What is counted: the outcome of a posted event, or the status of a delivery.
pub data Counted : Type 0 where
  event : EventStatus → Counted
  delivery : DeliveryStatus → Counted

unfoldable pub count : Option Counters → Counted → Option Counters
unfolding count_event count_delivery
count r (event s) = count_event r s
count r (delivery s) = count_delivery r s

unfoldable pub count_all : Option Counters → List Counted → Option Counters
unfolding count
count_all r [] = r
count_all r (c ∷ cs) = count_all (count r c) cs

-- The name of each counter, as the page of /metrics shows it.
abbrev pub line_of : Counted → Text
line_of (event received) = codes "webhook_events_total{status=\"received\"}"
line_of (event accepted) = codes "webhook_events_total{status=\"accepted\"}"
line_of (event EventStatus.delivered) = codes "webhook_events_total{status=\"delivered\"}"
line_of (event partially_failed) = codes "webhook_events_total{status=\"partially_failed\"}"
line_of (event EventStatus.failed) = codes "webhook_events_total{status=\"failed\"}"
line_of (event rejected) = codes "webhook_events_total{status=\"rejected\"}"
line_of (event duplicate) = codes "webhook_events_total{status=\"duplicate\"}"
line_of (delivery pending) = codes "webhook_deliveries_total{status=\"pending\"}"
line_of (delivery sent) = codes "webhook_deliveries_total{status=\"sent\"}"
line_of (delivery DeliveryStatus.delivered) = codes "webhook_deliveries_total{status=\"delivered\"}"
line_of (delivery DeliveryStatus.failed) = codes "webhook_deliveries_total{status=\"failed\"}"
line_of (delivery retrying) = codes "webhook_deliveries_total{status=\"retrying\"}"
line_of (delivery dead) = codes "webhook_deliveries_total{status=\"dead\"}"

-- The number of each in the order above.
abbrev number_of : Counted → ℕ
number_of (event received) = 0
number_of (event accepted) = 1
number_of (event EventStatus.delivered) = 2
number_of (event partially_failed) = 3
number_of (event EventStatus.failed) = 4
number_of (event rejected) = 5
number_of (event duplicate) = 6
number_of (delivery pending) = 7
number_of (delivery sent) = 8
number_of (delivery DeliveryStatus.delivered) = 9
number_of (delivery DeliveryStatus.failed) = 10
number_of (delivery retrying) = 11
number_of (delivery dead) = 12

-- How often something stands in a list.
abbrev pub times : Counted → List Counted → ℕ
times c [] = 0
times c (x ∷ xs) = (if number_of x == number_of c then 1 else 0) + times c xs

counted_at : (cs : Counters) (c : Counted) → count (some cs) c ≡ some (add_to (line_of c) 1 cs)
unfolding count inc metric_key event_status_text delivery_status_text
counted_at cs (event received) = refl
counted_at cs (event accepted) = refl
counted_at cs (event EventStatus.delivered) = refl
counted_at cs (event partially_failed) = refl
counted_at cs (event EventStatus.failed) = refl
counted_at cs (event rejected) = refl
counted_at cs (event duplicate) = refl
counted_at cs (delivery pending) = refl
counted_at cs (delivery sent) = refl
counted_at cs (delivery DeliveryStatus.delivered) = refl
counted_at cs (delivery DeliveryStatus.failed) = refl
counted_at cs (delivery retrying) = refl
counted_at cs (delivery dead) = refl

-- The names in the order of their numbers.
abbrev all_lines : List Text
all_lines = map line_of (
    event received
    ∷ event accepted
    ∷ event EventStatus.delivered
    ∷ event partially_failed
    ∷ event EventStatus.failed
    ∷ event rejected
    ∷ event duplicate
    ∷ delivery pending
    ∷ delivery sent
    ∷ delivery DeliveryStatus.delivered
    ∷ delivery DeliveryStatus.failed
    ∷ delivery retrying
    ∷ delivery dead
    ∷ [])

abbrev nth : List Text → ℕ → Text
nth [] n = []
nth (t ∷ ts) n = let later = nth ts (n - 1) in if n == 0 then t else later

abbrev index_of : Text → List Text → ℕ
index_of t [] = 0
index_of t (u ∷ us) = let later = index_of t us in if text_eq u t then 0 else later + 1

line_at_number : (c : Counted) → nth all_lines (number_of c) ≡ line_of c
line_at_number (event received) = refl
line_at_number (event accepted) = refl
line_at_number (event EventStatus.delivered) = refl
line_at_number (event partially_failed) = refl
line_at_number (event EventStatus.failed) = refl
line_at_number (event rejected) = refl
line_at_number (event duplicate) = refl
line_at_number (delivery pending) = refl
line_at_number (delivery sent) = refl
line_at_number (delivery DeliveryStatus.delivered) = refl
line_at_number (delivery DeliveryStatus.failed) = refl
line_at_number (delivery retrying) = refl
line_at_number (delivery dead) = refl

number_of_its_line : (c : Counted) → index_of (line_of c) all_lines ≡ number_of c
unfolding text_eq
number_of_its_line (event received) = refl
number_of_its_line (event accepted) = refl
number_of_its_line (event EventStatus.delivered) = refl
number_of_its_line (event partially_failed) = refl
number_of_its_line (event EventStatus.failed) = refl
number_of_its_line (event rejected) = refl
number_of_its_line (event duplicate) = refl
number_of_its_line (delivery pending) = refl
number_of_its_line (delivery sent) = refl
number_of_its_line (delivery DeliveryStatus.delivered) = refl
number_of_its_line (delivery DeliveryStatus.failed) = refl
number_of_its_line (delivery retrying) = refl
number_of_its_line (delivery dead) = refl

same_line : (a b : Counted) → text_eq (line_of a) (line_of b) ≡ (number_of a == number_of b)
same_line a b = elim (Bool-cases (number_of a == number_of b)) [
  | inl e ↦
      let lines : line_of a ≡ line_of b =
        sym (line_at_number a)
        ∙ ap (nth all_lines) ((==_iff (number_of a) (number_of b)).0 e)
        ∙ line_at_number b in
      rw (e, lines) (text_eq_refl (line_of b))
  | inr e ↦ elim (Bool-cases (text_eq (line_of a) (line_of b))) [
    | inr f ↦ rw (e, f) refl
    | inl t ↦
        let numbers : number_of a ≡ number_of b =
          sym (number_of_its_line a)
          ∙ ap (λ l. index_of l all_lines) (eq_of_text_eq (line_of a) (line_of b) t)
          ∙ number_of_its_line b in
        absurd (cc (sym e ∙ (==_iff (number_of a) (number_of b)).1 numbers))
  ]
]

-- Counting one of them.
value_of-count :
    (cs : Counters) (c x : Counted)
    → value_of (line_of c) (add_to (line_of x) 1 cs)
      ≡ value_of (line_of c) cs + (if number_of x == number_of c then 1 else 0)
value_of-count cs c x = elim (Bool-cases (number_of x == number_of c)) [
  | inl e ↦
      let lines : line_of x ≡ line_of c =
        eq_of_text_eq (line_of x) (line_of c) (same_line x c ∙ e) in
      rw (e, lines) (value_of-add_to (line_of c) 1 cs)
  | inr e ↦
      let other = other_value_of-add_to (line_of x) (line_of c) 1 cs (same_line x c ∙ e) in
      rw (e, other) (omega arith)
]

-- Counting any sequence of events and deliveries: the counter that the page of /metrics names after a
-- status of events or of deliveries grows by the number of times that this status was counted, and a
-- registry stays one.
pub count_all_lem :
    (xs : List Counted) (cs : Counters)
    → (after : Counters) × (count_all (some cs) xs ≡ some after)
      × ((c : Counted) → value_of (line_of c) after ≡ value_of (line_of c) cs + times c xs)
unfolding count_all
count_all_lem [] cs = (cs, refl, λ c. omega arith)
count_all_lem (x ∷ xs) cs =
    let (after, done, values) = count_all_lem xs (add_to (line_of x) 1 cs) in
    (after, rw (counted_at cs x) done, λ c. omega (arith, values c, value_of-count cs c x))
