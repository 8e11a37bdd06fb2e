-- ===== src/Tests/Metrics.antt =====
-- Counting in a small registry.
use webhook_event_route.Prelude.{List, ◌≡◌, ◌+◌, ◌∷◌, [], some, refl, codes}
use webhook_event_route.Metrics.{Counters, Labels, metric_key, value_of}
use webhook_event_route.Domain.{accepted, duplicate, dead}
use webhook_event_route.Metrics.Counting.{
  Counted, event, delivery, count_all, line_of, times, count_all_lem,
}

abbrev labels : Labels
labels = (codes "status", codes "sent") ∷ (codes "rule", codes "1") ∷ []

-- The labels are printed in the order of their names.
key_of_labels : metric_key (codes "n") labels ≡ codes "n{rule=\"1\",status=\"sent\"}"
unfolding metric_key
key_of_labels = refl

abbrev counters : Counters
counters = (codes "webhook_events_total{status=\"accepted\"}", 2) ∷ []

abbrev counted : List Counted
counted = event accepted ∷ delivery dead ∷ event duplicate ∷ event accepted ∷ []

-- The registry after them.
four_counted :
    count_all (some counters) counted
    ≡ some (
        (codes "webhook_events_total{status=\"accepted\"}", 4)
        ∷ (codes "webhook_deliveries_total{status=\"dead\"}", 1)
        ∷ (codes "webhook_events_total{status=\"duplicate\"}", 1)
        ∷ [])
unfolding count_all
four_counted = refl

count_all_example :
    (after : Counters) × (count_all (some counters) counted ≡ some after)
    × ((c : Counted) → value_of (line_of c) after ≡ value_of (line_of c) counters + times c counted)
count_all_example = count_all_lem counted counters
