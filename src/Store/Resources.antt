-- ===== src/Store/Resources.antt =====
-- internal/store/store.go: the interfaces behind the handlers of sources, targets, rules, deliveries and
-- the audit log. As in the other interface, a write takes the clock's reading.
use webhook_event_route.Prelude.{ℕ, ℤ, List, Text}
use webhook_event_route.Domain.{Source, Target, Rule, Delivery, DeliveryAttempt, ChangeLog}
use webhook_event_route.Store.{Result, Assigned}

pub record Resources (S : Type 0) : Type 0 where
  pub create_source : ℕ → Source → S → S × Result Assigned
  pub list_sources : S → Result (List Source)
  pub update_source : ℕ → Source → S → S × Result ℕ
  pub delete_source : ℕ → ℤ → S → S × Result (Unit {0})
  pub create_target : ℕ → Target → S → S × Result Assigned
  pub list_targets : S → Result (List Target)
  pub update_target : ℕ → Target → S → S × Result ℕ
  pub delete_target : ℕ → ℤ → S → S × Result (Unit {0})
  pub create_rule : ℕ → Rule → S → S × Result Assigned
  pub list_rules : S → Result (List Rule)
  pub get_rule : ℕ → S → Result Rule
  pub update_rule : ℕ → Rule → S → S × Result ℕ
  pub delete_rule : ℕ → ℤ → S → S × Result (Unit {0})
  pub list_by_event : ℕ → S → Result (List Delivery)
  pub list_deliveries : ℤ → Text → ℤ → ℤ → S → Result (List Delivery)
  pub list_by_delivery : ℕ → S → Result (List DeliveryAttempt)
  pub list_change_logs : Text → ℤ → ℤ → ℤ → S → Result (List ChangeLog)
