-- ===== src/Store/Kept.antt =====
-- Predicates on the state of a store that every write of the dispatcher and of the event handler
-- after the insertion of the event keeps.
use webhook_event_route.Prelude.{ℕ, ◌≡◌, ℤ, Bool, true, false, Text, if◌then◌else◌}
use webhook_event_route.Domain.{Source, Target, Rule, Event, EventStatus, Delivery, DeliveryAttempt}
use webhook_event_route.Store.{Store}
use webhook_event_route.Store.Resources.{Resources}

-- The writes of one delivery and of attempts keep it.
pub record IsKeptFor {S : Type 0} (st : Store S) (P : S → Type 0) (id : ℕ) : Type 0 where
  pub by_update :
      (now : ℕ) (d : Delivery) (s : S) → d.id ≡ id → P s → P (st.update_delivery now d s).0
  pub by_attempt :
      (now : ℕ) (a : DeliveryAttempt) (s : S) → P s → P (st.create_delivery_attempt now a s).0

pub record IsKept {S : Type 0} (st : Store S) (P : S → Type 0) : Type 0 where
  pub by_create_delivery : (now : ℕ) (d : Delivery) (s : S) → P s → P (st.create_delivery now d s).0
  pub by_update_delivery : (now : ℕ) (d : Delivery) (s : S) → P s → P (st.update_delivery now d s).0
  pub by_create_attempt :
      (now : ℕ) (a : DeliveryAttempt) (s : S) → P s → P (st.create_delivery_attempt now a s).0
  pub by_update_status :
      (id : ℕ) (status : EventStatus) (reason : Text) (s : S)
      → P s
      → P (st.update_status id status reason s).0

pub kept_for :
    {S : Type 0} (st : Store S) (P : S → Type 0) (id : ℕ) → IsKept st P → IsKeptFor st P id
kept_for st P id k = record {
  by_update = λ now d s e p. k.by_update_delivery now d s p;
  by_attempt = k.by_create_attempt;
}

-- The insertion of an event keeps it as well.
pub record IsAlwaysKept {S : Type 0} (st : Store S) (P : S → Type 0) : Type 0 where
  pub kept : IsKept st P
  pub by_create_event : (now : ℕ) (e : Event) (s : S) → P s → P (st.create_event now e s).0

-- Every write of sources, targets and rules keeps it.
pub record IsConfigKept {S : Type 0} (rs : Resources S) (P : S → Type 0) : Type 0 where
  pub by_create_source : (now : ℕ) (a : Source) (s : S) → P s → P (rs.create_source now a s).0
  pub by_update_source : (now : ℕ) (a : Source) (s : S) → P s → P (rs.update_source now a s).0
  pub by_delete_source : (now : ℕ) (id : ℤ) (s : S) → P s → P (rs.delete_source now id s).0
  pub by_create_target : (now : ℕ) (a : Target) (s : S) → P s → P (rs.create_target now a s).0
  pub by_update_target : (now : ℕ) (a : Target) (s : S) → P s → P (rs.update_target now a s).0
  pub by_delete_target : (now : ℕ) (id : ℤ) (s : S) → P s → P (rs.delete_target now id s).0
  pub by_create_rule : (now : ℕ) (a : Rule) (s : S) → P s → P (rs.create_rule now a s).0
  pub by_update_rule : (now : ℕ) (a : Rule) (s : S) → P s → P (rs.update_rule now a s).0
  pub by_delete_rule : (now : ℕ) (id : ℤ) (s : S) → P s → P (rs.delete_rule now id s).0

-- Both branches of a conditional have a property.
pub both_branches :
    {A : Type 0} (Q : A → Type 0) (b : Bool) (x y : A) → Q x → Q y → Q (if b then x else y)
both_branches Q true x y p q = p
both_branches Q false x y p q = q
