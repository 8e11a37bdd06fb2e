-- ===== src/Store.antt =====
-- internal/store/store.go: the interface of the stores that the dispatcher and the handlers call,
-- over a state `S` of the database. A read leaves the state as it is. A write returns the new state
-- and, where it succeeds, what it assigns to the struct that it is handed: the identifier and the
-- time of a new row, the time of an update. The clock's reading is an argument of every write. A
-- cancelled context shows as an error of the call.
pub mod Resources
pub mod Kept
use webhook_event_route.Prelude.{ℕ, ℤ, pos, negsuc, ◌≡◌, refl, ◌⊎◌, inl, inr, List, Text}
use webhook_event_route.Domain.{EventStatus, Source, Event, Target, Rule, Delivery, DeliveryAttempt}
use webhook_event_route.Errs.{Error}

-- What a call can return for an `error`: ErrNotFound, a typed error, any other.
pub data Failure : Type 0 where
  not_found : Failure
  typed : Error → Failure
  other : Text → Failure

pub data Result (A : Type 0) : Type 0 where
  ok : A → Result A
  err : Failure → Result A

pub Result-cases :
    {A : Type 0} (r : Result A) → ((a : A) × (r ≡ ok a)) ⊎ ((f : Failure) × (r ≡ err f))
Result-cases (ok a) = inl (a, refl)
Result-cases (err f) = inr (f, refl)

-- The fields `ID` and `CreatedAt` that a create assigns.
pub record Assigned : Type 0 where
  pub id : ℕ
  pub at : ℕ

pub record Store (S : Type 0) : Type 0 where
  pub get_source : ℕ → S → Result Source
  pub get_target : ℕ → S → Result Target
  pub list_enabled_rules : S → Result (List Rule)
  pub create_event : ℕ → Event → S → S × Result Assigned
  pub get_event : ℕ → S → Result Event
  pub get_by_key : ℕ → Text → S → Result Event
  pub update_status : ℕ → EventStatus → Text → S → S × Result (Unit {0})
  pub create_delivery : ℕ → Delivery → S → S × Result Assigned
  pub get_delivery : ℕ → S → Result Delivery
  pub update_delivery : ℕ → Delivery → S → S × Result ℕ
  pub due_deliveries : ℕ → ℕ → S → Result (List Delivery)
  pub create_delivery_attempt : ℕ → DeliveryAttempt → S → S × Result ℕ

-- A read by an identifier that may be negative, which no row has.
abbrev pub at_id : {S A : Type 0} → (ℕ → S → Result A) → ℤ → S → Result A
at_id read (pos n) s = read n s
at_id read (negsuc n) s = err not_found
