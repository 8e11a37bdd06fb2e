-- ===== src/Sqlite/Tables.antt =====
-- internal/store/sqlite/db.go: the schema, with rows as structs.
pub mod Order
pub mod Images
use webhook_event_route.Prelude.{
  ℕ, Bool, true, false, Option, none, some, List, [], ◌∷◌, if◌then◌else◌, codes,
}
use webhook_event_route.Domain.{Source, Event, Target, Rule, Delivery, DeliveryAttempt, ChangeLog}
use webhook_event_route.Store.{Failure, not_found, other, Result, ok, err}

-- A row of rule_targets.
pub record RuleTarget : Type 0 where
  pub rule_id : ℕ
  pub target_id : ℕ

-- The rows of the tables by identifier, oldest first, and the last identifier that each gave out.
-- The targets of a rule stand in `rule_targets`; in a row of `rules` its `target_ids` are empty.
pub record Db : Type 0 where
  pub sources : List Source
  pub last_source : ℕ
  pub events : List Event
  pub last_event : ℕ
  pub targets : List Target
  pub last_target : ℕ
  pub rules : List Rule
  pub last_rule : ℕ
  pub deliveries : List Delivery
  pub last_delivery : ℕ
  pub rule_targets : List RuleTarget
  pub attempts : List DeliveryAttempt
  pub last_attempt : ℕ
  pub change_logs : List ChangeLog
  pub last_change_log : ℕ

module _ {A : Type 0} where
  -- The first row that passes a test: the row of a SELECT by a unique key.
  unfoldable pub find : (A → Bool) → List A → Option A
  find p [] = none
  find p (x ∷ xs) = if p x then some x else find p xs

  -- sql.ErrNoRows becomes ErrNotFound.
  abbrev pub row : Option A → Result A
  row none = err not_found
  row (some a) = ok a

  -- UPDATE … WHERE: each row that passes the test is changed.
  unfoldable pub update_where : (A → Bool) → (A → A) → List A → List A
  update_where p f [] = []
  update_where p f (x ∷ xs) = (if p x then f x else x) ∷ update_where p f xs

  unfoldable pub select_where : (A → Bool) → List A → List A
  select_where p [] = []
  select_where p (x ∷ xs) = let rest = select_where p xs in if p x then x ∷ rest else rest

  -- ORDER BY: each row is put behind those that stand before it and before the first that it is less
  -- than, so equal rows keep the order of the table.
  unfoldable pub insert_by : (A → A → Bool) → A → List A → List A
  insert_by less x [] = x ∷ []
  insert_by less x (y ∷ ys) =
      let later = insert_by less x ys in if less y x then y ∷ later else x ∷ y ∷ ys

  unfoldable pub order_by : (A → A → Bool) → List A → List A
  unfolding insert_by
  order_by less [] = []
  order_by less (x ∷ xs) = insert_by less x (order_by less xs)

  unfoldable pub is_some : Option A → Bool
  is_some none = false
  is_some (some a) = true

-- A statement that violates a constraint of the schema.
abbrev pub constraint : Failure
constraint = other (codes "constraint failed")
