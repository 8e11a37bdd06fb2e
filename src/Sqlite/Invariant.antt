-- ===== src/Sqlite/Invariant.antt =====
-- The constraints of the schema, as an invariant of the tables.
pub mod Kept
use mathlib.Core.Path.{subst}
use webhook_event_route.Prelude.{
  ℕ, suc, ◌+◌, ◌≡◌, ◌≤◌, ◌<◌, refl, sym, ◌∙◌, ap, Bool, true, false, Option, none, some, List, [],
  ◌∷◌, ◌++◌, map, In, In-append, In-append_left, In-append_right, Distinct, Distinct-append, ◌⊎◌,
  inl, inr, arith, Bool-cases, ◌==◌, ==_iff, ◌&&◌, Text, if◌then◌else◌, text_eq, text_eq_iff,
}
use webhook_event_route.Domain.{Event, EventStatus, Delivery, DeliveryAttempt}
use webhook_event_route.Store.Kept.{IsKept, IsAlwaysKept}
use webhook_event_route.Sqlite.Tables.{Db, find, update_where, is_some}
use webhook_event_route.Sqlite.Events.{
  may_insert_event, event_row, has_key, create_event, update_status,
}
use webhook_event_route.Sqlite.Deliveries.{
  may_insert_delivery, set_columns, create_delivery, update_delivery, create_delivery_attempt,
}
use webhook_event_route.Sqlite.Instance.{sqlite_store}

abbrev pub event_ids : Db → List ℕ
event_ids db = map (λ e. e.id) db.events

-- UNIQUE(source_id, event_id)
abbrev pub event_keys : Db → List (ℕ × Text)
event_keys db = map (λ e. (e.source_id, e.event_id)) db.events

abbrev pub delivery_ids : Db → List ℕ
delivery_ids db = map (λ d. d.id) db.deliveries

abbrev pub delivery_events : Db → List ℕ
delivery_events db = map (λ d. d.event_id) db.deliveries

abbrev pub attempt_deliveries : Db → List ℕ
attempt_deliveries db = map (λ a. a.delivery_id) db.attempts

-- Primary keys are given out in order and once, no two events have one key, each delivery is of an
-- event that is stored, each attempt of a delivery that is stored.
pub record IsWellFormed (db : Db) : Type 0 where
  pub events_given : (id : ℕ) → In id (event_ids db) → id ≤ db.last_event
  pub events_once : Distinct (event_ids db)
  pub keys_once : Distinct (event_keys db)
  pub deliveries_given : (id : ℕ) → In id (delivery_ids db) → id ≤ db.last_delivery
  pub deliveries_once : Distinct (delivery_ids db)
  pub deliveries_of_events : (id : ℕ) → In id (delivery_events db) → In id (event_ids db)
  pub attempts_of_deliveries : (id : ℕ) → In id (attempt_deliveries db) → In id (delivery_ids db)

pub map-append :
    {A B : Type 0} (f : A → B) (xs ys : List A) → map f (xs ++ ys) ≡ map f xs ++ map f ys
map-append f [] ys = refl
map-append f (x ∷ xs) ys = ap (λ zs. f x ∷ zs) (map-append f xs ys)

-- An update that keeps a column keeps the list of the column's values.
pub map-update_where :
    {A B : Type 0} (f : A → B) (q : A → Bool) (g : A → A) (xs : List A)
    → ((a : A) → f (g a) ≡ f a)
    → map f (update_where q g xs) ≡ map f xs
unfolding update_where
map-update_where f q g [] same = refl
map-update_where f q g (x ∷ xs) same = elim (Bool-cases (q x)) [
  | inl e ↦ rw (e, map-update_where f q g xs same, same x) refl
  | inr e ↦ rw (e, map-update_where f q g xs same) refl
]

-- A row that is found has its column in the list.
pub find-In :
    {A : Type 0} (f : A → ℕ) (xs : List A) (n : ℕ)
    → is_some (find (λ a. f a == n) xs) ≡ true
    → In n (map f xs)
unfolding find is_some
find-In f [] n h = cc
find-In f (x ∷ xs) n h = elim (Bool-cases (f x == n)) [
  | inl e ↦ inl (sym ((==_iff (f x) n).0 e))
  | inr e ↦ inr (find-In f xs n (rw e at h))
]

-- A list without duplicates stays one when a new element is put behind.
pub Distinct-new :
    {A : Type 0} (xs : List A) (x : A) → Distinct xs → ¬ In x xs → Distinct (xs ++ x ∷ [])
Distinct-new xs x d new =
    Distinct-append xs (x ∷ []) d ((λ m. m), tt)
      (λ y m n. elim n [ inl e ↦ new (subst (λ z. In z xs) e m) | inr n' ↦ n' ])

module _ {A B : Type 0} (f : A → B) (xs : List A) (x : A) where
  pub In-snoc : (y : B) → In y (map f (xs ++ x ∷ [])) → In y (map f xs) ⊎ (y ≡ f x)
  In-snoc y m =
      elim (In-append y (map f xs) (f x ∷ []) (subst (λ l. In y l) (map-append f xs (x ∷ [])) m)) [
        | inl a ↦ inl a
        | inr (inl e) ↦ inr e
        | inr (inr n) ↦ elim n [ ]
      ]

  pub In-snoc_old : (y : B) → In y (map f xs) → In y (map f (xs ++ x ∷ []))
  In-snoc_old y m =
      subst (λ l. In y l) (sym (map-append f xs (x ∷ [])))
        (In-append_left y (map f xs) (f x ∷ []) m)

  pub Distinct-snoc : Distinct (map f xs) → ¬ In (f x) (map f xs) → Distinct (map f (xs ++ x ∷ []))
  Distinct-snoc d new =
      subst Distinct (sym (map-append f xs (x ∷ []))) (Distinct-new (map f xs) (f x) d new)
