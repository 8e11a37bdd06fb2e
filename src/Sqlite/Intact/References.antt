-- ===== src/Sqlite/Intact/References.antt =====
-- What insertions, updates and deletions do to the keys of a table.
use mathlib.Core.Path.{subst}
use webhook_event_route.Prelude.{
  ℕ, ℤ, ◌+◌, ◌≡◌, refl, sym, ap, Bool, true, false, not, Option, none, some, List, [], ◌∷◌, ◌++◌,
  map, In, inl, inr, arith, Bool-cases, any,
}
use webhook_event_route.Sqlite.Tables.{find, is_some, update_where, select_where}
use webhook_event_route.Sqlite.Tables.Order.{In-select_column, Distinct-select_column}
use webhook_event_route.Sqlite.Audit.{is_id}
use webhook_event_route.Sqlite.Invariant.{In-snoc, In-snoc_old, Distinct-snoc}
use webhook_event_route.Sqlite.Intact.{IsTable, Refers}

module _ {A : Type 0} (f : A → ℕ) (xs : List A) (last : ℕ) (h : IsTable (map f xs) last) where
  pub IsTable-snoc : (x : A) → f x ≡ last + 1 → IsTable (map f (xs ++ x ∷ [])) (last + 1)
  IsTable-snoc x e = record {
    given = λ n m. elim (In-snoc f xs x n m) [
      | inl a ↦ omega (arith, h.given n a)
      | inr q ↦ omega (arith, q, e)
    ];
    once = Distinct-snoc f xs x h.once (λ m. omega (arith, h.given (f x) m, e));
  }

  pub IsTable-select_where : (p : A → Bool) → IsTable (map f (select_where p xs)) last
  IsTable-select_where p = record {
    given = λ n m. h.given n (In-select_column f p xs n m);
    once = Distinct-select_column f p xs h.once;
  }

module _ {A : Type 0} (column : A → Option ℕ) (xs : List A) where
  pub Refers-insert :
      (ids : List ℕ) (x : A)
      → Refers column xs ids
      → ((n : ℕ) → column x ≡ some n → In n ids)
      → Refers column (xs ++ x ∷ []) ids
  Refers-insert ids x h own n m = elim (In-snoc column xs x (some n) m) [
    | inl a ↦ h n a
    | inr q ↦ own n (sym q)
  ]

  pub Refers-remove :
      (ids : List ℕ) (p : A → Bool) → Refers column xs ids → Refers column (select_where p xs) ids
  Refers-remove ids p h n m = h n (In-select_column column p xs (some n) m)

  pub Refers-parent_insert :
      {B : Type 0} (id : B → ℕ) (ys : List B) (y : B)
      → Refers column xs (map id ys)
      → Refers column xs (map id (ys ++ y ∷ []))
  Refers-parent_insert id ys y h n m = In-snoc_old id ys y n (h n m)

abbrev names : ℤ → Option ℕ → Bool
names id none = false
names id (some n) = is_id id n

unnamed :
    {A : Type 0} (column : A → Option ℕ) (xs : List A) (id : ℤ) (n : ℕ)
    → any (λ x. names id (column x)) xs ≡ false
    → In (some n) (map column xs)
    → is_id id n ≡ false
unnamed column [] id n e m = elim m [ ]
unnamed column (x ∷ xs) id n e (inl q) = ground (arith, ap (names id) q)
unnamed column (x ∷ xs) id n e (inr m) = ground (arith, unnamed column xs id n)

other_stays :
    {B : Type 0} (id : B → ℕ) (ys : List B) (k : ℤ) (n : ℕ)
    → is_id k n ≡ false
    → In n (map id ys)
    → In n (map id (select_where (λ y. not (is_id k (id y))) ys))
unfolding select_where
other_stays id [] k n e m = m
other_stays id (y ∷ ys) k n e (inl q) =
    let kept : is_id k (id y) ≡ false = subst (λ v. is_id k v ≡ false) q e in rw kept (inl q)
other_stays id (y ∷ ys) k n e (inr m) = elim (Bool-cases (is_id k (id y))) [
  | inl r ↦ rw r (other_stays id ys k n e m)
  | inr r ↦ rw r (inr (other_stays id ys k n e m))
]

-- A row that nothing refers to may be removed.
pub Refers-parent_remove :
    {A B : Type 0} (column : A → Option ℕ) (xs : List A) (id : B → ℕ) (ys : List B) (k : ℤ)
    → Refers column xs (map id ys)
    → any (λ x. names k (column x)) xs ≡ false
    → Refers column xs (map id (select_where (λ y. not (is_id k (id y))) ys))
Refers-parent_remove column xs id ys k h free n m =
    other_stays id ys k n (unnamed column xs k n free m) (h n m)

-- An update whose new values are identifiers.
pub Refers-update_where :
    {A : Type 0} (column : A → Option ℕ) (q : A → Bool) (g : A → A) (xs : List A) (ids : List ℕ)
    → Refers column xs ids
    → ((x : A) (n : ℕ) → In x xs → q x ≡ true → column (g x) ≡ some n → In n ids)
    → Refers column (update_where q g xs) ids
unfolding update_where
Refers-update_where column q g [] ids h own n m = elim m [ ]
Refers-update_where column q g (x ∷ xs) ids h own n (inr m) =
    Refers-update_where column q g xs ids (λ k i. h k (inr i)) (λ y k i. own y k (inr i)) n m
Refers-update_where column q g (x ∷ xs) ids h own n (inl e) = elim (Bool-cases (q x)) [
  | inl t ↦ own x n (inl refl) t (sym (rw t at e))
  | inr t ↦ h n (inl (rw t at e))
]

-- A row that passes a test is found, or another is.
pub find_of_In :
    {A : Type 0} (p : A → Bool) (xs : List A) (x : A)
    → In x xs
    → p x ≡ true
    → is_some (find p xs) ≡ true
unfolding find is_some
find_of_In p [] x m e = elim m [ ]
find_of_In p (y ∷ xs) x (inl q) e = ground (arith, ap p q)
find_of_In p (y ∷ xs) x (inr m) e = ground (arith, find_of_In p xs x m e)
