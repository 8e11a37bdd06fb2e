-- ===== src/Sqlite/Tables/Order.antt =====
-- The rows that a SELECT returns, whatever their order.
use mathlib.Core.Path.{subst}
use webhook_event_route.Prelude.{
  ℕ, sym, zero, suc, ◌≡◌, ◌↔◌, ◌⊎◌, Bool, List, [], ◌∷◌, inl, inr, In, Bool-cases, true, take, map,
  Distinct,
}
use webhook_event_route.Sqlite.Tables.{insert_by, order_by, select_where}

insert_by-In :
    {A : Type 0} (less : A → A → Bool) (a : A) (xs : List A) (x : A)
    → In x (insert_by less a xs) ↔ ((x ≡ a) ⊎ In x xs)
unfolding insert_by
insert_by-In less a [] x = (λ m. m, λ m. m)
insert_by-In less a (y ∷ ys) x = elim (Bool-cases (less y a)) [
  | inr e ↦ rw e (λ m. m, λ m. m)
  | inl e ↦ rw e (
    λ m. elim m [
      | inl q ↦ inr (inl q)
      | inr n ↦ elim ((insert_by-In less a ys x).0 n) [ inl p ↦ inl p | inr k ↦ inr (inr k) ]
    ],
    λ m. elim m [
      | inl p ↦ inr ((insert_by-In less a ys x).1 (inl p))
      | inr (inl q) ↦ inl q
      | inr (inr n) ↦ inr ((insert_by-In less a ys x).1 (inr n))
    ],
  )
]

-- Sorting keeps the elements.
pub order_by-In :
    {A : Type 0} (less : A → A → Bool) (xs : List A) (x : A) → In x (order_by less xs) ↔ In x xs
unfolding order_by
order_by-In less [] x = (λ m. m, λ m. m)
order_by-In less (y ∷ ys) x = (
  λ m. elim ((insert_by-In less y (order_by less ys) x).0 m) [
    | inl p ↦ inl p
    | inr n ↦ inr ((order_by-In less ys x).0 n)
  ],
  λ m.
      (insert_by-In less y (order_by less ys) x).1
        (elim m [ inl p ↦ inl p | inr n ↦ inr ((order_by-In less ys x).1 n) ]),
)

pub take-In : {A : Type 0} (n : ℕ) (xs : List A) (x : A) → In x (take n xs) → In x xs
take-In zero xs x m = elim m [ ]
take-In (suc n) [] x m = elim m [ ]
take-In (suc n) (y ∷ xs) x (inl e) = inl e
take-In (suc n) (y ∷ xs) x (inr m) = inr (take-In n xs x m)

-- A row that is selected stands in the table and passes the test.
pub select_where-In :
    {A : Type 0} (p : A → Bool) (xs : List A) (x : A)
    → In x (select_where p xs)
    → In x xs × (p x ≡ true)
unfolding select_where
select_where-In p [] x m = elim m [ ]
select_where-In p (y ∷ xs) x m = elim (Bool-cases (p y)) [
  | inr e ↦ let (i, t) = select_where-In p xs x (rw e at m) in (inr i, t)
  | inl e ↦ elim (let k : In x (y ∷ select_where p xs) = rw e at m in k) [
    | inl q ↦ (inl q, subst (λ z. p z ≡ true) (sym q) e)
    | inr n ↦ let (i, t) = select_where-In p xs x n in (inr i, t)
  ]
]

-- A column without repeated values stays one when rows are selected, sorted or cut off.
module _ {A B : Type 0} (f : A → B) where
  pub In-select_column :
      (p : A → Bool) (xs : List A) (y : B) → In y (map f (select_where p xs)) → In y (map f xs)
  unfolding select_where
  In-select_column p [] y m = m
  In-select_column p (x ∷ xs) y m = elim (Bool-cases (p x)) [
    | inr e ↦ inr (In-select_column p xs y (rw e at m))
    | inl e ↦ elim (let k : In y (f x ∷ map f (select_where p xs)) = rw e at m in k) [
      | inl q ↦ inl q
      | inr r ↦ inr (In-select_column p xs y r)
    ]
  ]

  pub Distinct-select_column :
      (p : A → Bool) (xs : List A) → Distinct (map f xs) → Distinct (map f (select_where p xs))
  unfolding select_where
  Distinct-select_column p [] d = tt
  Distinct-select_column p (x ∷ xs) (n, d) = elim (Bool-cases (p x)) [
    | inr e ↦ rw e (Distinct-select_column p xs d)
    | inl e ↦ rw e ((λ m. n (In-select_column p xs (f x) m)), Distinct-select_column p xs d)
  ]

  In-insert_column :
      (less : A → A → Bool) (a : A) (xs : List A) (y : B)
      → In y (map f (insert_by less a xs))
      → (y ≡ f a) ⊎ In y (map f xs)
  unfolding insert_by
  In-insert_column less a [] y m = m
  In-insert_column less a (x ∷ xs) y m = elim (Bool-cases (less x a)) [
    | inr e ↦ rw e at m
    | inl e ↦ elim (let k : In y (f x ∷ map f (insert_by less a xs)) = rw e at m in k) [
      | inl q ↦ inr (inl q)
      | inr r ↦ elim (In-insert_column less a xs y r) [ inl q ↦ inl q | inr i ↦ inr (inr i) ]
    ]
  ]

  Distinct-insert_column :
      (less : A → A → Bool) (a : A) (xs : List A)
      → ¬ In (f a) (map f xs)
      → Distinct (map f xs)
      → Distinct (map f (insert_by less a xs))
  unfolding insert_by
  Distinct-insert_column less a [] new d = (new, tt)
  Distinct-insert_column less a (x ∷ xs) new (n, d) = elim (Bool-cases (less x a)) [
    | inr e ↦ rw e (new, (n, d))
    | inl e ↦ rw e (
      (λ m. elim (In-insert_column less a xs (f x) m) [ inl q ↦ new (inl (sym q)) | inr i ↦ n i ]),
      Distinct-insert_column less a xs (λ m. new (inr m)) d,
    )
  ]

  In-order_column :
      (less : A → A → Bool) (xs : List A) (y : B)
      → In y (map f (order_by less xs))
      → In y (map f xs)
  unfolding order_by
  In-order_column less [] y m = m
  In-order_column less (x ∷ xs) y m = elim (In-insert_column less x (order_by less xs) y m) [
    | inl q ↦ inl q
    | inr i ↦ inr (In-order_column less xs y i)
  ]

  pub Distinct-order_column :
      (less : A → A → Bool) (xs : List A)
      → Distinct (map f xs)
      → Distinct (map f (order_by less xs))
  unfolding order_by
  Distinct-order_column less [] d = tt
  Distinct-order_column less (x ∷ xs) (n, d) =
      Distinct-insert_column less x (order_by less xs) (λ m. n (In-order_column less xs (f x) m))
        (Distinct-order_column less xs d)

  In-take_column : (n : ℕ) (xs : List A) (y : B) → In y (map f (take n xs)) → In y (map f xs)
  In-take_column zero xs y m = elim m [ ]
  In-take_column (suc n) [] y m = m
  In-take_column (suc n) (x ∷ xs) y (inl e) = inl e
  In-take_column (suc n) (x ∷ xs) y (inr m) = inr (In-take_column n xs y m)

  pub Distinct-take_column :
      (n : ℕ) (xs : List A) → Distinct (map f xs) → Distinct (map f (take n xs))
  Distinct-take_column zero xs d = tt
  Distinct-take_column (suc n) [] d = tt
  Distinct-take_column (suc n) (x ∷ xs) (new, d) =
      ((λ m. new (In-take_column n xs (f x) m)), Distinct-take_column n xs d)
