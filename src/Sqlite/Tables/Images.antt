-- ===== src/Sqlite/Tables/Images.antt =====
-- The statements on the images of rows.
use webhook_event_route.Prelude.{
  ℕ, zero, suc, ◌≡◌, refl, ap, Bool, List, [], ◌∷◌, map, take, Bool-cases, inl, inr,
}
use webhook_event_route.Sqlite.Tables.{update_where, select_where, insert_by, order_by}

-- A statement on the images of rows, by a test that agrees with one on the rows.
module _ {A B : Type 0} (f : A → B) where
  pub select_where-map :
      (p : B → Bool) (q : A → Bool) (xs : List A)
      → ((x : A) → p (f x) ≡ q x)
      → select_where p (map f xs) ≡ map f (select_where q xs)
  unfolding select_where
  select_where-map p q [] e = refl
  select_where-map p q (x ∷ xs) e = elim (Bool-cases (q x)) [
    | inl t ↦ rw (e x, t, select_where-map p q xs e) refl
    | inr t ↦ rw (e x, t, select_where-map p q xs e) refl
  ]

  pub insert_by-map :
      (p : B → B → Bool) (q : A → A → Bool) (x : A) (ys : List A)
      → ((a b : A) → p (f a) (f b) ≡ q a b)
      → insert_by p (f x) (map f ys) ≡ map f (insert_by q x ys)
  unfolding insert_by
  insert_by-map p q x [] e = refl
  insert_by-map p q x (y ∷ ys) e = elim (Bool-cases (q y x)) [
    | inl t ↦ rw (e y x, t, insert_by-map p q x ys e) refl
    | inr t ↦ rw (e y x, t) refl
  ]

  pub order_by-map :
      (p : B → B → Bool) (q : A → A → Bool) (xs : List A)
      → ((a b : A) → p (f a) (f b) ≡ q a b)
      → order_by p (map f xs) ≡ map f (order_by q xs)
  unfolding order_by
  order_by-map p q [] e = refl
  order_by-map p q (x ∷ xs) e = rw (order_by-map p q xs e) (insert_by-map p q x (order_by q xs) e)

  pub take-map : (n : ℕ) (xs : List A) → take n (map f xs) ≡ map f (take n xs)
  take-map zero xs = refl
  take-map (suc n) [] = refl
  take-map (suc n) (x ∷ xs) = ap (λ l. f x ∷ l) (take-map n xs)

  pub update_where-map :
      (p : B → Bool) (q : A → Bool) (g : B → B) (h : A → A) (xs : List A)
      → ((x : A) → p (f x) ≡ q x)
      → ((x : A) → g (f x) ≡ f (h x))
      → update_where p g (map f xs) ≡ map f (update_where q h xs)
  unfolding update_where
  update_where-map p q g h [] e i = refl
  update_where-map p q g h (x ∷ xs) e i = elim (Bool-cases (q x)) [
    | inl t ↦ rw (e x, t, i x, update_where-map p q g h xs e i) refl
    | inr t ↦ rw (e x, t, update_where-map p q g h xs e i) refl
  ]
