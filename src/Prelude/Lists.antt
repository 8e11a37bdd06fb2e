-- ===== src/Prelude/Lists.antt =====
-- Lists over native numbers, Boolean quantifiers that run, and membership by recursion.
use Prim.Native.Nat.{ℕ, zero, suc, ◌+◌, ◌≤◌}
use mathlib.Core.Path.{◌≡◌, refl, ap}
use mathlib.Core.Logic.{◌⊎◌, ◌↔◌, inl, inr}
use mathlib.Core.Bool.{Bool, true, false, not, ◌&&◌, ◌||◌}
use mathlib.Core.List.{List, [], ◌∷◌, ◌++◌, map}
use mathlib.Core.Option.{Option, none, some}
use native.Mathlib.Omega.{arith}

module _ {ℓ} {A : Type ℓ} where
  abbrev pub length : List A → ℕ
  length [] = 0
  length (x ∷ xs) = suc (length xs)

  abbrev pub get_elem? : List A → ℕ → Option A
  get_elem? [] i = none
  get_elem? (x ∷ xs) zero = some x
  get_elem? (x ∷ xs) (suc i) = get_elem? xs i

  abbrev pub take : ℕ → List A → List A
  take zero xs = []
  take (suc n) [] = []
  take (suc n) (x ∷ xs) = x ∷ take n xs

  abbrev pub drop : ℕ → List A → List A
  drop zero xs = xs
  drop (suc n) [] = []
  drop (suc n) (x ∷ xs) = drop n xs

  abbrev pub any : (A → Bool) → List A → Bool
  any p [] = false
  any p (x ∷ xs) = p x || any p xs

  abbrev pub all : (A → Bool) → List A → Bool
  all p [] = true
  all p (x ∷ xs) = p x && all p xs

  pub length-append : (xs ys : List A) → length (xs ++ ys) ≡ length xs + length ys
  length-append [] ys = omega arith
  length-append (x ∷ xs) ys = omega (arith, length-append xs ys)

  pub length-take-le : (n : ℕ) (xs : List A) → length (take n xs) ≤ n
  length-take-le zero xs = omega arith
  length-take-le (suc n) [] = omega arith
  length-take-le (suc n) (x ∷ xs) = omega (arith, length-take-le n xs)

module _ {A : Type 0} where
  -- `x` stands in the list: a choice of a place, which the tactics take apart.
  abbrev pub In : A → List A → Type 0
  In x [] = ⊥
  In x (y ∷ ys) = (x ≡ y) ⊎ In x ys

  pub In-append_left : (x : A) (xs ys : List A) → In x xs → In x (xs ++ ys)
  In-append_left x [] ys m = elim m [ ]
  In-append_left x (y ∷ xs) ys (inl e) = inl e
  In-append_left x (y ∷ xs) ys (inr m) = inr (In-append_left x xs ys m)

  pub In-append_right : (x : A) (xs ys : List A) → In x ys → In x (xs ++ ys)
  In-append_right x [] ys m = m
  In-append_right x (y ∷ xs) ys m = inr (In-append_right x xs ys m)

  pub In-append : (x : A) (xs ys : List A) → In x (xs ++ ys) → In x xs ⊎ In x ys
  In-append x [] ys m = inr m
  In-append x (y ∷ xs) ys (inl e) = inl (inl e)
  In-append x (y ∷ xs) ys (inr m) = elim (In-append x xs ys m) [
    | inl a ↦ inl (inr a)
    | inr b ↦ inr b
  ]

module _ {A : Type 0} where
  -- No element stands twice.
  abbrev pub Distinct : List A → Type 0
  Distinct [] = Unit
  Distinct (x ∷ xs) = (¬ In x xs) × Distinct xs

  pub Distinct-append :
      (xs ys : List A)
      → Distinct xs
      → Distinct ys
      → ((x : A) → In x xs → ¬ In x ys)
      → Distinct (xs ++ ys)
  Distinct-append [] ys d e apart = e
  Distinct-append (x ∷ xs) ys (n, d) e apart = (
    (λ m. elim (In-append x xs ys m) [ inl a ↦ n a | inr b ↦ apart x (inl refl) b ]),
    Distinct-append xs ys d e (λ y m. apart y (inr m)),
  )

-- A Boolean that decides a type.
abbrev pub Reflects : Type 0 → Bool → Type 0
Reflects P true = P
Reflects P false = ¬ P

pub Reflects-iff : (P : Type 0) (b : Bool) → Reflects P b → (b ≡ true) ↔ P
Reflects-iff P true h = (λ _. h, λ _. refl)
Reflects-iff P false h = (λ e. cc, λ p. absurd (h p))

pub iff-Reflects : (P : Type 0) (b : Bool) → (b ≡ true) ↔ P → Reflects P b
iff-Reflects P true h = h.0 refl
iff-Reflects P false h = λ p. cc (h.1 p)

pub not-Reflects : (P : Type 0) (b : Bool) → Reflects P b → Reflects (¬ P) (not b)
not-Reflects P true h = λ k. k h
not-Reflects P false h = h

module _ {A : Type 0} where
  any_found : (p : A → Bool) (xs : List A) → any p xs ≡ true → (x : A) × In x xs × (p x ≡ true)
  any_found p [] h = cc
  any_found p (x ∷ xs) h = found (any_found p xs) (p x) refl h
    where
      found :
          (any p xs ≡ true → (y : A) × In y xs × (p y ≡ true))
          → (b : Bool) → p x ≡ b
          → (b || any p xs) ≡ true
          → (y : A) × In y (x ∷ xs) × (p y ≡ true)
      found rest true e h' = (x, inl refl, e)
      found rest false e h' = let (y, m, q) = rest h' in (y, inr m, q)

  any_of_In : (p : A → Bool) (xs : List A) (x : A) → In x xs → p x ≡ true → any p xs ≡ true
  any_of_In p [] x m e = elim m [ ]
  any_of_In p (y ∷ xs) x (inl h) e = ground (arith, ap p h)
  any_of_In p (y ∷ xs) x (inr m) e = ground (arith, any_of_In p xs x m e)

  pub any-Reflects :
      (p : A → Bool) (xs : List A) → Reflects ((x : A) × In x xs × (p x ≡ true)) (any p xs)
  any-Reflects p xs = iff-Reflects _ _ (any_found p xs, λ (x, m, e). any_of_In p xs x m e)

pub In-map : {A B : Type 0} (f : A → B) (xs : List A) (x : A) → In x xs → In (f x) (map f xs)
In-map f [] x m = elim m [ ]
In-map f (y ∷ xs) x (inl e) = inl (ap f e)
In-map f (y ∷ xs) x (inr m) = inr (In-map f xs x m)
