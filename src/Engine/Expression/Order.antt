-- ===== src/Engine/Expression/Order.antt =====
-- The order in which `range` visits a map does not show, but through `exists`.
use webhook_event_route.Prelude.{◌≡◌, ◌↔◌, inl, inr, Bool, true, List, Text, Bool-cases, sym, ◌∙◌}
use webhook_event_route.Domain.{Value, Condition, Conditions, condition, none_left, next}
use webhook_event_route.Runtime.{Runtime, VisitsEntries}
use webhook_event_route.Engine.Expression.{
  Operator, conj, disj, neg, exists, operator, normalize, compare, pattern_of, eval,
}
use webhook_event_route.Engine.Expression.Meaning.{
  ByOperator, Holds, AllHold, SomeHolds, eval_iff_Holds,
}

abbrev FreeBy : Operator → Type 0 → Type 0
FreeBy exists below = ⊥
FreeBy conj below = below
FreeBy disj below = below
FreeBy neg below = below
FreeBy _ below = Unit

-- No leaf of the condition is an `exists`.
abbrev mutual
  pub NoExists : Condition → Type 0
  NoExists (condition op path value children) = FreeBy (operator op) (NoneExists children)

  pub NoneExists : Conditions → Type 0
  NoneExists none_left = Unit
  NoneExists (next c cs) = NoExists c × NoneExists cs

Bool_iff : {a b : Bool} → (a ≡ true → b ≡ true) → (b ≡ true → a ≡ true) → a ≡ b
Bool_iff {a} {b} f g = elim (Bool-cases a) [
  | inl e ↦ e ∙ sym (f e)
  | inr e ↦ elim (Bool-cases b) [ inl e' ↦ cc (g e') | inr e' ↦ e ∙ sym e' ]
]

-- The runtime with another order of visiting.
abbrev pub with_range : Runtime → (List (Text × Value) → List (Text × Value)) → Runtime
with_range lib r = record lib { range = r }

module _ (lib : Runtime) (r s : List (Text × Value) → List (Text × Value)) where
  abbrev one : Runtime
  one = with_range lib r

  abbrev other : Runtime
  other = with_range lib s

  group_same :
      (op : Operator) (path : Text) (value root : Value) (below all₁ all₂ some₁ some₂ : Type 0)
      → FreeBy op below
      → (below → all₁ ↔ all₂)
      → (below → some₁ ↔ some₂)
      → ByOperator one op path value root all₁ some₁
        ↔ ByOperator other op path value root all₂ some₂
  unfolding normalize compare pattern_of
  group_same conj path value root b a₁ a₂ s₁ s₂ h f g = f h
  group_same disj path value root b a₁ a₂ s₁ s₂ h f g = g h
  group_same neg path value root b a₁ a₂ s₁ s₂ h f g = (λ k x. k ((g h).1 x), λ k x. k ((g h).0 x))
  group_same exists path value root b a₁ a₂ s₁ s₂ h f g = elim h [ ]
  group_same _ path value root b a₁ a₂ s₁ s₂ h f g = (λ k. k, λ k. k)

  mutual
    Holds-same : (c : Condition) (root : Value) → NoExists c → Holds one c root ↔ Holds other c root
    Holds-same (condition op path value children) root h =
        group_same (operator op) path value root _ _ _ _ _ h (AllHold-same children root)
          (SomeHolds-same children root)

    AllHold-same :
        (cs : Conditions) (root : Value)
        → NoneExists cs
        → AllHold one cs root ↔ AllHold other cs root
    AllHold-same none_left root h = (λ k. k, λ k. k)
    AllHold-same (next c cs) root (h, t) =
        let p = Holds-same c root h in
        let q = AllHold-same cs root t in (λ (a, b). (p.0 a, q.0 b), λ (a, b). (p.1 a, q.1 b))

    SomeHolds-same :
        (cs : Conditions) (root : Value)
        → NoneExists cs
        → SomeHolds one cs root ↔ SomeHolds other cs root
    SomeHolds-same none_left root h = (λ k. k, λ k. k)
    SomeHolds-same (next c cs) root (h, t) =
        let p = Holds-same c root h in
        let q = SomeHolds-same cs root t in
        (
          λ k. elim k [ inl a ↦ inl (p.0 a) | inr b ↦ inr (q.0 b) ],
          λ k. elim k [ inl a ↦ inl (p.1 a) | inr b ↦ inr (q.1 b) ],
        )

  -- Two orders in which `range` may visit the entries of maps give the same result of `Eval` on
  -- every condition that has no `exists` leaf, on every value.
  pub eval-order_free :
      (c : Condition) (root : Value)
      → VisitsEntries one
      → VisitsEntries other
      → NoExists c
      → eval one c root ≡ eval other c root
  eval-order_free c root ok₁ ok₂ h =
      let p = eval_iff_Holds one ok₁ c root in
      let q = eval_iff_Holds other ok₂ c root in
      let same = Holds-same c root h in
      Bool_iff (λ e. q.1 (same.0 (p.0 e))) (λ e. p.1 (same.1 (q.0 e)))
