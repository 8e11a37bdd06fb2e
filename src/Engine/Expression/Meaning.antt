-- ===== src/Engine/Expression/Meaning.antt =====
-- The meaning of a condition tree, and that `Eval` decides it.
use webhook_event_route.Prelude.{
  ◌≡◌, ◌↔◌, ◌⊎◌, inl, inr, Bool, true, false, Text, Reflects, Reflects-iff,
}
use webhook_event_route.Domain.{Value, Condition, Conditions, condition, none_left, next}
use webhook_event_route.Runtime.{Runtime, VisitsEntries}
use webhook_event_route.Engine.Expression.{
  Operator, conj, disj, neg, operator, eval_leaf, eval, eval_conj, eval_disj, eval_neg, eval_all,
}
use webhook_event_route.Engine.Expression.Leaf.{LeafHolds, leaf-Reflects}

and_Reflects :
    (P Q : Type 0) (a b : Bool)
    → Reflects P a
    → Reflects Q b
    → Reflects (P × Q) (elim a [ true ↦ b | false ↦ false ])
and_Reflects P Q true true p q = (p, q)
and_Reflects P Q true false p q = λ h. q h.1
and_Reflects P Q false b p q = λ h. p h.0

or_Reflects :
    (P Q : Type 0) (a b : Bool)
    → Reflects P a
    → Reflects Q b
    → Reflects (P ⊎ Q) (elim a [ true ↦ true | false ↦ b ])
or_Reflects P Q true b p q = inl p
or_Reflects P Q false true p q = inr q
or_Reflects P Q false false p q = λ h. elim h [ inl x ↦ p x | inr y ↦ q y ]

nor_Reflects :
    (P Q : Type 0) (a b : Bool)
    → Reflects P a
    → Reflects (¬ Q) b
    → Reflects (¬ (P ⊎ Q)) (elim a [ true ↦ false | false ↦ b ])
nor_Reflects P Q true b p q = λ h. h (inl p)
nor_Reflects P Q false true p q = λ h. elim h [ inl x ↦ p x | inr y ↦ q y ]
nor_Reflects P Q false false p q = λ h. q (λ y. h (inr y))

module _ (lib : Runtime) where
  abbrev pub ByOperator : Operator → Text → Value → Value → Type 0 → Type 0 → Type 0
  ByOperator conj path value root every one = every
  ByOperator disj path value root every one = one
  ByOperator neg path value root every one = ¬ one
  ByOperator op path value root every one = LeafHolds lib op path value root

  -- and: every child holds; or: some child holds; not: no child holds; else the leaf's meaning.
  abbrev mutual
    pub Holds : Condition → Value → Type 0
    Holds (condition op path value children) root =
        ByOperator (operator op) path value root (AllHold children root) (SomeHolds children root)

    pub AllHold : Conditions → Value → Type 0
    AllHold none_left root = Unit
    AllHold (next c cs) root = Holds c root × AllHold cs root

    pub SomeHolds : Conditions → Value → Type 0
    SomeHolds none_left root = ⊥
    SomeHolds (next c cs) root = Holds c root ⊎ SomeHolds cs root

  module _ (ok : VisitsEntries lib) where
    group-Reflects :
        (op : Operator) (path : Text) (value root : Value) (every one : Type 0) (a b n : Bool)
        → Reflects every a
        → Reflects one b
        → Reflects (¬ one) n
        → Reflects (ByOperator op path value root every one) (elim op [
          | conj ↦ a
          | disj ↦ b
          | neg ↦ n
          | other ↦ eval_leaf lib other path value root
        ])
    group-Reflects conj path value root every one a b n x y z = x
    group-Reflects disj path value root every one a b n x y z = y
    group-Reflects neg path value root every one a b n x y z = z
    group-Reflects op path value root every one a b n x y z =
        leaf-Reflects lib ok op path value root

    mutual
      unfolding eval

      eval-Reflects : (c : Condition) (root : Value) → Reflects (Holds c root) (eval lib c root)
      eval-Reflects (condition op path value children) root =
          group-Reflects (operator op) path value root _ _ _ _ _ (conj-Reflects children root)
            (disj-Reflects children root) (neg-Reflects children root)

      conj-Reflects :
          (cs : Conditions) (root : Value) → Reflects (AllHold cs root) (eval_conj lib cs root)
      conj-Reflects none_left root = tt
      conj-Reflects (next c cs) root =
          and_Reflects _ _ (eval lib c root) _ (eval-Reflects c root) (conj-Reflects cs root)

      disj-Reflects :
          (cs : Conditions) (root : Value) → Reflects (SomeHolds cs root) (eval_disj lib cs root)
      disj-Reflects none_left root = λ h. h
      disj-Reflects (next c cs) root =
          or_Reflects _ _ (eval lib c root) _ (eval-Reflects c root) (disj-Reflects cs root)

      neg-Reflects :
          (cs : Conditions) (root : Value) → Reflects (¬ SomeHolds cs root) (eval_neg lib cs root)
      neg-Reflects none_left root = λ h. h
      neg-Reflects (next c cs) root =
          nor_Reflects _ _ (eval lib c root) _ (eval-Reflects c root) (neg-Reflects cs root)

    -- When `range` visits the entries of a map, `Eval` returns true on a condition and a value exactly
    -- when the condition holds of the value: a leaf by the values that its path reaches, `and` when
    -- every child holds, `or` when some child does, `not` when no child does.
    pub eval_iff_Holds : (c : Condition) (root : Value) → (eval lib c root ≡ true) ↔ Holds c root
    eval_iff_Holds c root = Reflects-iff _ _ (eval-Reflects c root)

    eval_all-Reflects :
        (cs : Conditions) (root : Value) → Reflects (AllHold cs root) (eval_all lib cs root)
    unfolding eval_all
    eval_all-Reflects none_left root = tt
    eval_all-Reflects (next c cs) root =
        and_Reflects _ _ (eval lib c root) _ (eval-Reflects c root) (eval_all-Reflects cs root)

    pub eval_all_iff_AllHold :
        (cs : Conditions) (root : Value) → (eval_all lib cs root ≡ true) ↔ AllHold cs root
    eval_all_iff_AllHold cs root = Reflects-iff _ _ (eval_all-Reflects cs root)
