-- ===== src/Engine/Expression/Leaf.antt =====
-- The meaning of a leaf condition, over what its path reaches, and that `evalLeaf` decides it.
use Prim.Native.Nat.{Ordering}
use mathlib.Core.Path.{subst}
use webhook_event_route.Prelude.{
  ◌≡◌, ◌≢◌, refl, sym, ◌∙◌, ◌↔◌, Bool, true, false, not, ◌&&◌, ◌||◌, Option, none, some, List, [],
  ◌∷◌, any, length, arith, ltb, if◌then◌else◌, In, Text, text_eq_iff, lt→ltb, contains_text,
  Reflects, Reflects-iff, iff-Reflects, not-Reflects, any-Reflects,
}
use webhook_event_route.Domain.{Value, null}
use webhook_event_route.Runtime.{Runtime, VisitsEntries}
use webhook_event_route.Engine.Path.{parse_path, lookup, first}
use webhook_event_route.Engine.Path.Reach.{Reaches, lookup_iff_Reaches}
use webhook_event_route.Engine.Expression.{
  Operator, conj, disj, neg, exists, in_list, not_in_list, regex, eq, ne, gt, gte, lt, lte,
  contains, unknown, as_list, is_null, normalize, equal, compare, test, ne_loop, test_loop, is_ne,
  eval_compare, is_in, pattern_of, regex_match, does_exist, eval_leaf,
}

guarded-Reflects :
    (b t : Bool) (P : Type 0)
    → (b ≡ true → Reflects P t)
    → (b ≡ false → ¬ P)
    → Reflects P (if b then t else false)
guarded-Reflects true t P h k = h refl
guarded-Reflects false t P h k = k refl

compiled-Reflects :
    (o : Option (Text → Bool)) (k : (Text → Bool) → Bool) (P : Type 0)
    → (o ≡ none → ¬ P)
    → ((m : Text → Bool) → o ≡ some m → Reflects P (k m))
    → Reflects P (elim o [ none ↦ false | some m ↦ k m ])
compiled-Reflects none k P h f = h refl
compiled-Reflects (some m) k P h f = f m refl

abbrev fits : Option (Text → Bool) → Text → Bool
fits none t = false
fits (some m) t = m t

is_null-Reflects : (v : Value) → Reflects (v ≡ null) (is_null v)
is_null-Reflects null = refl
is_null-Reflects _ = λ e. cc

first_Reflects :
    (vals : List Value)
    → Reflects
        ((w : Value) × (rest : List Value) × (vals ≡ w ∷ rest) × (w ≢ null))
        (ltb 0 (length vals) && not (is_null (elim vals [ [] ↦ null | v ∷ vs ↦ v ])))
first_Reflects [] = λ (w, rest, h, _). cc
first_Reflects (v ∷ vs) = rw (lt→ltb 0 (length (v ∷ vs)) (omega arith)) (
    iff-Reflects _ (not (is_null v)) (
      λ h. (v, vs, refl, (Reflects-iff _ _ not_null).0 h),
      λ (w, rest, h, n). (Reflects-iff _ _ not_null).1 (λ e. n (cc)),
    ))
  where
    not_null : Reflects (v ≢ null) (not (is_null v))
    not_null = not-Reflects (v ≡ null) (is_null v) (is_null-Reflects v)

module _ (lib : Runtime) where
  -- Two values print alike.
  abbrev pub AreEqual : Value → Value → Type 0
  AreEqual a b = normalize lib a ≡ normalize lib b

  -- The list on the right holds an item that prints like `w`; what is no list holds nothing.
  abbrev pub IsListed : Value → Value → Type 0
  IsListed value w =
      ((as_list value).1 ≡ true) × ((item : Value) × In item (as_list value).0 × AreEqual w item)

  abbrev pub Matches : Value → Value → Type 0
  Matches value w =
      (m : Text → Bool) × (pattern_of lib value ≡ some m) × (m (normalize lib w) ≡ true)

  -- The path reaches a value with the property.
  abbrev pub Some : (Value → Type 0) → Text → Value → Type 0
  Some P path root = (w : Value) × Reaches (parse_path path) root w × P w

  abbrev pub LeafHolds : Operator → Text → Value → Value → Type 0
  LeafHolds exists path value root =
      (w : Value) × (rest : List Value) × (lookup lib path root ≡ w ∷ rest) × (w ≢ null)
  LeafHolds in_list path value root = Some (IsListed value) path root
  LeafHolds not_in_list path value root = ¬ Some (IsListed value) path root
  LeafHolds regex path value root = Some (Matches value) path root
  LeafHolds eq path value root = Some (λ w. AreEqual w value) path root
  LeafHolds ne path value root = ¬ Some (λ w. AreEqual w value) path root
  LeafHolds gt path value root = Some (λ w. compare lib w value ≡ Ordering.gt) path root
  LeafHolds gte path value root = Some (λ w. compare lib w value ≢ Ordering.lt) path root
  LeafHolds lt path value root = Some (λ w. compare lib w value ≡ Ordering.lt) path root
  LeafHolds lte path value root = Some (λ w. compare lib w value ≢ Ordering.gt) path root
  LeafHolds contains path value root =
      Some (λ w. contains_text (lib.sprint w) (lib.sprint value) ≡ true) path root
  LeafHolds conj path value root = ⊥
  LeafHolds disj path value root = ⊥
  LeafHolds neg path value root = ⊥
  LeafHolds unknown path value root = ⊥

  ne_loop-not-any :
      (vals : List Value) (value : Value) (matched : Bool)
      → ne_loop lib vals value matched
        ≡ (not (any (λ v. equal lib v value) vals) && (matched || ltb 0 (length vals)))
  unfolding ne_loop
  ne_loop-not-any [] value matched = ground arith
  ne_loop-not-any (v ∷ vals) value matched = ground (arith, ne_loop-not-any vals value true)

  test_loop-any :
      (op : Operator) (vals : List Value) (value : Value) (matched : Bool)
      → test_loop lib op vals value matched ≡ (matched || any (λ v. test lib op v value) vals)
  unfolding test_loop
  test_loop-any op [] value matched = ground arith
  test_loop-any op (v ∷ vals) value matched =
      ground (arith, test_loop-any op vals value (matched || test lib op v value))

  eval_compare-ne :
      (vals : List Value) (value : Value)
      → eval_compare lib ne vals value ≡ not (any (λ v. equal lib v value) vals)
  unfolding eval_compare
  eval_compare-ne [] value = refl
  eval_compare-ne (v ∷ vals) value = ground (arith, ne_loop-not-any (v ∷ vals) value false)

  eval_compare-any :
      (op : Operator) (vals : List Value) (value : Value)
      → is_ne op ≡ false
      → eval_compare lib op vals value ≡ any (λ v. test lib op v value) vals
  unfolding eval_compare
  eval_compare-any op [] value h = h
  eval_compare-any op (v ∷ vals) value h = rw h (test_loop-any op (v ∷ vals) value false)

  any-Some :
      VisitsEntries lib
      → (p : Value → Bool) (P : Value → Type 0) (path : Text) (root : Value)
      → ((w : Value) → (p w ≡ true) ↔ P w)
      → Reflects (Some P path root) (any p (lookup lib path root))
  any-Some ok p P path root same = iff-Reflects (Some P path root) (any p (lookup lib path root)) (
    λ h.
        let (w, m, e) = (Reflects-iff _ _ (any-Reflects p (lookup lib path root))).0 h in
        (w, (lookup_iff_Reaches lib ok path root w).0 m, (same w).0 e),
    λ (w, r, q).
        (Reflects-iff _ _ (any-Reflects p (lookup lib path root))).1
          (w, (lookup_iff_Reaches lib ok path root w).1 r, (same w).1 q),
  )

  equal_iff : (a b : Value) → (equal lib a b ≡ true) ↔ AreEqual a b
  unfolding equal
  equal_iff a b = text_eq_iff _ _

  test_iff :
      (w value : Value)
      → ((test lib gt w value ≡ true) ↔ (compare lib w value ≡ Ordering.gt))
        × ((test lib gte w value ≡ true) ↔ (compare lib w value ≢ Ordering.lt))
        × ((test lib lt w value ≡ true) ↔ (compare lib w value ≡ Ordering.lt))
        × ((test lib lte w value ≡ true) ↔ (compare lib w value ≢ Ordering.gt))
  unfolding test
  test_iff w value = by_order (compare lib w value)
    where
      by_order :
          (o : Ordering)
          → ((elim o [ Ordering.gt ↦ true | _ ↦ false ] ≡ true) ↔ (o ≡ Ordering.gt))
            × ((elim o [ Ordering.lt ↦ false | _ ↦ true ] ≡ true) ↔ (o ≢ Ordering.lt))
            × ((elim o [ Ordering.lt ↦ true | _ ↦ false ] ≡ true) ↔ (o ≡ Ordering.lt))
            × ((elim o [ Ordering.gt ↦ false | _ ↦ true ] ≡ true) ↔ (o ≢ Ordering.gt))
      by_order Ordering.lt = ground arith
      by_order Ordering.eq = ground arith
      by_order Ordering.gt = ground arith

  IsListed-iff :
      (value w : Value)
      → (as_list value).1 ≡ true
      → (any (λ item. equal lib w item) (as_list value).0 ≡ true) ↔ IsListed value w
  IsListed-iff value w found = (
    λ h.
        let (item, m, e) = (Reflects-iff _ _ (any-Reflects (equal lib w) (as_list value).0)).0 h in
        (found, (item, m, (equal_iff w item).0 e)),
    λ (_, (item, m, e)).
        (Reflects-iff _ _ (any-Reflects (equal lib w) (as_list value).0)).1
          (item, m, (equal_iff w item).1 e),
  )

  is_in-Reflects :
      VisitsEntries lib
      → (path : Text) (value root : Value)
      → Reflects (Some (IsListed value) path root) (is_in lib (lookup lib path root) value)
  unfolding is_in
  is_in-Reflects ok path value root =
      guarded-Reflects (as_list value).1 _ _
        (λ found. any-Some ok _ _ path root (λ w. IsListed-iff value w found))
        (λ missing (w, r, (found, _)). cc)

  Matches-iff :
      (value w : Value) (m : Text → Bool)
      → pattern_of lib value ≡ some m
      → (m (normalize lib w) ≡ true) ↔ Matches value w
  Matches-iff value w m e =
      (λ h. (m, e, h), λ (m', e', h). subst (λ k. fits k (normalize lib w) ≡ true) (sym e' ∙ e) h)

  regex-Reflects :
      VisitsEntries lib
      → (path : Text) (value root : Value)
      → Reflects (Some (Matches value) path root) (regex_match lib (lookup lib path root) value)
  unfolding regex_match
  regex-Reflects ok path value root =
      compiled-Reflects (pattern_of lib value) _ _ (λ e (w, r, (m, compiled, _)). cc)
        (λ m e. any-Some ok _ _ path root (λ w. Matches-iff value w m e))

  exists-Reflects :
      (path : Text) (value root : Value)
      → Reflects (LeafHolds exists path value root) (does_exist lib path root)
  unfolding does_exist first
  exists-Reflects path value root = first_Reflects (lookup lib path root)

  -- When `range` visits the entries of a map, `evalLeaf` decides the meaning of a leaf.
  pub leaf-Reflects :
      VisitsEntries lib
      → (op : Operator) (path : Text) (value root : Value)
      → Reflects (LeafHolds op path value root) (eval_leaf lib op path value root)
  unfolding eval_leaf
  leaf-Reflects ok exists path value root = exists-Reflects path value root
  leaf-Reflects ok in_list path value root = is_in-Reflects ok path value root
  leaf-Reflects ok not_in_list path value root =
      not-Reflects _ _ (is_in-Reflects ok path value root)
  leaf-Reflects ok regex path value root = regex-Reflects ok path value root
  leaf-Reflects ok eq path value root =
      rw (eval_compare-any eq (lookup lib path root) value refl)
        (any-Some ok _ _ path root (λ w. unfold test in equal_iff w value))
  leaf-Reflects ok ne path value root =
      rw (eval_compare-ne (lookup lib path root) value)
        (not-Reflects _ _ (any-Some ok _ _ path root (λ w. equal_iff w value)))
  leaf-Reflects ok gt path value root =
      rw (eval_compare-any gt (lookup lib path root) value refl)
        (any-Some ok _ _ path root (λ w. (test_iff w value).0))
  leaf-Reflects ok gte path value root =
      rw (eval_compare-any gte (lookup lib path root) value refl)
        (any-Some ok _ _ path root (λ w. (test_iff w value).1))
  leaf-Reflects ok lt path value root =
      rw (eval_compare-any lt (lookup lib path root) value refl)
        (any-Some ok _ _ path root (λ w. (test_iff w value).2))
  leaf-Reflects ok lte path value root =
      rw (eval_compare-any lte (lookup lib path root) value refl)
        (any-Some ok _ _ path root (λ w. (test_iff w value).3))
  leaf-Reflects ok contains path value root =
      rw (eval_compare-any contains (lookup lib path root) value refl)
        (any-Some ok _ _ path root (λ w. unfold test in (λ h. h, λ h. h)))
  leaf-Reflects ok conj path value root = λ h. h
  leaf-Reflects ok disj path value root = λ h. h
  leaf-Reflects ok neg path value root = λ h. h
  leaf-Reflects ok unknown path value root = λ h. h
