-- ===== src/Engine/Expression.antt =====
-- internal/engine/expression.go: conditions over a JSON value.
pub mod Leaf
pub mod Meaning
pub mod Order
use Prim.Native.Nat.{Ordering}
use webhook_event_route.Prelude.{
  ℕ, Bool, true, false, not, ◌&&◌, ◌||◌, Option, none, some, List, [], ◌∷◌, map, any, length, ltb,
  if◌then◌else◌, Text, codes, text_eq, contains_text, compare_text,
}
use webhook_event_route.Domain.{
  Value, Condition, Conditions, condition, none_left, next, null, bool, number, integer, string,
  json_number, strings, array, object,
}
use webhook_event_route.Runtime.{Runtime}
use webhook_event_route.Engine.Path.{items, lookup, first}

-- The cases of the two switches on `c.Op`.
pub data Operator : Type 0 where
  conj disj neg exists in_list not_in_list regex eq ne gt gte lt lte contains unknown : Operator

unfoldable pub operator : Text → Operator
unfolding text_eq
operator op =
    if text_eq op (codes "and")
    then conj
    else if text_eq op (codes "or")
    then disj
    else if text_eq op (codes "not")
    then neg
    else if text_eq op (codes "exists")
    then exists
    else if text_eq op (codes "in")
    then in_list
    else if text_eq op (codes "not_in")
    then not_in_list
    else if text_eq op (codes "regex")
    then regex
    else if text_eq op (codes "eq")
    then eq
    else if text_eq op (codes "ne")
    then ne
    else if text_eq op (codes "gt")
    then gt
    else if text_eq op (codes "gte")
    then gte
    else if text_eq op (codes "lt")
    then lt
    else if text_eq op (codes "lte")
    then lte
    else if text_eq op (codes "contains")
    then contains
    else unknown

-- `asList`: the list and whether there is one.
unfoldable pub as_list : Value → List Value × Bool
unfolding items
as_list (array vs) = (items vs, true)
as_list (strings ss) = (map string ss, true)
as_list (string s) = (string s ∷ [], false)
as_list _ = ([], false)

abbrev pub is_null : Value → Bool
is_null null = true
is_null _ = false

abbrev pub is_ne : Operator → Bool
is_ne ne = true
is_ne _ = false

module _ (lib : Runtime) where
  unfoldable pub normalize : Value → Text
  normalize null = []
  normalize (number f) = lib.format_float f
  normalize (bool true) = codes "true"
  normalize (bool false) = codes "false"
  normalize (string s) = s
  normalize (json_number s) = s
  normalize (integer i) = lib.sprint (integer i)
  normalize (strings ss) = lib.sprint (strings ss)
  normalize (array vs) = lib.sprint (array vs)
  normalize (object m) = lib.sprint (object m)

  unfoldable pub equal : Value → Value → Bool
  unfolding normalize
  equal a b = text_eq (normalize a) (normalize b)

  -- `toFloat`: `none` where it returns false.
  unfoldable pub to_float : Value → Option ℕ
  to_float (number f) = some f
  to_float (integer i) = some (lib.float_of_int i)
  to_float (string s) = lib.parse_float s
  to_float (json_number s) = lib.parse_float s
  to_float _ = none

  abbrev compare_float : ℕ → ℕ → Ordering
  compare_float x y =
      if lib.float_gt x y
      then Ordering.gt
      else if lib.float_lt x y
      then Ordering.lt
      else Ordering.eq

  abbrev compare_as : Option ℕ → Option ℕ → Ordering → Ordering
  compare_as (some x) (some y) texts = compare_float x y
  compare_as none _ texts = texts
  compare_as (some x) none texts = texts

  -- `compare`: as floats where both are floats, as texts otherwise.
  unfoldable pub compare : Value → Value → Ordering
  unfolding to_float normalize compare_text
  compare a b = compare_as (to_float a) (to_float b) (compare_text (normalize a) (normalize b))

  -- What one turn of the loop of `evalCompare` joins to `matched`; `ne` is apart.
  unfoldable pub test : Operator → Value → Value → Bool
  unfolding equal compare contains_text
  test eq v value = equal v value
  test gt v value = elim (compare v value) [ Ordering.gt ↦ true | _ ↦ false ]
  test gte v value = elim (compare v value) [ Ordering.lt ↦ false | _ ↦ true ]
  test lt v value = elim (compare v value) [ Ordering.lt ↦ true | _ ↦ false ]
  test lte v value = elim (compare v value) [ Ordering.gt ↦ false | _ ↦ true ]
  test contains v value = contains_text (lib.sprint v) (lib.sprint value)
  test _ v value = false

  unfoldable pub ne_loop : List Value → Value → Bool → Bool
  unfolding equal
  ne_loop [] value matched = matched
  ne_loop (v ∷ vals) value matched =
      let rest = ne_loop vals value true in if equal v value then false else rest

  unfoldable pub test_loop : Operator → List Value → Value → Bool → Bool
  unfolding test
  test_loop op [] value matched = matched
  test_loop op (v ∷ vals) value matched = test_loop op vals value (matched || test op v value)

  unfoldable pub eval_compare : Operator → List Value → Value → Bool
  unfolding ne_loop test_loop
  eval_compare op [] value = is_ne op
  eval_compare op (v ∷ vals) value =
      if is_ne op then ne_loop (v ∷ vals) value false else test_loop op (v ∷ vals) value false

  -- `in`: some value equals some item of the list.
  unfoldable pub is_in : List Value → Value → Bool
  unfolding equal as_list
  is_in vals value =
      let (list, found) = as_list value in
      if found then any (λ v. any (λ item. equal v item) list) vals else false

  -- The pattern of a `regex`, compiled, unless it is no text, empty or malformed.
  unfoldable pub pattern_of : Value → Option (Text → Bool)
  pattern_of (string []) = none
  pattern_of (string (c ∷ s)) = lib.compile (c ∷ s)
  pattern_of _ = none

  unfoldable pub regex_match : List Value → Value → Bool
  unfolding pattern_of normalize
  regex_match vals value = elim (pattern_of value) [
    | none ↦ false
    | some matches ↦ any (λ v. matches (normalize v)) vals
  ]

  unfoldable pub does_exist : Text → Value → Bool
  unfolding lookup first
  does_exist path root =
      ltb 0 (length (lookup lib path root)) && not (is_null (first lib path root))

  -- `evalLeaf`, its switch.
  unfoldable pub eval_leaf : Operator → Text → Value → Value → Bool
  unfolding does_exist is_in regex_match eval_compare lookup
  eval_leaf exists path value root = does_exist path root
  eval_leaf in_list path value root = is_in (lookup lib path root) value
  eval_leaf not_in_list path value root = not (is_in (lookup lib path root) value)
  eval_leaf regex path value root = regex_match (lookup lib path root) value
  eval_leaf eq path value root = eval_compare eq (lookup lib path root) value
  eval_leaf ne path value root = eval_compare ne (lookup lib path root) value
  eval_leaf gt path value root = eval_compare gt (lookup lib path root) value
  eval_leaf gte path value root = eval_compare gte (lookup lib path root) value
  eval_leaf lt path value root = eval_compare lt (lookup lib path root) value
  eval_leaf lte path value root = eval_compare lte (lookup lib path root) value
  eval_leaf contains path value root = eval_compare contains (lookup lib path root) value
  eval_leaf _ path value root = false

  -- `Eval`; the three loops over the children are functions of their own.
  unfoldable mutual
    unfolding eval_leaf operator

    pub eval : Condition → Value → Bool
    eval (condition op path value children) root = elim (operator op) [
      | conj ↦ eval_conj children root
      | disj ↦ eval_disj children root
      | neg ↦ eval_neg children root
      | other ↦ eval_leaf other path value root
    ]

    -- Leaves at the first child that fails.
    pub eval_conj : Conditions → Value → Bool
    eval_conj none_left root = true
    eval_conj (next c cs) root = elim (eval c root) [ true ↦ eval_conj cs root | false ↦ false ]

    pub eval_disj : Conditions → Value → Bool
    eval_disj none_left root = false
    eval_disj (next c cs) root = elim (eval c root) [ true ↦ true | false ↦ eval_disj cs root ]

    pub eval_neg : Conditions → Value → Bool
    eval_neg none_left root = true
    eval_neg (next c cs) root = elim (eval c root) [ true ↦ false | false ↦ eval_neg cs root ]

  -- `EvalAll`
  unfoldable pub eval_all : Conditions → Value → Bool
  unfolding eval
  eval_all none_left root = true
  eval_all (next c cs) root = elim (eval c root) [ true ↦ eval_all cs root | false ↦ false ]
