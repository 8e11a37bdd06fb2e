-- ===== src/Engine/Path.antt =====
-- internal/engine/path.go: JSON paths, and the values that they reach.
pub mod Reach
use webhook_event_route.Prelude.{
  ℕ, zero, suc, ◌+◌, ◌-◌, ◌*◌, Bool, true, false, ◌&&◌, ◌||◌, Option, none, some, List, [], ◌∷◌,
  ◌++◌, map, ltb, leb, ◌==◌, if◌then◌else◌, ℤ, pos, negsuc, Text, codes, text_eq, get_elem?,
}
use webhook_event_route.Domain.{Value, Values, Members, array, object, nil, cons, end, member}
use webhook_event_route.Strconv.{atoi}
use webhook_event_route.Runtime.{Runtime}

pub record PathSegment : Type 0 where
  pub key : Text
  pub index : ℤ

-- strings.Split(s, sep) for a separator of one byte: never the empty list.
unfoldable pub split : ℕ → Text → List Text
split sep [] = [] ∷ []
split sep (c ∷ s) =
    let rest = split sep s in
    if c == sep then [] ∷ rest else elim rest [ [] ↦ (c ∷ []) ∷ [] | p ∷ ps ↦ (c ∷ p) ∷ ps ]

-- The body of the loop of `ParsePath` for a part that is not empty.
unfoldable pub segment : Text → PathSegment
unfolding text_eq atoi
segment p =
    if text_eq p (codes "*") then record { key = codes "*"; index = negsuc 0 } else elim (atoi p) [
      | some i ↦ record { key = []; index = i }
      | none ↦ record { key = p; index = negsuc 0 }
    ]

unfoldable pub segments : List Text → List PathSegment
unfolding segment
segments [] = []
segments ([] ∷ ps) = segments ps
segments ((c ∷ p) ∷ ps) = segment (c ∷ p) ∷ segments ps

unfoldable pub parse_path : Text → List PathSegment
unfolding segments split text_eq
parse_path path =
    if text_eq path [] || text_eq path (codes ".") then [] else segments (split b'.' path)

unfoldable pub items : Values → List Value
items nil = []
items (cons v vs) = v ∷ items vs

unfoldable pub entries : Members → List (Text × Value)
entries end = []
entries (member k v m) = (k, v) ∷ entries m

-- m[key]
unfoldable pub get_key : Text → List (Text × Value) → Option Value
unfolding text_eq
get_key key [] = none
get_key key ((k, v) ∷ m) = if text_eq k key then some v else get_key key m

abbrev values_of : Option Value → List Value
values_of none = []
values_of (some v) = v ∷ []

module _ (lib : Runtime) where
  unfoldable pub wildcard : Value → List Value
  unfolding items entries
  wildcard (array vs) = items vs
  wildcard (object m) = map (λ e. e.1) (lib.range (entries m))
  wildcard _ = []

  unfoldable pub step_index : Value → ℕ → List Value
  unfolding items
  step_index (array vs) i = values_of (get_elem? (items vs) i)
  step_index _ i = []

  unfoldable pub step_key : Value → Text → List Value
  unfolding entries get_key
  step_key (object m) key = values_of (get_key key (entries m))
  step_key _ key = []

  unfoldable pub step : Value → PathSegment → List Value
  unfolding wildcard step_index step_key text_eq
  step v seg =
      if text_eq seg.key (codes "*")
      then wildcard v
      else elim seg.index [ pos i ↦ step_index v i | negsuc n ↦ step_key v seg.key ]

  -- The inner loop of `Lookup`: one segment applied to every current value.
  unfoldable pub advance : PathSegment → List Value → List Value
  unfolding step
  advance seg [] = []
  advance seg (v ∷ cur) = step v seg ++ advance seg cur

  unfoldable pub follow : List PathSegment → List Value → List Value
  unfolding advance
  follow [] cur = cur
  follow (seg ∷ segs) cur = follow segs (advance seg cur)

  unfoldable pub lookup : Text → Value → List Value
  unfolding parse_path follow
  lookup path root = follow (parse_path path) (root ∷ [])

  -- `nil` when the path reaches nothing.
  unfoldable pub first : Text → Value → Value
  unfolding lookup
  first path root = elim (lookup path root) [ [] ↦ Value.null | v ∷ vs ↦ v ]
