-- ===== src/Engine/Path/Reach.antt =====
-- What a path reaches, as a relation, and that `Lookup` returns exactly that.
use mathlib.Core.Path.{subst}
use webhook_event_route.Prelude.{
  ℕ, ◌≡◌, ◌≢◌, refl, sym, ap, ◌↔◌, inl, inr, false, Option, none, some, List, [], ◌∷◌, map, In,
  In-append, In-append_left, In-append_right, Bool-cases, ℤ, pos, negsuc, Text, codes, text_eq,
  text_eq_iff, get_elem?,
}
use webhook_event_route.Domain.{Value, Values, Members, array, object}
use webhook_event_route.Runtime.{Runtime, VisitsEntries}
use webhook_event_route.Engine.Path.{
  PathSegment, parse_path, items, entries, get_key, wildcard, step_index, step_key, step, advance,
  follow, lookup, values_of,
}

-- One segment leads from a value to a value inside it.
pub data Child (seg : PathSegment) (v u : Value) : Type 0 where
  any_item : (vs : Values) → seg.key ≡ codes "*" → v ≡ array vs → In u (items vs) → Child seg v u
  any_member :
      (m : Members) (key : Text)
      → seg.key ≡ codes "*"
      → v ≡ object m
      → In (key, u) (entries m)
      → Child seg v u
  item :
      (vs : Values) (i : ℕ)
      → seg.key ≢ codes "*"
      → seg.index ≡ pos i
      → v ≡ array vs
      → get_elem? (items vs) i ≡ some u
      → Child seg v u
  member :
      (m : Members) (n : ℕ)
      → seg.key ≢ codes "*"
      → seg.index ≡ negsuc n
      → v ≡ object m
      → get_key seg.key (entries m) ≡ some u
      → Child seg v u

pub data Reaches : List PathSegment → Value → Value → Type 0 where
  here : {v : Value} → Reaches [] v v
  via :
      {seg : PathSegment} {segs : List PathSegment} {v u w : Value}
      → Child seg v u
      → Reaches segs u w
      → Reaches (seg ∷ segs) v w

In-map_snd :
    (m : List (Text × Value)) (u : Value) → In u (map (λ e. e.1) m) → (k : Text) × In (k, u) m
In-map_snd [] u h = elim h [ ]
In-map_snd ((k, v) ∷ m) u (inl e) = (k, inl (ap (λ w. (k, w)) e))
In-map_snd ((k, v) ∷ m) u (inr h) = let (j, i) = In-map_snd m u h in (j, inr i)

map_snd-In :
    (m : List (Text × Value)) (k : Text) (u : Value) → In (k, u) m → In u (map (λ e. e.1) m)
map_snd-In [] k u h = elim h [ ]
map_snd-In (e ∷ m) k u (inl p) = inl (ap (λ q. q.1) p)
map_snd-In (e ∷ m) k u (inr h) = inr (map_snd-In m k u h)

In-values_of : (o : Option Value) (u : Value) → In u (values_of o) → o ≡ some u
In-values_of none u h = elim h [ ]
In-values_of (some v) u (inl e) = ap some (sym e)
In-values_of (some v) u (inr h) = elim h [ ]

values_of-In : (o : Option Value) (u : Value) → o ≡ some u → In u (values_of o)
values_of-In none u h = cc
values_of-In (some v) u h = inl (cc)

plain_key : (seg : PathSegment) → seg.key ≢ codes "*" → text_eq seg.key (codes "*") ≡ false
plain_key seg ne = elim (Bool-cases (text_eq seg.key (codes "*"))) [
  | inl e ↦ absurd (ne ((text_eq_iff _ _).0 e))
  | inr e ↦ e
]

module _ (lib : Runtime) (range_ok : VisitsEntries lib) where
  In-wildcard :
      (seg : PathSegment) (v u : Value)
      → seg.key ≡ codes "*"
      → In u (wildcard lib v)
      → Child seg v u
  unfolding wildcard
  In-wildcard seg (array vs) u star h = any_item vs star refl h
  In-wildcard seg (object m) u star h =
      let (k, i) = In-map_snd _ u h in
      any_member m k star refl ((range_ok.visits (entries m) (k, u)).0 i)
  In-wildcard _ _ _ _ h = elim h [ ]

  In-step_index :
      (seg : PathSegment) (v u : Value) (i : ℕ)
      → seg.key ≢ codes "*"
      → seg.index ≡ pos i
      → In u (step_index lib v i)
      → Child seg v u
  unfolding step_index
  In-step_index seg (array vs) u i plain at h = item vs i plain at refl (In-values_of _ u h)
  In-step_index _ _ _ _ _ _ h = elim h [ ]

  In-step_key :
      (seg : PathSegment) (v u : Value) (n : ℕ)
      → seg.key ≢ codes "*"
      → seg.index ≡ negsuc n
      → In u (step_key lib v seg.key)
      → Child seg v u
  unfolding step_key
  In-step_key seg (object m) u n plain at h = member m n plain at refl (In-values_of _ u h)
  In-step_key _ _ _ _ _ _ h = elim h [ ]

  In-step : (seg : PathSegment) (v u : Value) → In u (step lib v seg) → Child seg v u
  unfolding step
  In-step seg v u h = elim (Bool-cases (text_eq seg.key (codes "*"))) [
    | inl star ↦ In-wildcard seg v u ((text_eq_iff _ _).0 star) (rw star at h)
    | inr plain ↦
        let ne : seg.key ≢ codes "*" = λ e. cc ((text_eq_iff seg.key (codes "*")).1 e) in
        In-plain ne seg.index refl (rw plain at h)
  ]
    where
      In-plain :
          seg.key ≢ codes "*"
          → (i : ℤ) → seg.index ≡ i
          → In u (elim i [ pos k ↦ step_index lib v k | negsuc n ↦ step_key lib v seg.key ])
          → Child seg v u
      In-plain ne (pos k) at h' = In-step_index seg v u k ne at h'
      In-plain ne (negsuc n) at h' = In-step_key seg v u n ne at h'

  Child-In : (seg : PathSegment) (v u : Value) → Child seg v u → In u (step lib v seg)
  unfolding step wildcard step_index step_key
  Child-In seg v u (any_item vs star e h) = rw (star, e) h
  Child-In seg v u (any_member m key star e h) =
      rw (star, e) (map_snd-In _ key u ((range_ok.visits (entries m) (key, u)).1 h))
  Child-In seg v u (item vs i plain at e h) = rw (plain_key seg plain, at, e) (values_of-In _ u h)
  Child-In seg v u (member m n plain at e h) = rw (plain_key seg plain, at, e) (values_of-In _ u h)

  In-advance :
      (seg : PathSegment) (cur : List Value) (w : Value)
      → In w (advance lib seg cur)
      → (v : Value) × In v cur × Child seg v w
  unfolding advance
  In-advance seg [] w h = elim h [ ]
  In-advance seg (v ∷ cur) w h = elim (In-append w (step lib v seg) (advance lib seg cur) h) [
    | inl now ↦ (v, inl refl, In-step seg v w now)
    | inr later ↦ let (u, m, c) = In-advance seg cur w later in (u, inr m, c)
  ]

  advance-In :
      (seg : PathSegment) (cur : List Value) (v w : Value)
      → In v cur
      → Child seg v w
      → In w (advance lib seg cur)
  unfolding advance
  advance-In seg [] v w m c = elim m [ ]
  advance-In seg (u ∷ cur) v w (inl e) c =
      In-append_left w (step lib u seg) _ (Child-In seg u w (subst (λ x. Child seg x w) e c))
  advance-In seg (u ∷ cur) v w (inr m) c =
      In-append_right w (step lib u seg) _ (advance-In seg cur v w m c)

  follow-Reaches :
      (segs : List PathSegment) (cur : List Value) (w : Value)
      → In w (follow lib segs cur)
      → (v : Value) × In v cur × Reaches segs v w
  unfolding follow
  follow-Reaches [] cur w h = (w, h, here)
  follow-Reaches (seg ∷ segs) cur w h =
      let (u, m, r) = follow-Reaches segs (advance lib seg cur) w h in
      let (v, n, c) = In-advance seg cur u m in (v, n, via c r)

  Reaches-follow :
      (segs : List PathSegment) (cur : List Value) (v w : Value)
      → In v cur
      → Reaches segs v w
      → In w (follow lib segs cur)
  unfolding follow
  Reaches-follow _ cur v w m here = m
  Reaches-follow _ cur v w m (via {seg} {segs} {v = x} {u} c r) =
      Reaches-follow segs (advance lib seg cur) u w (advance-In seg cur x u m c) r

  -- When `range` visits the entries of a map, each once or more and no others, `Lookup` returns
  -- exactly the values that the parsed path reaches from the root, by the relation `Reaches`.
  pub lookup_iff_Reaches :
      (path : Text) (root w : Value)
      → In w (lookup lib path root) ↔ Reaches (parse_path path) root w
  unfolding lookup
  lookup_iff_Reaches path root w = (
    λ h.
        let (v, m, r) = follow-Reaches (parse_path path) (root ∷ []) w h in
        elim m [
          | inl e ↦ subst (λ x. Reaches (parse_path path) x w) e r
          | inr absent ↦ elim absent [ ]
        ],
    Reaches-follow (parse_path path) (root ∷ []) root w (inl refl),
  )
