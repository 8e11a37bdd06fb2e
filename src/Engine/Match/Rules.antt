-- ===== src/Engine/Match/Rules.antt =====
-- When a rule matches an event, and which rules and targets are chosen for it.
use mathlib.Core.Path.{subst}
use webhook_event_route.Prelude.{
  Distinct, ℕ, ◌≡◌, refl, ap, ◌↔◌, ◌⊎◌, inl, inr, Bool, true, false, not, Option, none, some, List,
  [], ◌∷◌, arith, ==_iff, if◌then◌else◌, In, Text, text_eq_iff,
}
use webhook_event_route.Domain.{Conditions, none_left, next, Rule}
use webhook_event_route.Runtime.{Runtime, VisitsEntries}
use webhook_event_route.Engine.Expression.Meaning.{AllHold, eval_all_iff_AllHold}
use webhook_event_route.Engine.Match.{
  decoded, conditions_hold, matches, from_source, of_type, RuleMatch, matched, resolve_targets,
  match_rules, select_targets,
}
use webhook_event_route.Engine.Match.Targets.{select-Distinct_from, select-In, In-select}

-- The rule names no source, or this one; no event type, or this one; and all of its conditions hold
-- of the payload.
abbrev pub Applies : Runtime → Rule → ℕ → Text → Text → Type 0
Applies lib r source_id event_type payload =
    ((id : ℕ) → r.source_id ≡ some id → id ≡ source_id)
    × ((r.event_type ≡ []) ⊎ (r.event_type ≡ event_type))
    × AllHold lib r.condition (decoded (lib.unmarshal payload))

from_source_iff :
    (o : Option ℕ) (s : ℕ) → (from_source o s ≡ true) ↔ ((id : ℕ) → o ≡ some id → id ≡ s)
unfolding from_source
from_source_iff none s = (λ _ id e. cc, λ _. refl)
from_source_iff (some k) s = (λ h id e. ground (arith, ==_iff k s), λ h. (==_iff k s).1 (h k refl))

of_type_iff : (t e : Text) → (of_type t e ≡ true) ↔ ((t ≡ []) ⊎ (t ≡ e))
unfolding of_type
of_type_iff t e = ground (arith, text_eq_iff t [], text_eq_iff t e)

conditions_hold_iff :
    (lib : Runtime) (ok : VisitsEntries lib) (cs : Conditions) (payload : Text)
    → (conditions_hold lib cs payload ≡ true) ↔ AllHold lib cs (decoded (lib.unmarshal payload))
unfolding conditions_hold
conditions_hold_iff lib ok none_left payload = (λ _. tt, λ _. refl)
conditions_hold_iff lib ok (next c cs) payload =
    eval_all_iff_AllHold lib ok (next c cs) (decoded (lib.unmarshal payload))

-- When `range` visits the entries of a map, `Match` returns true exactly when the rule applies: it
-- names no source or the event's, no event type or the event's, and all of its conditions hold of
-- the decoded payload (of an empty object where the payload does not decode).
pub matches_iff_Applies :
    (lib : Runtime) (ok : VisitsEntries lib) (r : Rule) (source_id : ℕ) (event_type payload : Text)
    → (matches lib r source_id event_type payload ≡ true)
      ↔ Applies lib r source_id event_type payload
unfolding matches
matches_iff_Applies lib ok r source_id event_type payload =
    let a = from_source_iff r.source_id source_id in
    let b = of_type_iff r.event_type event_type in
    let c = conditions_hold_iff lib ok r.condition payload in
    (
      λ h. let (x, y, z) = three _ _ _ h in (a.0 x, b.0 y, c.0 z),
      λ (x, y, z). three_back _ _ _ (a.1 x) (b.1 y) (c.1 z),
    )
  where
    three :
        (p q s : Bool)
        → (if not p then false else if not q then false else s) ≡ true
        → (p ≡ true) × (q ≡ true) × (s ≡ true)
    three p q s h = ground arith

    three_back :
        (p q s : Bool)
        → p ≡ true
        → q ≡ true
        → s ≡ true
        → (if not p then false else if not q then false else s) ≡ true
    three_back p q s e f g = ground arith

module _ {A : Type 0} where
  abbrev kept : Bool → Bool → A → List A → List A
  kept on hit k rest = if not on then rest else if not hit then rest else k ∷ rest

  In-kept :
      (on hit : Bool) (m k : A) (rest : List A)
      → In m (kept on hit k rest)
      → ((on ≡ true) × (hit ≡ true) × (m ≡ k)) ⊎ In m rest
  In-kept true true m k rest (inl e) = inl (refl, refl, e)
  In-kept true true m k rest (inr n) = inr n
  In-kept true false m k rest h = inr h
  In-kept false hit m k rest h = inr h

  kept-In :
      (on hit : Bool) (m k : A) (rest : List A)
      → ((on ≡ true) × (hit ≡ true) × (m ≡ k)) ⊎ In m rest
      → In m (kept on hit k rest)
  kept-In true true m k rest (inl (_, _, e)) = inl e
  kept-In true true m k rest (inr n) = inr n
  kept-In true false m k rest (inl (_, h, _)) = cc
  kept-In true false m k rest (inr n) = n
  kept-In false hit m k rest (inl (h, _, _)) = cc
  kept-In false hit m k rest (inr n) = n

module _ (lib : Runtime) (source_id : ℕ) (event_type payload : Text) where
  match_rules-In :
      (rules : List Rule) (m : RuleMatch)
      → In m (match_rules lib rules source_id event_type payload)
      → (r : Rule) × In r rules
        × (r.enabled ≡ true)
        × (matches lib r source_id event_type payload ≡ true)
        × (m ≡ matched r)
  unfolding match_rules
  match_rules-In [] m h = elim h [ ]
  match_rules-In (r ∷ rules) m h =
      elim (In-kept r.enabled (matches lib r source_id event_type payload) m (matched r) _ h) [
        | inl (on, hit, e) ↦ (r, inl refl, on, hit, e)
        | inr n ↦ let (q, i, on, hit, e) = match_rules-In rules m n in (q, inr i, on, hit, e)
      ]

  In-match_rules :
      (rules : List Rule) (r : Rule)
      → In r rules
      → r.enabled ≡ true
      → matches lib r source_id event_type payload ≡ true
      → In (matched r) (match_rules lib rules source_id event_type payload)
  unfolding match_rules
  In-match_rules [] r i on hit = elim i [ ]
  In-match_rules (q ∷ rules) r (inl e) on hit =
      kept-In q.enabled (matches lib q source_id event_type payload) (matched r) (matched q) _ (
        inl (
          subst (λ k. k.enabled ≡ true) e on,
          subst (λ k. matches lib k source_id event_type payload ≡ true) e hit,
          ap matched e,
        ))
  In-match_rules (q ∷ rules) r (inr i) on hit =
      kept-In q.enabled (matches lib q source_id event_type payload) (matched r) (matched q) _
        (inr (In-match_rules rules r i on hit))

  -- When `range` visits the entries of a map, `SelectTargets` returns each target once, and exactly
  -- the resolved targets of the enabled rules that apply to the event.
  pub select_targets_lem :
      VisitsEntries lib
      → (rules : List Rule)
      → Distinct (select_targets lib rules source_id event_type payload)
        × ((x : ℕ)
            → In x (select_targets lib rules source_id event_type payload) ↔ (
                (r : Rule) × In r rules
                × (r.enabled ≡ true)
                × Applies lib r source_id event_type payload
                × In x (resolve_targets r)))
  unfolding select_targets
  select_targets_lem ok rules = (
    (select-Distinct_from [] (match_rules lib rules source_id event_type payload)).0,
    λ x. (
      λ h.
          let (m, i, j) = select-In [] _ x h in
          let (r, k, on, hit, e) = match_rules-In rules m i in
          (
            r,
            k,
            on,
            (matches_iff_Applies lib ok r source_id event_type payload).0 hit,
            subst (λ q. In x q.target_ids) e j,
          ),
      λ (r, k, on, fits, j).
          In-select [] _ (matched r) x
            (In-match_rules rules r k on
              ((matches_iff_Applies lib ok r source_id event_type payload).1 fits))
            j (λ n. n),
    ),
  )
