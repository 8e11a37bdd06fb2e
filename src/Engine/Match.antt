-- ===== src/Engine/Match.antt =====
-- internal/engine/engine.go: which rules an event matches, and the targets that they name.
pub mod Rules
pub mod Targets
use webhook_event_route.Prelude.{
  ℕ, Bool, true, false, not, ◌&&◌, ◌||◌, Option, none, some, List, [], ◌∷◌, ◌++◌, any, ◌==◌,
  if◌then◌else◌, Text, text_eq,
}
use webhook_event_route.Domain.{Value, Members, Conditions, none_left, next, object, end, Rule}
use webhook_event_route.Runtime.{Runtime}
use webhook_event_route.Engine.Expression.{eval_all}

-- A `map[int64]bool` that is only ever set to true: the list of its keys.
unfoldable pub is_seen : List ℕ → ℕ → Bool
is_seen seen id = any (λ k. k == id) seen

unfoldable pub from_source : Option ℕ → ℕ → Bool
from_source none source_id = true
from_source (some id) source_id = id == source_id

unfoldable pub of_type : Text → Text → Bool
unfolding text_eq
of_type rule_type event_type = text_eq rule_type [] || text_eq rule_type event_type

-- A payload that does not decode counts as an empty object.
unfoldable pub decoded : Option Value → Value
decoded none = object end
decoded (some v) = v

module _ (lib : Runtime) where
  unfoldable pub conditions_hold : Conditions → Text → Bool
  unfolding eval_all decoded
  conditions_hold none_left payload = true
  conditions_hold (next c cs) payload = eval_all lib (next c cs) (decoded (lib.unmarshal payload))

  -- `Match`
  unfoldable pub matches : Rule → ℕ → Text → Text → Bool
  unfolding conditions_hold from_source of_type
  matches r source_id event_type payload =
      if not (from_source r.source_id source_id)
      then false
      else if not (of_type r.event_type event_type)
      then false
      else conditions_hold r.condition payload

-- The loop of `resolveTargets`, and the inner loop of `SelectTargets`: ids not seen before.
unfoldable pub fresh : List ℕ → List ℕ → List ℕ
unfolding is_seen
fresh seen [] = []
fresh seen (id ∷ ids) =
    let skipped = fresh seen ids in
    let kept = id ∷ fresh (id ∷ seen) ids in if is_seen seen id then skipped else kept

unfoldable pub resolve_targets : Rule → List ℕ
unfolding fresh
resolve_targets r = elim r.target_ids [
  | [] ↦ if r.target_id == 0 then [] else r.target_id ∷ []
  | id ∷ ids ↦ fresh [] (id ∷ ids)
]

pub record RuleMatch : Type 0 where
  pub rule : Rule
  pub target_ids : List ℕ

abbrev pub matched : Rule → RuleMatch
matched r = record { rule = r; target_ids = resolve_targets r }

-- The outer loop of `SelectTargets`.
unfoldable pub select : List ℕ → List RuleMatch → List ℕ
unfolding fresh
select seen [] = []
select seen (m ∷ ms) = let new = fresh seen m.target_ids in new ++ select (new ++ seen) ms

module _ (lib : Runtime) where
  unfoldable pub match_rules : List Rule → ℕ → Text → Text → List RuleMatch
  unfolding matches resolve_targets
  match_rules [] source_id event_type payload = []
  match_rules (r ∷ rules) source_id event_type payload =
      let rest = match_rules rules source_id event_type payload in
      if not r.enabled
      then rest
      else if not (matches lib r source_id event_type payload)
      then rest
      else matched r ∷ rest

  unfoldable pub select_targets : List Rule → ℕ → Text → Text → List ℕ
  unfolding match_rules select
  select_targets rules source_id event_type payload =
      select [] (match_rules rules source_id event_type payload)
