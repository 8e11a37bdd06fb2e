-- ===== src/Tests/Engine.antt =====
-- The rule engine on small inputs.
use webhook_event_route.Prelude.{
  Distinct, ◌≡◌, refl, ◌↔◌, ◌⊎◌, ◌≢◌, ℕ, true, false, [], ◌∷◌, codes, In,
}
use webhook_event_route.Domain.{string, Rule}
use webhook_event_route.Engine.Path.{parse_path, lookup}
use webhook_event_route.Engine.Path.Reach.{Reaches, lookup_iff_Reaches}
use webhook_event_route.Engine.Expression.{eval, operator}
use webhook_event_route.Engine.Expression.Meaning.{Holds, eval_iff_Holds}
use webhook_event_route.Engine.Expression.Order.{eval-order_free, with_range}
use webhook_event_route.Engine.Match.{matches, select_targets, resolve_targets}
use webhook_event_route.Engine.Match.Rules.{Applies, matches_iff_Applies, select_targets_lem}
use webhook_event_route.Engine.Match.Targets.{resolve_targets_lem}
use webhook_event_route.Tests.Samples.{
  doc, plain, plain-VisitsEntries, swapped, swapped-VisitsEntries, a_is_x, any_is_x, any_exists,
  rule,
}

eval_a : eval plain a_is_x doc ≡ true
unfolding eval
eval_a = refl

-- `exists` reads the first value that the path reaches, so the order of a map shows.
eval_exists_order :
    (eval (with_range plain (λ m. m)) any_exists doc ≡ true)
    × (eval (with_range plain swapped) any_exists doc ≡ false)
unfolding eval
eval_exists_order = (refl, refl)

lookup_iff_Reaches_example :
    In (string (codes "x")) (lookup plain (codes "a") doc)
    ↔ Reaches (parse_path (codes "a")) doc (string (codes "x"))
lookup_iff_Reaches_example =
    lookup_iff_Reaches plain plain-VisitsEntries (codes "a") doc (string (codes "x"))

eval_iff_Holds_example : (eval plain a_is_x doc ≡ true) ↔ Holds plain a_is_x doc
eval_iff_Holds_example = eval_iff_Holds plain plain-VisitsEntries a_is_x doc

eval-order_free_example :
    eval (with_range plain (λ m. m)) any_is_x doc ≡ eval (with_range plain swapped) any_is_x doc
unfolding operator
eval-order_free_example =
    eval-order_free plain (λ m. m) swapped any_is_x doc plain-VisitsEntries swapped-VisitsEntries tt

matches_iff_Applies_example :
    (matches plain rule 1 (codes "push") (codes "{}") ≡ true)
    ↔ Applies plain rule 1 (codes "push") (codes "{}")
matches_iff_Applies_example =
    matches_iff_Applies plain plain-VisitsEntries rule 1 (codes "push") (codes "{}")

select_rule : select_targets plain (rule ∷ rule ∷ []) 1 (codes "push") (codes "{}") ≡ 5 ∷ 6 ∷ []
unfolding select_targets
select_rule = refl

resolve_targets_example :
    Distinct (resolve_targets rule)
    × ((x : ℕ)
        → In x (resolve_targets rule) ↔ (
            In x rule.target_ids
            ⊎ ((rule.target_ids ≡ []) × (x ≡ rule.target_id) × (rule.target_id ≢ 0))))
resolve_targets_example = resolve_targets_lem rule

select_targets_example :
    Distinct (select_targets plain (rule ∷ rule ∷ []) 1 (codes "push") (codes "{}"))
    × ((x : ℕ)
        → In x (select_targets plain (rule ∷ rule ∷ []) 1 (codes "push") (codes "{}")) ↔ (
            (r : Rule) × In r (rule ∷ rule ∷ [])
            × (r.enabled ≡ true)
            × Applies plain r 1 (codes "push") (codes "{}")
            × In x (resolve_targets r)))
select_targets_example =
    select_targets_lem plain 1 (codes "push") (codes "{}") plain-VisitsEntries (rule ∷ rule ∷ [])
