-- ===== src/Httpapi/Resources/Rules.antt =====
-- internal/httpapi/rules.go
use webhook_event_route.Prelude.{
  ℕ, ℤ, Bool, true, false, not, ◌&&◌, ◌||◌, Option, none, some, List, [], ◌∷◌, ◌==◌, if◌then◌else◌,
  Text, codes, text_eq,
}
use webhook_event_route.Domain.{Rule, Value, Condition, Conditions, condition, none_left, next}
use webhook_event_route.Errs.{Code, new}
use webhook_event_route.Store.{at_id, Assigned}
use webhook_event_route.Store.Resources.{Resources}
use webhook_event_route.Dispatcher.World.{Env}
use webhook_event_route.Httpapi.Events.{Check, pass, refuse, require, present, Server, ◌>>=◌, ◌>>◌}
use webhook_event_route.Httpapi.Resources.{
  Outcome, failed, parse_id, found, or_else, or_text, after_create, after_update, after_delete,
  answer_list, answer_get,
}

-- A list of children that is nil is empty.
mutual
  pub data ConditionRequest : Type 0 where
    asked : (path op : Text) (value : Value) (children : ConditionRequests) → ConditionRequest

  pub data ConditionRequests : Type 0 where
    no_more : ConditionRequests
    and_more : ConditionRequest → ConditionRequests → ConditionRequests

-- An absent member is `none`, or the zero of its type.
pub record RuleRequest : Type 0 where
  pub name : Text
  pub source_id : Option ℕ
  pub event_type : Text
  pub condition : Option ConditionRequests
  pub target_id : ℕ
  pub target_ids : List ℕ
  pub priority : ℤ
  pub enabled : Option Bool

unfoldable mutual
  pub to_condition : ConditionRequest → Condition
  to_condition (asked path op value children) = condition op path value (to_conditions children)

  pub to_conditions : ConditionRequests → Conditions
  to_conditions no_more = none_left
  to_conditions (and_more c cs) = next (to_condition c) (to_conditions cs)

unfoldable pub resolve_rule_target_ids : ℕ → List ℕ → List ℕ
resolve_rule_target_ids target_id (t ∷ ts) = t ∷ ts
resolve_rule_target_ids target_id [] = if target_id == 0 then [] else target_id ∷ []

first_or_zero : List ℕ → ℕ
first_or_zero [] = 0
first_or_zero (t ∷ ts) = t

unfoldable pub primary_target_id : ℕ → List ℕ → ℕ
unfolding first_or_zero
primary_target_id target_id target_ids =
    if target_id == 0 then first_or_zero target_ids else target_id

abbrev given_conditions : Option ConditionRequests → Conditions → Conditions
given_conditions none old = old
given_conditions (some cs) old = to_conditions cs

-- The rule that is stored.
unfoldable pub new_rule : RuleRequest → Rule
unfolding resolve_rule_target_ids primary_target_id given_conditions
new_rule req = record {
  id = 0;
  name = req.name;
  source_id = req.source_id;
  event_type = req.event_type;
  condition = given_conditions req.condition none_left;
  target_id = primary_target_id req.target_id req.target_ids;
  target_ids = resolve_rule_target_ids req.target_id req.target_ids;
  priority = req.priority;
  enabled = or_else req.enabled true;
  created_at = 0;
  updated_at = 0;
}

abbrev or_source : Option ℕ → Option ℕ → Option ℕ
or_source none old = old
or_source (some s) old = some s

abbrev or_targets : List ℕ → ℕ → List ℕ → List ℕ
or_targets (t ∷ ts) target_id old = t ∷ ts
or_targets [] target_id old = if target_id == 0 then old else target_id ∷ []

-- The members that the request gives replace those of the rule; the priority is replaced in any case.
unfoldable pub merge_rule : Rule → RuleRequest → Rule
unfolding given_conditions
merge_rule existing req = record existing {
  name = or_text req.name existing.name;
  source_id = or_source req.source_id existing.source_id;
  event_type = or_text req.event_type existing.event_type;
  condition = given_conditions req.condition existing.condition;
  target_id = if req.target_id == 0 then existing.target_id else req.target_id;
  target_ids = or_targets req.target_ids req.target_id existing.target_ids;
  priority = req.priority;
  enabled = or_else req.enabled existing.enabled;
}

abbrev pub assign_rule : Rule → Assigned → Rule
assign_rule r a = record r { id = a.id; created_at = a.at; updated_at = a.at }

abbrev pub names_target : RuleRequest → Bool
names_target req = not (req.target_id == 0) || some_target req.target_ids
  where
    some_target : List ℕ → Bool
    some_target [] = false
    some_target (t ∷ ts) = true

module _ {S : Type 0} (decode : Text → Option RuleRequest) (rs : Resources S) (env : Env) where
  unfoldable pub check_new_rule : Text → Check RuleRequest
  unfolding text_eq new
  check_new_rule body = do
    req ← present (decode body) Code.payload_invalid (codes "invalid body")
    require (not (text_eq req.name []) && names_target req) Code.invalid_input
        (codes "name and target_id/target_ids are required")
    pass req

  unfoldable pub handle_create_rule : Server S → Text → Server S × Outcome Rule
  unfolding check_new_rule new_rule new
  handle_create_rule s body = elim (check_new_rule body) [
    | refuse e ↦ (s, failed e)
    | pass req ↦
        after_create s (assign_rule (new_rule req)) (codes "failed to create rule")
          (rs.create_rule (env.now s.world.ticks) (new_rule req) s.world.db)
  ]

  unfoldable pub handle_list_rules : Server S → Server S × Outcome Rule
  unfolding new
  handle_list_rules s = answer_list s (rs.list_rules s.world.db)

  unfoldable pub read_rule : Server S → Text → Check Rule
  unfolding parse_id new
  read_rule s path_id = do
    id ← parse_id path_id
    found (codes "rule") (at_id rs.get_rule id s.world.db)

  unfoldable pub handle_get_rule : Server S → Text → Server S × Outcome Rule
  unfolding read_rule
  handle_get_rule s path_id = answer_get s (read_rule s path_id)

  unfoldable pub check_rule_change : Server S → Text → Text → Check Rule
  unfolding read_rule merge_rule new
  check_rule_change s path_id body = do
    existing ← read_rule s path_id
    req ← present (decode body) Code.payload_invalid (codes "invalid body")
    pass (merge_rule existing req)

  unfoldable pub handle_update_rule : Server S → Text → Text → Server S × Outcome Rule
  unfolding check_rule_change new
  handle_update_rule s path_id body = elim (check_rule_change s path_id body) [
    | refuse e ↦ (s, failed e)
    | pass r ↦
        after_update s (λ at. record r { updated_at = at }) (codes "failed to update rule")
          (rs.update_rule (env.now s.world.ticks) r s.world.db)
  ]

  unfoldable pub handle_delete_rule : Server S → Text → Server S × Outcome Rule
  unfolding parse_id new
  handle_delete_rule s path_id = elim (parse_id path_id) [
    | refuse e ↦ (s, failed e)
    | pass id ↦
        after_delete s (codes "failed to delete rule")
          (rs.delete_rule (env.now s.world.ticks) id s.world.db)
  ]
