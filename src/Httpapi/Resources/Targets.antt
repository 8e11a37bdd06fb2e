-- ===== src/Httpapi/Resources/Targets.antt =====
-- internal/httpapi/targets.go
use webhook_event_route.Prelude.{Bool, true, not, ◌||◌, Option, [], Text, codes, text_eq}
use webhook_event_route.Domain.{Target}
use webhook_event_route.Errs.{Code, new}
use webhook_event_route.Store.{Store, at_id, Assigned}
use webhook_event_route.Store.Resources.{Resources}
use webhook_event_route.Dispatcher.World.{Env}
use webhook_event_route.Httpapi.Events.{Check, pass, refuse, require, present, Server, ◌>>=◌, ◌>>◌}
use webhook_event_route.Httpapi.Resources.{
  Outcome, failed, parse_id, found, or_else, or_text, after_create, after_update, after_delete,
  answer_list, answer_get,
}

-- A member that is absent, or null, is `none`.
pub record TargetRequest : Type 0 where
  pub name : Text
  pub url : Text
  pub enabled : Option Bool

-- The target that is stored.
abbrev pub new_target : TargetRequest → Target
new_target req = record {
  id = 0;
  name = req.name;
  url = req.url;
  enabled = or_else req.enabled true;
  created_at = 0;
  updated_at = 0;
}

-- The members that the request gives replace those of the target.
abbrev pub merge_target : Target → TargetRequest → Target
merge_target existing req = record existing {
  name = or_text req.name existing.name;
  url = or_text req.url existing.url;
  enabled = or_else req.enabled existing.enabled;
}

abbrev pub assign_target : Target → Assigned → Target
assign_target t a = record t { id = a.id; created_at = a.at; updated_at = a.at }

module _ {S : Type 0} (decode : Text → Option TargetRequest) (st : Store S) (rs : Resources S)
    (env : Env) where
  unfoldable pub check_new_target : Text → Check TargetRequest
  unfolding text_eq new
  check_new_target body = do
    req ← present (decode body) Code.payload_invalid (codes "invalid body")
    require (not (text_eq req.name [] || text_eq req.url [])) Code.invalid_input
        (codes "name and url are required")
    pass req

  unfoldable pub handle_create_target : Server S → Text → Server S × Outcome Target
  unfolding check_new_target new
  handle_create_target s body = elim (check_new_target body) [
    | refuse e ↦ (s, failed e)
    | pass req ↦
        after_create s (assign_target (new_target req)) (codes "failed to create target")
          (rs.create_target (env.now s.world.ticks) (new_target req) s.world.db)
  ]

  unfoldable pub handle_list_targets : Server S → Server S × Outcome Target
  unfolding new
  handle_list_targets s = answer_list s (rs.list_targets s.world.db)

  unfoldable pub read_target : Server S → Text → Check Target
  unfolding parse_id new
  read_target s path_id = do
    id ← parse_id path_id
    found (codes "target") (at_id st.get_target id s.world.db)

  unfoldable pub handle_get_target : Server S → Text → Server S × Outcome Target
  unfolding read_target
  handle_get_target s path_id = answer_get s (read_target s path_id)

  unfoldable pub check_target_change : Server S → Text → Text → Check Target
  unfolding read_target new
  check_target_change s path_id body = do
    existing ← read_target s path_id
    req ← present (decode body) Code.payload_invalid (codes "invalid body")
    pass (merge_target existing req)

  unfoldable pub handle_update_target : Server S → Text → Text → Server S × Outcome Target
  unfolding check_target_change new
  handle_update_target s path_id body = elim (check_target_change s path_id body) [
    | refuse e ↦ (s, failed e)
    | pass t ↦
        after_update s (λ at. record t { updated_at = at }) (codes "failed to update target")
          (rs.update_target (env.now s.world.ticks) t s.world.db)
  ]

  unfoldable pub handle_delete_target : Server S → Text → Server S × Outcome Target
  unfolding parse_id new
  handle_delete_target s path_id = elim (parse_id path_id) [
    | refuse e ↦ (s, failed e)
    | pass id ↦
        after_delete s (codes "failed to delete target")
          (rs.delete_target (env.now s.world.ticks) id s.world.db)
  ]
