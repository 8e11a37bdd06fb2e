-- ===== src/Httpapi/Resources/Sources.antt =====
-- internal/httpapi/sources.go
use webhook_event_route.Prelude.{Bool, true, not, ◌||◌, Option, List, [], Text, codes, text_eq}
use webhook_event_route.Domain.{Source}
use webhook_event_route.Errs.{Code, new}
use webhook_event_route.Store.{Store, at_id, Assigned}
use webhook_event_route.Store.Resources.{Resources}
use webhook_event_route.Dispatcher.World.{Env}
use webhook_event_route.Httpapi.Events.{Check, pass, refuse, require, present, Server, ◌>>=◌, ◌>>◌}
use webhook_event_route.Httpapi.Resources.{
  Outcome, failed, parse_id, found, or_else, or_text, after_create, after_update, after_delete,
  answer_list, answer_get,
}

-- A member that is absent, or null, is `none`.
pub record SourceRequest : Type 0 where
  pub name : Text
  pub secret : Text
  pub enabled : Option Bool
  pub allowed_types : Option (List Text)

-- The source that is stored; a list of types that is nil is empty.
abbrev pub new_source : SourceRequest → Source
new_source req = record {
  id = 0;
  name = req.name;
  secret = req.secret;
  enabled = or_else req.enabled true;
  allowed_types = or_else req.allowed_types [];
  created_at = 0;
  updated_at = 0;
}

-- The members that the request gives replace those of the source.
abbrev pub merge_source : Source → SourceRequest → Source
merge_source existing req = record existing {
  name = or_text req.name existing.name;
  secret = or_text req.secret existing.secret;
  enabled = or_else req.enabled existing.enabled;
  allowed_types = or_else req.allowed_types existing.allowed_types;
}

abbrev pub assign_source : Source → Assigned → Source
assign_source src a = record src { id = a.id; created_at = a.at; updated_at = a.at }

module _ {S : Type 0} (decode : Text → Option SourceRequest) (st : Store S) (rs : Resources S)
    (env : Env) where
  unfoldable pub check_new_source : Text → Check SourceRequest
  unfolding text_eq new
  check_new_source body = do
    req ← present (decode body) Code.payload_invalid (codes "invalid body")
    require (not (text_eq req.name [] || text_eq req.secret [])) Code.invalid_input
        (codes "name and secret are required")
    pass req

  unfoldable pub handle_create_source : Server S → Text → Server S × Outcome Source
  unfolding check_new_source new
  handle_create_source s body = elim (check_new_source body) [
    | refuse e ↦ (s, failed e)
    | pass req ↦
        after_create s (assign_source (new_source req)) (codes "failed to create source")
          (rs.create_source (env.now s.world.ticks) (new_source req) s.world.db)
  ]

  unfoldable pub handle_list_sources : Server S → Server S × Outcome Source
  unfolding new
  handle_list_sources s = answer_list s (rs.list_sources s.world.db)

  unfoldable pub read_source : Server S → Text → Check Source
  unfolding parse_id new
  read_source s path_id = do
    id ← parse_id path_id
    found (codes "source") (at_id st.get_source id s.world.db)

  unfoldable pub handle_get_source : Server S → Text → Server S × Outcome Source
  unfolding read_source
  handle_get_source s path_id = answer_get s (read_source s path_id)

  unfoldable pub check_source_change : Server S → Text → Text → Check Source
  unfolding read_source new
  check_source_change s path_id body = do
    existing ← read_source s path_id
    req ← present (decode body) Code.payload_invalid (codes "invalid body")
    pass (merge_source existing req)

  unfoldable pub handle_update_source : Server S → Text → Text → Server S × Outcome Source
  unfolding check_source_change new
  handle_update_source s path_id body = elim (check_source_change s path_id body) [
    | refuse e ↦ (s, failed e)
    | pass src ↦
        after_update s (λ at. record src { updated_at = at }) (codes "failed to update source")
          (rs.update_source (env.now s.world.ticks) src s.world.db)
  ]

  unfoldable pub handle_delete_source : Server S → Text → Server S × Outcome Source
  unfolding parse_id new
  handle_delete_source s path_id = elim (parse_id path_id) [
    | refuse e ↦ (s, failed e)
    | pass id ↦
        after_delete s (codes "failed to delete source")
          (rs.delete_source (env.now s.world.ticks) id s.world.db)
  ]
