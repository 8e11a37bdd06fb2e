-- ===== src/Httpapi/Api.antt =====
-- internal/httpapi/server.go: the routes of `NewServer`. The multiplexer of net/http picks the handler by
-- the method and the path; a call is one of its choices with the parts of the request that it reads.
pub mod Kept
pub mod Status
pub mod Failed
pub mod Readback
use webhook_event_route.Prelude.{ℕ, Option, Text, codes}
use webhook_event_route.Domain.{Source, Target, Rule, Delivery, ChangeLog}
use webhook_event_route.Runtime.{Runtime}
use webhook_event_route.Config.{Config}
use webhook_event_route.Store.{Store}
use webhook_event_route.Store.Resources.{Resources}
use webhook_event_route.Dispatcher.World.{Env}
use webhook_event_route.Httpapi.Events.{Codec, Answer, Check, Server, handle_create_event}
use webhook_event_route.Httpapi.Resources.{Outcome}
use webhook_event_route.Httpapi.Resources.Sources.{
  SourceRequest, handle_create_source, handle_list_sources, handle_get_source, handle_update_source,
  handle_delete_source,
}
use webhook_event_route.Httpapi.Resources.Targets.{
  TargetRequest, handle_create_target, handle_list_targets, handle_get_target, handle_update_target,
  handle_delete_target,
}
use webhook_event_route.Httpapi.Resources.Rules.{
  RuleRequest, handle_create_rule, handle_list_rules, handle_get_rule, handle_update_rule,
  handle_delete_rule,
}
use webhook_event_route.Httpapi.Queries.{
  EventDetail, Page, handle_get_event, handle_list_deliveries, handle_list_audit,
  handle_retry_delivery, handle_metrics,
}

-- encoding/json on the bodies of the requests, and strconv.FormatInt.
pub record Decoders : Type 0 where
  pub event : Codec
  pub source : Text → Option SourceRequest
  pub target : Text → Option TargetRequest
  pub rule : Text → Option RuleRequest
  pub format_int : ℕ → Text

pub data Call : Type 0 where
  health : Call
  post_event : (read : Option Text) (signature : Text) → Call
  get_event : (path_id : Text) → Call
  list_deliveries : (event_id status page limit : Text) → Call
  post_source : (body : Text) → Call
  list_sources : Call
  get_source : (path_id : Text) → Call
  put_source : (path_id body : Text) → Call
  delete_source : (path_id : Text) → Call
  post_rule : (body : Text) → Call
  list_rules : Call
  get_rule : (path_id : Text) → Call
  put_rule : (path_id body : Text) → Call
  delete_rule : (path_id : Text) → Call
  post_target : (body : Text) → Call
  list_targets : Call
  get_target : (path_id : Text) → Call
  put_target : (path_id body : Text) → Call
  delete_target : (path_id : Text) → Call
  retry_delivery : (path_id : Text) → Call
  list_audit : (entity_type entity_id page limit : Text) → Call
  metrics_page : Call

pub data Response : Type 0 where
  answer : Answer → Response
  event_detail : Check EventDetail → Response
  deliveries : Check (Page Delivery) → Response
  of_source : Outcome Source → Response
  of_rule : Outcome Rule → Response
  of_target : Outcome Target → Response
  retried : Check Delivery → Response
  audit : Check (Page ChangeLog) → Response
  written : Text → Response

abbrev pub answering : {S A : Type 0} → (A → Response) → Server S × A → Server S × Response
answering f (s, a) = (s, f a)

module _ {S : Type 0} (lib : Runtime) (dec : Decoders) (st : Store S) (rs : Resources S)
    (cfg : Config) (env : Env) where
  unfoldable pub serve : Server S → Call → Server S × Response
  unfolding handle_create_event handle_get_event handle_list_deliveries handle_create_source
      handle_list_sources handle_get_source handle_update_source handle_delete_source
      handle_create_rule handle_list_rules handle_get_rule handle_update_rule handle_delete_rule
      handle_create_target handle_list_targets handle_get_target handle_update_target
      handle_delete_target handle_retry_delivery handle_list_audit handle_metrics
  serve s health = (s, written (codes "{\"status\":\"ok\"}\n"))
  serve s (post_event read signature) =
      answering answer (handle_create_event lib dec.event st cfg env s read signature)
  serve s (get_event path_id) = (s, event_detail (handle_get_event st rs s.world.db path_id))
  serve s (list_deliveries event_id status page limit) =
      (s, deliveries (handle_list_deliveries st rs s.world.db event_id status page limit))
  serve s (post_source body) =
      answering of_source (handle_create_source dec.source st rs env s body)
  serve s list_sources = answering of_source (handle_list_sources dec.source st rs env s)
  serve s (get_source path_id) =
      answering of_source (handle_get_source dec.source st rs env s path_id)
  serve s (put_source path_id body) =
      answering of_source (handle_update_source dec.source st rs env s path_id body)
  serve s (delete_source path_id) =
      answering of_source (handle_delete_source dec.source st rs env s path_id)
  serve s (post_rule body) = answering of_rule (handle_create_rule dec.rule rs env s body)
  serve s list_rules = answering of_rule (handle_list_rules dec.rule rs env s)
  serve s (get_rule path_id) = answering of_rule (handle_get_rule dec.rule rs env s path_id)
  serve s (put_rule path_id body) =
      answering of_rule (handle_update_rule dec.rule rs env s path_id body)
  serve s (delete_rule path_id) = answering of_rule (handle_delete_rule dec.rule rs env s path_id)
  serve s (post_target body) =
      answering of_target (handle_create_target dec.target st rs env s body)
  serve s list_targets = answering of_target (handle_list_targets dec.target st rs env s)
  serve s (get_target path_id) =
      answering of_target (handle_get_target dec.target st rs env s path_id)
  serve s (put_target path_id body) =
      answering of_target (handle_update_target dec.target st rs env s path_id body)
  serve s (delete_target path_id) =
      answering of_target (handle_delete_target dec.target st rs env s path_id)
  serve s (retry_delivery path_id) = answering retried (handle_retry_delivery st cfg env s path_id)
  serve s (list_audit entity_type entity_id page limit) =
      (s, audit (handle_list_audit st rs s.world.db entity_type entity_id page limit))
  serve s metrics_page = (s, written (handle_metrics dec.format_int s.metrics))
