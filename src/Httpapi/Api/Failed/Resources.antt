-- ===== src/Httpapi/Api/Failed/Resources.antt =====
-- The writes of sources, targets and rules that are answered with an error status.
use webhook_event_route.Sqlite.Conn.{Conn}
use webhook_event_route.Prelude.{Text}
use webhook_event_route.Domain.{Source, Target, Rule}
use webhook_event_route.Runtime.{Runtime}
use webhook_event_route.Config.{Config}
use webhook_event_route.Dispatcher.World.{Env}
use webhook_event_route.Sqlite.Tables.{Db}
use webhook_event_route.Sqlite.Tx.{Pool}
use webhook_event_route.Sqlite.Audit.{Host}
use webhook_event_route.Sqlite.Audit.Trail.Writes.{
  create_source-IsRecorded, update_source-IsRecorded, delete_source-IsRecorded,
  create_target-IsRecorded, update_target-IsRecorded, delete_target-IsRecorded,
  create_rule-IsRecorded, update_rule-IsRecorded, delete_rule-IsRecorded,
}
use webhook_event_route.Sqlite.Instance.{sqlite_store}
use webhook_event_route.Sqlite.Configured.{sqlite_resources}
use webhook_event_route.Httpapi.Events.{Server}
use webhook_event_route.Httpapi.Resources.Sources.{
  new_source, check_new_source, handle_create_source, check_source_change, handle_update_source,
  handle_delete_source,
}
use webhook_event_route.Httpapi.Resources.Targets.{
  new_target, check_new_target, handle_create_target, check_target_change, handle_update_target,
  handle_delete_target,
}
use webhook_event_route.Httpapi.Resources.Rules.{
  new_rule, check_new_rule, handle_create_rule, check_rule_change, handle_update_rule,
  handle_delete_rule,
}
use webhook_event_route.Httpapi.Resources.{parse_id}
use webhook_event_route.Httpapi.Api.{Decoders}
use webhook_event_route.Httpapi.Api.Failed.{
  IsQuiet, IsRecorded-Fails, outcome, after_create-IsQuiet, after_update-IsQuiet,
  after_delete-IsQuiet, checked-IsQuiet,
}

module _ (lib : Runtime) (dec : Decoders) (conn : Conn) (host : Host) (pool : Pool) (cfg : Config)
    (env : Env) (s : Server Db) where
  pub create_source-IsQuiet :
      (body : Text)
      → IsQuiet (outcome s) s (
          handle_create_source dec.source
            (sqlite_store conn)
            (sqlite_resources host pool)
            env
            s
            body)
  unfolding handle_create_source
  create_source-IsQuiet body =
      checked-IsQuiet s
        (check_new_source dec.source (sqlite_store conn) (sqlite_resources host pool) env body) _
        (λ req. after_create-IsQuiet s _ _ _ (
          IsRecorded-Fails _ _ _ _ _
            (create_source-IsRecorded host (env.now s.world.ticks) s.world.db (new_source req))))

  pub update_source-IsQuiet :
      (path_id body : Text)
      → IsQuiet (outcome s) s (
          handle_update_source dec.source
            (sqlite_store conn)
            (sqlite_resources host pool)
            env
            s
            path_id
            body)
  unfolding handle_update_source
  update_source-IsQuiet path_id body =
      checked-IsQuiet s
        (check_source_change dec.source (sqlite_store conn) (sqlite_resources host pool) env s
          path_id body)
        _
        (λ a. after_update-IsQuiet s _ _ _ (
          IsRecorded-Fails _ _ _ _ _
            (update_source-IsRecorded host (env.now s.world.ticks) s.world.db pool a)))

  pub delete_source-IsQuiet :
      (path_id : Text)
      → IsQuiet (outcome s) s (
          handle_delete_source dec.source
            (sqlite_store conn)
            (sqlite_resources host pool)
            env
            s
            path_id)
  unfolding handle_delete_source
  delete_source-IsQuiet path_id = checked-IsQuiet s (parse_id path_id) _ (λ id.
      after_delete-IsQuiet Source s _ _ (
        IsRecorded-Fails _ _ _ _ _
          (delete_source-IsRecorded host (env.now s.world.ticks) s.world.db pool id)))

  pub create_target-IsQuiet :
      (body : Text)
      → IsQuiet (outcome s) s (
          handle_create_target dec.target
            (sqlite_store conn)
            (sqlite_resources host pool)
            env
            s
            body)
  unfolding handle_create_target
  create_target-IsQuiet body =
      checked-IsQuiet s
        (check_new_target dec.target (sqlite_store conn) (sqlite_resources host pool) env body) _
        (λ req. after_create-IsQuiet s _ _ _ (
          IsRecorded-Fails _ _ _ _ _
            (create_target-IsRecorded host (env.now s.world.ticks) s.world.db (new_target req))))

  pub update_target-IsQuiet :
      (path_id body : Text)
      → IsQuiet (outcome s) s (
          handle_update_target dec.target
            (sqlite_store conn)
            (sqlite_resources host pool)
            env
            s
            path_id
            body)
  unfolding handle_update_target
  update_target-IsQuiet path_id body =
      checked-IsQuiet s
        (check_target_change dec.target (sqlite_store conn) (sqlite_resources host pool) env s
          path_id body)
        _
        (λ a. after_update-IsQuiet s _ _ _ (
          IsRecorded-Fails _ _ _ _ _
            (update_target-IsRecorded host (env.now s.world.ticks) s.world.db pool a)))

  pub delete_target-IsQuiet :
      (path_id : Text)
      → IsQuiet (outcome s) s (
          handle_delete_target dec.target
            (sqlite_store conn)
            (sqlite_resources host pool)
            env
            s
            path_id)
  unfolding handle_delete_target
  delete_target-IsQuiet path_id = checked-IsQuiet s (parse_id path_id) _ (λ id.
      after_delete-IsQuiet Target s _ _ (
        IsRecorded-Fails _ _ _ _ _
          (delete_target-IsRecorded host (env.now s.world.ticks) s.world.db pool id)))

  pub create_rule-IsQuiet :
      (body : Text)
      → IsQuiet (outcome s) s (handle_create_rule dec.rule (sqlite_resources host pool) env s body)
  unfolding handle_create_rule
  create_rule-IsQuiet body =
      checked-IsQuiet s (check_new_rule dec.rule (sqlite_resources host pool) env body) _ (λ req.
        after_create-IsQuiet s _ _ _ (
          IsRecorded-Fails _ _ _ _ _
            (create_rule-IsRecorded host (env.now s.world.ticks) s.world.db (new_rule req))))

  pub update_rule-IsQuiet :
      (path_id body : Text)
      → IsQuiet
          (outcome s)
          s
          (handle_update_rule dec.rule (sqlite_resources host pool) env s path_id body)
  unfolding handle_update_rule
  update_rule-IsQuiet path_id body =
      checked-IsQuiet s (check_rule_change dec.rule (sqlite_resources host pool) env s path_id body)
        _
        (λ a. after_update-IsQuiet s _ _ _ (
          IsRecorded-Fails _ _ _ _ _
            (update_rule-IsRecorded host (env.now s.world.ticks) s.world.db pool a)))

  pub delete_rule-IsQuiet :
      (path_id : Text)
      → IsQuiet
          (outcome s)
          s
          (handle_delete_rule dec.rule (sqlite_resources host pool) env s path_id)
  unfolding handle_delete_rule
  delete_rule-IsQuiet path_id = checked-IsQuiet s (parse_id path_id) _ (λ id.
      after_delete-IsQuiet Rule s _ _ (
        IsRecorded-Fails _ _ _ _ _
          (delete_rule-IsRecorded host (env.now s.world.ticks) s.world.db pool id)))
