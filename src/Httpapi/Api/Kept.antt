-- ===== src/Httpapi/Api/Kept.antt =====
-- What the operations on the traffic and the writes of the configuration keep, each call of the interface
-- keeps.
use webhook_event_route.Prelude.{ℕ, ℤ, pos, negsuc, List, inl, inr, Text}
use webhook_event_route.Domain.{Source, Target, Rule}
use webhook_event_route.Runtime.{Runtime}
use webhook_event_route.Config.{Config}
use webhook_event_route.Store.{Result, ok, err, Assigned, Store}
use webhook_event_route.Store.Resources.{Resources}
use webhook_event_route.Store.Kept.{IsConfigKept}
use webhook_event_route.Dispatcher.Operated.{IsOperated}
use webhook_event_route.Dispatcher.World.{Env, World}
use webhook_event_route.Httpapi.Events.{Server, Check, pass, refuse}
use webhook_event_route.Httpapi.Events.Effects.{Check-cases}
use webhook_event_route.Httpapi.Events.Kept.{handle_kept}
use webhook_event_route.Httpapi.Resources.{
  after_create, after_update, after_delete, answer_list, answer_get, parse_id,
}
use webhook_event_route.Httpapi.Resources.Sources.{
  new_source, check_new_source, read_source, check_source_change, handle_create_source,
  handle_update_source, handle_delete_source,
}
use webhook_event_route.Httpapi.Resources.Targets.{
  new_target, check_new_target, read_target, check_target_change, handle_create_target,
  handle_update_target, handle_delete_target,
}
use webhook_event_route.Httpapi.Resources.Rules.{
  new_rule, check_new_rule, read_rule, check_rule_change, handle_create_rule, handle_update_rule,
  handle_delete_rule,
}
use webhook_event_route.Httpapi.Queries.{requeue_at, handle_retry_delivery}
use webhook_event_route.Httpapi.Api.{Decoders, Call, serve}

after_delete_kept :
    {S : Type 0} (P : S → Type 0) (A : Type 0) (s : Server S) (msg : Text)
    (o : S × Result (Unit {0}))
    → P o.0
    → P (after_delete {A = A} s msg o).0.world.db
after_delete_kept P A s msg (db, ok x) p = p
after_delete_kept P A s msg (db, err e) p = p

module _ {S : Type 0} (P : S → Type 0) {A : Type 0} (s : Server S) where
  after_create_kept :
      (assign : Assigned → A) (msg : Text) (o : S × Result Assigned)
      → P o.0
      → P (after_create s assign msg o).0.world.db
  after_create_kept assign msg (db, ok x) p = p
  after_create_kept assign msg (db, err e) p = p

  after_update_kept :
      (assign : ℕ → A) (msg : Text) (o : S × Result ℕ)
      → P o.0
      → P (after_update s assign msg o).0.world.db
  after_update_kept assign msg (db, ok x) p = p
  after_update_kept assign msg (db, err e) p = p

  answer_list_kept : (r : Result (List A)) → P s.world.db → P (answer_list s r).0.world.db
  answer_list_kept (ok as') p = p
  answer_list_kept (err e) p = p

  answer_get_kept : (c : Check A) → P s.world.db → P (answer_get s c).0.world.db
  answer_get_kept (pass a) p = p
  answer_get_kept (refuse e) p = p

module _ {S : Type 0} (lib : Runtime) (dec : Decoders) (st : Store S) (rs : Resources S)
    (cfg : Config) (env : Env) (P : S → Type 0) (k : IsOperated st cfg env P)
    (c : IsConfigKept rs P) where
  handle_create_source_kept :
      (s : Server S) (body : Text)
      → P s.world.db
      → P (handle_create_source dec.source st rs env s body).0.world.db
  unfolding handle_create_source
  handle_create_source_kept s body p =
      elim (Check-cases (check_new_source dec.source st rs env body)) [
        | inr (e, q) ↦ rw (q, handle_create_source) p
        | inl (req, q) ↦
            rw (q, handle_create_source)
              (after_create_kept P s _ _
                (rs.create_source (env.now s.world.ticks) (new_source req) s.world.db)
                (c.by_create_source _ _ _ p))
      ]

  handle_update_source_kept :
      (s : Server S) (path_id body : Text)
      → P s.world.db
      → P (handle_update_source dec.source st rs env s path_id body).0.world.db
  unfolding handle_update_source
  handle_update_source_kept s path_id body p =
      elim (Check-cases (check_source_change dec.source st rs env s path_id body)) [
        | inr (e, q) ↦ rw (q, handle_update_source) p
        | inl (r, q) ↦
            rw (q, handle_update_source)
              (after_update_kept P s _ _ (rs.update_source (env.now s.world.ticks) r s.world.db)
                (c.by_update_source _ _ _ p))
      ]

  handle_delete_source_kept :
      (s : Server S) (path_id : Text)
      → P s.world.db
      → P (handle_delete_source dec.source st rs env s path_id).0.world.db
  unfolding handle_delete_source
  handle_delete_source_kept s path_id p = elim (Check-cases (parse_id path_id)) [
    | inr (e, q) ↦ rw (q, handle_delete_source) p
    | inl (id, q) ↦
        rw (q, handle_delete_source)
          (after_delete_kept P Source s _ (rs.delete_source (env.now s.world.ticks) id s.world.db)
            (c.by_delete_source _ _ _ p))
  ]

  handle_create_target_kept :
      (s : Server S) (body : Text)
      → P s.world.db
      → P (handle_create_target dec.target st rs env s body).0.world.db
  unfolding handle_create_target
  handle_create_target_kept s body p =
      elim (Check-cases (check_new_target dec.target st rs env body)) [
        | inr (e, q) ↦ rw (q, handle_create_target) p
        | inl (req, q) ↦
            rw (q, handle_create_target)
              (after_create_kept P s _ _
                (rs.create_target (env.now s.world.ticks) (new_target req) s.world.db)
                (c.by_create_target _ _ _ p))
      ]

  handle_update_target_kept :
      (s : Server S) (path_id body : Text)
      → P s.world.db
      → P (handle_update_target dec.target st rs env s path_id body).0.world.db
  unfolding handle_update_target
  handle_update_target_kept s path_id body p =
      elim (Check-cases (check_target_change dec.target st rs env s path_id body)) [
        | inr (e, q) ↦ rw (q, handle_update_target) p
        | inl (r, q) ↦
            rw (q, handle_update_target)
              (after_update_kept P s _ _ (rs.update_target (env.now s.world.ticks) r s.world.db)
                (c.by_update_target _ _ _ p))
      ]

  handle_delete_target_kept :
      (s : Server S) (path_id : Text)
      → P s.world.db
      → P (handle_delete_target dec.target st rs env s path_id).0.world.db
  unfolding handle_delete_target
  handle_delete_target_kept s path_id p = elim (Check-cases (parse_id path_id)) [
    | inr (e, q) ↦ rw (q, handle_delete_target) p
    | inl (id, q) ↦
        rw (q, handle_delete_target)
          (after_delete_kept P Target s _ (rs.delete_target (env.now s.world.ticks) id s.world.db)
            (c.by_delete_target _ _ _ p))
  ]

  handle_create_rule_kept :
      (s : Server S) (body : Text)
      → P s.world.db
      → P (handle_create_rule dec.rule rs env s body).0.world.db
  unfolding handle_create_rule
  handle_create_rule_kept s body p = elim (Check-cases (check_new_rule dec.rule rs env body)) [
    | inr (e, q) ↦ rw (q, handle_create_rule) p
    | inl (req, q) ↦
        rw (q, handle_create_rule)
          (after_create_kept P s _ _
            (rs.create_rule (env.now s.world.ticks) (new_rule req) s.world.db)
            (c.by_create_rule _ _ _ p))
  ]

  handle_update_rule_kept :
      (s : Server S) (path_id body : Text)
      → P s.world.db
      → P (handle_update_rule dec.rule rs env s path_id body).0.world.db
  unfolding handle_update_rule
  handle_update_rule_kept s path_id body p =
      elim (Check-cases (check_rule_change dec.rule rs env s path_id body)) [
        | inr (e, q) ↦ rw (q, handle_update_rule) p
        | inl (r, q) ↦
            rw (q, handle_update_rule)
              (after_update_kept P s _ _ (rs.update_rule (env.now s.world.ticks) r s.world.db)
                (c.by_update_rule _ _ _ p))
      ]

  handle_delete_rule_kept :
      (s : Server S) (path_id : Text)
      → P s.world.db
      → P (handle_delete_rule dec.rule rs env s path_id).0.world.db
  unfolding handle_delete_rule
  handle_delete_rule_kept s path_id p = elim (Check-cases (parse_id path_id)) [
    | inr (e, q) ↦ rw (q, handle_delete_rule) p
    | inl (id, q) ↦
        rw (q, handle_delete_rule)
          (after_delete_kept P Rule s _ (rs.delete_rule (env.now s.world.ticks) id s.world.db)
            (c.by_delete_rule _ _ _ p))
  ]

  requeue_at_kept : (w : World S) (id : ℤ) → P w.db → P (requeue_at st cfg env w id).0.db
  requeue_at_kept w (pos id) p = k.by_requeue w id p
  requeue_at_kept w (negsuc id) p = p

  handle_retry_kept :
      (s : Server S) (path_id : Text)
      → P s.world.db
      → P (handle_retry_delivery st cfg env s path_id).0.world.db
  unfolding handle_retry_delivery
  handle_retry_kept s path_id p = elim (Check-cases (parse_id path_id)) [
    | inr (e, q) ↦ rw (q, handle_retry_delivery) p
    | inl (id, q) ↦ rw (q, handle_retry_delivery) (requeue_at_kept s.world id p)
  ]

  pub serve_kept :
      (s : Server S) (call : Call)
      → P s.world.db
      → P (serve lib dec st rs cfg env s call).0.world.db
  unfolding serve
  serve_kept s Call.health p = p
  serve_kept s (Call.post_event read signature) p =
      handle_kept lib dec.event st cfg env P k s read signature p
  serve_kept s (Call.get_event path_id) p = p
  serve_kept s (Call.list_deliveries event_id status page limit) p = p
  serve_kept s (Call.post_source body) p = handle_create_source_kept s body p
  serve_kept s Call.list_sources p = answer_list_kept P s (rs.list_sources s.world.db) p
  serve_kept s (Call.get_source path_id) p =
      answer_get_kept P s (read_source dec.source st rs env s path_id) p
  serve_kept s (Call.put_source path_id body) p = handle_update_source_kept s path_id body p
  serve_kept s (Call.delete_source path_id) p = handle_delete_source_kept s path_id p
  serve_kept s (Call.post_rule body) p = handle_create_rule_kept s body p
  serve_kept s Call.list_rules p = answer_list_kept P s (rs.list_rules s.world.db) p
  serve_kept s (Call.get_rule path_id) p =
      answer_get_kept P s (read_rule dec.rule rs env s path_id) p
  serve_kept s (Call.put_rule path_id body) p = handle_update_rule_kept s path_id body p
  serve_kept s (Call.delete_rule path_id) p = handle_delete_rule_kept s path_id p
  serve_kept s (Call.post_target body) p = handle_create_target_kept s body p
  serve_kept s Call.list_targets p = answer_list_kept P s (rs.list_targets s.world.db) p
  serve_kept s (Call.get_target path_id) p =
      answer_get_kept P s (read_target dec.target st rs env s path_id) p
  serve_kept s (Call.put_target path_id body) p = handle_update_target_kept s path_id body p
  serve_kept s (Call.delete_target path_id) p = handle_delete_target_kept s path_id p
  serve_kept s (Call.retry_delivery path_id) p = handle_retry_kept s path_id p
  serve_kept s (Call.list_audit entity_type entity_id page limit) p = p
  serve_kept s Call.metrics_page p = p
