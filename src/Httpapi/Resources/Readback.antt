-- ===== src/Httpapi/Resources/Readback.antt =====
-- The handlers of POST and GET on the SQLite store: reading back what was created.
use mathlib.Core.Path.{subst}
use webhook_event_route.Sqlite.Conn.{Conn}
use webhook_event_route.Prelude.{
  ℕ, pos, ◌≡◌, refl, ap, inl, inr, arith, Text, Option, some, In, ◌↔◌,
}
use webhook_event_route.Domain.{Source, Target, Rule}
use webhook_event_route.Engine.Match.{resolve_targets}
use webhook_event_route.Strconv.{atoi}
use webhook_event_route.Store.{Result-cases}
use webhook_event_route.Dispatcher.World.{Env}
use webhook_event_route.Sqlite.Tables.{Db}
use webhook_event_route.Sqlite.Tx.{Pool}
use webhook_event_route.Sqlite.Audit.{Host}
use webhook_event_route.Sqlite.Sources.{create_source}
use webhook_event_route.Sqlite.Targets.{create_target}
use webhook_event_route.Sqlite.Rules.Writes.{create_rule}
use webhook_event_route.Sqlite.Instance.{sqlite_store}
use webhook_event_route.Sqlite.Configured.{sqlite_resources}
use webhook_event_route.Sqlite.Intact.{IsIntact}
use webhook_event_route.Sqlite.Readback.{create_source_lem, create_target_lem}
use webhook_event_route.Sqlite.Readback.Rules.{create_rule_lem}
use webhook_event_route.Httpapi.Events.{Server}
use webhook_event_route.Httpapi.Events.Effects.{Check-cases}
use webhook_event_route.Httpapi.Resources.{created, fetched, parse_id}
use webhook_event_route.Httpapi.Resources.Sources.{
  SourceRequest, new_source, assign_source, check_new_source, handle_create_source, read_source,
  handle_get_source,
}
use webhook_event_route.Httpapi.Resources.Targets.{
  TargetRequest, new_target, assign_target, check_new_target, handle_create_target, read_target,
  handle_get_target,
}
use webhook_event_route.Httpapi.Resources.Rules.{
  RuleRequest, new_rule, assign_rule, check_new_rule, handle_create_rule, read_rule,
  handle_get_rule,
}

-- An entity that is read, for one that was created: the same but for the times. The row has one reading
-- of the clock, and the entity that the POST answers has the next.
module _ (host : Host) (now : ℕ) where
  abbrev pub SameSource : Source → Source → Type 0
  SameSource src read =
      (record read { created_at = src.created_at; updated_at = src.updated_at } ≡ src)
      × (read.created_at ≡ now)
      × (read.updated_at ≡ now)
      × (src.created_at ≡ host.next_reading now)
      × (src.updated_at ≡ host.next_reading now)

  abbrev pub SameTarget : Target → Target → Type 0
  SameTarget t read =
      (record read { created_at = t.created_at; updated_at = t.updated_at } ≡ t)
      × (read.created_at ≡ now)
      × (read.updated_at ≡ now)
      × (t.created_at ≡ host.next_reading now)
      × (t.updated_at ≡ host.next_reading now)

  -- The list of targets may differ as well, but the engine resolves the same.
  abbrev pub SameRule : Rule → Rule → Type 0
  SameRule r read =
      (record read {
        target_ids = r.target_ids;
        created_at = r.created_at;
        updated_at = r.updated_at;
      }
        ≡ r)
      × (read.created_at ≡ now)
      × (read.updated_at ≡ now)
      × (r.created_at ≡ host.next_reading now)
      × (r.updated_at ≡ host.next_reading now)
      × ((x : ℕ) → In x (resolve_targets read) ↔ In x (resolve_targets r))

module _ (decode : Text → Option SourceRequest) (conn : Conn) (host : Host) (pool : Pool)
    (env : Env) (s : Server Db) where
  pub post_source_lem :
      (body path_id : Text) (src : Source)
      → IsIntact s.world.db
      → (handle_create_source decode (sqlite_store conn) (sqlite_resources host pool) env s body).1
        ≡ created src
      → atoi path_id ≡ some (pos src.id)
      → (read : Source) × ((handle_get_source decode
            (sqlite_store conn)
            (sqlite_resources host pool)
            env
            (handle_create_source decode
              (sqlite_store conn)
              (sqlite_resources host pool)
              env
              s
              body).0
            path_id).1
          ≡ fetched read)
        × SameSource host (env.now s.world.ticks) src read
  unfolding handle_create_source handle_get_source read_source parse_id
  post_source_lem body path_id src intact done path =
      elim (Check-cases
        (check_new_source decode (sqlite_store conn) (sqlite_resources host pool) env body)) [
          | inr (e, c) ↦ absurd (ground arith)
          | inl (req, c) ↦
              let now = env.now s.world.ticks in
              elim (Result-cases (create_source host now (new_source req) s.world.db).1) [
                | inr (e, r) ↦ absurd (ground arith)
                | inl (a, r) ↦
                    let same : assign_source (new_source req) a ≡ src = ground arith in
                    let db : (handle_create_source decode (sqlite_store conn)
                          (sqlite_resources host pool) env s body).0.world.db
                        ≡ (create_source host now (new_source req) s.world.db).0 =
                      ground arith in
                    let (next, read) =
                      create_source_lem host now s.world.db a (new_source req) intact.source_table
                        r in
                    (
                      record (new_source req) { id = a.id; created_at = now; updated_at = now },
                      rw (path, db, ← same, read) refl,
                      subst
                          (λ x. SameSource host now x (record (new_source req) {
                            id = a.id;
                            created_at = now;
                            updated_at = now;
                          }))
                          same (refl, refl, refl, next, next),
                    )
              ]
        ]

module _ (decode : Text → Option TargetRequest) (conn : Conn) (host : Host) (pool : Pool)
    (env : Env) (s : Server Db) where
  pub post_target_lem :
      (body path_id : Text) (t : Target)
      → IsIntact s.world.db
      → (handle_create_target decode (sqlite_store conn) (sqlite_resources host pool) env s body).1
        ≡ created t
      → atoi path_id ≡ some (pos t.id)
      → (read : Target) × ((handle_get_target decode
            (sqlite_store conn)
            (sqlite_resources host pool)
            env
            (handle_create_target decode
              (sqlite_store conn)
              (sqlite_resources host pool)
              env
              s
              body).0
            path_id).1
          ≡ fetched read)
        × SameTarget host (env.now s.world.ticks) t read
  unfolding handle_create_target handle_get_target read_target parse_id
  post_target_lem body path_id t intact done path =
      elim (Check-cases
        (check_new_target decode (sqlite_store conn) (sqlite_resources host pool) env body)) [
          | inr (e, c) ↦ absurd (ground arith)
          | inl (req, c) ↦
              let now = env.now s.world.ticks in
              elim (Result-cases (create_target host now (new_target req) s.world.db).1) [
                | inr (e, r) ↦ absurd (ground arith)
                | inl (a, r) ↦
                    let same : assign_target (new_target req) a ≡ t = ground arith in
                    let db : (handle_create_target decode (sqlite_store conn)
                          (sqlite_resources host pool) env s body).0.world.db
                        ≡ (create_target host now (new_target req) s.world.db).0 =
                      ground arith in
                    let (next, read) =
                      create_target_lem host now s.world.db a (new_target req) intact.target_table
                        r in
                    (
                      record (new_target req) { id = a.id; created_at = now; updated_at = now },
                      rw (path, db, ← same, read) refl,
                      subst
                          (λ x. SameTarget host now x (record (new_target req) {
                            id = a.id;
                            created_at = now;
                            updated_at = now;
                          }))
                          same (refl, refl, refl, next, next),
                    )
              ]
        ]

module _ (decode : Text → Option RuleRequest) (host : Host) (pool : Pool) (env : Env)
    (s : Server Db) where
  pub post_rule_lem :
      (body path_id : Text) (r : Rule)
      → IsIntact s.world.db
      → (handle_create_rule decode (sqlite_resources host pool) env s body).1 ≡ created r
      → atoi path_id ≡ some (pos r.id)
      → (read : Rule) × ((handle_get_rule decode
            (sqlite_resources host pool)
            env
            (handle_create_rule decode (sqlite_resources host pool) env s body).0
            path_id).1
          ≡ fetched read)
        × SameRule host (env.now s.world.ticks) r read
  unfolding handle_create_rule handle_get_rule read_rule parse_id resolve_targets
  post_rule_lem body path_id r intact done path =
      elim (Check-cases (check_new_rule decode (sqlite_resources host pool) env body)) [
        | inr (e, c) ↦ absurd (ground arith)
        | inl (req, c) ↦
            let now = env.now s.world.ticks in
            elim (Result-cases (create_rule host now (new_rule req) s.world.db).1) [
              | inr (e, k) ↦ absurd (ground arith)
              | inl (a, k) ↦
                  let same : assign_rule (new_rule req) a ≡ r = ground arith in
                  let db : (handle_create_rule decode (sqlite_resources host pool) env s
                        body).0.world.db
                      ≡ (create_rule host now (new_rule req) s.world.db).0 =
                    ground arith in
                  let (read, found, next, but, targets) =
                    create_rule_lem host now (new_rule req) s.world.db a intact k in
                  (
                    read,
                    rw (path, db, ← same, found) refl,
                    subst (λ k. SameRule host now k read) same
                        (
                          ap (λ (k : Rule). record k { created_at = a.at; updated_at = a.at }) but,
                          ap (λ (k : Rule). k.created_at) but,
                          ap (λ (k : Rule). k.updated_at) but,
                          next,
                          next,
                          targets,
                        ),
                  )
            ]
      ]
