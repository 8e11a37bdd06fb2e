-- ===== src/Sqlite/Audit/Trail.antt =====
-- What a write of an entity records in the change log.
pub mod Writes
use webhook_event_route.Prelude.{
  ℕ, ℤ, pos, ◌+◌, ◌≡◌, refl, ap, ◌∙◌, List, [], ◌∷◌, ◌++◌, Text, codes, arith, true, false,
  Bool-cases, inl, inr,
}
use webhook_event_route.Domain.{Source, Target, Rule, ChangeLog}
use webhook_event_route.Store.{Failure, Result, Result-cases, ok, err, Assigned}
use webhook_event_route.Sqlite.Tables.{Db}
use webhook_event_route.Sqlite.Tx.{Pool, Tx, Action, tx, exec, pool_read, pure, ◌>>=◌, ◌>>◌}
use webhook_event_route.Sqlite.Audit.{Host, log_change}
use webhook_event_route.Sqlite.Sources.{
  insert_source, change_source, remove_source, create_source, update_source, delete_source,
}
use webhook_event_route.Sqlite.Targets.{
  insert_target, change_target, remove_target, create_target, update_target, delete_target,
}
use webhook_event_route.Sqlite.Rules.Writes.{
  insert_rule, change_rule, remove_rule, insert_rule_target, add_targets, persist_targets,
  clear_targets, target_list, create_rule, update_rule, delete_rule,
}
use webhook_event_route.Sqlite.Tx.Effects.{Relates, exec-Relates, pool_read-Relates}
use webhook_event_route.Sqlite.Tx.Aside.{
  IsAside, IsAside-order, insert_source-IsAside, change_source-IsAside, remove_source-IsAside,
  insert_target-IsAside, change_target-IsAside, remove_target-IsAside, insert_rule-IsAside,
  change_rule-IsAside, remove_rule-IsAside, clear_targets-IsAside, persist_targets-IsAside,
}

-- The log is longer by one entry, for this entity, its identifier and this action.
abbrev pub HasEntry : Text → Text → ℤ → Db → Db → Type 0
HasEntry entity action id db db' =
    (cl : ChangeLog) × (db'.change_logs ≡ db.change_logs ++ cl ∷ [])
    × (cl.entity_type ≡ entity)
    × (cl.action ≡ action)
    × (cl.entity_id ≡ id)

abbrev ByResult : {A : Type 0} → (A → Type 0) → Type 0 → Result A → Type 0
ByResult succeeded failed (ok a) = succeeded a
ByResult succeeded failed (err e) = failed

-- A write of an entity: where it fails, the tables are left alone; where it succeeds, it is logged.
abbrev pub IsRecorded : {A : Type 0} → Text → Text → (A → ℤ) → Db → Db × Result A → Type 0
IsRecorded entity action id db o =
    ByResult (λ a. HasEntry entity action (id a) db o.0) (o.0 ≡ db) o.1

-- One that writes an entry.
abbrev pub Logs : {A : Type 0} → Text → Text → (A → ℤ) → Action A → Type 0
Logs {A} entity action id m =
    (t t' : Tx) (a : A) → m t ≡ ok (a, t') → HasEntry entity action (id a) t.tables t'.tables

pub bind-Logs :
    {A B : Type 0} (m : Action A) (f : A → Action B) (entity action : Text) (id : B → ℤ)
    → Relates IsAside m
    → ((a : A) → Logs entity action id (f a))
    → Logs entity action id (m >>= f)
bind-Logs m f entity action id aside rest t t' b h = elim (Result-cases (m t)) [
  | inr (e, s) ↦ cc (rw (s, ◌>>=◌) at h)
  | inl ((a, u), s) ↦
      let (cl, p, q, r, i) = rest a u t' b (rw (s, ◌>>=◌) at h) in
      (cl, p ∙ ap (λ l. l ++ cl ∷ []) (aside t u a s).logs, q, r, i)
]

-- The entry itself.
pub log_change-Logs :
    (now : ℕ) (entity action before after : Text) (n : ℤ)
    → Logs entity action (λ _. n) (log_change now entity n action before after)
unfolding log_change
log_change-Logs now entity action before after n t t' b h = elim (Bool-cases t.live) [
  | inr e ↦ cc (rw e at h)
  | inl e ↦
      let written = rw e at h in
      (
        record {
          id = t.tables.last_change_log + 1;
          entity_type = entity;
          entity_id = n;
          action = action;
          before = before;
          after = after;
          actor = [];
          created_at = now;
        },
        ground arith,
        refl,
        refl,
        refl,
      )
]

-- The last steps of each write.
pub log-Logs :
    {B : Type 0} (now : ℕ) (entity action before after : Text) (n : ℤ) (b : B) (id : B → ℤ)
    → id b ≡ n
    → Logs entity action id (log_change now entity n action before after >> pure b)
log-Logs now entity action before after n b id e t t' b' h =
    elim (Result-cases (log_change now entity n action before after t)) [
      | inr (f, s) ↦ cc (rw (s, ◌>>=◌, ◌>>◌) at h)
      | inl ((x, u), s) ↦
          let (cl, p, q, r, i) = log_change-Logs now entity action before after n t u x s in
          let done : ok (b, u) ≡ ok (b', t') = rw (s, ◌>>=◌, ◌>>◌) at h in
          (cl, ground arith, q, r, ground arith)
    ]

pub tx_records :
    {A : Type 0} (entity action : Text) (id : A → ℤ) (body : Action A) (db : Db)
    → Logs entity action id body
    → IsRecorded entity action id db (tx body db)
unfolding tx
tx_records entity action id body db logs =
    elim (Result-cases (body (record { tables = db; live = true }))) [
      | inr (e, s) ↦ rw (s, tx) refl
      | inl ((b, u), s) ↦ elim (Bool-cases u.live) [
        | inl l ↦ rw (s, l, tx) (logs _ u b s)
        | inr l ↦ rw (s, l, tx) refl
      ]
    ]
