-- ===== src/Sqlite/Intact/Targets.antt =====
-- The statements on targets keep the foreign keys.
use webhook_event_route.Prelude.{ℕ, ℤ, ◌+◌, ◌≡◌, refl, not, some, [], ◌∷◌, ◌++◌, map, arith, ◌==◌}
use webhook_event_route.Domain.{Target}
use webhook_event_route.Sqlite.Tables.{update_where, select_where}
use webhook_event_route.Sqlite.Tx.Effects.{Effect}
use webhook_event_route.Sqlite.Audit.{is_id}
use webhook_event_route.Sqlite.Targets.{set_target, insert_target, change_target, remove_target}
use webhook_event_route.Sqlite.Invariant.{map-update_where}
use webhook_event_route.Sqlite.Intact.{Keeps, target_ids}
use webhook_event_route.Sqlite.Intact.References.{
  IsTable-snoc, IsTable-select_where, Refers-parent_insert, Refers-parent_remove,
}

pub insert_target_intact : (now : ℕ) (t : Target) → Effect Keeps (insert_target now t)
unfolding insert_target
insert_target_intact now t db db' a h i =
    let k : (record db {
      targets =
          db.targets
          ++ record t { id = db.last_target + 1; created_at = now; updated_at = now } ∷ [];
      last_target = db.last_target + 1;
    })
        ≡ db' =
      ground arith in
    rw (← k) (record {
      source_table = i.source_table;
      target_table =
          IsTable-snoc (λ x. x.id) db.targets db.last_target i.target_table
            (record t { id = db.last_target + 1; created_at = now; updated_at = now }) refl;
      rule_table = i.rule_table;
      event_sources = i.event_sources;
      rule_sources = i.rule_sources;
      rule_targets =
          Refers-parent_insert (λ r. some r.target_id) db.rules (λ x. x.id) db.targets
            (record t { id = db.last_target + 1; created_at = now; updated_at = now })
            i.rule_targets;
      pair_rules = i.pair_rules;
      pair_targets =
          Refers-parent_insert (λ p. some p.target_id) db.rule_targets (λ x. x.id) db.targets
            (record t { id = db.last_target + 1; created_at = now; updated_at = now })
            i.pair_targets;
      delivery_rules = i.delivery_rules;
      delivery_targets =
          Refers-parent_insert (λ d. some d.target_id) db.deliveries (λ x. x.id) db.targets
            (record t { id = db.last_target + 1; created_at = now; updated_at = now })
            i.delivery_targets;
    })

pub change_target_intact : (now : ℕ) (t : Target) → Effect Keeps (change_target now t)
unfolding change_target
change_target_intact now t db db' a h i =
    let k : (record db { targets = update_where (λ s. s.id == t.id) (set_target now t) db.targets })
        ≡ db' =
      ground arith in
    let same : map (λ s. s.id) (update_where (λ s. s.id == t.id) (set_target now t) db.targets)
        ≡ target_ids db =
      map-update_where (λ s. s.id) (λ s. s.id == t.id) (set_target now t) db.targets (λ s. refl) in
    rw (← k) (record {
      source_table = i.source_table;
      target_table = rw same i.target_table;
      rule_table = i.rule_table;
      event_sources = i.event_sources;
      rule_sources = i.rule_sources;
      rule_targets = rw same i.rule_targets;
      pair_rules = i.pair_rules;
      pair_targets = rw same i.pair_targets;
      delivery_rules = i.delivery_rules;
      delivery_targets = rw same i.delivery_targets;
    })

pub remove_target_intact : (id : ℤ) → Effect Keeps (remove_target id)
unfolding remove_target
remove_target_intact id db db' a h i =
    let k : (record db { targets = select_where (λ s. not (is_id id s.id)) db.targets }) ≡ db' =
      ground arith in
    rw (← k) (record {
      source_table = i.source_table;
      target_table =
          IsTable-select_where (λ x. x.id) db.targets db.last_target i.target_table
            (λ s. not (is_id id s.id));
      rule_table = i.rule_table;
      event_sources = i.event_sources;
      rule_sources = i.rule_sources;
      rule_targets =
          Refers-parent_remove (λ r. some r.target_id) db.rules (λ x. x.id) db.targets id
            i.rule_targets (ground arith);
      pair_rules = i.pair_rules;
      pair_targets =
          Refers-parent_remove (λ p. some p.target_id) db.rule_targets (λ x. x.id) db.targets id
            i.pair_targets (ground arith);
      delivery_rules = i.delivery_rules;
      delivery_targets =
          Refers-parent_remove (λ d. some d.target_id) db.deliveries (λ x. x.id) db.targets id
            i.delivery_targets (ground arith);
    })
