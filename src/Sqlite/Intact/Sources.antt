-- ===== src/Sqlite/Intact/Sources.antt =====
-- The statements on sources keep the foreign keys.
use webhook_event_route.Prelude.{ℕ, ℤ, ◌+◌, ◌≡◌, refl, not, some, [], ◌∷◌, ◌++◌, map, arith, ◌==◌}
use webhook_event_route.Domain.{Source}
use webhook_event_route.Sqlite.Tables.{update_where, select_where}
use webhook_event_route.Sqlite.Tx.Effects.{Effect}
use webhook_event_route.Sqlite.Audit.{is_id}
use webhook_event_route.Sqlite.Sources.{set_source, insert_source, change_source, remove_source}
use webhook_event_route.Sqlite.Invariant.{map-update_where}
use webhook_event_route.Sqlite.Intact.{Keeps, source_ids}
use webhook_event_route.Sqlite.Intact.References.{
  IsTable-snoc, IsTable-select_where, Refers-parent_insert, Refers-parent_remove,
}

pub insert_source_intact : (now : ℕ) (src : Source) → Effect Keeps (insert_source now src)
unfolding insert_source
insert_source_intact now src db db' a h i =
    let k : (record db {
      sources =
          db.sources
          ++ record src { id = db.last_source + 1; created_at = now; updated_at = now } ∷ [];
      last_source = db.last_source + 1;
    })
        ≡ db' =
      ground arith in
    rw (← k) (record {
      source_table =
          IsTable-snoc (λ x. x.id) db.sources db.last_source i.source_table
            (record src { id = db.last_source + 1; created_at = now; updated_at = now }) refl;
      target_table = i.target_table;
      rule_table = i.rule_table;
      event_sources =
          Refers-parent_insert (λ e. some e.source_id) db.events (λ x. x.id) db.sources
            (record src { id = db.last_source + 1; created_at = now; updated_at = now })
            i.event_sources;
      rule_sources =
          Refers-parent_insert (λ r. r.source_id) db.rules (λ x. x.id) db.sources
            (record src { id = db.last_source + 1; created_at = now; updated_at = now })
            i.rule_sources;
      rule_targets = i.rule_targets;
      pair_rules = i.pair_rules;
      pair_targets = i.pair_targets;
      delivery_rules = i.delivery_rules;
      delivery_targets = i.delivery_targets;
    })

pub change_source_intact : (now : ℕ) (src : Source) → Effect Keeps (change_source now src)
unfolding change_source
change_source_intact now src db db' a h i =
    let k : (record db {
      sources = update_where (λ s. s.id == src.id) (set_source now src) db.sources;
    })
        ≡ db' =
      ground arith in
    let same : map (λ s. s.id) (update_where (λ s. s.id == src.id) (set_source now src) db.sources)
        ≡ source_ids db =
      map-update_where (λ s. s.id) (λ s. s.id == src.id) (set_source now src) db.sources
        (λ s. refl) in
    rw (← k) (record {
      source_table = rw same i.source_table;
      target_table = i.target_table;
      rule_table = i.rule_table;
      event_sources = rw same i.event_sources;
      rule_sources = rw same i.rule_sources;
      rule_targets = i.rule_targets;
      pair_rules = i.pair_rules;
      pair_targets = i.pair_targets;
      delivery_rules = i.delivery_rules;
      delivery_targets = i.delivery_targets;
    })

pub remove_source_intact : (id : ℤ) → Effect Keeps (remove_source id)
unfolding remove_source
remove_source_intact id db db' a h i =
    let k : (record db { sources = select_where (λ s. not (is_id id s.id)) db.sources }) ≡ db' =
      ground arith in
    rw (← k) (record {
      source_table =
          IsTable-select_where (λ x. x.id) db.sources db.last_source i.source_table
            (λ s. not (is_id id s.id));
      target_table = i.target_table;
      rule_table = i.rule_table;
      event_sources =
          Refers-parent_remove (λ e. some e.source_id) db.events (λ x. x.id) db.sources id
            i.event_sources (ground arith);
      rule_sources =
          Refers-parent_remove (λ r. r.source_id) db.rules (λ x. x.id) db.sources id i.rule_sources
            (ground arith);
      rule_targets = i.rule_targets;
      pair_rules = i.pair_rules;
      pair_targets = i.pair_targets;
      delivery_rules = i.delivery_rules;
      delivery_targets = i.delivery_targets;
    })
