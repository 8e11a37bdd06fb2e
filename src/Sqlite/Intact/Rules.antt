-- ===== src/Sqlite/Intact/Rules.antt =====
-- The statements on rules keep the foreign keys.
use mathlib.Core.Path.{subst}
use webhook_event_route.Prelude.{
  ℕ, ℤ, ◌+◌, ◌≡◌, refl, true, false, not, ◌&&◌, some, [], ◌∷◌, ◌++◌, map, In, arith, ◌==◌,
}
use webhook_event_route.Domain.{Rule}
use webhook_event_route.Sqlite.Tables.{Db, find, is_some, update_where, select_where}
use webhook_event_route.Sqlite.Tx.Effects.{Effect}
use webhook_event_route.Sqlite.Audit.{is_id}
use webhook_event_route.Sqlite.Rules.Writes.{
  may_refer, rule_row, set_rule, insert_rule, change_rule, remove_rule,
}
use webhook_event_route.Sqlite.Invariant.{map-update_where, find-In}
use webhook_event_route.Sqlite.Intact.{Keeps, source_ids, target_ids, rule_ids}
use webhook_event_route.Sqlite.Intact.References.{
  IsTable-snoc, IsTable-select_where, Refers-insert, Refers-remove, Refers-parent_insert,
  Refers-parent_remove, Refers-update_where, find_of_In,
}

may_refer-source :
    (r : Rule) (db : Db)
    → may_refer r db ≡ true
    → (n : ℕ) → r.source_id ≡ some n
    → In n (source_ids db)
unfolding may_refer
may_refer-source r db h n e = find-In (λ s. s.id) db.sources n (ground arith)

may_refer-target :
    (r : Rule) (db : Db)
    → may_refer r db ≡ true
    → (n : ℕ) → some r.target_id ≡ some n
    → In n (target_ids db)
unfolding may_refer
may_refer-target r db h n e =
    let k : r.target_id ≡ n = cc in
    subst (λ t. In t (target_ids db)) k (find-In (λ t. t.id) db.targets r.target_id (ground arith))

pub insert_rule_intact : (now : ℕ) (r : Rule) → Effect Keeps (insert_rule now r)
unfolding insert_rule
insert_rule_intact now r db db' a h i =
    let fits : may_refer r db ≡ true = ground arith in
    let k : (record db {
      rules = db.rules ++ rule_row (db.last_rule + 1) now r ∷ [];
      last_rule = db.last_rule + 1;
    })
        ≡ db' =
      ground arith in
    rw (← k) (record {
      source_table = i.source_table;
      target_table = i.target_table;
      rule_table =
          IsTable-snoc (λ x. x.id) db.rules db.last_rule i.rule_table
            (rule_row (db.last_rule + 1) now r) refl;
      event_sources = i.event_sources;
      rule_sources =
          Refers-insert (λ x. x.source_id) db.rules (source_ids db)
            (rule_row (db.last_rule + 1) now r) i.rule_sources (may_refer-source r db fits);
      rule_targets =
          Refers-insert (λ x. some x.target_id) db.rules (target_ids db)
            (rule_row (db.last_rule + 1) now r) i.rule_targets (may_refer-target r db fits);
      pair_rules =
          Refers-parent_insert (λ p. some p.rule_id) db.rule_targets (λ x. x.id) db.rules
            (rule_row (db.last_rule + 1) now r) i.pair_rules;
      pair_targets = i.pair_targets;
      delivery_rules =
          Refers-parent_insert (λ d. some d.rule_id) db.deliveries (λ x. x.id) db.rules
            (rule_row (db.last_rule + 1) now r) i.delivery_rules;
      delivery_targets = i.delivery_targets;
    })

-- A row with the identifier shows that the update had to meet the references.
row_fits :
    (r : Rule) (db : Db) (x : Rule)
    → (is_some (find (λ y. y.id == r.id) db.rules) && not (may_refer r db)) ≡ false
    → In x db.rules
    → (x.id == r.id) ≡ true
    → may_refer r db ≡ true
row_fits r db x h m e = ground (arith, find_of_In (λ y. y.id == r.id) db.rules x m e)

pub change_rule_intact : (now : ℕ) (r : Rule) → Effect Keeps (change_rule now r)
unfolding change_rule
change_rule_intact now r db db' a h i =
    let free : (is_some (find (λ y. y.id == r.id) db.rules) && not (may_refer r db)) ≡ false =
      ground arith in
    let same : map (λ x. x.id) (update_where (λ x. x.id == r.id) (set_rule now r) db.rules)
        ≡ rule_ids db =
      map-update_where (λ x. x.id) (λ x. x.id == r.id) (set_rule now r) db.rules (λ x. refl) in
    let k : (record db { rules = update_where (λ x. x.id == r.id) (set_rule now r) db.rules })
        ≡ db' =
      ground arith in
    rw (← k) (record {
      source_table = i.source_table;
      target_table = i.target_table;
      rule_table = rw same i.rule_table;
      event_sources = i.event_sources;
      rule_sources =
          Refers-update_where (λ x. x.source_id) (λ x. x.id == r.id) (set_rule now r) db.rules
            (source_ids db) i.rule_sources
            (λ x n m q e. may_refer-source r db (row_fits r db x free m q) n e);
      rule_targets =
          Refers-update_where (λ x. some x.target_id) (λ x. x.id == r.id) (set_rule now r) db.rules
            (target_ids db) i.rule_targets
            (λ x n m q e. may_refer-target r db (row_fits r db x free m q) n e);
      pair_rules = rw same i.pair_rules;
      pair_targets = i.pair_targets;
      delivery_rules = rw same i.delivery_rules;
      delivery_targets = i.delivery_targets;
    })

pub remove_rule_intact : (id : ℤ) → Effect Keeps (remove_rule id)
unfolding remove_rule
remove_rule_intact id db db' a h i =
    let k : (record db { rules = select_where (λ r. not (is_id id r.id)) db.rules }) ≡ db' =
      ground arith in
    rw (← k) (record {
      source_table = i.source_table;
      target_table = i.target_table;
      rule_table =
          IsTable-select_where (λ x. x.id) db.rules db.last_rule i.rule_table
            (λ r. not (is_id id r.id));
      event_sources = i.event_sources;
      rule_sources =
          Refers-remove (λ r. r.source_id) db.rules (source_ids db) (λ r. not (is_id id r.id))
            i.rule_sources;
      rule_targets =
          Refers-remove (λ r. some r.target_id) db.rules (target_ids db) (λ r. not (is_id id r.id))
            i.rule_targets;
      pair_rules =
          Refers-parent_remove (λ p. some p.rule_id) db.rule_targets (λ x. x.id) db.rules id
            i.pair_rules (ground arith);
      pair_targets = i.pair_targets;
      delivery_rules =
          Refers-parent_remove (λ d. some d.rule_id) db.deliveries (λ x. x.id) db.rules id
            i.delivery_rules (ground arith);
      delivery_targets = i.delivery_targets;
    })
