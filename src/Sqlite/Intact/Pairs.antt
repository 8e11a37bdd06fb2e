-- ===== src/Sqlite/Intact/Pairs.antt =====
-- The statements on the targets of a rule keep the foreign keys.
use mathlib.Core.Path.{subst}
use webhook_event_route.Prelude.{
  ℕ, ℤ, ◌≡◌, true, not, some, [], ◌∷◌, ◌++◌, In, inl, inr, arith, Bool-cases, any, ◌==◌,
}
use webhook_event_route.Sqlite.Tables.{Db, find, is_some, select_where}
use webhook_event_route.Sqlite.Tx.Effects.{Effect}
use webhook_event_route.Sqlite.Audit.{is_id}
use webhook_event_route.Sqlite.Rules.Writes.{is_pair, insert_rule_target, clear_targets}
use webhook_event_route.Sqlite.Invariant.{find-In}
use webhook_event_route.Sqlite.Intact.{Keeps, IsIntact, target_ids, rule_ids}
use webhook_event_route.Sqlite.Intact.References.{Refers-insert, Refers-remove}

pub clear_targets_intact : (id : ℤ) → Effect Keeps (clear_targets id)
unfolding clear_targets
clear_targets_intact id db db' a h i =
    let k : (record db {
      rule_targets = select_where (λ p. not (is_id id p.rule_id)) db.rule_targets;
    })
        ≡ db' =
      ground arith in
    rw (← k) (record {
      source_table = i.source_table;
      target_table = i.target_table;
      rule_table = i.rule_table;
      event_sources = i.event_sources;
      rule_sources = i.rule_sources;
      rule_targets = i.rule_targets;
      pair_rules =
          Refers-remove (λ p. some p.rule_id) db.rule_targets (rule_ids db)
            (λ p. not (is_id id p.rule_id)) i.pair_rules;
      pair_targets =
          Refers-remove (λ p. some p.target_id) db.rule_targets (target_ids db)
            (λ p. not (is_id id p.rule_id)) i.pair_targets;
      delivery_rules = i.delivery_rules;
      delivery_targets = i.delivery_targets;
    })

insert_pair-IsIntact :
    (rule_id tid : ℕ) (db : Db)
    → is_some (find (λ r. r.id == rule_id) db.rules) ≡ true
    → is_some (find (λ t. t.id == tid) db.targets) ≡ true
    → IsIntact db
    → IsIntact (record db {
      rule_targets = db.rule_targets ++ record { rule_id = rule_id; target_id = tid } ∷ [];
    })
insert_pair-IsIntact rule_id tid db stored target i = record {
  source_table = i.source_table;
  target_table = i.target_table;
  rule_table = i.rule_table;
  event_sources = i.event_sources;
  rule_sources = i.rule_sources;
  rule_targets = i.rule_targets;
  pair_rules =
      Refers-insert (λ p. some p.rule_id) db.rule_targets (rule_ids db)
        (record { rule_id = rule_id; target_id = tid }) i.pair_rules
        (λ n e. subst (λ t. In t (rule_ids db)) (cc) (find-In (λ r. r.id) db.rules rule_id stored));
  pair_targets =
      Refers-insert (λ p. some p.target_id) db.rule_targets (target_ids db)
        (record { rule_id = rule_id; target_id = tid }) i.pair_targets
        (λ n e. subst (λ t. In t (target_ids db)) (cc) (find-In (λ t. t.id) db.targets tid target));
  delivery_rules = i.delivery_rules;
  delivery_targets = i.delivery_targets;
}

pub insert_rule_target_intact : (rule_id tid : ℕ) → Effect Keeps (insert_rule_target rule_id tid)
unfolding insert_rule_target
insert_rule_target_intact rule_id tid db db' a h i =
    elim (Bool-cases (any (is_pair rule_id tid) db.rule_targets)) [
      | inl e ↦ let k : db ≡ db' = ground arith in rw (← k) i
      | inr e ↦
          let k : (record db {
            rule_targets = db.rule_targets ++ record { rule_id = rule_id; target_id = tid } ∷ [];
          })
              ≡ db' =
            ground arith in
          rw (← k) (insert_pair-IsIntact rule_id tid db (ground arith) (ground arith) i)
    ]
