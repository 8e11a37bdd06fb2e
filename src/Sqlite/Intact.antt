-- ===== src/Sqlite/Intact.antt =====
-- The foreign keys and primary keys of the configuration, as an invariant of the tables.
pub mod References
pub mod Sources
pub mod Targets
pub mod Rules
pub mod Pairs
pub mod Kept
pub mod Traffic
use webhook_event_route.Prelude.{ℕ, ◌≤◌, ◌+◌, Option, none, some, List, map, In, Distinct}
use webhook_event_route.Domain.{Source, Event, Target, Rule, Delivery}
use webhook_event_route.Sqlite.Tables.{Db, RuleTarget}

-- Identifiers were given out in order, each once.
pub record IsTable (ids : List ℕ) (last : ℕ) : Type 0 where
  pub given : (n : ℕ) → In n ids → n ≤ last
  pub once : Distinct ids

-- Each value of a column that is not NULL is an identifier of the other table.
abbrev pub Refers : {A : Type 0} → (A → Option ℕ) → List A → List ℕ → Type 0
Refers column rows ids = (n : ℕ) → In (some n) (map column rows) → In n ids

abbrev pub source_ids : Db → List ℕ
source_ids db = map (λ s. s.id) db.sources

abbrev pub target_ids : Db → List ℕ
target_ids db = map (λ t. t.id) db.targets

abbrev pub rule_ids : Db → List ℕ
rule_ids db = map (λ r. r.id) db.rules

pub record IsIntact (db : Db) : Type 0 where
  pub source_table : IsTable (source_ids db) db.last_source
  pub target_table : IsTable (target_ids db) db.last_target
  pub rule_table : IsTable (rule_ids db) db.last_rule
  pub event_sources : Refers (λ e. some e.source_id) db.events (source_ids db)
  pub rule_sources : Refers (λ r. r.source_id) db.rules (source_ids db)
  pub rule_targets : Refers (λ r. some r.target_id) db.rules (target_ids db)
  pub pair_rules : Refers (λ p. some p.rule_id) db.rule_targets (rule_ids db)
  pub pair_targets : Refers (λ p. some p.target_id) db.rule_targets (target_ids db)
  pub delivery_rules : Refers (λ d. some d.rule_id) db.deliveries (rule_ids db)
  pub delivery_targets : Refers (λ d. some d.target_id) db.deliveries (target_ids db)

-- What a statement that keeps the invariant does to the tables.
abbrev pub Keeps : Db → Db → Type 0
Keeps d d' = IsIntact d → IsIntact d'
