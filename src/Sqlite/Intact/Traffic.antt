-- ===== src/Sqlite/Intact/Traffic.antt =====
-- The writes of the events and of the dispatcher keep the foreign keys.
use mathlib.Core.Path.{subst}
use webhook_event_route.Sqlite.Conn.{Conn}
use webhook_event_route.Prelude.{
  ℕ, ◌+◌, ◌≡◌, refl, sym, true, some, List, map, In, inl, inr, arith, Bool-cases, ◌==◌, Text,
}
use webhook_event_route.Domain.{Event, Delivery, DeliveryAttempt, EventStatus}
use webhook_event_route.Store.Kept.{IsAlwaysKept}
use webhook_event_route.Sqlite.Tables.{Db, find, is_some, update_where}
use webhook_event_route.Sqlite.Events.{event_row, may_insert_event, create_event, update_status}
use webhook_event_route.Sqlite.Deliveries.{
  may_insert_delivery, set_columns, create_delivery, update_delivery, create_delivery_attempt,
}
use webhook_event_route.Sqlite.Instance.{sqlite_store}
use webhook_event_route.Sqlite.Invariant.{map-update_where, find-In}
use webhook_event_route.Sqlite.Intact.{IsIntact, source_ids, target_ids, rule_ids}
use webhook_event_route.Sqlite.Intact.References.{Refers-insert}

-- The new row refers to an identifier that was found.
found-Refers :
    {A : Type 0} (id : A → ℕ) (rows : List A) (k : ℕ)
    → is_some (find (λ x. id x == k) rows) ≡ true
    → (n : ℕ) → some k ≡ some n
    → In n (map id rows)
found-Refers id rows k stored n e =
    let q : k ≡ n = cc in subst (λ t. In t (map id rows)) q (find-In id rows k stored)

create_event-IsIntact :
    (conn : Conn) (now : ℕ) (e : Event) (db : Db)
    → IsIntact db
    → IsIntact (create_event conn now e db).0
unfolding create_event may_insert_event
create_event-IsIntact conn now e db i = elim (Bool-cases (may_insert_event e db)) [
  | inr bad ↦ rw (bad, create_event) i
  | inl fits ↦
      rw (fits, create_event)
        (record {
          source_table = i.source_table;
          target_table = i.target_table;
          rule_table = i.rule_table;
          event_sources =
              Refers-insert (λ x. some x.source_id) db.events (source_ids db)
                (event_row (db.last_event + 1) now e) i.event_sources
                (found-Refers (λ s. s.id) db.sources e.source_id (ground arith));
          rule_sources = i.rule_sources;
          rule_targets = i.rule_targets;
          pair_rules = i.pair_rules;
          pair_targets = i.pair_targets;
          delivery_rules = i.delivery_rules;
          delivery_targets = i.delivery_targets;
        })
]

create_delivery-IsIntact :
    (conn : Conn) (now : ℕ) (d : Delivery) (db : Db)
    → IsIntact db
    → IsIntact (create_delivery conn now d db).0
unfolding create_delivery may_insert_delivery
create_delivery-IsIntact conn now d db i = elim (Bool-cases (may_insert_delivery d db)) [
  | inr bad ↦ rw (bad, create_delivery) i
  | inl fits ↦
      rw (fits, create_delivery)
        (record {
          source_table = i.source_table;
          target_table = i.target_table;
          rule_table = i.rule_table;
          event_sources = i.event_sources;
          rule_sources = i.rule_sources;
          rule_targets = i.rule_targets;
          pair_rules = i.pair_rules;
          pair_targets = i.pair_targets;
          delivery_rules =
              Refers-insert (λ x. some x.rule_id) db.deliveries (rule_ids db)
                (record d {
                  id = db.last_delivery + 1;
                  created_at = now;
                  updated_at = conn.next_reading now;
                })
                i.delivery_rules (found-Refers (λ r. r.id) db.rules d.rule_id (ground arith));
          delivery_targets =
              Refers-insert (λ x. some x.target_id) db.deliveries (target_ids db)
                (record d {
                  id = db.last_delivery + 1;
                  created_at = now;
                  updated_at = conn.next_reading now;
                })
                i.delivery_targets (found-Refers (λ t. t.id) db.targets d.target_id (ground arith));
        })
]

create_attempt-IsIntact :
    (now : ℕ) (a : DeliveryAttempt) (db : Db)
    → IsIntact db
    → IsIntact (create_delivery_attempt now a db).0
unfolding create_delivery_attempt
create_attempt-IsIntact now a db i =
    elim (Bool-cases (is_some (find (λ d. d.id == a.delivery_id) db.deliveries))) [
      | inr bad ↦ rw (bad, create_delivery_attempt) i
      | inl fits ↦
          rw (fits, create_delivery_attempt)
            (record {
              source_table = i.source_table;
              target_table = i.target_table;
              rule_table = i.rule_table;
              event_sources = i.event_sources;
              rule_sources = i.rule_sources;
              rule_targets = i.rule_targets;
              pair_rules = i.pair_rules;
              pair_targets = i.pair_targets;
              delivery_rules = i.delivery_rules;
              delivery_targets = i.delivery_targets;
            })
    ]

update_status-IsIntact :
    (id : ℕ) (status : EventStatus) (reason : Text) (db : Db)
    → IsIntact db
    → IsIntact (update_status id status reason db).0
unfolding update_status
update_status-IsIntact id status reason db i =
    let g : Event → Event = λ e. record e { status = status; reject_reason = reason } in
    let same : map (λ e. some e.source_id) (update_where (λ e. e.id == id) g db.events)
        ≡ map (λ e. some e.source_id) db.events =
      map-update_where (λ e. some e.source_id) (λ e. e.id == id) g db.events (λ e. refl) in
    record {
      source_table = i.source_table;
      target_table = i.target_table;
      rule_table = i.rule_table;
      event_sources =
          subst (λ l. (n : ℕ) → In (some n) l → In n (source_ids db)) (sym same) i.event_sources;
      rule_sources = i.rule_sources;
      rule_targets = i.rule_targets;
      pair_rules = i.pair_rules;
      pair_targets = i.pair_targets;
      delivery_rules = i.delivery_rules;
      delivery_targets = i.delivery_targets;
    }

update_delivery-IsIntact :
    (now : ℕ) (d : Delivery) (db : Db) → IsIntact db → IsIntact (update_delivery now d db).0
unfolding update_delivery
update_delivery-IsIntact now d db i =
    let rules : map (λ r. some r.rule_id)
          (update_where (λ r. r.id == d.id) (set_columns now d) db.deliveries)
        ≡ map (λ r. some r.rule_id) db.deliveries =
      map-update_where (λ r. some r.rule_id) (λ r. r.id == d.id) (set_columns now d) db.deliveries
        (λ r. refl) in
    let targets : map (λ r. some r.target_id)
          (update_where (λ r. r.id == d.id) (set_columns now d) db.deliveries)
        ≡ map (λ r. some r.target_id) db.deliveries =
      map-update_where (λ r. some r.target_id) (λ r. r.id == d.id) (set_columns now d) db.deliveries
        (λ r. refl) in
    record {
      source_table = i.source_table;
      target_table = i.target_table;
      rule_table = i.rule_table;
      event_sources = i.event_sources;
      rule_sources = i.rule_sources;
      rule_targets = i.rule_targets;
      pair_rules = i.pair_rules;
      pair_targets = i.pair_targets;
      delivery_rules =
          subst (λ l. (n : ℕ) → In (some n) l → In n (rule_ids db)) (sym rules) i.delivery_rules;
      delivery_targets =
          subst (λ l. (n : ℕ) → In (some n) l → In n (target_ids db)) (sym targets)
            i.delivery_targets;
    }

pub IsIntact-kept : (conn : Conn) → IsAlwaysKept (sqlite_store conn) IsIntact
IsIntact-kept conn = record {
  kept = record {
    by_create_delivery = create_delivery-IsIntact conn;
    by_update_delivery = update_delivery-IsIntact;
    by_create_attempt = create_attempt-IsIntact;
    by_update_status = update_status-IsIntact;
  };
  by_create_event = create_event-IsIntact conn;
}
