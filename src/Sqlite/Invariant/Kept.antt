-- ===== src/Sqlite/Invariant/Kept.antt =====
-- Every write of the stores keeps the constraints of the schema.
use mathlib.Core.Path.{subst}
use webhook_event_route.Sqlite.Conn.{Conn}
use webhook_event_route.Prelude.{
  ℕ, ◌+◌, ◌≡◌, ◌≤◌, refl, sym, ap, true, false, List, [], ◌∷◌, map, In, Distinct, inl, inr, arith,
  Bool-cases, ◌==◌, Text, text_eq_iff,
}
use webhook_event_route.Domain.{Event, EventStatus, Delivery, DeliveryAttempt}
use webhook_event_route.Store.Kept.{IsAlwaysKept}
use webhook_event_route.Sqlite.Tables.{Db, find, is_some}
use webhook_event_route.Sqlite.Events.{
  may_insert_event, event_row, has_key, create_event, update_status,
}
use webhook_event_route.Sqlite.Deliveries.{
  may_insert_delivery, set_columns, create_delivery, update_delivery, create_delivery_attempt,
}
use webhook_event_route.Sqlite.Instance.{sqlite_store}
use webhook_event_route.Sqlite.Tx.Aside.{SameTraffic}
use webhook_event_route.Sqlite.Invariant.{
  event_ids, event_keys, delivery_ids, delivery_events, attempt_deliveries, IsWellFormed,
  map-update_where, find-In, In-snoc, In-snoc_old, Distinct-snoc,
}

-- A key that is not found stands in no row.
unfound-key :
    (source_id : ℕ) (event_id : Text) (es : List Event)
    → is_some (find (has_key source_id event_id) es) ≡ false
    → ¬ In {A = ℕ × Text} (source_id, event_id) (map (λ e. (e.source_id, e.event_id)) es)
unfolding find is_some
unfound-key source_id event_id [] h m = m
unfound-key source_id event_id (e ∷ es) h (inl p) =
    ground (arith, ap (λ k. k.0) p, (text_eq_iff e.event_id event_id).1 (sym (ap (λ k. k.1) p)))
unfound-key source_id event_id (e ∷ es) h (inr m) =
    elim (Bool-cases (has_key source_id event_id e)) [
      | inl k ↦ cc (rw k at h)
      | inr k ↦ unfound-key source_id event_id es (rw k at h) m
    ]

create_event_formed :
    (conn : Conn) (now : ℕ) (e : Event) (db : Db)
    → IsWellFormed db
    → IsWellFormed (create_event conn now e db).0
unfolding create_event may_insert_event
create_event_formed conn now e db h = elim (Bool-cases (may_insert_event e db)) [
  | inr bad ↦ rw (bad, create_event) h
  | inl fits ↦
      let new = event_row (db.last_event + 1) now e in
      let free : is_some (find (has_key e.source_id e.event_id) db.events) ≡ false = ground arith in
      rw (fits, create_event)
        (record {
          events_given = λ id m. elim (In-snoc (λ r. r.id) db.events new id m) [
            | inl a ↦ omega (arith, h.events_given id a)
            | inr p ↦ omega (arith, p)
          ];
          events_once =
              Distinct-snoc (λ r. r.id) db.events new h.events_once
                (λ m. omega (arith, h.events_given _ m));
          keys_once =
              Distinct-snoc (λ r. (r.source_id, r.event_id)) db.events new h.keys_once
                (unfound-key e.source_id e.event_id db.events free);
          deliveries_given = h.deliveries_given;
          deliveries_once = h.deliveries_once;
          deliveries_of_events =
              λ id m. In-snoc_old (λ r. r.id) db.events new id (h.deliveries_of_events id m);
          attempts_of_deliveries = h.attempts_of_deliveries;
        })
]

create_delivery_formed :
    (conn : Conn) (now : ℕ) (d : Delivery) (db : Db)
    → IsWellFormed db
    → IsWellFormed (create_delivery conn now d db).0
unfolding create_delivery may_insert_delivery
create_delivery_formed conn now d db h = elim (Bool-cases (may_insert_delivery d db)) [
  | inr bad ↦ rw (bad, create_delivery) h
  | inl fits ↦
      let new = record d {
        id = db.last_delivery + 1;
        created_at = now;
        updated_at = conn.next_reading now;
      } in
      let stored : is_some (find (λ e. e.id == d.event_id) db.events) ≡ true = ground arith in
      rw (fits, create_delivery)
        (record {
          events_given = h.events_given;
          events_once = h.events_once;
          keys_once = h.keys_once;
          deliveries_given = λ id m. elim (In-snoc (λ r. r.id) db.deliveries new id m) [
            | inl a ↦ omega (arith, h.deliveries_given id a)
            | inr p ↦ omega (arith, p)
          ];
          deliveries_once =
              Distinct-snoc (λ r. r.id) db.deliveries new h.deliveries_once
                (λ m. omega (arith, h.deliveries_given _ m));
          deliveries_of_events = λ id m. elim (In-snoc (λ r. r.event_id) db.deliveries new id m) [
            | inl a ↦ h.deliveries_of_events id a
            | inr p ↦
                subst (λ n. In n (event_ids db)) (sym p)
                  (find-In (λ e. e.id) db.events d.event_id stored)
          ];
          attempts_of_deliveries =
              λ id m. In-snoc_old (λ r. r.id) db.deliveries new id (h.attempts_of_deliveries id m);
        })
]

create_attempt_formed :
    (now : ℕ) (a : DeliveryAttempt) (db : Db)
    → IsWellFormed db
    → IsWellFormed (create_delivery_attempt now a db).0
unfolding create_delivery_attempt
create_attempt_formed now a db h =
    elim (Bool-cases (is_some (find (λ d. d.id == a.delivery_id) db.deliveries))) [
      | inr bad ↦ rw (bad, create_delivery_attempt) h
      | inl fits ↦
          let new = record a { id = db.last_attempt + 1; started_at = now; finished_at = now } in
          rw (fits, create_delivery_attempt)
            (record {
              events_given = h.events_given;
              events_once = h.events_once;
              keys_once = h.keys_once;
              deliveries_given = h.deliveries_given;
              deliveries_once = h.deliveries_once;
              deliveries_of_events = h.deliveries_of_events;
              attempts_of_deliveries = λ id m.
                  elim (In-snoc (λ r. r.delivery_id) db.attempts new id m) [
                    | inl b ↦ h.attempts_of_deliveries id b
                    | inr p ↦
                        subst (λ n. In n (delivery_ids db)) (sym p)
                          (find-In (λ d. d.id) db.deliveries a.delivery_id fits)
                  ];
            })
    ]

-- An update of the events that keeps their identifiers and keys.
update_status_formed :
    (id : ℕ) (status : EventStatus) (reason : Text) (db : Db)
    → IsWellFormed db
    → IsWellFormed (update_status id status reason db).0
unfolding update_status
update_status_formed id status reason db h =
    let g : Event → Event = λ e. record e { status = status; reject_reason = reason } in
    let ids : event_ids (update_status id status reason db).0 ≡ event_ids db =
      map-update_where (λ e. e.id) (λ e. e.id == id) g db.events (λ e. refl) in
    let keys : event_keys (update_status id status reason db).0 ≡ event_keys db =
      map-update_where (λ e. (e.source_id, e.event_id)) (λ e. e.id == id) g db.events (λ e. refl) in
    record {
      events_given = subst (λ l. (n : ℕ) → In n l → n ≤ db.last_event) (sym ids) h.events_given;
      events_once = subst Distinct (sym ids) h.events_once;
      keys_once = subst Distinct (sym keys) h.keys_once;
      deliveries_given = h.deliveries_given;
      deliveries_once = h.deliveries_once;
      deliveries_of_events =
          subst (λ l. (n : ℕ) → In n (delivery_events db) → In n l) (sym ids)
            h.deliveries_of_events;
      attempts_of_deliveries = h.attempts_of_deliveries;
    }

update_delivery_formed :
    (now : ℕ) (d : Delivery) (db : Db) → IsWellFormed db → IsWellFormed (update_delivery now d db).0
unfolding update_delivery
update_delivery_formed now d db h =
    let ids : delivery_ids (update_delivery now d db).0 ≡ delivery_ids db =
      map-update_where (λ r. r.id) (λ r. r.id == d.id) (set_columns now d) db.deliveries
        (λ r. refl) in
    let refs : delivery_events (update_delivery now d db).0 ≡ delivery_events db =
      map-update_where (λ r. r.event_id) (λ r. r.id == d.id) (set_columns now d) db.deliveries
        (λ r. refl) in
    record {
      events_given = h.events_given;
      events_once = h.events_once;
      keys_once = h.keys_once;
      deliveries_given =
          subst (λ l. (n : ℕ) → In n l → n ≤ db.last_delivery) (sym ids) h.deliveries_given;
      deliveries_once = subst Distinct (sym ids) h.deliveries_once;
      deliveries_of_events =
          subst (λ l. (n : ℕ) → In n l → In n (event_ids db)) (sym refs) h.deliveries_of_events;
      attempts_of_deliveries =
          subst (λ l. (n : ℕ) → In n (attempt_deliveries db) → In n l) (sym ids)
            h.attempts_of_deliveries;
    }

pub formed_kept : (conn : Conn) → IsAlwaysKept (sqlite_store conn) IsWellFormed
formed_kept conn = record {
  kept = record {
    by_create_delivery = create_delivery_formed conn;
    by_update_delivery = update_delivery_formed;
    by_create_attempt = create_attempt_formed;
    by_update_status = update_status_formed;
  };
  by_create_event = create_event_formed conn;
}

pub formed_configured : (d d' : Db) → SameTraffic d d' → IsWellFormed d → IsWellFormed d'
formed_configured d d' same h = record {
  events_given = λ id m. rw same.last_event (h.events_given id (rw same.events at m));
  events_once = rw same.events h.events_once;
  keys_once = rw same.events h.keys_once;
  deliveries_given =
      λ id m. rw same.last_delivery (h.deliveries_given id (rw same.deliveries at m));
  deliveries_once = rw same.deliveries h.deliveries_once;
  deliveries_of_events =
      λ id m. rw same.events (h.deliveries_of_events id (rw same.deliveries at m));
  attempts_of_deliveries =
      λ id m. rw same.deliveries (h.attempts_of_deliveries id (rw same.attempts at m));
}
