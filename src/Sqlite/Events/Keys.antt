-- ===== src/Sqlite/Events/Keys.antt =====
-- The SQLite store keeps the keys of events.
use webhook_event_route.Sqlite.Conn.{Conn}
use webhook_event_route.Prelude.{
  ℕ, ◌+◌, ◌≡◌, refl, ap, Bool, true, Option, none, some, List, [], ◌∷◌, ◌++◌, Text, text_eq_refl,
  if◌then◌else◌, Bool-cases, inl, inr, arith, ◌==◌,
}
use webhook_event_route.Domain.{Event, EventStatus, Delivery, DeliveryAttempt}
use webhook_event_route.Store.{ok, Assigned}
use webhook_event_route.Sqlite.Tables.{Db, find, row, update_where}
use webhook_event_route.Sqlite.Events.{
  has_key, event_row, may_insert_event, get_by_key, create_event, update_status,
}
use webhook_event_route.Sqlite.Deliveries.{
  create_delivery, update_delivery, create_delivery_attempt,
}
use webhook_event_route.Sqlite.Instance.{sqlite_store}
use webhook_event_route.Sqlite.Tx.{Pool}
use webhook_event_route.Sqlite.Audit.{Host}
use webhook_event_route.Sqlite.Configured.{sqlite_resources}
use webhook_event_route.Sqlite.Configured.Kept.{traffic_kept}
use webhook_event_route.Httpapi.History.Keys.{Knows, KeyLaws}

-- The first row that passes a test stays it when rows are added behind.
find-append :
    {A : Type 0} (p : A → Bool) (xs ys : List A) (x : A)
    → find p xs ≡ some x
    → find p (xs ++ ys) ≡ some x
unfolding find
find-append p [] ys x e = cc
find-append p (a ∷ xs) ys x e = ground (arith, find-append p xs ys x)

-- It is the first row added where no row before passes.
find-append_new :
    {A : Type 0} (p : A → Bool) (xs : List A) (x : A)
    → find p xs ≡ none
    → p x ≡ true
    → find p (xs ++ x ∷ []) ≡ some x
unfolding find
find-append_new p [] x e h = ground arith
find-append_new p (a ∷ xs) x e h = ground (arith, find-append_new p xs x)

-- An update that keeps the tested columns changes the row that is found, and no other is found.
find-update_where :
    {A : Type 0} (p q : A → Bool) (f : A → A) (xs : List A) (x : A)
    → ((a : A) → p (f a) ≡ p a)
    → find p xs ≡ some x
    → find p (update_where q f xs) ≡ some (if q x then f x else x)
unfolding find update_where
find-update_where p q f [] x keeps e = cc
find-update_where p q f (a ∷ xs) x keeps e =
    ground (arith, keeps a, find-update_where p q f xs x keeps)

found : {A : Type 0} (o : Option A) (x : A) → row o ≡ ok x → o ≡ some x
found none x e = cc
found (some a) x e = cc

module _ (conn : Conn) where
  created_known :
      (now : ℕ) (e : Event) (db : Db) (x : Assigned)
      → (create_event conn now e db).1 ≡ ok x
      → Knows (sqlite_store conn) e.source_id e.event_id x.id (create_event conn now e db).0
  unfolding create_event may_insert_event get_by_key
  created_known now e db x made = elim (Bool-cases (may_insert_event e db)) [
    | inr h ↦ absurd (ground arith)
    | inl h ↦
        let id = db.last_event + 1 in
        let same : id ≡ x.id = ground arith in
        let free : find (has_key e.source_id e.event_id) db.events ≡ none = ground arith in
        let own : has_key e.source_id e.event_id (event_row id now e) ≡ true =
          ground (arith, text_eq_refl e.event_id) in
        rw (h, create_event, get_by_key)
          (
            event_row id now e,
            ap row (
                find-append_new (has_key e.source_id e.event_id) db.events (event_row id now e) free
                  own),
            same,
          )
  ]

  create_event_known :
      (source_id : ℕ) (event_id : Text) (id : ℕ) (now : ℕ) (e : Event) (db : Db)
      → Knows (sqlite_store conn) source_id event_id id db
      → Knows (sqlite_store conn) source_id event_id id (create_event conn now e db).0
  unfolding create_event get_by_key
  create_event_known source_id event_id id now e db (old, k, same) =
      elim (Bool-cases (may_insert_event e db)) [
        | inl h ↦
            rw (h, create_event)
              (
                old,
                ap row (
                    find-append (has_key source_id event_id) db.events
                      (event_row (db.last_event + 1) now e ∷ []) old (found _ old k)),
                same,
              )
        | inr h ↦ rw (h, create_event) (old, k, same)
      ]

  update_status_known :
      (source_id : ℕ) (event_id : Text) (id : ℕ) (n : ℕ) (status : EventStatus) (reason : Text)
      (db : Db)
      → Knows (sqlite_store conn) source_id event_id id db
      → Knows (sqlite_store conn) source_id event_id id (update_status n status reason db).0
  unfolding update_status get_by_key
  update_status_known source_id event_id id n status reason db (old, k, same) = (
    if old.id == n then record old { status = status; reject_reason = reason } else old,
    ap row (
        find-update_where (has_key source_id event_id) (λ e. e.id == n)
          (λ e. record e { status = status; reject_reason = reason }) db.events old (λ a. refl)
          (found _ old k)),
    ground arith,
  )

  update_delivery_events :
      (now : ℕ) (d : Delivery) (db : Db) → (update_delivery now d db).0.events ≡ db.events
  unfolding update_delivery
  update_delivery_events now d db = refl

  create_delivery_events :
      (now : ℕ) (d : Delivery) (db : Db) → (create_delivery conn now d db).0.events ≡ db.events
  unfolding create_delivery
  create_delivery_events now d db = ground arith

  create_attempt_events :
      (now : ℕ) (a : DeliveryAttempt) (db : Db)
      → (create_delivery_attempt now a db).0.events ≡ db.events
  unfolding create_delivery_attempt
  create_attempt_events now a db = ground arith

  same_events :
      (source_id : ℕ) (event_id : Text) (id : ℕ) (db db' : Db)
      → db'.events ≡ db.events
      → Knows (sqlite_store conn) source_id event_id id db
      → Knows (sqlite_store conn) source_id event_id id db'
  unfolding get_by_key
  same_events source_id event_id id db db' e (old, k, same) = (old, rw e k, same)

  pub sqlite_keys :
      (host : Host) (pool : Pool) → KeyLaws (sqlite_store conn) (sqlite_resources host pool)
  sqlite_keys host pool = record {
    known_kept = λ source_id event_id id. record {
      kept = record {
        by_create_delivery =
            λ now d db. same_events source_id event_id id db _ (create_delivery_events now d db);
        by_update_delivery =
            λ now d db. same_events source_id event_id id db _ (update_delivery_events now d db);
        by_create_attempt =
            λ now a db. same_events source_id event_id id db _ (create_attempt_events now a db);
        by_update_status = update_status_known source_id event_id id;
      };
      by_create_event = create_event_known source_id event_id id;
    };
    known_configured = λ source_id event_id id.
        traffic_kept host pool (Knows (sqlite_store conn) source_id event_id id)
          (λ d d' same. same_events source_id event_id id d d' same.events);
    created_known = created_known;
  }
