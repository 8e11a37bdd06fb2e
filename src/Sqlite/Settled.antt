-- ===== src/Sqlite/Settled.antt =====
-- What a turn of the background worker leaves alone.
use mathlib.Core.Path.{subst}
use webhook_event_route.Sqlite.Conn.{Conn}
use webhook_event_route.Prelude.{
  true, ℕ, ◌≡◌, ◌≢◌, refl, sym, ap, ◌∙◌, Bool, false, List, [], ◌∷◌, map, inl, inr, In, In-map,
  Distinct, Bool-cases, ==_iff, take, ◌+◌, ◌*◌, ◌==◌, arith,
}
use webhook_event_route.Domain.{Delivery, DeliveryAttempt, second, unix_epoch}
use webhook_event_route.Config.{Config}
use webhook_event_route.Store.{ok, err, Result, Result-cases}
use webhook_event_route.Store.Kept.{IsKeptFor, both_branches}
use webhook_event_route.Dispatcher.World.{Env, World, ticked}
use webhook_event_route.Dispatcher.Worker.{unix_seconds, batch, retry_one, retry_all, retry}
use webhook_event_route.Dispatcher.Send.Kept.{retry_one_kept_for}
use webhook_event_route.Sqlite.Tables.{Db, find, is_some, update_where, select_where, order_by}
use webhook_event_route.Sqlite.Tables.Order.{
  order_by-In, take-In, select_where-In, Distinct-select_column, Distinct-order_column,
  Distinct-take_column,
}
use webhook_event_route.Sqlite.Deliveries.{
  set_columns, may_retry, is_due, due_deliveries, update_delivery, create_delivery_attempt,
}
use webhook_event_route.Sqlite.Instance.{sqlite_store}
use webhook_event_route.Sqlite.Invariant.{IsWellFormed}

-- An update leaves a row that does not pass the test where it is.
pub other_row-In :
    {A : Type 0} (q : A → Bool) (g : A → A) (xs : List A) (x : A)
    → q x ≡ false
    → In x xs
    → In x (update_where q g xs)
unfolding update_where
other_row-In q g [] x e m = elim m [ ]
other_row-In q g (y ∷ xs) x e (inl p) =
    let kept : q y ≡ false = subst (λ z. q z ≡ false) p e in rw kept (inl p)
other_row-In q g (y ∷ xs) x e (inr m) = inr (other_row-In q g xs x e m)

-- Where the values of a column are distinct, a row is given by its value.
pub same_row :
    {A B : Type 0} (f : A → B) (xs : List A) (x y : A)
    → Distinct (map f xs)
    → In x xs
    → In y xs
    → f x ≡ f y
    → x ≡ y
same_row f [] x y d m n e = elim m [ ]
same_row f (z ∷ xs) x y (new, d) (inl p) (inl q) e = p ∙ sym q
same_row f (z ∷ xs) x y (new, d) (inr m) (inr n) e = same_row f xs x y d m n e
same_row f (z ∷ xs) x y (new, d) (inl p) (inr n) e =
    absurd (new (subst (λ v. In v (map f xs)) (sym e ∙ ap f p) (In-map f xs y n)))
same_row f (z ∷ xs) x y (new, d) (inr m) (inl q) e =
    absurd (new (subst (λ v. In v (map f xs)) (e ∙ ap f q) (In-map f xs x m)))

module _ (conn : Conn) (now limit : ℕ) (db : Db) (due : List Delivery)
    (found : due_deliveries conn now limit db ≡ ok due) where
  -- The deliveries that are due stand in the table, and may be retried.
  pub due-In : (x : Delivery) → In x due → In x db.deliveries × (may_retry x.status ≡ true)
  unfolding due_deliveries
  due-In x n =
      let test = is_due conn (unix_epoch + now * second) in
      let rows = order_by _ (select_where test db.deliveries) in
      let due_rows : take limit rows ≡ due = ap (λ r. elim r [ ok l ↦ l | err e ↦ due ]) found in
      let (stored, passed) =
        select_where-In test db.deliveries x
          ((order_by-In _ _ x).0 (take-In limit rows x (subst (λ l. In x l) (sym due_rows) n))) in
      (stored, ground (arith, passed))

  -- Each of them stands once in the list.
  pub due_once : Distinct (map (λ r. r.id) db.deliveries) → Distinct (map (λ r. r.id) due)
  unfolding due_deliveries
  due_once distinct =
      let chosen = select_where (is_due conn (unix_epoch + now * second)) db.deliveries in
      let rows = order_by _ chosen in
      let due_rows : take limit rows ≡ due = ap (λ r. elim r [ ok l ↦ l | err e ↦ due ]) found in
      subst (λ l. Distinct (map (λ r. r.id) l)) due_rows
        (Distinct-take_column (λ r. r.id) limit rows
          (Distinct-order_column (λ r. r.id) _ chosen
            (Distinct-select_column (λ r. r.id) _ db.deliveries distinct)))

module _ (conn : Conn) (cfg : Config) (env : Env) (d : Delivery) where
  -- The delivery stands in the table.
  abbrev pub Stands : Db → Type 0
  Stands db = In d db.deliveries

  other_test : (x : Delivery) (id : ℕ) → id ≢ d.id → x.id ≡ id → (d.id == x.id) ≡ false
  other_test x id other e = elim (Bool-cases (d.id == x.id)) [
    | inr n ↦ n
    | inl y ↦ absurd (other (sym e ∙ sym ((==_iff d.id x.id).0 y)))
  ]

  attempt-Stands :
      (now : ℕ) (a : DeliveryAttempt) (db : Db)
      → Stands db
      → Stands (create_delivery_attempt now a db).0
  unfolding create_delivery_attempt
  attempt-Stands now a db m =
      both_branches (λ (r : Db × Result ℕ). Stands r.0)
        (is_some (find (λ x. x.id == a.delivery_id) db.deliveries)) _ _ m m

  pub Stands-IsKeptFor : (id : ℕ) → id ≢ d.id → IsKeptFor (sqlite_store conn) Stands id
  unfolding update_delivery
  Stands-IsKeptFor id other = record {
    by_update = λ now x db e m.
        other_row-In (λ r. r.id == x.id) (set_columns now x) db.deliveries d
          (other_test x id other e) m;
    by_attempt = attempt-Stands;
  }

  retry_all-Stands :
      (due : List Delivery) (w : World Db)
      → ((x : Delivery) → In x due → x.id ≢ d.id)
      → Stands w.db
      → Stands (retry_all (sqlite_store conn) cfg env w due).db
  unfolding retry_all
  retry_all-Stands [] w other m = m
  retry_all-Stands (x ∷ due) w other m =
      retry_all-Stands due (retry_one (sqlite_store conn) cfg env w x) (λ y n. other y (inr n))
        (retry_one_kept_for (sqlite_store conn) cfg env Stands x.id
          (Stands-IsKeptFor x.id (other x (inl refl))) w x refl m)

  due_differ :
      (now limit : ℕ) (db : Db) (due : List Delivery)
      → IsWellFormed db
      → Stands db
      → may_retry d.status ≡ false
      → due_deliveries conn now limit db ≡ ok due
      → (x : Delivery) → In x due
      → x.id ≢ d.id
  due_differ now limit db due formed m settled found x n same =
      let (stored, waits) = due-In conn now limit db due found x n in
      let equal : x ≡ d =
        same_row (λ r. r.id) db.deliveries x d formed.deliveries_once stored m same in
      let rests : may_retry x.status ≡ false =
        subst (λ r. may_retry r.status ≡ false) (sym equal) settled in
      absurd (ground (arith, waits, rests))

  -- On well-formed tables of the SQLite store, a turn of the worker leaves each delivery that is neither
  -- failed nor retrying as it is: one that is delivered stays delivered, one that is dead stays dead,
  -- and their rows do not change.
  pub retry_keeps_settled :
      (w : World Db)
      → IsWellFormed w.db
      → In d w.db.deliveries
      → may_retry d.status ≡ false
      → In d (retry (sqlite_store conn) cfg env w).db.deliveries
  unfolding retry
  retry_keeps_settled w formed m settled =
      let now = unix_seconds (env.now w.ticks) in
      elim (Result-cases (due_deliveries conn now (batch (sqlite_store conn) cfg env) w.db)) [
        | inr (f, e) ↦ rw (e, retry) m
        | inl (due, e) ↦
            rw (e, retry)
              (retry_all-Stands due (ticked w)
                (due_differ now (batch (sqlite_store conn) cfg env) w.db due formed m settled e) m)
      ]
