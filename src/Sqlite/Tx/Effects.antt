-- ===== src/Sqlite/Tx/Effects.antt =====
-- Reasoning about a transaction: a relation between the tables before and after each step, which is
-- reflexive and transitive, holds between the tables before and after the whole.
use webhook_event_route.Prelude.{◌≡◌, inl, inr, true, Bool-cases, arith}
use webhook_event_route.Store.{Result, Result-cases, ok}
use webhook_event_route.Sqlite.Tables.{Db}
use webhook_event_route.Sqlite.Tx.{Pool, Tx, Action, tx, exec, pool_read, pure, ◌>>=◌}

pub record IsPreorder (R : Db → Db → Type 0) : Type 0 where
  pub same : (db : Db) → R db db
  pub join : (a b c : Db) → R a b → R b c → R a c

-- Where the step succeeds, the tables before and after it are related.
abbrev pub Relates : (R : Db → Db → Type 0) → {A : Type 0} → Action A → Type 0
Relates R {A} m = (t t' : Tx) (a : A) → m t ≡ ok (a, t') → R t.tables t'.tables

-- The same for a statement.
abbrev pub Effect : (R : Db → Db → Type 0) → {A : Type 0} → (Db → Result (A × Db)) → Type 0
Effect R {A} statement = (db db' : Db) (a : A) → statement db ≡ ok (a, db') → R db db'

module _ (R : Db → Db → Type 0) where
  pub exec-Relates :
      {A : Type 0} (statement : Db → Result (A × Db))
      → Effect R statement
      → Relates R (exec statement)
  exec-Relates statement effect t t' a h = elim (Bool-cases t.live) [
    | inr e ↦ cc (rw e at h)
    | inl e ↦ elim (Result-cases (statement t.tables)) [
      | inr (f, s) ↦ cc (rw (e, s) at h)
      | inl ((b, db), s) ↦
          let k : db ≡ t'.tables = ground arith in rw (← k) (effect t.tables db b s)
    ]
  ]

  pub bind-Relates :
      IsPreorder R
      → {A B : Type 0} (m : Action A) (f : A → Action B) → Relates R m
      → ((a : A) → Relates R (f a))
      → Relates R (m >>= f)
  bind-Relates order m f first rest t t' b h = elim (Result-cases (m t)) [
    | inr (e, s) ↦ cc (rw (s, ◌>>=◌) at h)
    | inl ((a, u), s) ↦ order.join _ _ _ (first t u a s) (rest a u t' b (rw (s, ◌>>=◌) at h))
  ]

  module _ (order : IsPreorder R) where
    pub pool_read-Relates : {A : Type 0} (pool : Pool) (r : Result A) → Relates R (pool_read pool r)
    pool_read-Relates pool r t t' a h =
        let k : t.tables ≡ t'.tables = ground arith in rw (← k) (order.same t.tables)

    pub pure-Relates : {A : Type 0} (a : A) → Relates R (pure a)
    pure-Relates a t t' b h =
        let k : t.tables ≡ t'.tables = ground arith in rw (← k) (order.same t.tables)

    pub tx-Relates : {A : Type 0} (body : Action A) (db : Db) → Relates R body → R db (tx body db).0
    unfolding tx
    tx-Relates body db step = elim (Result-cases (body (record { tables = db; live = true }))) [
      | inr (e, s) ↦ rw (s, tx) (order.same db)
      | inl ((a, u), s) ↦ elim (Bool-cases u.live) [
        | inl l ↦ rw (s, l, tx) (step _ u a s)
        | inr l ↦ rw (s, l, tx) (order.same db)
      ]
    ]
