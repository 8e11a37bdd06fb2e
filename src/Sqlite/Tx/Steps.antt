-- ===== src/Sqlite/Tx/Steps.antt =====
-- What holds at the end of a transaction that succeeds, from what holds after each of its steps.
use webhook_event_route.Prelude.{◌≡◌, inl, inr, Bool-cases, true, arith}
use webhook_event_route.Store.{Result, Result-cases, ok}
use webhook_event_route.Sqlite.Tables.{Db}
use webhook_event_route.Sqlite.Tx.{Tx, Action, tx, exec, pure, ◌>>=◌, ◌>>◌}

-- Where the step succeeds from `t`, its result and the state after it satisfy `P`.
pub record Ensures {A : Type 0} (P : A → Tx → Type 0) (m : Action A) (t : Tx) : Type 0 where
  pub after : (a : A) (u : Tx) → m t ≡ ok (a, u) → P a u

-- The same for the whole.
pub record Ends {A : Type 0} (P : A → Db → Type 0) (o : Db × Result A) : Type 0 where
  pub ended : (a : A) → o.1 ≡ ok a → P a o.0

pub bind-Ensures :
    {A B : Type 0} (Q : A → Tx → Type 0) (P : B → Tx → Type 0) (m : Action A) (f : A → Action B)
    (t : Tx)
    → Ensures Q m t
    → ((a : A) (u : Tx) → Q a u → Ensures P (f a) u)
    → Ensures P (m >>= f) t
bind-Ensures Q P m f t first rest = record {
  after = λ b v h. elim (Result-cases (m t)) [
    | inr (e, s) ↦ cc (rw (s, ◌>>=◌) at h)
    | inl ((a, u), s) ↦ (rest a u (first.after a u s)).after b v (rw (s, ◌>>=◌) at h)
  ];
}

pub then-Ensures :
    {B : Type 0} (Q : Tx → Type 0) (P : B → Tx → Type 0) (m : Action (Unit {0})) (k : Action B)
    (t : Tx)
    → Ensures (λ _ u. Q u) m t
    → ((u : Tx) → Q u → Ensures P k u)
    → Ensures P (m >> k) t
then-Ensures Q P m k t first rest = bind-Ensures (λ _ u. Q u) P m (λ _. k) t first (λ _ u. rest u)

pub pure-Ensures :
    {A : Type 0} (P : A → Tx → Type 0) (a : A) (t : Tx) → P a t → Ensures P (pure a) t
pure-Ensures P a t holds = record {
  after = λ b u h.
      let same : a ≡ b = ground arith in
      let kept : t ≡ u = ground arith in rw (← same, ← kept) holds;
}

pub exec-Ensures :
    {A : Type 0} (P : A → Db → Type 0) (statement : Db → Result (A × Db)) (t : Tx)
    → ((a : A) (db : Db) → statement t.tables ≡ ok (a, db) → P a db)
    → Ensures (λ a u. P a u.tables) (exec statement) t
exec-Ensures P statement t done = record {
  after = λ a u h. elim (Bool-cases t.live) [
    | inr e ↦ cc (rw e at h)
    | inl e ↦ elim (Result-cases (statement t.tables)) [
      | inr (f, s) ↦ cc (rw (e, s) at h)
      | inl ((b, db), s) ↦ done a u.tables (ground arith)
    ]
  ];
}

pub tx-Ends :
    {A : Type 0} (P : A → Db → Type 0) (body : Action A) (db : Db)
    → Ensures (λ a t. P a t.tables) body (record { tables = db; live = true })
    → Ends P (tx body db)
unfolding tx
tx-Ends P body db steps = record {
  ended = λ a h. elim (Result-cases (body (record { tables = db; live = true }))) [
    | inr (e, s) ↦ absurd (ground arith)
    | inl ((b, t), s) ↦
        let same : b ≡ a = ground arith in
        let kept : (tx body db).0 ≡ t.tables = ground arith in rw (kept, ← same) (steps.after b t s)
  ];
}
