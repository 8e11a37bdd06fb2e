-- ===== src/Sqlite/Readback.antt =====
-- Reading back what was created: CreateSource and GetSource, CreateTarget and GetTarget.
pub mod Pairs
pub mod Written
pub mod Rules
use webhook_event_route.Prelude.{
  ℕ, ◌+◌, ◌≡◌, ◌≤◌, refl, sym, ap, ◌∙◌, true, false, none, some, Option, List, [], ◌∷◌, ◌++◌, map,
  inl, inr, In, any, Bool-cases, ==_iff, ◌==◌, arith, text_eq,
}
use webhook_event_route.Domain.{Source, Target}
use webhook_event_route.Store.{Assigned, ok, err}
use webhook_event_route.Sqlite.Tables.{Db, find}
use webhook_event_route.Sqlite.Tx.{tx}
use webhook_event_route.Sqlite.Audit.{Host, log_change}
use webhook_event_route.Sqlite.Events.{get_source, get_target}
use webhook_event_route.Sqlite.Sources.{insert_source, create_source}
use webhook_event_route.Sqlite.Targets.{insert_target, create_target}
use webhook_event_route.Sqlite.Intact.{IsTable, source_ids, target_ids}

-- The row that was put behind a table under a new identifier is the one found under it.
pub find-snoc :
    {A : Type 0} (id : A → ℕ) (xs : List A) (last : ℕ) (x : A)
    → ((n : ℕ) → In n (map id xs) → n ≤ last)
    → id x ≡ last + 1
    → find (λ y. id y == last + 1) (xs ++ x ∷ []) ≡ some x
unfolding find
find-snoc id [] last x given e = rw (e, (==_iff (last + 1) (last + 1)).1 refl) refl
find-snoc id (y ∷ xs) last x given e = elim (Bool-cases (id y == last + 1)) [
  | inl s ↦ absurd (omega (arith, (==_iff (id y) (last + 1)).0 s, given (id y) (inl refl)))
  | inr s ↦ rw s (find-snoc id xs last x (λ n m. given n (inr m)) e)
]

module _ (host : Host) (now : ℕ) (db : Db) (a : Assigned) where
  -- On well-formed tables: a source that was created with an identifier is read back under it, with
  -- that identifier and the first reading of the clock; the one that was created has the next.
  pub create_source_lem :
      (src : Source)
      → IsTable (source_ids db) db.last_source
      → (create_source host now src db).1 ≡ ok a
      → (a.at ≡ host.next_reading now)
        × (get_source a.id (create_source host now src db).0
            ≡ ok (record src { id = a.id; created_at = now; updated_at = now }))
  unfolding create_source tx insert_source log_change get_source
  create_source_lem src ids done =
      elim (Bool-cases (any (λ s. text_eq s.name src.name) db.sources)) [
        | inl e ↦ absurd (ground arith)
        | inr e ↦
            let id_given : a.id ≡ db.last_source + 1 = ground arith in
            let at_next : a.at ≡ host.next_reading now = ground arith in
            let row = record src { id = db.last_source + 1; created_at = now; updated_at = now } in
            let made : (create_source host now src db).0.sources ≡ db.sources ++ row ∷ [] =
              ground arith in
            (
              at_next,
              rw
                  (
                    made,
                    id_given,
                    find-snoc (λ s. s.id) db.sources db.last_source row ids.given refl,
                  )
                  refl,
            )
      ]

  -- On well-formed tables: a target that was created with an identifier is read back under it, with
  -- that identifier and the first reading of the clock; the one that was created has the next.
  pub create_target_lem :
      (t : Target)
      → IsTable (target_ids db) db.last_target
      → (create_target host now t db).1 ≡ ok a
      → (a.at ≡ host.next_reading now)
        × (get_target a.id (create_target host now t db).0
            ≡ ok (record t { id = a.id; created_at = now; updated_at = now }))
  unfolding create_target tx insert_target log_change get_target
  create_target_lem t ids done = elim (Bool-cases (any (λ s. text_eq s.name t.name) db.targets)) [
    | inl e ↦ absurd (ground arith)
    | inr e ↦
        let id_given : a.id ≡ db.last_target + 1 = ground arith in
        let at_next : a.at ≡ host.next_reading now = ground arith in
        let row = record t { id = db.last_target + 1; created_at = now; updated_at = now } in
        let made : (create_target host now t db).0.targets ≡ db.targets ++ row ∷ [] =
          ground arith in
        (
          at_next,
          rw (made, id_given, find-snoc (λ s. s.id) db.targets db.last_target row ids.given refl)
              refl,
        )
  ]
