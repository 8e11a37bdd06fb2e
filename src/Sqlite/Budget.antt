-- ===== src/Sqlite/Budget.antt =====
-- How many tries the deliveries of a table have left.
pub mod Sends
pub mod Turns
use mathlib.Core.Path.{subst}
use webhook_event_route.Prelude.{
  ℕ, ◌+◌, ◌-◌, ◌≡◌, refl, sym, ap, ◌∙◌, true, false, List, [], ◌∷◌, map, inl, inr, In, In-map,
  Distinct, Bool-cases, leb, ◌==◌, ==_iff, arith, if◌then◌else◌,
}
use webhook_event_route.Domain.{Delivery, DeliveryStatus, failed, retrying}
use webhook_event_route.Sqlite.Tables.{update_where}
use webhook_event_route.Sqlite.Deliveries.{may_retry, set_columns}

-- A delivery that may be retried has the attempts up to the maximal number left, and one at least.
abbrev pub tries : ℕ → Delivery → ℕ
tries max d = if may_retry d.status then (if leb max d.attempts then 1 else max - d.attempts) else 0

abbrev pub budget : ℕ → List Delivery → ℕ
budget max [] = 0
budget max (d ∷ ds) = tries max d + budget max ds

module _ (max now : ℕ) (d : Delivery) where
  -- The statement that writes the columns of `d`.
  abbrev pub updated : ℕ → List Delivery → List Delivery
  updated id = update_where (λ r. r.id == id) (set_columns now d)

  absent_same :
      (id : ℕ) (ds : List Delivery)
      → ¬ In id (map (λ r. r.id) ds)
      → budget max (updated id ds) ≡ budget max ds
  unfolding update_where
  absent_same id [] new = refl
  absent_same id (x ∷ ds) new = elim (Bool-cases (x.id == id)) [
    | inl e ↦ absurd (new (inl (sym ((==_iff x.id id).0 e))))
    | inr e ↦ rw (e, absent_same id ds (λ m. new (inr m))) refl
  ]

  -- The budget changes by that of the row that is written.
  pub budget-updated :
      (old : Delivery) (ds : List Delivery)
      → Distinct (map (λ r. r.id) ds)
      → In old ds
      → budget max (updated old.id ds) + tries max old ≡ budget max ds + tries max d
  unfolding update_where
  budget-updated old [] distinct m = elim m [ ]
  budget-updated old (x ∷ ds) (new, distinct) (inl e) =
      let same : x.id ≡ old.id = ap (λ r. r.id) (sym e) in
      let rest =
        absent_same old.id ds (λ m. new (subst (λ k. In k (map (λ r. r.id) ds)) (sym same) m)) in
      let kept : tries max old ≡ tries max x = ap (tries max) e in
      rw ((==_iff x.id old.id).1 same, rest, kept) (omega arith)
  budget-updated old (x ∷ ds) (new, distinct) (inr m) = elim (Bool-cases (x.id == old.id)) [
    | inl e ↦ absurd (
        new (
          subst (λ k. In k (map (λ r. r.id) ds)) (sym ((==_iff x.id old.id).0 e))
            (In-map (λ r. r.id) ds old m)))
    | inr e ↦ rw e (omega (arith, budget-updated old ds distinct m))
  ]
