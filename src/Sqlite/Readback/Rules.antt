-- ===== src/Sqlite/Readback/Rules.antt =====
-- Reading back a rule: CreateRule and GetRule, and the targets that the engine resolves.
use mathlib.Core.Path.{subst}
use mathlib.Core.List.{cons≢nil}
use webhook_event_route.Prelude.{
  ℕ, ◌+◌, ◌≡◌, ◌≤◌, refl, sym, ◌∙◌, ◌↔◌, List, [], ◌∷◌, map, inl, inr, In, Bool-cases, ==_iff, ◌==◌,
  arith, ltb, some, if◌then◌else◌,
}
use webhook_event_route.Domain.{Rule}
use webhook_event_route.Store.{Assigned, ok}
use webhook_event_route.Engine.Match.{resolve_targets}
use webhook_event_route.Engine.Match.Targets.{resolve_targets_lem}
use webhook_event_route.Sqlite.Tables.{Db, RuleTarget, order_by, select_where}
use webhook_event_route.Sqlite.Audit.{Host}
use webhook_event_route.Sqlite.Rules.{get_rule, load_targets, with_targets, list_rule_targets}
use webhook_event_route.Sqlite.Rules.Writes.{rule_row, target_list, create_rule}
use webhook_event_route.Sqlite.Intact.{IsIntact}
use webhook_event_route.Sqlite.Readback.{find-snoc}
use webhook_event_route.Sqlite.Tables.Order.{order_by-In}
use webhook_event_route.Sqlite.Readback.Written.{created_rule}
use webhook_event_route.Sqlite.Readback.Pairs.{targets_of}

listed : (r : Rule) (t : ℕ) (ts : List ℕ) → r.target_ids ≡ t ∷ ts → target_list r ≡ t ∷ ts
unfolding target_list
listed r t ts e = rw e refl

unlisted :
    (r : Rule)
    → r.target_ids ≡ []
    → (target_list r ≡ (if r.target_id == 0 then [] else r.target_id ∷ []))
      × (resolve_targets r ≡ (if r.target_id == 0 then [] else r.target_id ∷ []))
unfolding target_list resolve_targets
unlisted r e = (rw e refl, rw e refl)

-- A rule's targets are those that `persistTargets` writes.
resolve_targets_iff : (r : Rule) (x : ℕ) → In x (resolve_targets r) ↔ In x (target_list r)
resolve_targets_iff r x = by_ids r.target_ids refl
  where
    by_ids : (l : List ℕ) → r.target_ids ≡ l → In x (resolve_targets r) ↔ In x (target_list r)
    by_ids [] e = let (p, q) = unlisted r e in rw (p, q) (λ m. m, λ m. m)
    by_ids (t ∷ ts) e =
        let (from, to) = (resolve_targets_lem r).1 x in
        (
          λ m. rw (listed r t ts e) (elim (from m) [
            | inl i ↦ subst (λ l. In x l) e i
            | inr (q, _, _) ↦ absurd (cons≢nil (sym e ∙ q))
          ]),
          λ m. to (inl (subst (λ l. In x l) (sym e) (rw (listed r t ts e) at m))),
        )

-- No pair names an identifier that was not given out.
none_beside :
    (ps : List RuleTarget) (last : ℕ)
    → ((n : ℕ) → In (some n) (map (λ p. some p.rule_id) ps) → n ≤ last)
    → (x : ℕ) → ¬ In x (targets_of (last + 1) ps)
unfolding targets_of select_where
none_beside [] last given x m = elim m [ ]
none_beside (p ∷ ps) last given x m = elim (Bool-cases (p.rule_id == last + 1)) [
  | inl e ↦ absurd (omega (arith, (==_iff p.rule_id (last + 1)).0 e, given p.rule_id (inl refl)))
  | inr e ↦ none_beside ps last (λ n i. given n (inr i)) x (rw e at m)
]

-- The targets of a stored rule, whatever the list that it was read with.
reloaded_iff :
    (row r : Rule) (l : List ℕ)
    → row.target_ids ≡ []
    → row.target_id ≡ r.target_id
    → ((x : ℕ) → In x l ↔ In x (target_list r))
    → (x : ℕ) → In x (resolve_targets (with_targets row l)) ↔ In x (resolve_targets r)
reloaded_iff row r (y ∷ l) none_listed same h x =
    let read : Rule = record row { target_ids = y ∷ l } in
    let whole : target_list read ≡ y ∷ l = listed read y l refl in
    (
      λ m.
          (resolve_targets_iff r x).1
            ((h x).0 (subst (λ k. In x k) whole ((resolve_targets_iff read x).0 m))),
      λ m.
          (resolve_targets_iff read x).1
            (subst (λ k. In x k) (sym whole) ((h x).1 ((resolve_targets_iff r x).0 m))),
    )
reloaded_iff row r [] none_listed same h x = by_ids r.target_ids refl
  where
    by_ids :
        (ids : List ℕ) → r.target_ids ≡ ids → In x (resolve_targets row) ↔ In x (resolve_targets r)
    by_ids [] e = rw ((unlisted row none_listed).1, (unlisted r e).1, same) (λ m. m, λ m. m)
    by_ids (t ∷ ts) e = elim ((h t).1 (rw (listed r t ts e) (inl refl))) [ ]

-- The list of targets is all that `loadTargets` changes.
but_targets :
    (row : Rule) (ids l : List ℕ)
    → record (with_targets row l) { target_ids = ids } ≡ record row { target_ids = ids }
but_targets row ids [] = refl
but_targets row ids (y ∷ l) = refl

-- On well-formed tables: a rule that was created with an identifier is read back under it, with the
-- that identifier and the first reading of the clock, where the one that was created has the next, and the engine resolves the same targets of the rule
-- that is read as of the one that was created.
pub create_rule_lem :
    (host : Host) (now : ℕ) (r : Rule) (db : Db) (a : Assigned)
    → IsIntact db
    → (create_rule host now r db).1 ≡ ok a
    → (read : Rule) × (get_rule a.id (create_rule host now r db).0 ≡ ok read)
      × (a.at ≡ host.next_reading now)
      × (record read { target_ids = r.target_ids }
          ≡ record r { id = a.id; created_at = now; updated_at = now })
      × ((x : ℕ) → In x (resolve_targets read) ↔ In x (resolve_targets r))
unfolding get_rule load_targets list_rule_targets targets_of
create_rule_lem host now r db a intact done =
    let (assigned, adds) = (created_rule host now r db).ended a done in
    let row : Rule = rule_row (db.last_rule + 1) now r in
    let db' : Db = (create_rule host now r db).0 in
    let l : List ℕ = order_by ltb (targets_of (db.last_rule + 1) db'.rule_targets) in
    let new : (x : ℕ) → ¬ In x (targets_of (db.last_rule + 1) db.rule_targets) =
      none_beside db.rule_targets db.last_rule
        (λ n m. intact.rule_table.given n (intact.pair_rules n m)) in
    let targets : (x : ℕ) → In x l ↔ In x (target_list r) = λ x. (
      λ m. elim (adds.only x ((order_by-In ltb _ x).0 m)) [ inl i ↦ absurd (new x i) | inr i ↦ i ],
      λ m. (order_by-In ltb _ x).1 (adds.added x m),
    ) in
    rw (← assigned) (
      with_targets row l,
      rw
          (
            adds.same_rules,
            find-snoc (λ k. k.id) db.rules db.last_rule row intact.rule_table.given refl,
          )
          refl,
      refl,
      but_targets row r.target_ids l,
      reloaded_iff row r l refl refl targets,
    )
