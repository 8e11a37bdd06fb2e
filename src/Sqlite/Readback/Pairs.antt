-- ===== src/Sqlite/Readback/Pairs.antt =====
-- The rows of rule_targets that the loop of `persistTargets` writes.
use webhook_event_route.Prelude.{
  ℕ, ◌≡◌, refl, sym, ap, ◌∙◌, ◌⊎◌, true, List, [], ◌∷◌, ◌++◌, map, inl, inr, In, any, Bool-cases,
  ==_iff, ◌==◌, arith, In-append, In-append_left, In-append_right,
}
use webhook_event_route.Store.{ok, Result-cases}
use webhook_event_route.Sqlite.Tables.{Db, RuleTarget, select_where}
use webhook_event_route.Sqlite.Tx.{Tx}
use webhook_event_route.Sqlite.Rules.Writes.{is_pair, insert_rule_target, add_targets}

-- The targets that stand beside a rule.
unfoldable pub targets_of : ℕ → List RuleTarget → List ℕ
unfolding select_where
targets_of k ps = map (λ p. p.target_id) (select_where (λ p. p.rule_id == k) ps)

pair_found : (k t : ℕ) (ps : List RuleTarget) → any (is_pair k t) ps ≡ true → In t (targets_of k ps)
unfolding targets_of select_where
pair_found k t [] h = cc
pair_found k t (p ∷ ps) h = elim (Bool-cases (p.rule_id == k)) [
  | inr e ↦ rw e (pair_found k t ps (rw e at h))
  | inl e ↦ elim (Bool-cases (p.target_id == t)) [
    | inl q ↦ rw e (inl (sym ((==_iff p.target_id t).0 q)))
    | inr q ↦ rw e (inr (pair_found k t ps (rw (e, q) at h)))
  ]
]

pair_added :
    (k : ℕ) (p : RuleTarget) (ps : List RuleTarget)
    → p.rule_id ≡ k
    → targets_of k (ps ++ p ∷ []) ≡ targets_of k ps ++ p.target_id ∷ []
unfolding targets_of select_where
pair_added k p [] e = rw ((==_iff p.rule_id k).1 e) refl
pair_added k p (q ∷ ps) e = elim (Bool-cases (q.rule_id == k)) [
  | inl s ↦ rw (s, pair_added k p ps e) refl
  | inr s ↦ rw (s, pair_added k p ps e) refl
]

-- After the statement, or the loop, the targets beside the rule are those of before and the new ones.
pub record Adds (k : ℕ) (new : List ℕ) (db db' : Db) : Type 0 where
  pub same_rules : db'.rules ≡ db.rules
  pub old : (x : ℕ) → In x (targets_of k db.rule_targets) → In x (targets_of k db'.rule_targets)
  pub added : (x : ℕ) → In x new → In x (targets_of k db'.rule_targets)
  pub only :
      (x : ℕ)
      → In x (targets_of k db'.rule_targets)
      → In x (targets_of k db.rule_targets) ⊎ In x new

insert_rule_target-Adds :
    (k t : ℕ) (db db' : Db) (u : Unit {0})
    → insert_rule_target k t db ≡ ok (u, db')
    → Adds k (t ∷ []) db db'
unfolding insert_rule_target
insert_rule_target-Adds k t db db' u h = elim (Bool-cases (any (is_pair k t) db.rule_targets)) [
  | inl e ↦
      let same : db'.rule_targets ≡ db.rule_targets = ground arith in
      record {
        same_rules = ground arith;
        old = λ x m. rw same m;
        added = λ x m. elim m [
          | inl q ↦ rw (same, q) (pair_found k t db.rule_targets e)
          | inr n ↦ elim n [ ]
        ];
        only = λ x m. inl (rw same at m);
      }
  | inr e ↦
      let pair : RuleTarget = record { rule_id = k; target_id = t } in
      let same : db'.rule_targets ≡ db.rule_targets ++ pair ∷ [] = ground arith in
      let all : targets_of k db'.rule_targets ≡ targets_of k db.rule_targets ++ t ∷ [] =
        ap (targets_of k) same ∙ pair_added k pair db.rule_targets refl in
      record {
        same_rules = ground arith;
        old = λ x m. rw all (In-append_left x _ (t ∷ []) m);
        added = λ x m. rw all (In-append_right x (targets_of k db.rule_targets) (t ∷ []) m);
        only = λ x m. In-append x (targets_of k db.rule_targets) (t ∷ []) (rw all at m);
      }
]

pub add_targets-Adds :
    (k : ℕ) (new : List ℕ) (t t' : Tx) (u : Unit {0})
    → add_targets k new t ≡ ok (u, t')
    → Adds k new t.tables t'.tables
unfolding add_targets
add_targets-Adds k [] t t' u h =
    let same : t.tables ≡ t'.tables = ground arith in
    rw (← same)
      (record { same_rules = refl; old = λ x m. m; added = λ x m. elim m [ ]; only = λ x m. inl m })
add_targets-Adds k (n ∷ new) t t' u h = elim (Bool-cases t.live) [
  | inr e ↦ cc (rw e at h)
  | inl e ↦ elim (Result-cases (insert_rule_target k n t.tables)) [
    | inr (f, s) ↦ absurd (ground arith)
    | inl ((v, db), s) ↦
        let first = insert_rule_target-Adds k n t.tables db v s in
        let rest = add_targets-Adds k new (record t { tables = db }) t' u (ground arith) in
        record {
          same_rules = rest.same_rules ∙ first.same_rules;
          old = λ x m. rest.old x (first.old x m);
          added =
              λ x m. elim m [ inl q ↦ rest.old x (first.added x (inl q)) | inr i ↦ rest.added x i ];
          only = λ x m. elim (rest.only x m) [
            | inr i ↦ inr (inr i)
            | inl i ↦ elim (first.only x i) [
              | inl j ↦ inl j
              | inr (inl q) ↦ inr (inl q)
              | inr (inr j) ↦ elim j [ ]
            ]
          ];
        }
  ]
]

-- What is written to other tables afterwards does not matter.
pub Adds-aside :
    (k : ℕ) (new : List ℕ) (a b c : Db)
    → Adds k new a b
    → c.rules ≡ b.rules
    → c.rule_targets ≡ b.rule_targets
    → Adds k new a c
Adds-aside k new a b c h rules pairs = record {
  same_rules = rules ∙ h.same_rules;
  old = λ x m. rw pairs (h.old x m);
  added = λ x m. rw pairs (h.added x m);
  only = λ x m. h.only x (rw pairs at m);
}
