-- ===== src/Engine/Match/Targets.antt =====
-- The targets of a rule and of the matched rules: each once, and no other.
use mathlib.Core.Path.{subst}
use mathlib.Core.List.{cons≢nil}
use native.Mathlib.Decide.{ℕ_discrete}
use webhook_event_route.Prelude.{
  ℕ, ◌≡◌, ◌≢◌, refl, sym, ◌↔◌, ◌⊎◌, inl, inr, true, List, [], ◌∷◌, ◌++◌, ◌==◌, ==_iff, Bool-cases,
  Distinct, Distinct-append, In, In-append, In-append_left, In-append_right, if◌then◌else◌,
}
use webhook_event_route.Domain.{Rule}
use webhook_event_route.Engine.Match.{is_seen, fresh, resolve_targets, RuleMatch, select}

pub is_seen_iff : (seen : List ℕ) (id : ℕ) → (is_seen seen id ≡ true) ↔ In id seen
unfolding is_seen
is_seen_iff [] id = (λ e. cc, λ m. elim m [ ])
is_seen_iff (k ∷ seen) id = elim (Bool-cases (k == id)) [
  | inl e ↦ (λ _. inl (sym ((==_iff k id).0 e)), λ _. rw e)
  | inr e ↦ (
    λ h. inr ((is_seen_iff seen id).0 (rw e at h)),
    λ m. elim m [ inl p ↦ cc ((==_iff k id).1 (sym p)) | inr q ↦ rw e ((is_seen_iff seen id).1 q) ],
  )
]

-- What `fresh` keeps: the ids of the list that were not seen.
fresh-In : (seen ids : List ℕ) (x : ℕ) → In x (fresh seen ids) → In x ids × (¬ In x seen)
unfolding fresh
fresh-In seen [] x m = elim m [ ]
fresh-In seen (id ∷ ids) x m = elim (Bool-cases (is_seen seen id)) [
  | inl e ↦ let (a, b) = fresh-In seen ids x (rw e at m) in (inr a, b)
  | inr e ↦ elim (let h : In x (id ∷ fresh (id ∷ seen) ids) = rw e at m in h) [
    | inl p ↦ (inl p, λ q. cc ((is_seen_iff seen id).1 (subst (λ y. In y seen) p q)))
    | inr n ↦ let (a, b) = fresh-In (id ∷ seen) ids x n in (inr a, λ q. b (inr q))
  ]
]

In-fresh : (seen ids : List ℕ) (x : ℕ) → In x ids → ¬ In x seen → In x (fresh seen ids)
unfolding fresh
In-fresh seen [] x m new = elim m [ ]
In-fresh seen (id ∷ ids) x m new = elim (Bool-cases (is_seen seen id)) [
  | inl e ↦ elim m [
    | inl p ↦ absurd (new (subst (λ y. In y seen) (sym p) ((is_seen_iff seen id).0 e)))
    | inr n ↦ rw e (In-fresh seen ids x n new)
  ]
  | inr e ↦ elim m [
    | inl p ↦ rw e (inl p)
    | inr n ↦ elim (ℕ_discrete x id) [
      | yes p ↦ rw e (inl p)
      | no p ↦
          rw e (inr (In-fresh (id ∷ seen) ids x n (λ q. elim q [ inl s ↦ p s | inr t ↦ new t ])))
    ]
  ]
]

fresh-Distinct : (seen ids : List ℕ) → Distinct (fresh seen ids)
unfolding fresh
fresh-Distinct seen [] = tt
fresh-Distinct seen (id ∷ ids) = elim (Bool-cases (is_seen seen id)) [
  | inl e ↦ rw e (fresh-Distinct seen ids)
  | inr e ↦ rw e (λ m. (fresh-In (id ∷ seen) ids id m).1 (inl refl), fresh-Distinct (id ∷ seen) ids)
]

single_target :
    (t : ℕ)
    → let out : List ℕ = if t == 0 then [] else t ∷ [] in
      Distinct out
      × ((x : ℕ) → In x out ↔ (In x [] ⊎ ((◌≡◌ {A = List ℕ} [] []) × (x ≡ t) × (t ≢ 0))))
single_target t = elim (Bool-cases (t == 0)) [
  | inl e ↦ rw e (
    tt,
    λ x. (λ m. elim m [ ], λ k. elim k [ inl m ↦ m | inr (_, _, ne) ↦ ne ((==_iff t 0).0 e) ]),
  )
  | inr e ↦ rw e (
    ((λ m. m), tt),
    λ x. (
      λ m. elim m [ inl p ↦ inr (refl, p, λ z. cc ((==_iff t 0).1 z)) | inr n ↦ elim n [ ] ],
      λ k. elim k [ inl m ↦ elim m [ ] | inr (_, p, _) ↦ inl p ],
    ),
  )
]

-- `resolveTargets` returns each target once. With a list of targets these are the ids of that list,
-- without one it is the single target unless that is zero.
pub resolve_targets_lem :
    (r : Rule)
    → Distinct (resolve_targets r)
      × ((x : ℕ)
          → In x (resolve_targets r)
            ↔ (In x r.target_ids ⊎ ((r.target_ids ≡ []) × (x ≡ r.target_id) × (r.target_id ≢ 0))))
unfolding resolve_targets
resolve_targets_lem r = by_ids r.target_ids
  where
    by_ids :
        (l : List ℕ)
        → let out : List ℕ = elim l [
          | [] ↦ if r.target_id == 0 then [] else r.target_id ∷ []
          | id ∷ ids ↦ fresh [] (id ∷ ids)
        ] in
          Distinct out
          × ((x : ℕ) → In x out ↔ (In x l ⊎ ((l ≡ []) × (x ≡ r.target_id) × (r.target_id ≢ 0))))
    by_ids [] = single_target r.target_id
    by_ids (id ∷ ids) = (
      fresh-Distinct [] (id ∷ ids),
      λ x. (
        λ m. inl (fresh-In [] (id ∷ ids) x m).0,
        λ k. elim k [
          | inl m ↦ In-fresh [] (id ∷ ids) x m (λ n. n)
          | inr (e, _, _) ↦ absurd (cons≢nil e)
        ],
      ),
    )

pub select-Distinct_from :
    (seen : List ℕ) (ms : List RuleMatch)
    → Distinct (select seen ms) × ((x : ℕ) → In x (select seen ms) → ¬ In x seen)
unfolding select
select-Distinct_from seen [] = (tt, λ x m. elim m [ ])
select-Distinct_from seen (m ∷ ms) =
    let new : List ℕ = fresh seen m.target_ids in
    let (d, apart) = select-Distinct_from (new ++ seen) ms in
    (
      Distinct-append new _ (fresh-Distinct seen m.target_ids) d
          (λ x a b. apart x b (In-append_left x new seen a)),
      λ x h. elim (In-append x new _ h) [
        | inl a ↦ (fresh-In seen m.target_ids x a).1
        | inr b ↦ λ s. apart x b (In-append_right x new seen s)
      ],
    )

pub select-In :
    (seen : List ℕ) (ms : List RuleMatch) (x : ℕ)
    → In x (select seen ms)
    → (m : RuleMatch) × In m ms × In x m.target_ids
unfolding select
select-In seen [] x h = elim h [ ]
select-In seen (m ∷ ms) x h = elim (In-append x (fresh seen m.target_ids) _ h) [
  | inl a ↦ (m, inl refl, (fresh-In seen m.target_ids x a).0)
  | inr b ↦ let (n, p, q) = select-In (fresh seen m.target_ids ++ seen) ms x b in (n, inr p, q)
]

pub In-select :
    (seen : List ℕ) (ms : List RuleMatch) (m : RuleMatch) (x : ℕ)
    → In m ms
    → In x m.target_ids
    → ¬ In x seen
    → In x (select seen ms)
unfolding select
In-select seen [] m x p q new = elim p [ ]
In-select seen (n ∷ ms) m x (inl e) q new =
    In-append_left x (fresh seen n.target_ids) _
      (In-fresh seen n.target_ids x (subst (λ k. In x k.target_ids) e q) new)
In-select seen (n ∷ ms) m x (inr p) q new =
    let ids : List ℕ = fresh seen n.target_ids in
    elim (Bool-cases (is_seen ids x)) [
      | inl e ↦ In-append_left x ids _ ((is_seen_iff ids x).0 e)
      | inr e ↦ In-append_right x ids _ (
          In-select (ids ++ seen) ms m x p q (λ h. elim (In-append x ids seen h) [
            | inl a ↦ cc ((is_seen_iff ids x).1 a)
            | inr b ↦ new b
          ]))
    ]
