-- ===== src/Httpapi/Events/Routing.antt =====
-- The loop over the matched targets: each at most once, each counted once, and no request but to an
-- enabled target that the whitelist lets through.
use webhook_event_route.Prelude.{
  Distinct, ℕ, ◌+◌, ◌≡◌, refl, inl, inr, Bool, true, false, List, [], ◌∷◌, arith, Bool-cases, In,
  length, if◌then◌else◌,
}
use webhook_event_route.Domain.{Event, Target, Rule, Delivery}
use webhook_event_route.Config.{Config}
use webhook_event_route.Store.{Result, ok, err, Store}
use webhook_event_route.Engine.Match.{RuleMatch, is_seen}
use webhook_event_route.Engine.Match.Targets.{is_seen_iff}
use webhook_event_route.Dispatcher.World.{Env, World}
use webhook_event_route.Dispatcher.Send.{deliver}
use webhook_event_route.Httpapi.Events.{
  Server, Tally, tally_delivery, visit_found, visit_target, visit_targets, visit_matches,
  start_tally,
}

-- No target was visited twice, and each one visited is counted as delivered or failed, but for the
-- one at which the handler panicked.
pub record IsTallied {S : Type 0} (t : Tally S) : Type 0 where
  pub once : Distinct t.seen_target
  pub counted :
      t.delivered_count + t.failed_count + (if t.crashed then 1 else 0) ≡ length t.seen_target

module _ {S : Type 0} (st : Store S) (cfg : Config) (env : Env) where
  tally_delivery-IsTallied :
      (t : Tally S) (tid : ℕ) (out : World S × Result Delivery)
      → t.crashed ≡ false
      → ¬ In tid t.seen_target
      → IsTallied t
      → IsTallied (tally_delivery st cfg env t tid out)
  unfolding tally_delivery
  tally_delivery-IsTallied t tid (w, ok dv) up new h = record {
    once = (new, h.once);
    counted = ground (arith, h.counted);
  }
  tally_delivery-IsTallied t tid (w, err e) up new h = record {
    once = (new, h.once);
    counted = ground (arith, h.counted);
  }

  visit_found-IsTallied :
      (t : Tally S) (event : Event) (rule : Rule) (tid : ℕ) (r : Result Target)
      → t.crashed ≡ false
      → ¬ In tid t.seen_target
      → IsTallied t
      → IsTallied (visit_found st cfg env t event rule tid r)
  unfolding visit_found
  visit_found-IsTallied t event rule tid (err e) up new h = h
  visit_found-IsTallied t event rule tid (ok target) up new h = elim (Bool-cases target.enabled) [
    | inl on ↦ rw on (
        tally_delivery-IsTallied t tid (deliver st cfg env t.server.world event rule target) up new
          h)
    | inr off ↦ rw off h
  ]

  visit_target-IsTallied :
      (t : Tally S) (event : Event) (rule : Rule) (tid : ℕ)
      → IsTallied t
      → IsTallied (visit_target st cfg env t event rule tid)
  unfolding visit_target
  visit_target-IsTallied t event rule tid h =
      by_tests t.crashed refl (is_seen t.seen_target tid) refl
    where
      by_tests :
          (c : Bool)
          → t.crashed ≡ c
          → (b : Bool) → is_seen t.seen_target tid ≡ b
          → IsTallied (
              if c
              then t
              else if b
              then t
              else visit_found st cfg env t event rule tid (st.get_target tid t.server.world.db))
      by_tests true e b f = h
      by_tests false e true f = h
      by_tests false e false f =
          visit_found-IsTallied t event rule tid (st.get_target tid t.server.world.db) e
            (λ m. cc ((is_seen_iff t.seen_target tid).1 m)) h

  visit_targets-IsTallied :
      (tids : List ℕ) (t : Tally S) (event : Event) (rule : Rule)
      → IsTallied t
      → IsTallied (visit_targets st cfg env t event rule tids)
  unfolding visit_targets
  visit_targets-IsTallied [] t event rule h = h
  visit_targets-IsTallied (tid ∷ tids) t event rule h =
      visit_targets-IsTallied tids (visit_target st cfg env t event rule tid) event rule
        (visit_target-IsTallied t event rule tid h)

  visit_matches-IsTallied :
      (ms : List RuleMatch) (t : Tally S) (event : Event)
      → IsTallied t
      → IsTallied (visit_matches st cfg env t event ms)
  unfolding visit_matches
  visit_matches-IsTallied [] t event h = h
  visit_matches-IsTallied (m ∷ ms) t event h =
      visit_matches-IsTallied ms (visit_targets st cfg env t event m.rule m.target_ids) event
        (visit_targets-IsTallied m.target_ids t event m.rule h)

  -- Over any list of matches, the loop visits no target twice, and the numbers of delivered and of
  -- failed deliveries add up to the number of targets visited, but for one that made it panic.
  pub routing-IsTallied :
      (ms : List RuleMatch) (s : Server S) (event : Event)
      → IsTallied (visit_matches st cfg env (start_tally s) event ms)
  routing-IsTallied ms s event =
      visit_matches-IsTallied ms (start_tally s) event (record { once = tt; counted = omega arith })
