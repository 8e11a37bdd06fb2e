-- ===== src/Httpapi/Events/Routed.antt =====
-- Where the requests of an event go, on any store.
use mathlib.Core.Path.{subst}
use webhook_event_route.Dispatcher.Operated.{IsOperated}
use webhook_event_route.Httpapi.Events.Kept.{visit_target_kept, visit_targets_kept}
use webhook_event_route.Prelude.{
  ℕ, ◌≡◌, refl, ◌⊎◌, inl, inr, Bool, true, false, not, List, [], ◌∷◌, ◌++◌, arith, codes, In,
  In-append, if◌then◌else◌,
}
use webhook_event_route.Domain.{Event, Target, Rule, Delivery}
use webhook_event_route.Errs.{Code, new}
use webhook_event_route.Runtime.{Runtime}
use webhook_event_route.Config.{Config}
use webhook_event_route.Store.{Result, ok, err, Store}
use webhook_event_route.Engine.Match.{RuleMatch, is_seen, match_rules}
use webhook_event_route.Dispatcher.Allow.{allowed}
use webhook_event_route.Dispatcher.World.{Request, Env, World}
use webhook_event_route.Dispatcher.Send.{deliver}
use webhook_event_route.Httpapi.Events.{
  Server, Tally, tally_delivery, visit_found, visit_target, visit_targets, visit_matches,
  start_tally, finish, route_event, Answer, failure,
}

module _ {S : Type 0} (st : Store S) (cfg : Config) (env : Env) where
  deliver_requests :
      (w : World S) (event : Event) (rule : Rule) (target : Target)
      → let after = (deliver st cfg env w event rule target).0.requests in
        (after ≡ w.requests)
        ⊎ ((allowed env.net target.url cfg.allow_private cfg.allow_loopback ≡ true)
            × (after ≡ w.requests ++ record { url = target.url; body = event.payload } ∷ []))
  unfolding deliver
  deliver_requests w event rule target = ground arith

module _ {S : Type 0} (st : Store S) (cfg : Config) (env : Env) (P : S → Type 0)
    (k : IsOperated st cfg env P) where
  -- A call that carries the event's payload to a target that the store returned on tables with the
  -- property, which is enabled and whose URL the whitelist lets through.
  abbrev pub IsProper : Event → Request → Type 0
  IsProper event r =
      (tid : ℕ) × (target : Target) × (db : S) × P db
      × (st.get_target tid db ≡ ok target)
      × (target.enabled ≡ true)
      × (allowed env.net target.url cfg.allow_private cfg.allow_loopback ≡ true)
      × (r ≡ record { url = target.url; body = event.payload })

  tally_delivery_requests :
      (t : Tally S) (tid : ℕ) (out : World S × Result Delivery)
      → (tally_delivery st cfg env t tid out).server.world.requests ≡ out.0.requests
  unfolding tally_delivery
  tally_delivery_requests t tid (w, ok dv) = refl
  tally_delivery_requests t tid (w, err e) = refl

  In-delivered :
      (w : World S) (event : Event) (rule : Rule) (tid : ℕ) (target : Target) (db : S) (r : Request)
      → P db
      → st.get_target tid db ≡ ok target
      → target.enabled ≡ true
      → In r (deliver st cfg env w event rule target).0.requests
      → In r w.requests ⊎ IsProper event r
  In-delivered w event rule tid target db r p found on m =
      elim (deliver_requests st cfg env w event rule target) [
        | inl e ↦ inl (subst (In r) e m)
        | inr (open_, e) ↦ elim (In-append r w.requests _ (subst (In r) e m)) [
          | inl old ↦ inl old
          | inr (inl q) ↦ inr (tid, target, db, p, found, on, open_, q)
          | inr (inr n) ↦ elim n [ ]
        ]
      ]

  visit_found_requests :
      (t : Tally S) (event : Event) (rule : Rule) (tid : ℕ) (db : S) (o : Result Target)
      (r : Request)
      → P db
      → st.get_target tid db ≡ o
      → In r (visit_found st cfg env t event rule tid o).server.world.requests
      → In r t.server.world.requests ⊎ IsProper event r
  unfolding visit_found
  visit_found_requests t event rule tid db (err e) r p found m = inl m
  visit_found_requests t event rule tid db (ok target) r p found m = by_flag target.enabled refl m
    where
      by_flag :
          (b : Bool)
          → target.enabled ≡ b
          → In r
              (if not b
                then t
                else tally_delivery st cfg env t tid
                    (deliver st cfg env t.server.world event rule target)).server.world.requests
          → In r t.server.world.requests ⊎ IsProper event r
      by_flag false e m' = inl m'
      by_flag true e m' =
          In-delivered t.server.world event rule tid target db r p found e
            (subst (In r) (tally_delivery_requests t tid _) m')

  visit_target_requests :
      (t : Tally S) (event : Event) (rule : Rule) (tid : ℕ) (r : Request)
      → P t.server.world.db
      → In r (visit_target st cfg env t event rule tid).server.world.requests
      → In r t.server.world.requests ⊎ IsProper event r
  unfolding visit_target
  visit_target_requests t event rule tid r p m = by_tests t.crashed (is_seen t.seen_target tid) m
    where
      by_tests :
          (c b : Bool)
          → In r
              (if c
                then t
                else if b
                then t
                else visit_found st cfg env t event rule tid
                    (st.get_target tid t.server.world.db)).server.world.requests
          → In r t.server.world.requests ⊎ IsProper event r
      by_tests true b m' = inl m'
      by_tests false true m' = inl m'
      by_tests false false m' =
          visit_found_requests t event rule tid t.server.world.db
            (st.get_target tid t.server.world.db) r p refl m'

  visit_targets_requests :
      (tids : List ℕ) (t : Tally S) (event : Event) (rule : Rule) (r : Request)
      → P t.server.world.db
      → In r (visit_targets st cfg env t event rule tids).server.world.requests
      → In r t.server.world.requests ⊎ IsProper event r
  unfolding visit_targets
  visit_targets_requests [] t event rule r p m = inl m
  visit_targets_requests (tid ∷ tids) t event rule r p m =
      elim (visit_targets_requests tids (visit_target st cfg env t event rule tid) event rule r
        (visit_target_kept st cfg env P k t event rule tid p) m) [
          | inl old ↦ visit_target_requests t event rule tid r p old
          | inr new ↦ inr new
        ]

  visit_matches_requests :
      (ms : List RuleMatch) (t : Tally S) (event : Event) (r : Request)
      → P t.server.world.db
      → In r (visit_matches st cfg env t event ms).server.world.requests
      → In r t.server.world.requests ⊎ IsProper event r
  unfolding visit_matches
  visit_matches_requests [] t event r p m = inl m
  visit_matches_requests (x ∷ ms) t event r p m =
      elim (visit_matches_requests ms (visit_targets st cfg env t event x.rule x.target_ids) event r
        (visit_targets_kept st cfg env P k x.target_ids t event x.rule p) m) [
          | inl old ↦ visit_targets_requests x.target_ids t event x.rule r p old
          | inr new ↦ inr new
        ]

  finish_requests :
      (t : Tally S) (event : Event)
      → (finish st cfg env t event).0.world.requests ≡ t.server.world.requests
  unfolding finish
  finish_requests t event = ground arith

  pub routed_requests :
      (lib : Runtime) (s : Server S) (event : Event) (r : Request)
      → P s.world.db
      → In r (route_event lib st cfg env s event).0.world.requests
      → In r s.world.requests ⊎ IsProper event r
  unfolding route_event
  routed_requests lib s event r p m = by_rules (st.list_enabled_rules s.world.db) m
    where
      by_rules :
          (o : Result (List Rule))
          → In r (
              let out : Server S × Answer = elim o [
                | err e ↦ (s, failure (new Code.internal (codes "failed to load rules")))
                | ok rules ↦
                    finish st cfg env
                      (visit_matches st cfg env
                        (start_tally s)
                        event
                        (match_rules lib rules event.source_id event.event_type event.payload))
                      event
              ] in
              out.0.world.requests)
          → In r s.world.requests ⊎ IsProper event r
      by_rules (err e) m' = inl m'
      by_rules (ok rules) m' =
          let ms : List RuleMatch =
            match_rules lib rules event.source_id event.event_type event.payload in
          visit_matches_requests ms (start_tally s) event r p (
            subst (In r) (finish_requests (visit_matches st cfg env (start_tally s) event ms) event)
              m')
