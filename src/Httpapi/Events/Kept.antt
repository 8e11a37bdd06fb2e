-- ===== src/Httpapi/Events/Kept.antt =====
-- What the writes of events and `Deliver` keep, the handler of a posted event keeps.
use webhook_event_route.Prelude.{ℕ, Option, Text, List, [], ◌∷◌, inl, inr, not}
use webhook_event_route.Domain.{Event, Rule, Target, Delivery}
use webhook_event_route.Runtime.{Runtime}
use webhook_event_route.Config.{Config}
use webhook_event_route.Engine.Match.{RuleMatch, is_seen, match_rules}
use webhook_event_route.Store.{Result, Result-cases, ok, err, Store}
use webhook_event_route.Store.Kept.{both_branches}
use webhook_event_route.Dispatcher.Operated.{IsOperated}
use webhook_event_route.Dispatcher.World.{Env, World, ticked, with_db}
use webhook_event_route.Dispatcher.Send.{deliver}
use webhook_event_route.Httpapi.Events.{
  Server, Tally, Answer, start_tally, final_status, tally_delivery, visit_found, visit_target,
  visit_targets, visit_matches, finish, route_event, Codec, Admitted, new_event, store_event,
  deduplicate, handle_create_event, admit,
}
use webhook_event_route.Httpapi.Events.Effects.{Check-cases}

module _ {S : Type 0} (st : Store S) (cfg : Config) (env : Env) (P : S → Type 0)
    (k : IsOperated st cfg env P) where
  tally_delivery_kept :
      (t : Tally S) (tid : ℕ) (w : World S) (r : Result Delivery)
      → P w.db
      → P (tally_delivery st cfg env t tid (w, r)).server.world.db
  unfolding tally_delivery
  tally_delivery_kept t tid w (ok d) p = p
  tally_delivery_kept t tid w (err e) p = p

  visit_found_kept :
      (t : Tally S) (event : Event) (rule : Rule) (tid : ℕ) (r : Result Target)
      → P t.server.world.db
      → P (visit_found st cfg env t event rule tid r).server.world.db
  unfolding visit_found
  visit_found_kept t event rule tid (err e) p = p
  visit_found_kept t event rule tid (ok target) p =
      let after = deliver st cfg env t.server.world event rule target in
      both_branches (λ (u : Tally S). P u.server.world.db) (not target.enabled) _ _ p
        (tally_delivery_kept t tid after.0 after.1
          (k.by_deliver t.server.world event rule target p))

  pub visit_target_kept :
      (t : Tally S) (event : Event) (rule : Rule) (tid : ℕ)
      → P t.server.world.db
      → P (visit_target st cfg env t event rule tid).server.world.db
  unfolding visit_target
  visit_target_kept t event rule tid p =
      both_branches (λ (u : Tally S). P u.server.world.db) t.crashed _ _ p
        (both_branches (λ (u : Tally S). P u.server.world.db) (is_seen t.seen_target tid) _ _ p
          (visit_found_kept t event rule tid (st.get_target tid t.server.world.db) p))

  pub visit_targets_kept :
      (tids : List ℕ) (t : Tally S) (event : Event) (rule : Rule)
      → P t.server.world.db
      → P (visit_targets st cfg env t event rule tids).server.world.db
  unfolding visit_targets
  visit_targets_kept [] t event rule p = p
  visit_targets_kept (tid ∷ tids) t event rule p =
      visit_targets_kept tids (visit_target st cfg env t event rule tid) event rule
        (visit_target_kept t event rule tid p)

  visit_matches_kept :
      (ms : List RuleMatch) (t : Tally S) (event : Event)
      → P t.server.world.db
      → P (visit_matches st cfg env t event ms).server.world.db
  unfolding visit_matches
  visit_matches_kept [] t event p = p
  visit_matches_kept (m ∷ ms) t event p =
      visit_matches_kept ms (visit_targets st cfg env t event m.rule m.target_ids) event
        (visit_targets_kept m.target_ids t event m.rule p)

  finish_kept :
      (t : Tally S) (event : Event) → P t.server.world.db → P (finish st cfg env t event).0.world.db
  unfolding finish
  finish_kept t event p =
      both_branches (λ (r : Server S × Answer). P r.0.world.db) t.crashed _ _ p
        (k.by_update_status event.id (final_status t.delivered_count t.failed_count) []
          t.server.world.db p)

  pub route_event_kept :
      (lib : Runtime) (s : Server S) (event : Event)
      → P s.world.db
      → P (route_event lib st cfg env s event).0.world.db
  unfolding route_event
  route_event_kept lib s event p = elim (Result-cases (st.list_enabled_rules s.world.db)) [
    | inr (f, e) ↦ rw (e, route_event) p
    | inl (rules, e) ↦
        let ms = match_rules lib rules event.source_id event.event_type event.payload in
        rw (e, route_event)
          (finish_kept (visit_matches st cfg env (start_tally s) event ms) event
            (visit_matches_kept ms (start_tally s) event p))
  ]

module _ {S : Type 0} (lib : Runtime) (codec : Codec) (st : Store S) (cfg : Config) (env : Env)
    (P : S → Type 0) (k : IsOperated st cfg env P) where
  store_event_kept :
      (s : Server S) (a : Admitted) → P s.world.db → P (store_event lib st cfg env s a).0.world.db
  unfolding store_event
  store_event_kept s a p =
      let made = st.create_event (env.now s.world.ticks) (new_event a) s.world.db in
      let q = k.by_create_event (env.now s.world.ticks) (new_event a) s.world.db p in
      elim (Result-cases made.1) [
        | inr (f, e) ↦ rw (e, store_event) q
        | inl (x, e) ↦
            rw (e, store_event)
              (route_event_kept st cfg env P k lib (record s { world = with_db s.world made.0 })
                (record (new_event a) { id = x.id; received_at = x.at; created_at = x.at }) q)
      ]

  deduplicate_kept :
      (s : Server S) (a : Admitted) → P s.world.db → P (deduplicate lib st cfg env s a).0.world.db
  unfolding deduplicate
  deduplicate_kept s a p =
      elim (Result-cases (st.get_by_key a.request.source_id a.request.event_id s.world.db)) [
        | inl (e, q) ↦ rw (q, deduplicate) p
        | inr (f, q) ↦ rw (q, deduplicate) (store_event_kept s a p)
      ]

  pub handle_kept :
      (s : Server S) (read : Option Text) (signature : Text)
      → P s.world.db
      → P (handle_create_event lib codec st cfg env s read signature).0.world.db
  unfolding handle_create_event
  handle_kept s read signature p =
      elim (Check-cases (admit lib codec st cfg env s.world read signature)) [
        | inr (e, q) ↦ rw (q, handle_create_event) p
        | inl (a, q) ↦
            rw (q, handle_create_event) (deduplicate_kept (record s { world = ticked s.world }) a p)
      ]
