-- ===== src/Httpapi/Events/Effects.antt =====
-- What the handler does to the database, the network and the counters, by the answer that it gives.
use webhook_event_route.Prelude.{ℕ, ◌+◌, ◌≡◌, ◌≢◌, refl, ◌⊎◌, inl, inr, Option, arith, Text}
use webhook_event_route.Domain.{Event, duplicate}
use webhook_event_route.Errs.{Error}
use webhook_event_route.Runtime.{Runtime}
use webhook_event_route.Config.{Config}
use webhook_event_route.Store.{Result-cases, ok, Assigned, Store}
use webhook_event_route.Metrics.{count_event}
use webhook_event_route.Dispatcher.World.{Env}
use webhook_event_route.Httpapi.Events.{
  Codec, Check, pass, refuse, Admitted, admit, Answer, failure, duplicate_of, accepted_as, Server,
  new_event, handle_create_event,
}

pub Check-cases :
    {A : Type 0} (c : Check A) → ((a : A) × (c ≡ pass a)) ⊎ ((e : Error) × (c ≡ refuse e))
Check-cases (pass a) = inl (a, refl)
Check-cases (refuse e) = inr (e, refl)

module _ {S : Type 0} (lib : Runtime) (codec : Codec) (st : Store S) (cfg : Config) (env : Env)
    (s : Server S) (read : Option Text) (signature : Text) where
  abbrev handled : Server S × Answer
  handled = handle_create_event lib codec st cfg env s read signature

  abbrev verdict : Check Admitted
  verdict = admit lib codec st cfg env s.world read signature

  -- A request that is not admitted is answered with the error of the check that failed, and leaves
  -- the database, the network and the counters alone. So does one whose event was stored before: it
  -- is answered with that event's identifier and status, and counted as a duplicate.
  pub handle_refused :
      ((e : Error)
        → verdict ≡ refuse e
        → (handled.1 ≡ failure e)
          × (handled.0.world.db ≡ s.world.db)
          × (handled.0.world.requests ≡ s.world.requests)
          × (handled.0.metrics ≡ s.metrics))
      × ((a : Admitted) (existing : Event)
          → verdict ≡ pass a
          → st.get_by_key a.request.source_id a.request.event_id s.world.db ≡ ok existing
          → (handled.1 ≡ duplicate_of existing.id existing.status)
            × (handled.0.world.db ≡ s.world.db)
            × (handled.0.world.requests ≡ s.world.requests)
            × (handled.0.metrics ≡ count_event s.metrics duplicate))
  unfolding handle_create_event
  handle_refused = (λ e h. ground arith, λ a existing h k. ground arith)

  -- The handler answers 202 only for a request that it admitted, whose key the lookup did not find,
  -- and whose event was stored; the identifier answered is the one that the store assigned.
  pub handle_accepted :
      (id : ℕ)
      → handled.1 ≡ accepted_as id
      → (a : Admitted) × (verdict ≡ pass a)
        × ((e : Event) → st.get_by_key a.request.source_id a.request.event_id s.world.db ≢ ok e)
        × (x : Assigned) × ((st.create_event
              (env.now (s.world.ticks + 1))
              (new_event a)
              s.world.db).1
            ≡ ok x)
        × (x.id ≡ id)
  unfolding handle_create_event
  handle_accepted id h = elim (Check-cases verdict) [
    | inr (e, r) ↦ absurd (ground arith)
    | inl (a, p) ↦
        elim (Result-cases (st.get_by_key a.request.source_id a.request.event_id s.world.db)) [
          | inl (e, k) ↦ absurd (ground arith)
          | inr (f, k) ↦
              elim (Result-cases
                (st.create_event (env.now (s.world.ticks + 1)) (new_event a) s.world.db).1) [
                  | inr (g, c) ↦ absurd (ground arith)
                  | inl (x, c) ↦ (a, p, (λ e q. cc), x, c, ground arith)
                ]
        ]
  ]
