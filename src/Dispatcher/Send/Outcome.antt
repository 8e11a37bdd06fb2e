-- ===== src/Dispatcher/Send/Outcome.antt =====
-- What one `send` does to the delivery and to the network, on every branch.
use mathlib.Core.List.{append-nil}
use webhook_event_route.Prelude.{
  ℕ, ◌+◌, ◌≡◌, ◌⊎◌, true, false, none, some, List, [], ◌∷◌, ◌++◌, arith, Text, codes, leb,
  if◌then◌else◌,
}
use webhook_event_route.Domain.{Target, Delivery, DeliveryStatus, delivered, retrying, dead}
use webhook_event_route.Config.{Config}
use webhook_event_route.Store.{Store}
use webhook_event_route.Dispatcher.World.{Request, Reply, transport_error, response, Env, World}
use webhook_event_route.Dispatcher.Send.{is_success, send}

-- Dead from the maximal number of attempts on, else retrying.
abbrev pub after_failure : ℕ → ℕ → DeliveryStatus
after_failure max attempts = if leb max attempts then dead else retrying

module _ {S : Type 0} (st : Store S) (cfg : Config) (env : Env) (w : World S) (d : Delivery)
    (target : Target) (body : Text) where
  abbrev pub after : World S × Delivery
  after = send st cfg env w d target body

  abbrev pub asked : Reply
  asked = env.perform (w.ticks + 1) (record { url = target.url; body = body })

  -- The branches of `send`. Where no request can be made or none is answered, one attempt is counted
  -- and the error is recorded. Where the answer is a success (2xx), one attempt is counted, the
  -- delivery is delivered and its error cleared. Where the answer is anything else, two attempts are
  -- counted. A failed delivery is dead from the maximal number of attempts on, and retrying below.
  pub send_lem :
      ((e : Text)
        → (env.new_request target.url ≡ some e)
          ⊎ ((env.new_request target.url ≡ none) × (asked ≡ transport_error e))
        → (after.1.attempts ≡ d.attempts + 1)
          × (after.1.last_error ≡ e)
          × (after.1.status ≡ after_failure cfg.max_retries (d.attempts + 1)))
      × ((status : ℕ) (reply : Text)
          → env.new_request target.url ≡ none
          → asked ≡ response status reply
          → (is_success status ≡ true
              → (after.1.attempts ≡ d.attempts + 1)
                × (after.1.last_error ≡ [])
                × (after.1.status ≡ delivered))
            × (is_success status ≡ false
                → (after.1.attempts ≡ d.attempts + 2)
                  × (after.1.last_error ≡ codes "unexpected status " ++ env.status_text status)
                  × (after.1.status ≡ after_failure cfg.max_retries (d.attempts + 2))))
  unfolding send
  send_lem =
      (λ e h. ground arith, λ status reply made answered. (λ h. ground arith, λ h. ground arith))

  -- `send` keeps the identity of the delivery, and asks the network for the target's URL with the
  -- given body once, or not at all where no request can be made for the URL.
  send_keeps :
      (after.1.id ≡ d.id)
      × (after.1.event_id ≡ d.event_id)
      × (after.1.rule_id ≡ d.rule_id)
      × (after.1.target_id ≡ d.target_id)
  unfolding send
  send_keeps = ground arith

  abbrev pub asks : List Request
  asks = elim (env.new_request target.url) [
    | some e ↦ []
    | none ↦ record { url = target.url; body = body } ∷ []
  ]

  pub send_requests : after.0.requests ≡ w.requests ++ asks
  unfolding send
  send_requests = ground (arith, append-nil w.requests)
