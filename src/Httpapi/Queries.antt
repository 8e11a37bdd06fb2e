-- ===== src/Httpapi/Queries.antt =====
-- internal/httpapi: events.go (GET of an event), deliveries.go, audit.go, retry.go, metrics.go.
use webhook_event_route.Prelude.{
  ℕ, ℤ, pos, is_nonpositive, Option, none, some, List, [], ◌∷◌, if◌then◌else◌, Text, codes,
}
use webhook_event_route.Domain.{Event, Delivery, DeliveryAttempt, ChangeLog}
use webhook_event_route.Errs.{Code, Error, new}
use webhook_event_route.Strconv.{lenient}
use webhook_event_route.Config.{Config}
use webhook_event_route.Store.{Failure, not_found, typed, Result, ok, err, Store, at_id}
use webhook_event_route.Store.Resources.{Resources}
use webhook_event_route.Metrics.{Counters, render}
use webhook_event_route.Dispatcher.World.{Env, World}
use webhook_event_route.Dispatcher.Send.{requeue}
use webhook_event_route.Httpapi.Events.{Check, pass, refuse, Server, ◌>>=◌}
use webhook_event_route.Httpapi.Resources.{parse_id, found}

-- An event with its deliveries, each with its attempts.
pub record EventDetail : Type 0 where
  pub event : Event
  pub deliveries : List (Delivery × List DeliveryAttempt)

pub record Page (A : Type 0) : Type 0 where
  pub rows : List A
  pub page : ℤ
  pub limit : ℤ

-- The rows of a list whose error is dropped.
abbrev pub rows_of : {A : Type 0} → Result (List A) → List A
rows_of (ok rows) = rows
rows_of (err e) = []

-- A positive number, or else the default.
abbrev pub or_default : ℕ → ℤ → ℤ
or_default default n = if is_nonpositive n then pos default else n

abbrev pub paged : {A : Type 0} → Text → ℤ → ℤ → Result (List A) → Check (Page A)
paged msg page limit (ok rows) = pass (record { rows = rows; page = page; limit = limit })
paged msg page limit (err e) = refuse (new Code.internal msg)

module _ {S : Type 0} (st : Store S) (rs : Resources S) where
  unfoldable pub detail : S → Delivery → Delivery × List DeliveryAttempt
  detail db d = (d, rows_of (rs.list_by_delivery d.id db))

  unfoldable pub details : S → List Delivery → List (Delivery × List DeliveryAttempt)
  unfolding detail
  details db [] = []
  details db (d ∷ ds) = detail db d ∷ details db ds

  unfoldable pub handle_get_event : S → Text → Check EventDetail
  unfolding details parse_id new
  handle_get_event db path_id = do
    id ← parse_id path_id
    event ← found (codes "event") (at_id st.get_event id db)
    pass
        (record { event = event; deliveries = details db (rows_of (rs.list_by_event event.id db)) })

  -- The members of the query, the empty text where one is absent.
  unfoldable pub handle_list_deliveries : S → Text → Text → Text → Text → Check (Page Delivery)
  unfolding lenient new
  handle_list_deliveries db event_id status page limit =
      let n = or_default 1 (lenient page) in
      let k = or_default 20 (lenient limit) in
      paged (codes "internal error") n k (rs.list_deliveries (lenient event_id) status n k db)

  unfoldable pub handle_list_audit : S → Text → Text → Text → Text → Check (Page ChangeLog)
  unfolding lenient new
  handle_list_audit db entity_type entity_id page limit =
      let n = or_default 1 (lenient page) in
      let k = or_default 50 (lenient limit) in
      paged (codes "failed to list audit logs") n k
        (rs.list_change_logs entity_type (lenient entity_id) n k db)

-- The error that the manual retry answers.
abbrev pub retry_error : Failure → Error
retry_error not_found = new Code.not_found (codes "delivery not found")
retry_error (typed e) = e
retry_error _ = new Code.internal (codes "failed to retry delivery")

abbrev pub retried : Result Delivery → Check Delivery
retried (ok d) = pass d
retried (err e) = refuse (retry_error e)

module _ {S : Type 0} (st : Store S) (cfg : Config) (env : Env) where
  -- A negative identifier names no delivery.
  abbrev pub requeue_at : World S → ℤ → World S × Result Delivery
  requeue_at w (pos id) = requeue st cfg env w id
  requeue_at w _ = (w, err not_found)

  unfoldable pub handle_retry_delivery : Server S → Text → Server S × Check Delivery
  unfolding requeue parse_id new
  handle_retry_delivery s path_id = elim (parse_id path_id) [
    | refuse e ↦ (s, refuse e)
    | pass id ↦ let (w, r) = requeue_at s.world id in (record s { world = w }, retried r)
  ]

unfoldable pub handle_metrics : (ℕ → Text) → Option Counters → Text
unfolding render
handle_metrics format_int none = codes "{\"status\":\"metrics disabled\"}\n"
handle_metrics format_int (some cs) = render format_int cs
