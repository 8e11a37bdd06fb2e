-- ===== src/Httpapi/Api/Status.antt =====
-- The status line of each answer: the calls of `respondJSON` and `respondErr` of
-- internal/httpapi/server.go.
use webhook_event_route.Prelude.{ℕ, Option, none, some, ◌==◌, if◌then◌else◌}
use webhook_event_route.Errs.{Error}
use webhook_event_route.Httpapi.Events.{
  Answer, failure, duplicate_of, accepted_as, panicked, Check, pass, refuse,
}
use webhook_event_route.Httpapi.Resources.{
  Outcome, failed, created, fetched, listed, updated, deleted,
}
use webhook_event_route.Httpapi.Api.{
  Response, answer, event_detail, deliveries, of_source, of_rule, of_target, retried, audit,
  written,
}

-- `respondErr`
unfoldable pub error_status : Error → ℕ
error_status e = if e.status == 0 then 400 else e.status

abbrev pub check_status : {A : Type 0} → Check A → ℕ
check_status (pass a) = 200
check_status (refuse e) = error_status e

abbrev pub outcome_status : {A : Type 0} → Outcome A → ℕ
outcome_status (failed e) = error_status e
outcome_status (created a) = 201
outcome_status (fetched a) = 200
outcome_status (listed as') = 200
outcome_status (updated a) = 200
outcome_status deleted = 200

-- A panic closes the connection with no answer.
abbrev pub answer_status : Answer → Option ℕ
answer_status (failure e) = some (error_status e)
answer_status (duplicate_of id status) = some 409
answer_status (accepted_as id) = some 202
answer_status panicked = none

unfoldable pub status_of_response : Response → Option ℕ
unfolding error_status
status_of_response (answer a) = answer_status a
status_of_response (event_detail c) = some (check_status c)
status_of_response (deliveries c) = some (check_status c)
status_of_response (of_source o) = some (outcome_status o)
status_of_response (of_rule o) = some (outcome_status o)
status_of_response (of_target o) = some (outcome_status o)
status_of_response (retried c) = some (check_status c)
status_of_response (audit c) = some (check_status c)
status_of_response (written body) = some 200
