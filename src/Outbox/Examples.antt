-- ===== src/Outbox/Examples.antt =====
-- src/outbox/EventQueueGenericOutboxHandler.js: small runs.
use event_queue.Prelude.{refl, ◌≤◌, true, false, some, none, List, [], ◌∷◌, inl, str_eq}
use event_queue.Constants.{status_done, status_error}
use event_queue.Processor.Status.{Value, UpdateData, with_status}
use event_queue.Outbox.{
  saga_success, saga_failed, EventName, Handlers, check_handler_exists, follow_ups,
  publish_followup_events,
}
use event_queue.Outbox.Sagas.{start, follow, Chain-bound}
use event_queue.Outbox.Clusters.{Queued, Clustering, no_object, clusters}
use event_queue.Outbox.Clusters.Counted.{Counted}

-- A service with a handler for each saga.
abbrev handlers : Handlers
handlers = record { specific = λ action saga. true; generic = λ saga. false }

abbrev first : EventName
first = record { action = "post"; saga = none }

abbrev after_success : EventName
after_success = record { action = "post"; saga = some saga_success }

abbrev after_failure : EventName
after_failure = record { action = "post"; saga = some saga_failed }

abbrev error_data : UpdateData
error_data = with_status status_error

-- The event succeeds, and the handler of its success fails.
Chain-bound_example : 2 ≤ 2
unfolding publish_followup_events follow_ups check_handler_exists
Chain-bound_example = Chain-bound handlers first {n = 2} {e = after_failure} (
    follow after_failure (error_data ∷ [])
      (follow after_success (with_status status_done ∷ []) start (inl refl)) (inl refl))

abbrev type_error : Value
type_error = record { text = "TypeError"; time = none; json = "" }

-- Only the event "post" has a handler for clustering, whose answer is not valid.
abbrev only_post : Clustering
only_post = record {
  generic_available = false;
  specific_available = true;
  has_specific_handler = λ event. str_eq event "post";
  send_generic = λ action es. clusters [];
  send_specific = λ action es. no_object;
}

abbrev chunk : List Queued
chunk =
    record { id = "a"; event = "post"; payload = "{}" }
    ∷ record { id = "b"; event = "delete"; payload = "{}" }
    ∷ []
