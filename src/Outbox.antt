-- ===== src/Outbox.antt =====
-- src/outbox/EventQueueGenericOutboxHandler.js: what the handler of a CAP service returned, as
-- statuses of events, and the follow-up events of a saga.
pub mod Unknown
pub mod Sagas
pub mod Clusters
mod Examples
use event_queue.Prelude.{
  ℕ, String, Bool, true, false, not, ◌&&◌, ◌||◌, Option, none, some, List, [], ◌∷◌, ◌++◌, map,
  if◌then◌else◌, ◌==◌, ltb, length,
}
use event_queue.Constants.{status_done, status_error}
use event_queue.Processor.Status.{
  Value, UpdateData, Reported, update, number, undefined, with_status, Outcome, done, thrown,
  and_then,
}

-- An object that a handler returned: its field `ID`, the fields that are allowed, and whether it
-- has any other.
pub record Entry : Type 0 where
  pub id : Option String
  pub fields : UpdateData
  pub has_other_fields : Bool

pub data Inner : Type 0 where
  inner_object : Entry → Inner
  inner_status : Option ℕ → Inner

-- An element of an array: an object, a pair of an id and something, or a number.
pub data Element : Type 0 where
  object_element : Entry → Element
  pair : String → Inner → Element
  scalar : Element

-- What a handler returned: a status, an object, an array, or anything else.
pub data Answer : Type 0 where
  status_value : ℕ → Answer
  object : Entry → Answer
  array : List Element → Answer
  other_value : Answer

abbrev pub Tuple : Type 0
Tuple = Option (String × Reported)

abbrev pub is_some {ℓ} : {A : Type ℓ} → Option A → Bool
is_some none = false
is_some (some a) = true

-- All names of the fields are allowed; `ID` is not.
abbrev pub all_allowed : Entry → Bool
all_allowed e = not (e.has_other_fields || is_some e.id)

abbrev pub for_all : UpdateData → List String → List Tuple
for_all u ids = map (λ id. some (id, update u)) ids

abbrev pub as_done : List String → List Tuple
as_done ids = for_all (with_status status_done) ids

abbrev pub status_of : Option ℕ → UpdateData
status_of s = record { status = s; start_after = none; error = none; next_data = none }

-- Tuples with objects are handed on as they are.
abbrev pub as_it_is : List Element → List Tuple
as_it_is [] = []
as_it_is (object_element e ∷ es) = none ∷ as_it_is es
as_it_is (scalar ∷ es) = none ∷ as_it_is es
as_it_is (pair id (inner_object e) ∷ es) = some (id, update e.fields) ∷ as_it_is es
as_it_is (pair id (inner_status none) ∷ es) = some (id, undefined) ∷ as_it_is es
as_it_is (pair id (inner_status (some s)) ∷ es) = some (id, number s) ∷ as_it_is es

-- An object is no valid status.
abbrev pub invalid_status : ℕ
invalid_status = 6

abbrev pub inner_of : Inner → UpdateData
inner_of (inner_object e) = status_of (some invalid_status)
inner_of (inner_status s) = status_of s

-- `result.map(([id, status]) => [id, { status }])`.
unfoldable pub with_statuses : List Element → Outcome (List Tuple)
with_statuses [] = done []
with_statuses (object_element e ∷ es) = thrown
with_statuses (scalar ∷ es) = thrown
with_statuses (pair id i ∷ es) =
    and_then (with_statuses es) (λ ts. done (some (id, update (inner_of i)) ∷ ts))

abbrev pub with_default_status : UpdateData → UpdateData
with_default_status u = elim u.status [ none ↦ record u { status = some status_done } | some s ↦ u ]

-- One round of the `reduce` over objects: an object with other fields is reported as Done, and
-- then as what it says.
abbrev pub entry_tuples : String → Entry → List Tuple
entry_tuples id e =
    let own = some (id, update (with_default_status e.fields)) ∷ [] in
    if e.has_other_fields then some (id, update (with_status status_done)) ∷ own else own

-- The id of an object, or that of the only event.
abbrev pub id_for : List String → Option String → Option String
id_for ids (some id) = some id
id_for [] none = none
id_for (id ∷ []) none = some id
id_for (id ∷ id' ∷ ids) none = none

abbrev pub tuples_for : Option String → Entry → Outcome (List Tuple) → Outcome (List Tuple)
tuples_for none e rest = thrown
tuples_for (some id) e rest = and_then rest (λ ts. done (entry_tuples id e ++ ts))

-- An array is an object with other fields.
abbrev pub array_entry : Entry
array_entry = record { id = none; fields = status_of none; has_other_fields = true }

unfoldable pub with_objects : List String → List Element → Outcome (List Tuple)
with_objects ids [] = done []
with_objects ids (scalar ∷ es) = thrown
with_objects ids (object_element e ∷ es) = tuples_for (id_for ids e.id) e (with_objects ids es)
with_objects ids (pair id i ∷ es) = tuples_for (id_for ids none) array_entry (with_objects ids es)

abbrev pub determine_array : List String → List Element → Outcome (List Tuple)
determine_array ids [] = done []
determine_array ids (scalar ∷ es) = thrown
determine_array ids (object_element e ∷ es) = with_objects ids (object_element e ∷ es)
determine_array ids (pair id (inner_object e) ∷ es) =
    if all_allowed e then done (as_it_is (pair id (inner_object e) ∷ es)) else done (as_done ids)
determine_array ids (pair id (inner_status s) ∷ es) = with_statuses (pair id (inner_status s) ∷ es)

-- `#determineResultStatus`; a status that is not valid is another value.
unfoldable pub determine_result_status : Answer → List String → Outcome (List Tuple)
unfolding with_statuses with_objects
determine_result_status (status_value s) ids =
    done (if ltb s 6 then for_all (with_status s) ids else as_done ids)
determine_result_status (object e) ids =
    done (if all_allowed e then for_all e.fields ids else as_done ids)
determine_result_status (array es) ids = determine_array ids es
determine_result_status other_value ids = done (as_done ids)

-- The call of the service: it returns, or throws an error.
pub data Called : Type 0 where
  returned : Answer → Called
  failed_with : Value → Called

abbrev pub as_error : Value → List String → List Tuple
as_error error ids = for_all (record (with_status status_error) { error = some error }) ids

abbrev pub caught : Value → List String → Outcome (List Tuple) → List Tuple
caught type_error ids (done ts) = ts
caught type_error ids thrown = as_error type_error ids

-- The `try` of `processEvent`; an error of its own is the given one.
unfoldable pub process_event : (type_error : Value) → List String → Called → List Tuple
unfolding determine_result_status
process_event type_error ids (failed_with error) = as_error error ids
process_event type_error ids (returned answer) =
    caught type_error ids (determine_result_status answer ids)

pub data Saga : Type 0 where
  saga_success saga_failed saga_done : Saga

-- The name of an event: an action, with the saga that it follows up.
pub record EventName : Type 0 where
  pub action : String
  pub saga : Option Saga

-- The handlers of the service for the sagas of an action, and for all actions.
pub record Handlers : Type 0 where
  pub specific : String → Saga → Bool
  pub generic : Saga → Bool

-- `#checkHandlerExists` for a saga; "" stands for the action of a generic handler.
unfoldable pub check_handler_exists : Handlers → EventName → Saga → Option EventName
check_handler_exists h e saga =
    if h.specific e.action saga
    then some (record { action = e.action; saga = some saga })
    else if h.generic saga
    then some (record { action = ""; saga = some saga })
    else none

abbrev pub is_success : Option Saga → Bool
is_success (some saga_success) = true
is_success (some saga_failed) = false
is_success (some saga_done) = false
is_success none = false

abbrev pub is_last : Option Saga → Bool
is_last (some saga_success) = false
is_last (some saga_failed) = true
is_last (some saga_done) = true
is_last none = false

abbrev pub send_if : Bool → Option EventName → List EventName
send_if test none = []
send_if test (some e) = if test then e ∷ [] else []

abbrev pub has_status : ℕ → Option ℕ → Bool
has_status s none = false
has_status s (some t) = t == s

abbrev pub follow_ups_of : Handlers → EventName → UpdateData → List EventName
follow_ups_of h e u =
    send_if (has_status status_done u.status && not (is_success e.saga))
      (check_handler_exists h e saga_success)
    ++ (send_if (has_status status_error u.status) (check_handler_exists h e saga_failed)
        ++ send_if (not (is_success e.saga)) (check_handler_exists h e saga_done))

unfoldable pub follow_ups : Handlers → EventName → List UpdateData → List EventName
follow_ups h e [] = []
follow_ups h e (u ∷ us) = follow_ups_of h e u ++ follow_ups h e us

-- The events that `#publishFollowupEvents` sends for the status tuples.
unfoldable pub publish_followup_events : Handlers → EventName → List UpdateData → List EventName
unfolding follow_ups
publish_followup_events h e us = if is_last e.saga then [] else follow_ups h e us
