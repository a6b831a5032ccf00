-- ===== src/Processor/Status.antt =====
-- src/EventQueueProcessorBase.js: the map of statuses that the handlers report for events.
-- A JavaScript value that a handler hands over is what the code observes of it: its text, the time
-- that `new Date` reads in it, and its text as JSON. A field with a falsy value counts as absent.
-- A thrown `TypeError` is `thrown`.
pub mod Aggregate
pub mod Checks
use event_queue.Prelude.{
  ℕ, zero, suc, String, Bool, true, false, not, ◌||◌, ◌&&◌, Option, none, some, List, [], ◌∷◌,
  if◌then◌else◌, leb, map, filter,
}
use event_queue.Prelude.Dict.{lookup, insert, has, includes}
use event_queue.Constants.{is_failure, is_allowed, status_error, status_done}

pub record Value : Type 0 where
  pub text : String
  pub time : Option ℕ
  pub json : String

-- The fields of `ALLOWED_FIELDS_FOR_UPDATE`; `none` is a field that is not there.
pub record UpdateData : Type 0 where
  pub status : Option ℕ
  pub start_after : Option Value
  pub error : Option Value
  pub next_data : Option Value

pub data Reported : Type 0 where
  number : ℕ → Reported
  update : UpdateData → Reported
  undefined : Reported

abbrev pub StatusMap : Type 0
StatusMap = List (String × Reported)

pub data Outcome {ℓ} (A : Type ℓ) : Type ℓ where
  done : A → Outcome A
  thrown : Outcome A

abbrev pub with_status : ℕ → UpdateData
with_status s = record { status = some s; start_after = none; error = none; next_data = none }

-- The first two `if`s of `#determineAndAddEventStatusToMap`.
abbrev pub as_update_data : Reported → Reported
as_update_data (number s) = update (with_status s)
as_update_data (update u) = update u
as_update_data undefined = undefined

abbrev pub add_error : Option Value → Reported → Outcome Reported
add_error none r = done r
add_error (some e) (update u) = done (update (record u { error = some e }))
add_error (some e) _ = thrown

-- `a >= b` on numbers that may be undefined.
abbrev pub at_least : Option ℕ → Option ℕ → Bool
at_least (some a) (some b) = leb b a
at_least _ _ = false

abbrev pub fails : Option ℕ → Bool
fails (some s) = is_failure s
fails none = false

abbrev pub reported_status : Reported → Option ℕ
reported_status (number s) = none
reported_status (update u) = u.status
reported_status undefined = none

-- What an id that already has an entry gets; the entries `undefined` and 0 are falsy.
abbrev pub merge : (current new : Reported) → Outcome Reported
merge undefined new = done new
merge (number zero) new = done new
merge (number (suc s)) undefined = thrown
merge (number (suc s)) new = done (number (suc s))
merge (update u) undefined = if fails u.status then done (update u) else thrown
merge (update u) new =
    if fails u.status
    then done (update u)
    else if at_least u.status (reported_status new)
    then done new
    else done (update u)

abbrev pub and_then {ℓ κ} : {A : Type ℓ} {B : Type κ} → Outcome A → (A → Outcome B) → Outcome B
and_then (done a) f = f a
and_then thrown f = thrown

abbrev pub store : String → Outcome Reported → StatusMap → Outcome StatusMap
store id (done r) m = done (insert id r m)
store id thrown m = thrown

abbrev pub merged : Option Reported → Reported → Outcome Reported
merged none new = done new
merged (some current) new = merge current new

-- `#determineAndAddEventStatusToMap`.
unfoldable pub determine_and_add : String → Reported → Option Value → StatusMap → Outcome StatusMap
determine_and_add id reported error m =
    and_then (add_error error (as_update_data reported))
      (λ new. store id (merged (lookup id m) new) m)

-- The same for a status number, which cannot throw.
unfoldable pub add_status : String → ℕ → Option Value → StatusMap → StatusMap
unfolding determine_and_add
add_status id s error m = elim (determine_and_add id (number s) error m) [
  | done m' ↦ m'
  | thrown ↦ m
]

-- `queueEntries.forEach((queueEntry) => #determineAndAddEventStatusToMap(queueEntry.ID, status))`.
unfoldable pub add_status_to_all : List String → ℕ → Option Value → StatusMap → StatusMap
unfolding add_status
add_status_to_all [] s error m = m
add_status_to_all (id ∷ ids) s error m = add_status_to_all ids s error (add_status id s error m)

-- The `forEach` over the tuples that `processEvent` returned. `none` is an element that cannot be
-- taken apart. The entries written before a throw stay: the flag tells whether it came to one.
unfoldable pub add_tuples : List (Option (String × Reported)) → StatusMap → StatusMap × Bool
unfolding determine_and_add
add_tuples [] m = (m, true)
add_tuples (none ∷ ts) m = (m, false)
add_tuples (some (id, r) ∷ ts) m = elim (determine_and_add id r none m) [
  | done m' ↦ add_tuples ts m'
  | thrown ↦ (m, false)
]

-- What `processEvent` returned: nothing (a falsy value), a value without `forEach`, or an array.
pub data Tuples : Type 0 where
  nothing no_array : Tuples
  tuples : List (Option (String × Reported)) → Tuples

unfoldable pub collect : List String → Tuples → StatusMap → StatusMap
unfolding add_tuples add_status_to_all
collect ids nothing m = add_status_to_all ids status_error none m
collect ids no_array m = add_status_to_all ids status_error none m
collect ids (tuples ts) m =
    let (m', fine) = add_tuples ts m in
    if fine then m' else add_status_to_all ids status_error none m'

-- `setEventStatus`: the shared map after the call, and the map that it returns. With transaction
-- mode `isolated` (or `returnMap`) the reports go to a map of their own.
unfoldable pub set_event_status :
    (own_map : Bool) → List String → Tuples → StatusMap → StatusMap × StatusMap
unfolding collect
set_event_status own_map ids ts shared =
    if own_map then (shared, collect ids ts []) else (collect ids ts shared, collect ids ts shared)

abbrev pub failed : Value → Reported
failed error = update (record (with_status status_error) { error = some error })

-- `Object.fromEntries` of the failed entries.
unfoldable pub failed_entries : Value → List String → StatusMap → StatusMap
failed_entries error [] m = m
failed_entries error (id ∷ ids) m = failed_entries error ids (insert id (failed error) m)

-- `handleErrorDuringProcessing`: the shared map after the call, and the map that it returns.
unfoldable pub handle_error_during_processing :
    Value → List String → StatusMap → StatusMap × StatusMap
unfolding add_status_to_all failed_entries
handle_error_during_processing error ids shared =
    (add_status_to_all ids status_error (some error) shared, failed_entries error ids [])
