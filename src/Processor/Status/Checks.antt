-- ===== src/Processor/Status/Checks.antt =====
-- src/EventQueueProcessorBase.js: what `persistEventStatus` makes of a status map before it writes.
use event_queue.Prelude.{
  ◌≡◌, refl, String, Bool, true, false, not, ◌||◌, ◌&&◌, Option, none, some, List, [], ◌∷◌,
  if◌then◌else◌, arith, eq_iff,
}
use event_queue.Prelude.Dict.{
  lookup, insert, has, has-lookup, includes, lookup-insert, filter_keys, lookup-filter_keys,
  delete_unless, lookup-delete_unless,
}
use event_queue.Constants.{is_allowed, status_done}
use event_queue.Processor.Status.{
  Reported, number, update, undefined, UpdateData, StatusMap, with_status,
}

abbrev pub UpdateMap : Type 0
UpdateMap = List (String × UpdateData)

abbrev pub no_data : UpdateData
no_data = record { status = none; start_after = none; error = none; next_data = none }

abbrev pub normalize_entry : Reported → UpdateData
normalize_entry (number s) = with_status s
normalize_entry (update u) = u
normalize_entry undefined = no_data

-- `#normalizeStatusMap`.
unfoldable pub normalize_status_map : StatusMap → UpdateMap
normalize_status_map [] = []
normalize_status_map ((id, r) ∷ m) = (id, normalize_entry r) ∷ normalize_status_map m

-- `#ensureOnlySelectedQueueEntries`, with the keys of `#selectedEventMap`.
unfoldable pub ensure_only_selected : List String → UpdateMap → UpdateMap
ensure_only_selected selected m = filter_keys (λ id. includes id selected) m

-- `#ensureEveryQueueEntryHasStatus`, with the ids of `__queueEntries` and the keys of
-- `__commitedStatusMap` and `__outdatedEventMap`.
unfoldable pub ensure_every_has_status :
    (entries commited outdated : List String) → UpdateMap → UpdateMap
ensure_every_has_status [] commited outdated m = m
ensure_every_has_status (id ∷ ids) commited outdated m =
    ensure_every_has_status ids commited outdated (
      if has id m || includes id commited || includes id outdated
      then m
      else insert id (with_status status_done) m)

abbrev pub allowed_status : UpdateData → Bool
allowed_status u = elim u.status [ none ↦ false | some s ↦ is_allowed s ]

-- `#ensureEveryStatusIsAllowed`.
unfoldable pub ensure_every_status_is_allowed : UpdateMap → UpdateMap
ensure_every_status_is_allowed m = delete_unless allowed_status m

-- The first lines of `persistEventStatus`, up to the trace: what is left to be written.
unfoldable pub checked :
    (skip_checks : Bool)
    → (selected entries commited outdated : List String) → StatusMap
    → UpdateMap
unfolding normalize_status_map ensure_only_selected ensure_every_has_status
    ensure_every_status_is_allowed
checked skip_checks selected entries commited outdated m =
    let known = ensure_only_selected selected (normalize_status_map m) in
    ensure_every_status_is_allowed
      (if skip_checks then known else ensure_every_has_status entries commited outdated known)

lookup-normalize_status_map :
    (id : String) (m : StatusMap)
    → lookup id (normalize_status_map m)
      ≡ elim (lookup id m) [ none ↦ none | some r ↦ some (normalize_entry r) ]
unfolding lookup normalize_status_map
lookup-normalize_status_map id [] = refl
lookup-normalize_status_map id ((k, r) ∷ m) = ground (arith, lookup-normalize_status_map id m)

-- The status that an event without a report gets.
abbrev missing : (entries commited outdated : List String) → String → Option UpdateData
missing entries commited outdated id =
    if includes id entries && not (includes id commited || includes id outdated)
    then some (with_status status_done)
    else none

lookup-ensure_every_has_status :
    (entries commited outdated : List String) (id : String) (m : UpdateMap)
    → lookup id (ensure_every_has_status entries commited outdated m)
      ≡ elim (lookup id m) [ none ↦ missing entries commited outdated id | some u ↦ some u ]
unfolding ensure_every_has_status includes
lookup-ensure_every_has_status [] commited outdated id m = ground arith
lookup-ensure_every_has_status (j ∷ ids) commited outdated id m = ground (
  arith,
  eq_iff j id,
  has-lookup j m,
  lookup-insert j id (with_status status_done) m,
  lookup-ensure_every_has_status ids commited outdated id m,
  lookup-ensure_every_has_status ids commited outdated id (insert j (with_status status_done) m),
)

-- What is written for an event.
abbrev pub written : Option UpdateData → Option UpdateData
written none = none
written (some u) = if allowed_status u then some u else none

abbrev pub or_missing : Option UpdateData → Option UpdateData → Option UpdateData
or_missing none other = other
or_missing (some u) other = some u

abbrev pub normalized : Option Reported → Option UpdateData
normalized none = none
normalized (some r) = some (normalize_entry r)

-- What is written for an id: nothing unless it was selected, or was found missing; then its report
-- if the status of the report is allowed; and Done if it has no report, is an entry of the chunk
-- and is neither commited nor outdated. Without the checks the last part falls away.
pub lookup-checked :
    (skip_checks : Bool) (selected entries commited outdated : List String) (m : StatusMap)
    (id : String)
    → lookup id (checked skip_checks selected entries commited outdated m)
      ≡ written (
          or_missing
            (if includes id selected then normalized (lookup id m) else none)
            (if skip_checks then none else missing entries commited outdated id))
unfolding checked
lookup-checked true selected entries commited outdated m id = ground (
  arith,
  lookup-delete_unless allowed_status id (ensure_only_selected selected (normalize_status_map m)),
  lookup-filter_keys (λ k. includes k selected) id (normalize_status_map m),
  lookup-normalize_status_map id m,
)
lookup-checked false selected entries commited outdated m id =
    let known = ensure_only_selected selected (normalize_status_map m) in
    ground (
      arith,
      lookup-delete_unless allowed_status id
          (ensure_every_has_status entries commited outdated known),
      lookup-ensure_every_has_status entries commited outdated id known,
      lookup-filter_keys (λ k. includes k selected) id (normalize_status_map m),
      lookup-normalize_status_map id m,
    )
