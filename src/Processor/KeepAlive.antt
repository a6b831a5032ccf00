-- ===== src/Processor/KeepAlive.antt =====
-- src/EventQueueProcessorBase.js: continuesKeepAlive, as one run of its timer. The etag of an event
-- is the time at which its row was last attempted.
pub mod Etags
pub mod Unchanged
pub mod RolledBack
mod Examples
use event_queue.Prelude.{
  ℕ, String, Bool, true, false, ◌&&◌, ◌||◌, Option, none, some, List, [], ◌∷◌, if◌then◌else◌, ◌==◌,
  not,
}
use event_queue.Prelude.Dict
use event_queue.Constants.{status_in_progress}

-- A row of the event table, with the columns that the keep-alive reads.
pub record Row : Type 0 where
  pub id : String
  pub status : ℕ
  pub last_attempt_timestamp : ℕ

pub record Processor : Type 0 where
  -- `#etagMap`, `__queueEntriesMap` and `__outdatedEventMap`, `__keepAliveViolated`.
  pub etag_map : List (String × ℕ)
  pub queue_entries_map : List (String × Row)
  pub outdated_event_map : List (String × ℕ)
  pub keep_alive_violated : Bool

-- `etag === lastAttemptTimestamp`; no etag is equal to none of them.
abbrev pub etag_is : Option ℕ → ℕ → Bool
etag_is none timestamp = false
etag_is (some etag) timestamp = etag == timestamp

-- The rows of the ids that are in progress.
unfoldable pub select_rows : List String → List Row → List Row
select_rows ids [] = []
select_rows ids (r ∷ rs) =
    let rest = select_rows ids rs in
    if Dict.includes r.id ids && r.status == status_in_progress then r ∷ rest else rest

pub record Sorted : Type 0 where
  pub outdated_events : List Row
  pub valid_event_ids : List String
  pub sorted_etags : List (String × ℕ)

-- The loop over the selected rows.
unfoldable pub sort_events : (new_ts : ℕ) → List Row → List (String × ℕ) → Sorted
sort_events new_ts [] etags = record {
  outdated_events = [];
  valid_event_ids = [];
  sorted_etags = etags;
}
sort_events new_ts (e ∷ es) etags =
    let outdated = sort_events new_ts es etags in
    let valid = sort_events new_ts es (Dict.insert e.id new_ts etags) in
    if etag_is (Dict.lookup e.id etags) e.last_attempt_timestamp
    then record valid { valid_event_ids = e.id ∷ valid.valid_event_ids }
    else record outdated { outdated_events = e ∷ outdated.outdated_events }

-- What is done with the outdated events.
unfoldable pub forget : List Row → Processor → Processor
unfolding Dict.delete Dict.insert
forget [] p = p
forget (e ∷ es) p = forget es (record p {
  queue_entries_map = Dict.delete e.id p.queue_entries_map;
  outdated_event_map = Dict.insert e.id 1 p.outdated_event_map;
})

-- The UPDATE of the valid events.
unfoldable pub touch : (new_ts : ℕ) → List String → List Row → List Row
touch new_ts ids [] = []
touch new_ts ids (r ∷ rs) =
    let rest = touch new_ts ids rs in
    (if Dict.includes r.id ids then record r { last_attempt_timestamp = new_ts } else r) ∷ rest

-- The handler of "succeeded".
unfoldable pub succeeded : (new_ts : ℕ) → List Row → List (String × ℕ) → List (String × ℕ)
succeeded new_ts [] etags = etags
succeeded new_ts (e ∷ es) etags =
    let rest = succeeded new_ts es etags in
    let updated = succeeded new_ts es (Dict.insert e.id new_ts etags) in
    if etag_is (Dict.lookup e.id etags) e.last_attempt_timestamp then updated else rest

abbrev pub is_empty {ℓ} : {A : Type ℓ} → List A → Bool
is_empty [] = true
is_empty (a ∷ rest) = false

-- The statements behind the loop; a transaction that is rolled back leaves the rows as they were.
unfoldable pub after_sort :
    (commits : Bool) (new_ts : ℕ)
    → (events : List Row) → Sorted
    → List Row
    → Processor
    → List Row × Processor
unfolding forget succeeded
after_sort commits new_ts events s rows p =
    let p' = forget s.outdated_events (record p {
      etag_map = s.sorted_etags;
      keep_alive_violated = not (is_empty s.outdated_events) || p.keep_alive_violated;
    }) in
    if commits && not (is_empty s.valid_event_ids)
    then (
      touch new_ts s.valid_event_ids rows,
      record p' { etag_map = succeeded new_ts events p'.etag_map },
    )
    else (rows, p')

-- One run of the keep-alive for the ids of `__notCommitedStatusMap`, without the renewal of the
-- lock. The transaction commits or is rolled back at its end.
unfoldable pub keep_alive :
    (commits : Bool) (new_ts : ℕ)
    → (ids : List String) → List Row
    → Processor
    → List Row × Processor
unfolding after_sort
keep_alive commits new_ts ids rows p =
    let events = select_rows ids rows in
    if is_empty ids || p.keep_alive_violated
    then (rows, p)
    else after_sort commits new_ts events (sort_events new_ts events p.etag_map) rows p
