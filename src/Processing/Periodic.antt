-- ===== src/Processing/Periodic.antt =====
-- src/processEventQueue.js: `processPeriodicEvent`, with `scheduleNextPeriodEvent`,
-- `handleDuplicatedPeriodicEventEntry` and `setPeriodicEventStatus` of
-- src/EventQueueProcessorBase.js. Times are milliseconds, offsets are parameters.
pub mod Stale
use event_queue.Prelude.{
  ℕ, ◌+◌, ◌-◌, ◌*◌, String, Bool, true, false, not, ◌&&◌, ◌||◌, Option, none, some, List, [], ◌∷◌,
  ◌++◌, map, if◌then◌else◌, ltb, leb,
}
use event_queue.Constants.{status_done, status_error}

-- An interval in milliseconds, or a cron expression, as the next date after a time.
pub data Schedule : Type 0 where
  interval : ℕ → Schedule
  cron : (next : ℕ → ℕ) → Schedule

pub record Settings : Type 0 where
  pub schedule : Schedule
  pub run_interval : ℕ

pub record Entry : Type 0 where
  pub id : String
  pub start_after : ℕ

pub record Next : Type 0 where
  -- The start of the event that is inserted, whether a timer is set for it, and whether the loop
  -- goes on with it at once.
  pub start_after : ℕ
  pub scheduled : Bool
  pub process_next : Bool

-- The start that is planned.
abbrev pub planned : Schedule → (now offset : ℕ) → Entry → ℕ
planned (interval n) now offset e = e.start_after + n + offset
planned (cron next) now offset e = next now + offset

-- `relative < 0 && Math.abs(relative) >= intervalInMs`; without an interval the second test is one
-- with `null`, which counts as 0.
abbrev pub too_late : Schedule → (now planned : ℕ) → Bool
too_late (interval n) now p = ltb p now && leb n (now - p)
too_late (cron next) now p = ltb p now

-- `intervalInMs < runInterval * 1.5`, which holds for `null`.
abbrev pub is_short : Schedule → (run_interval : ℕ) → Bool
is_short (interval n) run_interval = ltb (n * 2) (run_interval * 3)
is_short (cron next) run_interval = ltb 0 run_interval

-- `scheduleNextPeriodEvent`.
unfoldable pub schedule_next_period_event : Settings → (now offset : ℕ) → Entry → Next
schedule_next_period_event c now offset e =
    let p = planned c.schedule now offset e in
    let start = if too_late c.schedule now p then now + 5 * 1000 else p in
    record {
      start_after = start;
      scheduled = is_short c.schedule c.run_interval;
      process_next = is_short c.schedule c.run_interval && leb start now;
    }

-- One round of the loop: what is selected, the clock, and whether the handler throws.
pub record Round : Type 0 where
  pub entries : List Entry
  pub now : ℕ
  pub offset : ℕ
  pub handler_throws : Bool

pub record State : Type 0 where
  -- `queueEntry`, which is declared outside of the loop.
  pub queue_entry : Option Entry
  -- The starts of the inserted events, and the statuses that were set.
  pub inserted : List ℕ
  pub statuses : List (String × ℕ)

abbrev pub initial : State
initial = record { queue_entry = none; inserted = []; statuses = [] }

-- `setPeriodicEventStatus`.
unfoldable pub set_periodic_event_status : List Entry → ℕ → State → State
set_periodic_event_status es status s = record s {
  statuses = s.statuses ++ map (λ e. (e.id, status)) es;
}

-- `handleDuplicatedPeriodicEventEntry`: the entry that is used, and the obsolete ones. The loop
-- compares with `queueEntry.queueEntry`, which is undefined, so each further entry is obsolete.
unfoldable pub split_duplicates : (to_use : Entry) → List Entry → Entry × List Entry
split_duplicates to_use [] = (to_use, [])
split_duplicates to_use (e ∷ es) =
    let (used, obsolete) = split_duplicates to_use es in (used, e ∷ obsolete)

-- The first transaction of a round, and `processNext`.
unfoldable pub select_and_schedule : Settings → Round → State → State × Bool
unfolding schedule_next_period_event set_periodic_event_status split_duplicates
select_and_schedule c r s = elim r.entries [
  | [] ↦ (s, false)
  | e ∷ es ↦
      let (used, obsolete) = split_duplicates e es in
      let next = schedule_next_period_event c r.now r.offset used in
      (
        record (set_periodic_event_status obsolete status_done s) {
          queue_entry = some used;
          inserted = s.inserted ++ next.start_after ∷ [];
        },
        next.process_next,
      )
]

-- The other two: the handler runs, and its status is set.
unfoldable pub process_entry : Round → State → State
unfolding set_periodic_event_status
process_entry r s = elim s.queue_entry [
  | none ↦ s
  | some e ↦
      set_periodic_event_status (e ∷ []) (if r.handler_throws then status_error else status_done) s
]

-- The loop; it leaves when there is no entry at all.
unfoldable pub process_periodic_event : Settings → List Round → State → State
unfolding select_and_schedule process_entry
process_periodic_event c [] s = s
process_periodic_event c (r ∷ rs) s =
    let selected = select_and_schedule c r s in
    let after = process_entry r selected.0 in
    let rest = process_periodic_event c rs after in if selected.1 then rest else after
