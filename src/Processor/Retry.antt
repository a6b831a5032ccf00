-- ===== src/Processor/Retry.antt =====
-- src/EventQueueProcessorBase.js: the life of one event of a type that is not periodic, round by
-- round, as the selection, the handlers and `persistEventStatus` write its row. One round picks the
-- event, sets it to InProgress with one more attempt, and writes a status: what was reported for an
-- open event, and for one with exceeded tries what comes of the hook (`handleExceededEvents`).
pub mod Bound
use event_queue.Prelude.{ℕ, Bool, if◌then◌else◌, Option, none, some}
use event_queue.Constants.{status_error, status_exceeded}
use event_queue.Database.{Event}
use event_queue.Processor.Status.{UpdateData, with_status}
use event_queue.Processor.Persist.{RetryConfig, row_update, apply_update}
use event_queue.Processor.Select.{
  Config, exceeded_tries_exceeded, exceeded_tries, delayed, open_event, Class, class_of,
  set_in_progress,
}

pub record Round : Type 0 where
  -- The clock, the status that is reported with its data, and whether the hook throws.
  pub now : ℕ
  pub status : ℕ
  pub reported : UpdateData
  pub hook_throws : Bool

module _ (c : Config) (retry : RetryConfig) where
  abbrev pub write : (now : ℕ) → ℕ → UpdateData → Event → Event
  write now s u e = apply_update (row_update retry now s u) (set_in_progress now e)

  abbrev pub finish : Class → Round → Event → Event
  finish exceeded_tries_exceeded r e = write r.now status_exceeded (with_status status_exceeded) e
  finish exceeded_tries r e =
      if r.hook_throws
      then write r.now status_error (with_status status_error) e
      else write r.now status_exceeded (with_status status_exceeded) e
  finish delayed r e = e
  finish open_event r e = write r.now r.status r.reported e

  -- The row of a selected event after a round.
  unfoldable pub process_round : Round → Event → Event
  unfolding class_of set_in_progress row_update apply_update
  process_round r e = finish (class_of c r.now e) r e
