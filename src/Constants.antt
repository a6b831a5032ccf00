-- ===== src/Constants.antt =====
-- src/constants.js: the status of an event, as the number that the database holds.
use event_queue.Prelude.{ℕ, Bool, ◌||◌, ◌==◌}

abbrev pub status_open : ℕ
status_open = 0

abbrev pub status_in_progress : ℕ
status_in_progress = 1

abbrev pub status_done : ℕ
status_done = 2

abbrev pub status_error : ℕ
status_error = 3

abbrev pub status_exceeded : ℕ
status_exceeded = 4

abbrev pub status_suspended : ℕ
status_suspended = 5

-- `[EventProcessingStatus.Error, EventProcessingStatus.Exceeded].includes(status)`.
abbrev pub is_failure : ℕ → Bool
is_failure s = s == status_error || s == status_exceeded

-- The statuses that `#ensureEveryStatusIsAllowed` lets through.
abbrev pub is_allowed : ℕ → Bool
is_allowed s = s == status_open || s == status_done || s == status_error || s == status_exceeded
