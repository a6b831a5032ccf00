-- ===== src/Processing/Gate.antt =====
-- src/processEventQueue.js: whether a run is blocked (`_checkEventIsBlocked`), and whether a further
-- chunk is processed (`reevaluateShouldContinue`).
use event_queue.Prelude.{
  ◌≡◌, ℕ, ◌+◌, Bool, true, false, not, ◌&&◌, Option, none, some, if◌then◌else◌, ltb, arith,
}

-- What the callback `isEventBlockedCb` does, if there is one.
pub data Callback : Type 0 where
  returns : Bool → Callback
  throws : Callback

abbrev pub is_blocked_by : Option Callback → Bool
is_blocked_by none = false
is_blocked_by (some (returns blocked)) = blocked
is_blocked_by (some throws) = true

-- `_checkEventIsBlocked`.
unfoldable pub check_event_is_blocked :
    Option Callback → (is_unsubscribed should_be_processed : Bool) → Bool
check_event_is_blocked cb is_unsubscribed should_be_processed =
    let blocked = if not (is_blocked_by cb) then is_unsubscribed else true in
    if not blocked then not should_be_processed else blocked

-- A run goes on exactly when the callback lets it through, without failing, the tenant is
-- subscribed, and this application processes the event.
pub check_event_is_blocked-eq :
    (cb : Option Callback) (is_unsubscribed should_be_processed : Bool)
    → not (check_event_is_blocked cb is_unsubscribed should_be_processed)
      ≡ (not (is_blocked_by cb) && (not is_unsubscribed && should_be_processed))
unfolding check_event_is_blocked
check_event_is_blocked-eq cb is_unsubscribed should_be_processed = ground arith

-- `reevaluateShouldContinue`; the second value tells whether a further run is scheduled.
unfoldable pub reevaluate_should_continue :
    (select_next_chunk empty_chunk_selected : Bool)
    → (start_time run_interval now : ℕ) → Bool × Bool
reevaluate_should_continue select_next_chunk empty_chunk_selected start_time run_interval now =
    if not select_next_chunk
    then (false, false)
    else if empty_chunk_selected
    then (false, false)
    else if ltb now (start_time + run_interval)
    then (true, false)
    else (false, true)
