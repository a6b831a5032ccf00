-- ===== src/Processing/Run.antt =====
-- src/processEventQueue.js: `processEventQueue`. What the calls of one round do is a parameter of the
-- model, as is the clock: a run is given the rounds that its environment has for it, and still runs
-- when these are over. The effects of a run are the list of what it did, in this order.
pub mod Chunks
pub mod Lock
use event_queue.Prelude.{
  ◌≡◌, ◌≢◌, refl, ap, ℕ, ◌+◌, ◌≤◌, Bool, true, false, not, ◌&&◌, ◌||◌, Option, none, some, List, [],
  ◌∷◌, ◌++◌, if◌then◌else◌, ltb, leb, any, arith, Bool-cases, inl, inr, any-append, append-nil,
}
use event_queue.Processing.Gate.{reevaluate_should_continue}

pub data Effect : Type 0 where
  acquired prepared exceeded_handled processed persisted continued periodic_processed released :
      Effect

pub data Outcome : Type 0 where
  finished failed still_running : Outcome

-- One round of the loop: which of its transactions throw, whether an event has a payload, whether
-- the selected chunk was empty, and the time at its end.
pub record Round : Type 0 where
  pub preparation_throws : Bool
  pub exceeded_throws : Bool
  pub has_payload : Bool
  pub processing_throws : Bool
  pub persist_throws : Bool
  pub empty_chunk_selected : Bool
  pub now : ℕ

pub record Settings : Type 0 where
  pub select_next_chunk : Bool
  pub start_time : ℕ
  pub run_interval : ℕ

-- Statements in sequence, up to the first that throws.
abbrev pub run_until : List (Bool × Effect) → List Effect × Bool
run_until [] = ([], true)
run_until ((throws, e) ∷ ss) =
    let rest = run_until ss in if throws then ([], false) else (e ∷ rest.0, rest.1)

-- The body of the loop, and whether it came to its end.
unfoldable pub process_round : Round → List Effect × Bool
process_round r = run_until (
    (r.preparation_throws, prepared)
    ∷ (r.exceeded_throws, exceeded_handled)
    ∷ (if r.has_payload
        then (r.processing_throws, processed) ∷ (r.persist_throws, persisted) ∷ []
        else (r.persist_throws, persisted) ∷ []))

unfoldable pub should_continue : Settings → Round → Bool × Bool
unfolding reevaluate_should_continue
should_continue c r =
    reevaluate_should_continue c.select_next_chunk r.empty_chunk_selected c.start_time
      c.run_interval r.now

-- What comes after a round: an error of it ends the loop, and is caught.
abbrev pub after_round :
    List Effect × Bool → Bool × Bool → List Effect × Outcome → List Effect × Outcome
after_round (es, false) next rest = (es, failed)
after_round (es, true) (true, schedules) rest = (es ++ rest.0, rest.1)
after_round (es, true) (false, schedules) rest =
    (es ++ (if schedules then continued ∷ [] else []), finished)

-- The loop.
unfoldable pub process_chunks : Settings → List Round → List Effect × Outcome
process_chunks c [] = ([], still_running)
process_chunks c (r ∷ rs) =
    let rest = process_chunks c rs in after_round (process_round r) (should_continue c r) rest

abbrev pub is_continued : Effect → Bool
is_continued continued = true
is_continued _ = false

-- What `processEventQueue` finds before its loop.
pub record Start : Type 0 where
  pub has_implementation : Bool
  pub is_blocked : Bool
  -- The result of `acquireDistributedLock`, and `__lockAcquired` after it.
  pub go_on : Bool
  pub lock_acquired : Bool
  pub is_periodic : Bool

-- The `finally` block, which a run that goes on has not reached.
abbrev pub with_release : Bool → List Effect × Outcome → List Effect × Outcome
with_release has_lock (es, still_running) = (es, still_running)
with_release has_lock (es, o) = (es ++ (if has_lock then released ∷ [] else []), o)

abbrev pub processed_body : Settings → Start → List Round → List Effect × Outcome
processed_body c s rs =
    if s.is_periodic then (periodic_processed ∷ [], finished) else process_chunks c rs

abbrev pub after_lock : Bool → List Effect × Outcome → List Effect × Outcome
after_lock lock_acquired (es, o) = ((if lock_acquired then acquired ∷ es else es), o)

-- `processEventQueue`.
unfoldable pub process_event_queue : Settings → Start → List Round → List Effect × Outcome
unfolding process_chunks
process_event_queue c s rs =
    if not s.has_implementation
    then ([], finished)
    else if s.is_blocked
    then ([], finished)
    else if not s.go_on
    then with_release s.lock_acquired (after_lock s.lock_acquired ([], finished))
    else with_release s.lock_acquired (after_lock s.lock_acquired (processed_body c s rs))

abbrev pub is_running : Outcome → Bool
is_running still_running = true
is_running _ = false
