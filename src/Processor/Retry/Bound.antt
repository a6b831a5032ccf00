-- ===== src/Processor/Retry/Bound.antt =====
-- src/EventQueueProcessorBase.js: how often an event is tried.
use event_queue.Prelude.{
  ℕ, zero, suc, ◌+◌, ◌<◌, ◌==◌, ◌≡◌, ◌≢◌, refl, true, false, none, some, arith, if◌then◌else◌,
}
use event_queue.Constants.{status_error, status_exceeded}
use event_queue.Database.{Event}
use event_queue.Processor.Status.{with_status}
use event_queue.Processor.Persist.{RetryConfig}
use event_queue.Processor.Select.{Config, is_delayed_event}
use event_queue.Processor.Retry.{Round, process_round}

-- A round in which everything fails: the handler reports Error and the hook throws.
abbrev pub AllFails : Round → Type 0
AllFails r = (r.status ≡ status_error) × (r.hook_throws ≡ true)

-- A failing round at the start time of an event.
failing_round : Event → Round
failing_round e = record {
  now = elim e.start_after [ none ↦ 0 | some t ↦ t ];
  status = status_error;
  reported = with_status status_error;
  hook_throws = true;
}

failing_round_due : (e : Event) → is_delayed_event (failing_round e).now e ≡ false
unfolding failing_round is_delayed_event
failing_round_due e = ground arith

module _ (c : Config) (retry : RetryConfig) where
  -- Rounds that pick the event, one after the other, until it is Exceeded.
  pub data Failing : ℕ → Event → Event → Type 0 where
    stop : {e : Event} → Failing zero e e
    again :
        {n : ℕ} {e e' : Event} (r : Round)
        → e.status ≢ status_exceeded
        → is_delayed_event r.now e ≡ false
        → AllFails r
        → Failing n (process_round c retry r e) e'
        → Failing (suc n) e e'

  -- One failing round counts the attempt, and is the last one at three attempts above the limit.
  pub process_round_fails :
      (r : Round) (e : Event)
      → is_delayed_event r.now e ≡ false
      → AllFails r
      → ((process_round c retry r e).attempts ≡ e.attempts + 1)
        × ((process_round c retry r e).status
            ≡ (if e.attempts == c.retry_attempts + 3 then status_exceeded else status_error))
  unfolding process_round
  process_round_fails r e due (bad, throws) = ground (arith, due, bad, throws)

  -- With more attempts than three above the limit, as after an instance that stopped while it
  -- handled the last one, there is no bound: the event is picked as often as it fails.
  pub Failing-unbounded :
      (n : ℕ) (e : Event)
      → c.retry_attempts + 3 < e.attempts
      → e.status ≢ status_exceeded
      → (e' : Event) × Failing n e e' × (e'.status ≢ status_exceeded)
  unfolding failing_round
  Failing-unbounded zero e over ongoing = (e, stop, ongoing)
  Failing-unbounded (suc n) e over ongoing =
      let r = failing_round e in
      let (counted, status) = process_round_fails r e (failing_round_due e) (refl, refl) in
      let (e', rest, end) =
        Failing-unbounded n (process_round c retry r e) (omega (arith, counted))
          (ground (arith, status, over)) in
      (e', again r ongoing (failing_round_due e) (refl, refl) rest, end)
