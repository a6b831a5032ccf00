-- ===== src/Processor/Examples.antt =====
-- src/EventQueueProcessorBase.js: the processor on small inputs, and the theorems at those inputs.
use event_queue.Prelude.{
  ℕ, ◌≡◌, ◌≢◌, refl, String, true, false, none, some, [], ◌∷◌, ◌++◌, map, arith, str_eq, eq_iff,
}
use event_queue.Prelude.Dict.{lookup, has, includes}
use event_queue.Database.{Event, list_table}
use event_queue.Lock.{Context, acquire_lock_redis}
use event_queue.Lock.Memory.{memory_redis}
use event_queue.Processor.Status.{number, update, with_status}
use event_queue.Processor.Status.Aggregate.{report, report-eq, minimum}
use event_queue.Processor.Status.Checks.{checked, lookup-checked}
use event_queue.Processor.Persist.{RetryConfig, Written, persist}
use event_queue.Processor.Persist.Rows.{written_row, EntrySpec, persist-rows}
use event_queue.Processor.EventLock.{
  EventType, acquire_key, renew_key, acquire_distributed_lock, renew_distributed_lock,
  renewal_does_not_extend,
}
use event_queue.Processor.Select.{Config}
use event_queue.Processor.Retry.{Round}

-- Done reported first, then Error.
report-eq_example : lookup "e1" (report "e1" (2 ∷ 3 ∷ []) []) ≡ some (update (with_status 2))
unfolding minimum lookup
report-eq_example = report-eq "e1" 2 (3 ∷ []) [] (omega arith) refl

-- A selected entry without a report becomes Done.
lookup-checked_example :
    lookup "e2" (checked false ("e1" ∷ "e2" ∷ []) ("e1" ∷ "e2" ∷ []) [] [] (("e1", number 1) ∷ []))
    ≡ some (with_status 2)
unfolding lookup includes
lookup-checked_example =
    lookup-checked false ("e1" ∷ "e2" ∷ []) ("e1" ∷ "e2" ∷ []) [] [] (("e1", number 1) ∷ []) "e2"

abbrev event : String → ℕ → ℕ → Event
event id status attempts = record {
  id = id;
  type = "T";
  sub_type = "S";
  namespace = "default";
  status = status;
  payload = none;
  attempts = attempts;
  last_attempt_timestamp = some 5;
  created_at = 1;
  start_after = none;
  error = none;
}

abbrev retry : RetryConfig
retry = record { retry_failed_after = 300; retry_open_after = 10 }

abbrev before : Written list_table
before = record {
  table = event "e1" 1 1 ∷ event "e2" 1 1 ∷ event "e3" 1 1 ∷ [];
  commited = [];
  not_commited = "e1" ∷ "e2" ∷ [];
  scheduled = [];
  next_saga_events = [];
}

persist-rows_example :
    ((persist list_table retry 1000
        (("e1", with_status 3) ∷ ("e2", with_status 2) ∷ [])
        before).table
      ≡ map
          (written_row retry 1000 (("e1", with_status 3) ∷ ("e2", with_status 2) ∷ []))
          (event "e1" 1 1 ∷ event "e2" 1 1 ∷ event "e3" 1 1 ∷ [])
        ++ [])
    × ((e : Event)
        → EntrySpec retry 1000
            (lookup e.id (("e1", with_status 3) ∷ ("e2", with_status 2) ∷ []))
            e
            (written_row retry 1000 (("e1", with_status 3) ∷ ("e2", with_status 2) ∷ []) e))
unfolding has
persist-rows_example =
    persist-rows list_table retry 1000 (("e1", with_status 3) ∷ ("e2", with_status 2) ∷ []) before
      (refl, (refl, tt))

abbrev context : Context
context = record { namespace = some "default"; tenant = some "t1" }

abbrev event_type : EventType
event_type = record {
  event_type = "T";
  event_sub_type = "S";
  namespace = "default";
  multi_instance = false;
}

keys :
    (acquire_key context event_type ≡ "EVENT_QUEUE##t1##default##T##S")
    × (renew_key context event_type ≡ "EVENT_QUEUE##default##t1##T##S")
unfolding acquire_key renew_key
keys = (refl, refl)

keys_compared : str_eq (renew_key context event_type) (acquire_key context event_type) ≡ false
unfolding acquire_key renew_key
keys_compared = refl

keys_differ : renew_key context event_type ≢ acquire_key context event_type
keys_differ h =
    let equal = (eq_iff (renew_key context event_type) (acquire_key context event_type)).1 h in
    let compared = keys_compared in cc

-- Acquired at 0 for 100 and renewed at 50, the lock is given to another instance at 100.
renewal_does_not_extend_example :
    (acquire_distributed_lock memory_redis context event_type 100 "b" 100
      (renew_distributed_lock memory_redis context event_type 50 100
        (acquire_distributed_lock memory_redis context event_type 0 "a" 100
          []).store).1).lock_acquired
    ≡ true
unfolding acquire_distributed_lock lookup acquire_lock_redis
renewal_does_not_extend_example =
    renewal_does_not_extend memory_redis context event_type 0 50 100 100 "a" "b" [] keys_differ refl
      refl (omega arith) (omega arith) (omega arith)

abbrev config : Config
config = record {
  event_type = "T";
  event_sub_type = "S";
  namespace = "default";
  is_periodic = false;
  retry_attempts = 3;
  select_max_chunk_size = 10;
  keep_alive_max_in_progress_ms = 100;
  run_interval = 1000;
  start_time = 2000;
}

abbrev failure : Round
failure = record { now = 9000; status = 3; reported = with_status 3; hook_throws = true }
