-- ===== src/Lock/Examples.antt =====
-- src/shared/distributedLock.js: a run of the lock on the stores of `Lock.Memory`.
use event_queue.Prelude.{◌≡◌, refl, true, false, not, ◌&&◌, some, none, List, [], ◌∷◌, arith}
use event_queue.Prelude.Dict
use event_queue.Prelude.Dict.{has}
use event_queue.Lock.Memory.{memory_redis, memory_table}
use event_queue.Lock.{Context}
use event_queue.Lock.Instance.{Options, Locks, acquire_lock, shutdown_handler}
use event_queue.Lock.Instance.Shutdown.{is_there, shutdown_handler_lem}
use event_queue.Lock.Instance.Foreign.{handed_to}
use event_queue.Lock.Agreement.{
  Command, acquire, release, answers, run_redis, run_db, lock_agreement,
}

-- Taken at 0 for 100, refused at 50, taken over at 100, released and taken again at 120.
abbrev commands : List Command
commands = acquire 0 "a" ∷ acquire 50 "b" ∷ acquire 100 "b" ∷ release 110 ∷ acquire 120 "a" ∷ []

answers-commands : answers 100 commands none ≡ true ∷ false ∷ true ∷ true ∷ []
unfolding answers
answers-commands = refl

lock_agreement_example :
    (run_redis memory_redis "k" 100 commands [] ≡ answers 100 commands none)
    × (run_db memory_table "k" 100 commands [] ≡ answers 100 commands none)
unfolding Dict.lookup
lock_agreement_example =
    lock_agreement memory_redis memory_table "k" 100 0 commands [] [] (omega arith) (λ later. refl)
      refl

abbrev MemoryLocks : Type 0
MemoryLocks = Locks memory_redis memory_table

abbrev on_redis : MemoryLocks
on_redis = record { redis_enabled = true; store = []; rows = []; existing_locks = [] }

abbrev context : Context
context = record { namespace = none; tenant = some "t" }

abbrev options : Options
options = record {
  tenant_scoped = true;
  expiry_time = 100;
  keep_track_of_lock = true;
  skip_namespace = false;
  override_value = false;
}

-- Taken by one instance at 0 and, after the expiry, by another one at 100.
abbrev taken_by_first : MemoryLocks
taken_by_first = (acquire_lock memory_redis memory_table 0 "0" context "k" options on_redis).1

abbrev taken_over : MemoryLocks
taken_over =
    (acquire_lock memory_redis memory_table 100 "100" context "k" options
      (handed_to memory_redis memory_table [] taken_by_first)).1

shutdown_handler_lem_example :
    (is_there memory_redis memory_table 150 "EVENT_QUEUE##t##k"
        (shutdown_handler memory_redis memory_table 150 taken_by_first)
      ≡ (not (has "EVENT_QUEUE##t##k" taken_by_first.existing_locks)
          && is_there memory_redis memory_table 150 "EVENT_QUEUE##t##k" taken_by_first))
    × (has "EVENT_QUEUE##t##k"
          (shutdown_handler memory_redis memory_table 150 taken_by_first).existing_locks
        ≡ false)
shutdown_handler_lem_example =
    shutdown_handler_lem memory_redis memory_table 150 150 "EVENT_QUEUE##t##k" taken_by_first
