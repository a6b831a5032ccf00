-- ===== src/WorkerQueue/Examples.antt =====
-- src/shared/WorkerQueue.js: runs of the queue on small inputs, and the theorems at those inputs.
use event_queue.Prelude.{ℕ, ◌*◌, ◌≤◌, ◌≡◌, refl, true, none, some, [], ◌∷◌, sum_by}
use event_queue.WorkerQueue.{
  Entry, Queue, low, init, waiting, priorities, take_next, add_to_queue, queued, thrown,
  load_higher_than_limit, priority_not_allowed, settle, remove_running, adjust_priority, is_overdue,
  shift, split_overdue,
}
use event_queue.WorkerQueue.Weights.{load_of}
use event_queue.WorkerQueue.Capacity.{IsBusy}
use event_queue.WorkerQueue.Order.{IsNext, NoneAbove, take_next-IsNext}
use event_queue.WorkerQueue.Conservation.{occurrences}
use event_queue.WorkerQueue.Reachable.{
  add, finish, Reach, initial, next, Reach-load, Reach-IsBusy, Reach-never_stalls, Reach-once,
}

program : Unit {0}
unfolding init add_to_queue settle adjust_priority split_overdue take_next
program = tt

abbrev entry : ℕ → ℕ → Entry
entry load promise = record {
  load = load;
  label = "a";
  promise = promise;
  increase_priority_over_time = true;
  start_time = 0;
  shifted = [];
}

-- A limit of three, of which two run; the entry of load two has to wait.
abbrev loaded : Queue
loaded = record (init (some 3)) {
  running_promises = record { promise = 0; load = 2 } ∷ [];
  running_load = 2;
  high_entries = entry 2 1 ∷ [];
  created = 2;
}

abbrev first_added : Queue
first_added = record (init (some 3)) {
  running_promises = record { promise = 0; load = 2 } ∷ [];
  running_load = 2;
  created = 1;
}

add_first : add_to_queue 2 "a" (some "high") true 0 (init (some 3)) ≡ queued 0 first_added
unfolding program
add_first = refl

add_second : add_to_queue 2 "a" (some "high") true 0 first_added ≡ queued 1 loaded
unfolding program
add_second = refl

add_refused :
    (add_to_queue 4 "a" none true 0 loaded ≡ thrown load_higher_than_limit)
    × (add_to_queue 1 "a" (some "urgent") true 0 loaded ≡ thrown priority_not_allowed)
unfolding program
add_refused = (refl, refl)

-- When the first promise settles, the waiting entry starts.
settle_first : (settle 0 loaded).running_promises ≡ record { promise = 1; load = 2 } ∷ []
unfolding program
settle_first = refl

Reach-loaded : Reach (some 3) loaded
Reach-loaded =
    next (next initial (add 2 "a" (some "high") true 0 add_first))
      (add 2 "a" (some "high") true 0 add_second)

Reach-load_example :
    (loaded.running_load ≡ sum_by load_of loaded.running_promises)
    × (loaded.running_load ≤ loaded.concurrency_limit)
Reach-load_example = Reach-load loaded Reach-loaded

Reach-IsBusy_example : IsBusy loaded
Reach-IsBusy_example = Reach-IsBusy loaded Reach-loaded

Reach-once_example : occurrences 1 loaded ≤ 1
Reach-once_example = Reach-once loaded 1 Reach-loaded

Reach-idle : Reach (some 3) (settle 1 (settle 0 loaded))
Reach-idle = next (next Reach-loaded (finish 0)) (finish 1)

idle_runs_nothing : (settle 1 (settle 0 loaded)).running_promises ≡ []
unfolding program
idle_runs_nothing = refl

Reach-never_stalls_example : waiting (settle 1 (settle 0 loaded)) ≡ 0
Reach-never_stalls_example =
    Reach-never_stalls (settle 1 (settle 0 loaded)) Reach-idle idle_runs_nothing

remove_running-loaded :
    remove_running 0 loaded.running_promises ≡ some (record { promise = 0; load = 2 }, [])
unfolding program
remove_running-loaded = refl

-- An entry of load two is passed over for one of load one at a lower priority.
abbrev crowded : Queue
crowded = record loaded { low_entries = entry 1 2 ∷ [] }

take_next-crowded : take_next crowded priorities ≡ some (low, entry 1 2, loaded)
unfolding program
take_next-crowded = refl

take_next-IsNext_example : IsNext crowded priorities low (entry 1 2) loaded × NoneAbove crowded low
take_next-IsNext_example = take_next-IsNext crowded low (entry 1 2) loaded take_next-crowded

-- Four minutes after its start the entry moves up; its neighbour does not.
abbrev minutes : ℕ → ℕ
minutes n = n * 60_000_000_000

split_overdue_neighbours :
    split_overdue (minutes 4) (entry 1 0 ∷ entry 1 1 ∷ [])
    ≡ (entry 1 1 ∷ [], shift (minutes 4) (entry 1 0) ∷ [])
unfolding program
split_overdue_neighbours = refl

abbrev raised : Entry
raised = shift (minutes 4) (entry 1 0)

abbrev raised_queue : Queue
raised_queue = record (init (some 3)) { medium_entries = raised ∷ [] }

raised-is_overdue : is_overdue (minutes 8) raised ≡ true
unfolding program
raised-is_overdue = refl
