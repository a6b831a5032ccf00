-- ===== src/Processing/Examples.antt =====
-- Runs of an event type on concrete rounds.
use event_queue.Prelude.{
  ◌≡◌, refl, ℕ, String, Bool, true, false, some, List, [], ◌∷◌, ◌++◌, any, if◌then◌else◌, All,
}
use event_queue.Prelude.Dict.{includes}
use event_queue.Processor.Status.{number, tuples}
use event_queue.Processing.Preparation.{
  Payload, null, undefined_payload, payload, Prepared, prepare_entries, prepare_entries-IsSettled,
  SettledIn,
}
use event_queue.Processing.Transactions.{
  Cluster, Handled, Effects, process_event_map, writes_of, process_event_map-writes,
}
use event_queue.Processing.Run
use event_queue.Processing.Run.{
  Effect, acquired, released, process_chunks, process_event_queue, is_running, is_continued,
  finished,
}
use event_queue.Processing.Run.Chunks.{process_chunks-ends}
use event_queue.Processing.Run.Lock.{process_event_queue-released, is_lock_effect, has_lock}
use event_queue.Processing.Periodic
use event_queue.Processing.Periodic.{
  schedule_next_period_event, process_periodic_event, initial, process_entry, select_and_schedule,
}

abbrev nothing_prepared : Prepared
nothing_prepared = record { status_map = []; with_payload = [] }

abbrev found : List (String × Payload)
found = ("e1", null) ∷ ("e2", undefined_payload) ∷ ("e3", payload) ∷ []

prepare_entries-IsSettled_example :
    All (SettledIn (prepare_entries ("e1" ∷ "e2" ∷ "e3" ∷ []) found nothing_prepared)) found
unfolding includes
prepare_entries-IsSettled_example =
    prepare_entries-IsSettled ("e1" ∷ "e2" ∷ "e3" ∷ []) found nothing_prepared
      (refl, (refl, (refl, tt)))

abbrev cluster : String → ℕ → Bool → Cluster
cluster id status commit_fails = record {
  key = id;
  ids = id ∷ [];
  handled = Handled.returns (tuples (some (id, number status) ∷ []));
  writes = id ∷ [];
  should_rollback = false;
  commit_fails = commit_fails;
}

abbrev nothing_done : Effects
nothing_done = record { shared = []; committed_writes = []; persisted = []; is_rejected = false }

abbrev clusters : List Cluster
clusters =
    cluster "e1" 2 false
    ∷ cluster "e2" 3 false
    ∷ cluster "e3" 2 true
    ∷ record (cluster "e4" 2 false) { handled = Handled.outdated }
    ∷ []

process_event_map-writes_example :
    (process_event_map ("e1" ∷ "e2" ∷ "e3" ∷ []) clusters nothing_done).committed_writes
    ≡ [] ++ writes_of clusters
process_event_map-writes_example =
    process_event_map-writes ("e1" ∷ "e2" ∷ "e3" ∷ []) clusters nothing_done

abbrev settings : Run.Settings
settings = record { select_next_chunk = true; start_time = 0; run_interval = 25_000 }

abbrev round_at : ℕ → Run.Round
round_at now = record {
  preparation_throws = false;
  exceeded_throws = false;
  has_payload = true;
  processing_throws = false;
  persist_throws = false;
  empty_chunk_selected = false;
  now = now;
}

abbrev rounds : List Run.Round
rounds = round_at 10_000 ∷ round_at 26_000 ∷ []

process_chunks-ends_example : is_running (process_chunks settings rounds).1 ≡ false
unfolding any
process_chunks-ends_example = process_chunks-ends settings rounds refl

abbrev begin : Run.Start
begin = record {
  has_implementation = true;
  is_blocked = false;
  go_on = true;
  lock_acquired = true;
  is_periodic = false;
}

process_event_queue-released_example :
    (body : List Effect) × (any is_lock_effect body ≡ false)
    × ((process_event_queue settings begin rounds).0
        ≡ (if has_lock begin then acquired ∷ body ++ released ∷ [] else body))
unfolding process_event_queue Run.process_chunks Run.should_continue Run.process_round
process_event_queue-released_example = process_event_queue-released settings begin rounds refl

abbrev periodic : Periodic.Settings
periodic = record { schedule = Periodic.interval 20_000; run_interval = 25_000 }

abbrev tick : Periodic.Entry
tick = record { id = "p1"; start_after = 0 }

abbrev behind : Periodic.Round
behind = record { entries = tick ∷ []; now = 30_000; offset = 0; handler_throws = false }

abbrev empty : Periodic.Round
empty = record { entries = []; now = 31_000; offset = 0; handler_throws = true }
