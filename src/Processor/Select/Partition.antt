-- ===== src/Processor/Select/Partition.antt =====
-- src/EventQueueProcessorBase.js: which events are selected, and how they are sorted.
use mathlib.Core.List.{Mem}
use event_queue.Prelude.{
  ℕ, ◌+◌, ◌≤◌, ◌<◌, ◌≡◌, ◌≢◌, ◌⊎◌, String, true, false, List, arith, sum_by, All, All-map,
}
use event_queue.Constants.{status_open, status_in_progress, status_error}
use event_queue.Database.{Event, EventTable}
use event_queue.Processor.Select.{
  Config, exceeded_tries, exceeded_tries_exceeded, Clusters, has_due_status, is_selectable,
  is_delayed_event,
}

abbrev pub cluster_total : (Event → ℕ) → Clusters → ℕ
cluster_total w r =
    sum_by w r.exceeded_tries
    + sum_by w r.open_events
    + sum_by w r.exceeded_tries_exceeded
    + sum_by w r.delayed_events

-- What the attempts and the start time of the members of each class are.
pub record IsSorted (c : Config) (base : ℕ) (r : Clusters) : Type 0 where
  pub final : All (λ e. e.attempts ≡ c.retry_attempts + 3) r.exceeded_tries_exceeded
  pub hooked :
      All
        (λ e. (c.retry_attempts ≤ e.attempts) × (e.attempts ≢ c.retry_attempts + 3))
        r.exceeded_tries
  pub waits :
      All (λ e. (e.attempts < c.retry_attempts) × (is_delayed_event base e ≡ true)) r.delayed_events
  pub ready :
      All (λ e. (e.attempts < c.retry_attempts) × (is_delayed_event base e ≡ false)) r.open_events

has_due_status_cases :
    (c : Config) (base : ℕ) (e : Event)
    → has_due_status c base e ≡ true
    → (e.status ≡ status_open)
      ⊎ (e.status ≡ status_in_progress)
      ⊎ ((e.status ≡ status_error) × (c.is_periodic ≡ false))
unfolding has_due_status
has_due_status_cases c base e h = ground arith

has_due_status-of_selectable :
    (c : Config) (base : ℕ) (delayed_ids : List String) (e : Event)
    → is_selectable c base delayed_ids e ≡ true
    → has_due_status c base e ≡ true
unfolding is_selectable
has_due_status-of_selectable c base delayed_ids e h = ground arith

-- Every event of a chunk is a row of the table that is Open or InProgress, or Error unless the
-- event is periodic; so Done, Exceeded and Suspended are final for the selection.
pub select_due :
    (db : EventTable) (c : Config) (base : ℕ) (delayed_ids : List String) (t : db.Table)
    → All
        (λ e.
          ((e.status ≡ status_open)
            ⊎ (e.status ≡ status_in_progress)
            ⊎ ((e.status ≡ status_error) × (c.is_periodic ≡ false)))
          × Mem e (db.rows t))
        (db.select (is_selectable c base delayed_ids) c.select_max_chunk_size t)
select_due db c base delayed_ids t =
    All-map
      (λ e (holds, member). (
        has_due_status_cases c base e (has_due_status-of_selectable c base delayed_ids e holds),
        member,
      ))
      _ (db.select_where (is_selectable c base delayed_ids) c.select_max_chunk_size t)
