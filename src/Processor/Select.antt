-- ===== src/Processor/Select.antt =====
-- src/EventQueueProcessorBase.js: `getQueueEntriesAndSetToInProgress`, which selects a chunk of
-- events, sorts them by their attempts and start times, and marks those to be processed. Times are
-- milliseconds; `base_date` is the clock, read once.
pub mod Partition
use event_queue.Prelude.{
  ℕ, ◌+◌, ◌-◌, ◌*◌, ◌/◌, ◌==◌, String, Bool, true, false, not, ◌||◌, ◌&&◌, Option, none, some, List,
  [], ◌∷◌, ◌++◌, map, if◌then◌else◌, leb, str_eq,
}
use event_queue.Prelude.Dict.{includes}
use event_queue.Constants.{status_open, status_in_progress, status_error}
use event_queue.Database.{Event, EventTable}

pub record Config : Type 0 where
  pub event_type : String
  pub event_sub_type : String
  pub namespace : String
  pub is_periodic : Bool
  -- `__retryAttempts`.
  pub retry_attempts : ℕ
  pub select_max_chunk_size : ℕ
  -- `keepAliveMaxInProgressTime * 1000`, `config.runInterval` and `eventConfig.startTime`.
  pub keep_alive_max_in_progress_ms : ℕ
  pub run_interval : ℕ
  pub start_time : ℕ

abbrev pub tries_for_exceeded_events : ℕ
tries_for_exceeded_events = 3

abbrev pub event_start_after_headroom : ℕ
event_start_after_headroom = 3 * 1000

-- `column <= value` in SQL, where NULL fulfils nothing.
abbrev pub at_most : Option ℕ → ℕ → Bool
at_most none t = false
at_most (some a) t = leb a t

abbrev pub is_null : Option ℕ → Bool
is_null none = true
is_null (some a) = false

-- The part of the condition on the status.
unfoldable pub has_due_status : Config → (base_date : ℕ) → Event → Bool
has_due_status c base e =
    (e.status == status_open
      && (at_most e.last_attempt_timestamp c.start_time || is_null e.last_attempt_timestamp))
    || (not c.is_periodic
        && e.status == status_error
        && at_most e.last_attempt_timestamp c.start_time)
    || (e.status == status_in_progress
        && at_most e.last_attempt_timestamp (base - c.keep_alive_max_in_progress_ms))

-- The condition of the SELECT.
unfoldable pub is_selectable : Config → (base_date : ℕ) → (delayed_ids : List String) → Event → Bool
is_selectable c base delayed_ids e =
    str_eq e.type c.event_type
    && str_eq e.sub_type c.event_sub_type
    && str_eq e.namespace c.namespace
    && (is_null e.start_after || at_most e.start_after (base + c.run_interval * 12 / 10))
    && has_due_status c base e
    && not (includes e.id delayed_ids)

-- `#isDelayedEvent`, with `refDate` the base date and the headroom.
unfoldable pub is_delayed_event : (base_date : ℕ) → Event → Bool
is_delayed_event base e = elim e.start_after [
  | none ↦ false
  | some t ↦ not (leb t (base + event_start_after_headroom))
]

pub data Class : Type 0 where
  exceeded_tries_exceeded exceeded_tries delayed open_event : Class

-- The branches of the `reduce` in `#clusterEvents`.
unfoldable pub class_of : Config → (base_date : ℕ) → Event → Class
unfolding is_delayed_event
class_of c base e =
    if e.attempts == c.retry_attempts + tries_for_exceeded_events
    then exceeded_tries_exceeded
    else if leb c.retry_attempts e.attempts
    then exceeded_tries
    else if is_delayed_event base e
    then delayed
    else open_event

pub record Clusters : Type 0 where
  pub exceeded_tries : List Event
  pub open_events : List Event
  pub exceeded_tries_exceeded : List Event
  pub delayed_events : List Event

abbrev pub push : Class → Event → Clusters → Clusters
push exceeded_tries_exceeded e r = record r {
  exceeded_tries_exceeded = r.exceeded_tries_exceeded ++ e ∷ [];
}
push exceeded_tries e r = record r { exceeded_tries = r.exceeded_tries ++ e ∷ [] }
push delayed e r = record r { delayed_events = r.delayed_events ++ e ∷ [] }
push open_event e r = record r { open_events = r.open_events ++ e ∷ [] }

-- `#clusterEvents`.
unfoldable pub cluster_from : Config → (base_date : ℕ) → Clusters → List Event → Clusters
cluster_from c base r [] = r
cluster_from c base r (e ∷ es) = cluster_from c base (push (class_of c base e) e r) es

abbrev pub no_clusters : Clusters
no_clusters = record {
  exceeded_tries = [];
  open_events = [];
  exceeded_tries_exceeded = [];
  delayed_events = [];
}

unfoldable pub cluster_events : Config → (base_date : ℕ) → List Event → Clusters
unfolding cluster_from class_of
cluster_events c base es = cluster_from c base no_clusters es

-- The two UPDATE statements.
unfoldable pub set_in_progress : (now : ℕ) → Event → Event
set_in_progress now e = record e {
  status = status_in_progress;
  last_attempt_timestamp = some now;
  attempts = e.attempts + 1;
}

unfoldable pub set_to_error : (now : ℕ) → Event → Event
set_to_error now e = record e { status = status_error; last_attempt_timestamp = some now }

-- What the selected entries themselves show afterwards: an empty payload is no obsolete one.
abbrev pub taken_up : (now : ℕ) → Event → Event
taken_up now e = record e {
  last_attempt_timestamp = some now;
  payload = elim e.payload [ none ↦ some "" | some p ↦ some p ];
}

abbrev pub ids_of : List Event → List String
ids_of es = map (λ e. e.id) es

module _ (db : EventTable) where
  open db use {Table, select, update}

  -- What the call returns and leaves in the instance.
  pub record Chunk : Type 0 where
    pub table : Table
    -- The result, which is also `__queueEntries`.
    pub queue_entries : List Event
    -- The keys of `#selectedEventMap`.
    pub selected_ids : List String
    pub events_with_exceeded_tries : List Event
    pub exceeded_tries_exceeded : List Event
    pub delayed_events : List Event
    pub empty_chunk_selected : Bool

  abbrev no_chunk : Table → Chunk
  no_chunk t = record {
    table = t;
    queue_entries = [];
    selected_ids = [];
    events_with_exceeded_tries = [];
    exceeded_tries_exceeded = [];
    delayed_events = [];
    empty_chunk_selected = true;
  }

  -- An UPDATE that is sent only if there is something to update.
  abbrev pub update_all : List Event → (Event → Event) → Table → Table
  update_all [] f t = t
  update_all (e ∷ es) f t = update (ids_of (e ∷ es)) f t

  abbrev for_processing : Config → Clusters → List Event
  for_processing c r =
      r.open_events ++ r.exceeded_tries_exceeded ++ (if c.is_periodic then [] else r.exceeded_tries)

  abbrev chunk_of : Config → (now : ℕ) → Clusters → Table → Chunk
  chunk_of c now r t =
      let chosen = for_processing c r in
      let failed = if c.is_periodic then r.exceeded_tries else [] in
      record {
        table = update_all chosen (set_in_progress now) (update_all failed (set_to_error now) t);
        queue_entries = map (taken_up now) r.open_events;
        selected_ids = ids_of chosen;
        events_with_exceeded_tries = if c.is_periodic then [] else r.exceeded_tries;
        exceeded_tries_exceeded = r.exceeded_tries_exceeded;
        delayed_events = r.delayed_events;
        empty_chunk_selected = false;
      }

  unfoldable pub get_queue_entries_and_set_to_in_progress :
      Config → (base_date : ℕ) → (delayed_ids : List String) → Table → Chunk
  unfolding is_selectable cluster_events set_in_progress set_to_error
  get_queue_entries_and_set_to_in_progress c base delayed_ids t =
      elim (select (is_selectable c base delayed_ids) c.select_max_chunk_size t) [
        | [] ↦ no_chunk t
        | e ∷ es ↦ chunk_of c base (cluster_events c base (e ∷ es)) t
      ]
