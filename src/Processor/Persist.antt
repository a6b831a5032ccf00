-- ===== src/Processor/Persist.antt =====
-- src/EventQueueProcessorBase.js: `persistEventStatus` from its trace on, which groups the checked
-- status map by equal data and writes one UPDATE for each group. Times are milliseconds; `now` is
-- the clock, read once. What the joined text of the fields identifies is compared field by field.
pub mod Groups
pub mod Rows
use event_queue.Prelude.{
  ℕ, ◌+◌, ◌-◌, ◌==◌, String, Bool, true, false, ◌||◌, ◌&&◌, Option, none, some, List, [], ◌∷◌, ◌++◌,
  map, if◌then◌else◌, str_eq, filter, not,
}
use event_queue.Prelude.Dict.{insert, includes}
use event_queue.Constants.{status_open, status_error}
use event_queue.Database.{Event, EventTable}
use event_queue.Processor.Status.{Value, UpdateData}
use event_queue.Processor.Status.Checks.{UpdateMap}

abbrev pub same_status : Option ℕ → Option ℕ → Bool
same_status none none = true
same_status (some a) (some b) = a == b
same_status _ _ = false

abbrev pub same_text : Option Value → Option Value → Bool
same_text none none = true
same_text (some a) (some b) = str_eq a.text b.text
same_text _ _ = false

-- Whether two entries have the same key in `updateData`.
unfoldable pub same_key : UpdateData → UpdateData → Bool
same_key u v =
    same_status u.status v.status
    && same_text u.start_after v.start_after
    && same_text u.error v.error
    && same_text u.next_data v.next_data

pub record Group : Type 0 where
  pub data_of : UpdateData
  pub ids : List String

-- `result[key] ??= { data, ids: [] }; result[key].ids.push(id)`.
unfoldable pub add_to_group : String → UpdateData → List Group → List Group
add_to_group id u [] = record { data_of = u; ids = id ∷ [] } ∷ []
add_to_group id u (g ∷ gs) =
    let rest = add_to_group id u gs in
    if same_key g.data_of u then record g { ids = g.ids ++ id ∷ [] } ∷ gs else g ∷ rest

-- The `reduce` over the entries of the map.
unfoldable pub group_entries : List Group → UpdateMap → List Group
unfolding add_to_group
group_entries gs [] = gs
group_entries gs ((id, u) ∷ m) = group_entries (add_to_group id u gs) m

pub record RetryConfig : Type 0 where
  pub retry_failed_after : ℕ
  pub retry_open_after : ℕ

-- The `SET` part of the statement. `none` leaves a column alone.
pub record RowUpdate : Type 0 where
  pub status : ℕ
  pub start_after : Option ℕ
  pub error : Option String
  pub takes_attempt_back : Bool
  pub last_attempt_timestamp : ℕ

abbrev pub is_open_or_error : ℕ → Bool
is_open_or_error s = s == status_open || s == status_error

abbrev pub time_of : Option Value → Option ℕ
time_of none = none
time_of (some v) = v.time

abbrev pub or_else : Option ℕ → ℕ → Option ℕ
or_else none d = some d
or_else (some t) d = some t

abbrev pub json_of : Option Value → Option String
json_of none = none
json_of (some v) = some v.json

-- The body of the loop over the groups, up to the statement.
unfoldable pub row_update : RetryConfig → (now : ℕ) → (status : ℕ) → UpdateData → RowUpdate
row_update config now s u = record {
  status = s;
  start_after =
      if is_open_or_error s
      then or_else (time_of u.start_after)
          (now + (if s == status_error then config.retry_failed_after else config.retry_open_after))
      else none;
  error = json_of u.error;
  takes_attempt_back = s == status_open;
  last_attempt_timestamp = now;
}

abbrev pub keep_or {ℓ} : {A : Type ℓ} → Option A → Option A → Option A
keep_or none old = old
keep_or (some a) old = some a

-- Attempts are taken back from 1 on: the selection of an event has counted one. (At 0 the data base
-- would write -1, where this stops.)
unfoldable pub apply_update : RowUpdate → Event → Event
apply_update w e = record e {
  status = w.status;
  start_after = keep_or w.start_after e.start_after;
  error = keep_or w.error e.error;
  attempts = if w.takes_attempt_back then e.attempts - 1 else e.attempts;
  last_attempt_timestamp = some w.last_attempt_timestamp;
}

module _ (db : EventTable) where
  open db use {Table, update, insert_into}

  pub record Written : Type 0 where
    pub table : Table
    -- `__commitedStatusMap`, and the keys of `__notCommitedStatusMap`.
    pub commited : List (String × ℕ)
    pub not_commited : List String
    -- The times handed to `scheduleEvent`.
    pub scheduled : List ℕ
    pub next_saga_events : List Event

abbrev pub commit_all : List String → ℕ → List (String × ℕ) → List (String × ℕ)
commit_all [] s m = m
commit_all (id ∷ ids) s m = commit_all ids s (insert id s m)

abbrev pub schedule : Option ℕ → List ℕ → List ℕ
schedule none ts = ts
schedule (some t) ts = ts ++ t ∷ []

module _ (db : EventTable) (config : RetryConfig) (now : ℕ) where
  open db use {Table, update, insert_into}

  abbrev pub write_status : Group → ℕ → Written db → Written db
  write_status g s w =
      let u = row_update config now s g.data_of in
      record w {
        table = update g.ids (apply_update u) w.table;
        commited = commit_all g.ids s w.commited;
        not_commited = filter (λ id. not (includes id g.ids)) w.not_commited;
        scheduled = schedule u.start_after w.scheduled;
      }

  -- One round of the loop. A group without a status is only logged.
  abbrev pub write_group_as : Option ℕ → Group → Written db → Written db
  write_group_as none g w = w
  write_group_as (some s) g w = write_status g s w

  unfoldable pub write_group : Group → Written db → Written db
  unfolding row_update filter
  write_group g w = write_group_as g.data_of.status g w

  unfoldable pub write_groups : List Group → Written db → Written db
  unfolding write_group
  write_groups [] w = w
  write_groups (g ∷ gs) w = write_groups gs (write_group g w)

  abbrev pub insert_saga_events : List Event → Written db → Written db
  insert_saga_events [] w = w
  insert_saga_events (e ∷ es) w = record w {
    table = insert_into (e ∷ es) w.table;
    next_saga_events = [];
  }

  abbrev pub persist_groups : List Group → Written db → Written db
  persist_groups [] w = w
  persist_groups (g ∷ gs) w =
      let w' = write_groups (g ∷ gs) w in insert_saga_events w'.next_saga_events w'

  -- `persistEventStatus` on the checked map. With nothing to update it returns at once.
  unfoldable pub persist : UpdateMap → Written db → Written db
  unfolding group_entries write_groups
  persist m w = persist_groups (group_entries [] m) w
