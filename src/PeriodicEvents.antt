-- ===== src/PeriodicEvents.antt =====
-- src/periodicEvents.js: which rows of periodic events are inserted, kept and replaced.
pub mod Groups
pub mod Sorting
pub mod Covered
mod Examples
use event_queue.Prelude.{
  ℕ, ◌+◌, ◌-◌, ◌*◌, String, Bool, true, false, not, ◌&&◌, ◌||◌, Option, none, some, List, [], ◌∷◌,
  ◌++◌, if◌then◌else◌, leb, ltb, ◌==◌, str_eq, any, filter, map,
}
use event_queue.Prelude.Dict
use event_queue.Constants.{status_open, status_in_progress}
use event_queue.Database.{Event, EventTable}
use event_queue.Lock.{join}

-- The configuration of a periodic event, with a cron expression or an interval in seconds.
pub record PeriodicEvent : Type 0 where
  pub type : String
  pub sub_type : String
  pub namespace : String
  pub cron : Option String
  pub tz : Option String
  pub interval : ℕ
  -- `config.randomOffset ?? eventConfig.randomOffsetPeriodicEvents ?? 0`.
  pub random_offset : ℕ

-- One row of the grouped selection.
pub record Group : Type 0 where
  pub type : String
  pub sub_type : String
  pub namespace : String
  pub created_at : ℕ
  pub start_after : Option ℕ

-- `_generateKey`.
unfoldable pub key_of : (namespace type sub_type : String) → String
unfolding join
key_of namespace type sub_type = join (namespace ∷ type ∷ sub_type ∷ [])

abbrev pub key_of_event : PeriodicEvent → String
key_of_event e = key_of e.namespace e.type e.sub_type

abbrev pub key_of_group : Group → String
key_of_group g = key_of g.namespace g.type g.sub_type

abbrev pub is_row_of : Event → PeriodicEvent → Bool
is_row_of r e =
    str_eq e.type r.type && (str_eq e.sub_type r.sub_type && str_eq e.namespace r.namespace)

abbrev pub is_pending : Event → Bool
is_pending r = r.status == status_open || r.status == status_in_progress

-- `max(startAfter)`, which passes NULL over.
abbrev pub later_of : Option ℕ → Option ℕ → Option ℕ
later_of none s = s
later_of (some a) none = some a
later_of (some a) (some b) = some (if ltb a b then b else a)

abbrev pub is_in_group : Event → Group → Bool
is_in_group r g =
    str_eq g.type r.type
    && (str_eq g.sub_type r.sub_type
        && (str_eq g.namespace r.namespace && g.created_at == r.created_at))

abbrev pub group_of : Event → Group
group_of r = record {
  type = r.type;
  sub_type = r.sub_type;
  namespace = r.namespace;
  created_at = r.created_at;
  start_after = r.start_after;
}

-- `GROUP BY type, subType, createdAt, namespace`, one row after the other.
unfoldable pub add_to_groups : Event → List Group → List Group
add_to_groups r [] = group_of r ∷ []
add_to_groups r (g ∷ gs) =
    let behind = add_to_groups r gs in
    if is_in_group r g
    then record g { start_after = later_of g.start_after r.start_after } ∷ gs
    else g ∷ behind

unfoldable pub group_by : List Event → List Group → List Group
unfolding add_to_groups
group_by [] gs = gs
group_by (r ∷ rs) gs = group_by rs (add_to_groups r gs)

-- The selection of the rows of periodic events that are Open or InProgress.
unfoldable pub current_periodic_events : List PeriodicEvent → List Event → List Group
unfolding group_by any filter
current_periodic_events es rows =
    group_by (filter (λ r. any (is_row_of r) es && is_pending r) rows) []

-- `exitingEventMap`.
unfoldable pub existing_event_map : List Group → List (String × Group) → List (String × Group)
existing_event_map [] m = m
existing_event_map (g ∷ gs) m = existing_event_map gs (Dict.insert (key_of_group g) g m)

pub record Sorted : Type 0 where
  pub new_events : List PeriodicEvent
  pub existing_events_cron : List (PeriodicEvent × Group)
  pub existing_events_interval : List (PeriodicEvent × Group)

abbrev pub add_sorted : PeriodicEvent → Option Group → Sorted → Sorted
add_sorted e none s = record s { new_events = e ∷ s.new_events }
add_sorted e (some g) s = elim e.cron [
  | some _ ↦ record s { existing_events_cron = (e, g) ∷ s.existing_events_cron }
  | none ↦ record s { existing_events_interval = (e, g) ∷ s.existing_events_interval }
]

-- The `reduce` over the configured events. A row that exists has the key of its event, so the
-- configuration that is looked up for it is that of the event.
unfoldable pub sort_events : List PeriodicEvent → List (String × Group) → Sorted
sort_events [] m = record {
  new_events = [];
  existing_events_cron = [];
  existing_events_interval = [];
}
sort_events (e ∷ es) m = add_sorted e (Dict.lookup (key_of_event e) m) (sort_events es m)

-- `new Date(startAfter)`, where NULL is the time 0.
abbrev pub time_of : Option ℕ → ℕ
time_of none = 0
time_of (some t) = t

-- `_determineChangedInterval`: too far in the future for the interval.
unfoldable pub has_changed_interval : (now : ℕ) → PeriodicEvent × Group → Bool
has_changed_interval now (e, g) = leb (now + e.interval * 1000) (time_of g.start_after)

abbrev pub allowed_periodic_sec_diff : ℕ
allowed_periodic_sec_diff = 30

abbrev pub distance : ℕ → ℕ → ℕ
distance a b = (a - b) + (b - a)

abbrev pub has_same_date : Event → Group → Bool
has_same_date r g =
    str_eq g.type r.type
    && (str_eq g.sub_type r.sub_type
        && (g.created_at == r.created_at && elim g.start_after [
          | none ↦ elim r.start_after [ none ↦ true | some _ ↦ false ]
          | some a ↦ elim r.start_after [ none ↦ false | some b ↦ a == b ]
        ]))

abbrev pub is_replaced : List (PeriodicEvent × Group) → Event → Bool
is_replaced cs r = any (λ c. has_same_date r c.1) cs

-- The next date of a cron expression in a time zone behind a time, in milliseconds, is what the
-- package cron-parser computes; the texts of new ids are those of the data base.
module _ (next_date : String → Option String → ℕ → ℕ) (new_id : PeriodicEvent → String) where
  -- `_determineChangedCron`.
  unfoldable pub has_changed_cron : PeriodicEvent × Group → Bool
  has_changed_cron (e, g) = elim e.cron [
    | none ↦ false
    | some cron ↦
        ltb ((allowed_periodic_sec_diff + e.random_offset) * 1000)
          (distance (next_date cron e.tz g.created_at) (time_of g.start_after))
  ]

  unfoldable pub changed_events : (now : ℕ) → Sorted → List (PeriodicEvent × Group)
  unfolding has_changed_interval has_changed_cron filter
  changed_events now s =
      filter (has_changed_interval now) s.existing_events_interval
      ++ filter has_changed_cron s.existing_events_cron

  -- One row of `_insertPeriodEvents`, with the defaults of the table.
  unfoldable pub new_row : (now : ℕ) → PeriodicEvent → Event
  new_row now e = record {
    id = new_id e;
    type = e.type;
    sub_type = e.sub_type;
    namespace = e.namespace;
    status = status_open;
    payload = none;
    attempts = 0;
    last_attempt_timestamp = none;
    created_at = now;
    start_after = some (elim e.cron [ none ↦ now | some cron ↦ next_date cron e.tz now ]);
    error = none;
  }

  module _ (db : EventTable) where
    open db use {Table, rows, delete_where, insert_into}

    -- `_insertPeriodEvents`; the chunks are only logged.
    unfoldable pub insert_period_events : (now : ℕ) → List PeriodicEvent → Table → Table
    unfolding new_row
    insert_period_events now es t = insert_into (map (new_row now) es) t

    abbrev pub delete_changed : List (PeriodicEvent × Group) → Table → Table
    delete_changed [] t = t
    delete_changed (c ∷ cs) t = delete_where (is_replaced (c ∷ cs)) t

    abbrev pub insert_unless_empty : (now : ℕ) → List PeriodicEvent → Table → Table
    insert_unless_empty now [] t = t
    insert_unless_empty now (e ∷ es) t = insert_period_events now (e ∷ es) t

    unfoldable pub update_events : (now : ℕ) → Sorted → Table → Table
    unfolding insert_period_events any
    update_events now s t =
        let changed = changed_events now s in
        insert_unless_empty now (s.new_events ++ map (λ c. c.0) changed) (delete_changed changed t)

    abbrev pub check_groups : (now : ℕ) → List PeriodicEvent → List Group → Table → Table
    check_groups now es [] t = insert_period_events now es t
    check_groups now es (g ∷ gs) t =
        update_events now (sort_events es (existing_event_map (g ∷ gs) [])) t

    -- `checkAndInsertPeriodicEvents`.
    unfoldable pub check_and_insert_periodic_events : (now : ℕ) → List PeriodicEvent → Table → Table
    unfolding current_periodic_events update_events
    check_and_insert_periodic_events now es t =
        check_groups now es (current_periodic_events es (rows t)) t
