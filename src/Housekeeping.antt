-- ===== src/Housekeeping.antt =====
-- src/housekeeping/EventQueueDeleteEvents.js: the periodic deletion of old rows.
pub mod Deleted
mod Examples
use event_queue.Prelude.{
  ℕ, zero, suc, ◌+◌, ◌*◌, String, Bool, true, false, not, ◌&&◌, ◌||◌, Option, none, some, List, [],
  ◌∷◌, ◌++◌, if◌then◌else◌, leb, ltb, ◌==◌, str_eq, any,
}
use event_queue.Prelude.Dict.{includes}
use event_queue.Database.{Event, EventTable}

-- The fields of an event's configuration that are read; 0 days are as good as none.
pub record EventConfig : Type 0 where
  pub type : String
  pub sub_type : String
  pub delete_finished_events_after_days : Option ℕ

abbrev pub delete_default_period_in_days : ℕ
delete_default_period_in_days = 7

abbrev pub day_in_ms : ℕ
day_in_ms = 24 * (60 * (60 * 1000))

unfoldable pub days_of : EventConfig → ℕ
days_of c = elim c.delete_finished_events_after_days [
  | none ↦ delete_default_period_in_days
  | some zero ↦ delete_default_period_in_days
  | some (suc n) ↦ suc n
]

-- `deleteByDaysMap`: the days with their events, ascending as the number keys of an object are.
abbrev pub ByDays : Type 0
ByDays = List (ℕ × List EventConfig)

unfoldable pub add_by_days : EventConfig → ByDays → ByDays
unfolding days_of
add_by_days c [] = (days_of c, c ∷ []) ∷ []
add_by_days c ((days, cs) ∷ gs) =
    let behind = add_by_days c gs in
    if days == days_of c
    then (days, cs ++ c ∷ []) ∷ gs
    else if ltb days (days_of c)
    then (days, cs) ∷ behind
    else (days_of c, c ∷ []) ∷ (days, cs) ∷ gs

-- The `reduce` over `config.events.concat(config.periodicEvents)`.
unfoldable pub delete_by_days : List EventConfig → ByDays → ByDays
unfolding add_by_days
delete_by_days [] gs = gs
delete_by_days (c ∷ cs) gs = delete_by_days cs (add_by_days c gs)

abbrev pub has_type : Event → EventConfig → Bool
has_type e c = str_eq c.type e.type && str_eq c.sub_type e.sub_type

-- `lastAttemptTimestamp <= timestamp - deleteAfter * DAY_IN_MS`, which NULL does not fulfil.
unfoldable pub is_older : (timestamp days : ℕ) → Event → Bool
is_older timestamp days e = elim e.last_attempt_timestamp [
  | none ↦ false
  | some t ↦ leb (t + days * day_in_ms) timestamp
]

-- The condition of the statement.
unfoldable pub is_deleted :
    (namespaces : List String) → (timestamp : ℕ) → ℕ × List EventConfig → Event → Bool
unfolding is_older any
is_deleted namespaces timestamp (days, cs) e =
    any (has_type e) cs && (is_older timestamp days e && includes e.namespace namespaces)

module _ (db : EventTable) (namespaces : List String) (timestamp : ℕ) where
  open db use {Table, delete_where}

  unfoldable pub delete_groups : ByDays → Table → Table
  unfolding is_deleted
  delete_groups [] t = t
  delete_groups (g ∷ gs) t = delete_groups gs (delete_where (is_deleted namespaces timestamp g) t)

  -- `processPeriodicEvent`.
  unfoldable pub process_periodic_event :
      (events periodic_events : List EventConfig) → Table → Table
  unfolding delete_groups delete_by_days
  process_periodic_event events periodic_events t =
      delete_groups (delete_by_days (events ++ periodic_events) []) t
