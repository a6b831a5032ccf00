-- ===== src/PeriodicEvents/Examples.antt =====
-- src/periodicEvents.js: runs on small tables.
use event_queue.Prelude.{◌≡◌, refl, ℕ, ◌+◌, String, Option, true, false, none, some, [], ◌∷◌, any}
use event_queue.Prelude.Dict.{lookup, insert}
use event_queue.Database.{Event, list_table}
use event_queue.PeriodicEvents.{
  PeriodicEvent, key_of, existing_event_map, sort_events, changed_events,
  check_and_insert_periodic_events,
}
use event_queue.PeriodicEvents.Covered.{is_covered, check_and_insert_periodic_events-covered}

abbrev each_minute : String → Option String → ℕ → ℕ
each_minute cron tz time = time + 60_000

abbrev id_of : PeriodicEvent → String
id_of e = e.namespace

abbrev sync_event : String → ℕ → PeriodicEvent
sync_event namespace interval = record {
  type = "Sync_PERIODIC";
  sub_type = "all";
  namespace = namespace;
  cron = none;
  tz = none;
  interval = interval;
  random_offset = 0;
}

abbrev sync_row : String → ℕ → Event
sync_row namespace start_after = record {
  id = namespace;
  type = "Sync_PERIODIC";
  sub_type = "all";
  namespace = namespace;
  status = 0;
  payload = none;
  attempts = 0;
  last_attempt_timestamp = none;
  created_at = 5_000;
  start_after = some start_after;
  error = none;
}

-- The interval was shortened, so the row is replaced.
check_and_insert_periodic_events-covered_example :
    is_covered "a##Sync_PERIODIC##all" (
      check_and_insert_periodic_events each_minute id_of list_table 10_000
        (sync_event "a" 20 ∷ [])
        (sync_row "a" 90_000 ∷ []))
    ≡ true
unfolding key_of any
check_and_insert_periodic_events-covered_example =
    check_and_insert_periodic_events-covered each_minute id_of list_table 10_000 "a"
      "a##Sync_PERIODIC##all" (sync_event "a" 20 ∷ []) (sync_row "a" 90_000 ∷ []) (refl, tt) refl

-- Two namespaces have the event, and only that of the first has a shorter interval now: the row of
-- the second is deleted too, and not inserted again.
other_namespace_lost :
    is_covered "b##Sync_PERIODIC##all" (
      check_and_insert_periodic_events each_minute id_of list_table 10_000
        (sync_event "a" 20 ∷ sync_event "b" 600 ∷ [])
        (sync_row "a" 90_000 ∷ sync_row "b" 90_000 ∷ []))
    ≡ false
unfolding check_and_insert_periodic_events key_of sort_events lookup existing_event_map insert
    changed_events
other_namespace_lost = refl
