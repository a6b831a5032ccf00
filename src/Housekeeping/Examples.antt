-- ===== src/Housekeeping/Examples.antt =====
-- The deletion on a small table.
use event_queue.Prelude.{◌≡◌, ℕ, String, not, none, some, List, [], ◌∷◌, any, filter, ◌*◌}
use event_queue.Database.{Event, list_table}
use event_queue.Housekeeping.{EventConfig, day_in_ms, process_periodic_event}
use event_queue.Housekeeping.Deleted.{takes, rows-process_periodic_event}

abbrev mail : EventConfig
mail = record { type = "Mail"; sub_type = "send"; delete_finished_events_after_days = some 0 }

abbrev tried_row : String → ℕ → ℕ → Event
tried_row id status last_attempt = record {
  id = id;
  type = "Mail";
  sub_type = "send";
  namespace = "default";
  status = status;
  payload = none;
  attempts = 1;
  last_attempt_timestamp = some last_attempt;
  created_at = 0;
  start_after = none;
  error = none;
}

abbrev old_rows : List Event
old_rows = tried_row "e1" 3 0 ∷ tried_row "e2" 2 (2 * day_in_ms) ∷ []

rows-process_periodic_event_example :
    list_table.rows
      (process_periodic_event list_table ("default" ∷ []) (8 * day_in_ms) (mail ∷ []) [] old_rows)
    ≡ filter (λ e. not (any (takes ("default" ∷ []) (8 * day_in_ms) e) (mail ∷ []))) old_rows
rows-process_periodic_event_example =
    rows-process_periodic_event ("default" ∷ []) (8 * day_in_ms) list_table (mail ∷ []) [] old_rows
