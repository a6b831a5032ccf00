-- ===== src/OpenEvents/Examples.antt =====
-- src/runner/openEvents.js: a small search.
use event_queue.Prelude.{refl, false, none, [], ◌∷◌, filter}
use event_queue.Prelude.Dict.{lookup}
use event_queue.Constants.{status_open}
use event_queue.Database.{Event, list_table}
use event_queue.Processor.Select.{Config}
use event_queue.Config.Event.{generate_key}
use event_queue.Config.Applications.{should_be_processed}
use event_queue.OpenEvents.{Grouping, Settings, groups_of}
use event_queue.OpenEvents.Samples.{app, mail_config, configured}
use event_queue.OpenEvents.Filtered.{IsHandled}
use event_queue.OpenEvents.Selectable.{reported-groups_of}

abbrev list_grouping : Grouping list_table
list_grouping = record {
  select_counts = λ p t. groups_of (filter p t);
  reported-select_counts = λ p n ty st t. reported-groups_of p n ty st t;
}

abbrev mail : Event
mail = record {
  id = "a";
  type = "Mail";
  sub_type = "send";
  namespace = "default";
  status = status_open;
  payload = none;
  attempts = 0;
  last_attempt_timestamp = none;
  created_at = 900;
  start_after = none;
  error = none;
}

abbrev processor : Config
processor = record {
  event_type = "Mail";
  event_sub_type = "send";
  namespace = "default";
  is_periodic = false;
  retry_attempts = 3;
  select_max_chunk_size = 100;
  keep_alive_max_in_progress_ms = 210000;
  run_interval = 1500;
  start_time = 1000;
}

abbrev searched : Settings
searched = record {
  processing_namespaces = "default" ∷ [];
  run_interval = 1500;
  global_tx_timeout = 1800000;
}

handled : IsHandled app "default" "Mail" "send" configured
unfolding generate_key lookup should_be_processed
handled = record {
  config = mail_config;
  found = refl;
  processed_config = mail_config;
  found_processed = refl;
  processed = refl;
}
