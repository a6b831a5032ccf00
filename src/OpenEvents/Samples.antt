-- ===== src/OpenEvents/Samples.antt =====
-- src/runner/openEvents.js: an application with one event, for the tests.
use event_queue.Prelude.{false, none, some, [], ◌∷◌}
use event_queue.Config.Event.{EventConfig, EventMap}
use event_queue.OpenEvents.{App, connected}

abbrev pub mail_config : EventConfig
mail_config = record {
  type = some "Mail";
  sub_type = some "send";
  impl = some "./mail";
  namespace = some (some "default");
  load = some 1;
  priority = some "MEDIUM";
  increase_priority_over_time = none;
  keep_alive_interval = none;
  keep_alive_max_in_progress_time = none;
  check_for_next_chunk = none;
  app_names = none;
  app_instances = none;
  multi_instance_processing = false;
  inherit_trace_context = none;
  time_bucket = none;
  process_after_commit = none;
  retry_failed_after = none;
  retry_open_after = none;
  interval = none;
  cron = none;
  utc = none;
  use_cron_timezone = none;
  random_offset = none;
  tz = none;
  is_periodic = false;
  app_name_map = none;
  app_name_contains_regex = false;
  app_instances_map = none;
}

abbrev pub app : App
app = record {
  application = record { name = "srv"; instance_number = 0 };
  normalize = λ s. record { sub_type = s; action_name = none; srv_name = some s };
  connect_to = λ s. connected;
  added = λ s. ("default##CAP_OUTBOX##other", mail_config);
}

abbrev pub configured : EventMap
configured = ("default##Mail##send", mail_config) ∷ []
