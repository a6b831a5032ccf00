-- ===== src/Config/Examples.antt =====
-- A small configuration.
use event_queue.Prelude.{
  ◌≡◌, refl, String, Bool, true, false, none, some, List, [], ◌∷◌, All, ◌⊎◌, str_eq, any, ◌&&◌,
  if◌then◌else◌,
}
use event_queue.Prelude.Dict.{lookup}
use event_queue.Prelude.Results.{Result, ok, err}
use event_queue.Config.Event.{EventMap, EventConfig, ConfigError, key_of, Settings, items}
use event_queue.Config.EventMap.{
  file_content, register_ad_hoc, register_periodic, transformation_after_validate,
}
use event_queue.Config.Registered.{IsRegistered, file_content-IsRegistered}
use event_queue.Config.Applications.{Application, should_be_processed}
use event_queue.Config.Applications.Matching.{names_app, should_be_processed-eq}
use event_queue.Config.Names.{
  normalize_sub_type, normalize_sub_type-Grows, first_of, join_dots, Grows,
}

-- One expression that runs each hour, and regular expressions of one form.
abbrev settings : Settings
settings = record {
  namespace = some "default";
  instance_load_limit = 100;
  is_multi_tenancy = true;
  cron_timezone = none;
  next_dates = λ s. if str_eq s "0 * * * *" then some (3_600_000, 7_200_000) else none;
  regex_of = λ s. if str_eq s "/srv/" then some (λ t. str_eq t "my-srv") else none;
}

abbrev plain : EventConfig
plain = record {
  type = some "Mail";
  sub_type = some "send";
  impl = some "./mail";
  namespace = none;
  load = none;
  priority = none;
  increase_priority_over_time = none;
  keep_alive_interval = none;
  keep_alive_max_in_progress_time = none;
  check_for_next_chunk = none;
  app_names = some (items (some "/srv/" ∷ some "other" ∷ []));
  app_instances = none;
  multi_instance_processing = false;
  inherit_trace_context = none;
  time_bucket = none;
  process_after_commit = none;
  retry_failed_after = none;
  retry_open_after = none;
  interval = none;
  cron = none;
  utc = none;
  use_cron_timezone = none;
  random_offset = none;
  tz = none;
  is_periodic = false;
  app_name_map = none;
  app_name_contains_regex = false;
  app_instances_map = none;
}

abbrev hourly : EventConfig
hourly = record plain { sub_type = some "clean"; cron = some "0 * * * *" }

abbrev map_of : Result ConfigError EventMap → EventMap
map_of (ok m) = m
map_of (err e) = []

abbrev configured : EventMap
configured = map_of (file_content settings (plain ∷ []) (hourly ∷ []))

file_content-IsRegistered_example : All (IsRegistered settings) configured
unfolding file_content register_ad_hoc lookup register_periodic key_of
file_content-IsRegistered_example =
    file_content-IsRegistered settings (plain ∷ []) (hourly ∷ []) configured refl

abbrev application : Application
application = record { name = "my-srv"; instance_number = 0 }

should_be_processed-eq_example :
    should_be_processed application (transformation_after_validate settings plain)
    ≡ (any (names_app settings "my-srv") ("/srv/" ∷ "other" ∷ []) && true)
should_be_processed-eq_example = should_be_processed-eq settings application plain refl

abbrev is_known : String → Bool
is_known s = str_eq s "my.service"

normalize_sub_type-Grows_example :
    (srv : String) × (rest : List String) × ((normalize_sub_type is_known
        (λ s a. true)
        "CAP_OUTBOX"
        "my"
        ("service" ∷ "run" ∷ [])).srv_name
      ≡ some srv)
    × ((normalize_sub_type is_known
          (λ s a. true)
          "CAP_OUTBOX"
          "my"
          ("service" ∷ "run" ∷ [])).action_name
        ≡ first_of rest)
    × ((true ≡ true
          → (normalize_sub_type is_known
              (λ s a. true)
              "CAP_OUTBOX"
              "my"
              ("service" ∷ "run" ∷ [])).sub_type
            ≡ join_dots "my" ("service" ∷ "run" ∷ []))
        × (true ≡ false
            → (normalize_sub_type is_known
                (λ s a. true)
                "CAP_OUTBOX"
                "my"
                ("service" ∷ "run" ∷ [])).sub_type
              ≡ srv))
    × (join_dots srv rest ≡ join_dots "my" ("service" ∷ "run" ∷ []))
    × Grows is_known "my" ("service" ∷ "run" ∷ []) srv rest
    × ((is_known srv ≡ true) ⊎ (rest ≡ []))
normalize_sub_type-Grows_example =
    normalize_sub_type-Grows is_known (λ s a. true) "CAP_OUTBOX" "my" ("service" ∷ "run" ∷ []) refl
