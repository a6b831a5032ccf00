-- ===== src/Publish/Examples.antt =====
-- Publishing a mail twice in a transaction, and with a time bucket.
use event_queue.Prelude.{◌≡◌, refl, true, false, not, ◌&&◌, none, some, List, [], ◌∷◌}
use event_queue.Prelude.Dict.{lookup}
use event_queue.Prelude.Results.{ok}
use event_queue.Config.Event.{EventConfig, generate_key}
use event_queue.Publish.{
  date, NewEvent, Options, Environment, config_of, is_unset, is_malformed_date, periodic, prepare,
  Tx, insert_all, before_commit,
}
use event_queue.Publish.Checks.{prepare_checks}
use event_queue.Publish.Twice.{publish_calls, prepare_calls, published_once}

abbrev bucketed : EventConfig
bucketed = record {
  type = some "Mail";
  sub_type = some "send";
  impl = some "./mail";
  namespace = some (some "default");
  load = some 1;
  priority = some "medium";
  increase_priority_over_time = some true;
  keep_alive_interval = some 60;
  keep_alive_max_in_progress_time = some 210_000;
  check_for_next_chunk = some true;
  app_names = none;
  app_instances = none;
  multi_instance_processing = false;
  inherit_trace_context = some true;
  time_bucket = some "0 * * * *";
  process_after_commit = none;
  retry_failed_after = some 300_000;
  retry_open_after = some 300_000;
  interval = none;
  cron = none;
  utc = none;
  use_cron_timezone = none;
  random_offset = none;
  tz = none;
  is_periodic = false;
  app_name_map = none;
  app_name_contains_regex = false;
  app_instances_map = none;
}

abbrev environment : Environment
environment = record {
  initialized = true;
  namespace = "default";
  event_map = ("default##Mail##send", bucketed) ∷ [];
  insert_events_before_commit = true;
  next_date = λ cron. 3_600_000;
  trace_context = "";
}

abbrev mail : NewEvent
mail = record {
  type = "Mail";
  sub_type = "send";
  namespace = none;
  start_after = date 5_000;
  payload = "to: all";
  context = none;
}

abbrev waits : Options
waits = record {
  skip_broadcast = false;
  skip_insert_events_before_commit = false;
  add_trace_context = false;
  allow_not_existing_configuration = false;
}

abbrev at_once : Options
at_once = record waits { skip_insert_events_before_commit = true }

abbrev published : NewEvent
published = record mail { namespace = some "default"; start_after = date 3_600_000 }

published-eq : prepare environment waits mail ≡ ok published
unfolding prepare generate_key lookup
published-eq = refl

prepare_checks_example :
    ((is_unset (config_of environment published) && not false) ≡ false)
    × (periodic (config_of environment published) ≡ false)
    × (is_malformed_date published.start_after ≡ false)
    × (published.type ≡ mail.type)
    × (published.sub_type ≡ mail.sub_type)
    × (published.payload ≡ mail.payload)
    × (is_unset published.namespace ≡ false)
    × (config_of environment published ≡ config_of environment mail)
prepare_checks_example = prepare_checks environment waits mail published published-eq

abbrev queued_tx : Tx
queued_tx = record { queued = published ∷ published ∷ []; handler = some false; inserted = [] }

published_once_example :
    (all : List NewEvent) × (prepare_calls environment
        ((waits, mail ∷ []) ∷ (waits, mail ∷ []) ∷ [])
      ≡ ok all)
    × ((before_commit queued_tx).inserted ≡ insert_all false all)
unfolding publish_calls prepare generate_key lookup
published_once_example =
    published_once environment waits (mail ∷ []) ((waits, mail ∷ []) ∷ []) queued_tx refl
      (refl, (refl, tt)) refl

abbrev direct_tx : Tx
direct_tx = record { queued = published ∷ []; handler = none; inserted = (published, false) ∷ [] }

abbrev later_tx : Tx
later_tx = record direct_tx { queued = published ∷ published ∷ []; handler = some false }
