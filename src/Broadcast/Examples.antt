-- ===== src/Broadcast/Examples.antt =====
-- src/redis/redisPub.js: small runs.
use event_queue.Prelude.{true, false, ◌&&◌, Option, none, some, ltb, str_eq}
use event_queue.Broadcast.{Target, EventConfig, Settings}

-- The lock exists at the first two tries.
abbrev locked_for_two : Target
locked_for_two = record {
  namespace = "default";
  type_name = "checks";
  sub_type = "nightly";
  context = record { namespace = none; tenant = some "t1" };
  lock_exists = λ key i. str_eq key "EVENT_QUEUE##t1##default##checks##nightly" && ltb i 2;
  publish_fails = false;
  run_fails = false;
}

abbrev locked_mail : Target
locked_mail = record locked_for_two {
  type_name = "mail";
  lock_exists = λ key i. str_eq key "EVENT_QUEUE##t1##default##mail##nightly" && ltb i 2;
}

abbrev free_mail : Target
free_mail = record locked_mail { lock_exists = λ key i. false }

abbrev periodic_checks : Target → Option EventConfig
periodic_checks e =
    some (record { multi_instance_processing = false; is_periodic = str_eq e.type_name "checks" })

abbrev settings : Settings
settings = record {
  is_event_queue_active = true;
  redis_enabled = true;
  register_as_event_processor = true;
}
