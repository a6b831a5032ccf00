-- ===== src/RedisSub/Examples.antt =====
-- src/redis/redisSub.js: a message for two instances.
use event_queue.Prelude.{
  ◌≡◌, refl, sym, ap, Bool, true, false, Option, some, none, [], ◌∷◌, length, flag, any, arith,
}
use event_queue.Prelude.Dict.{lookup}
use event_queue.Lock.Memory.{memory_redis}
use event_queue.Config.Event.{EventConfig, generate_key}
use event_queue.OpenEvents.{OpenEntry}
use event_queue.OpenEvents.Samples.{app, configured}
use event_queue.RedisSub.{Instance, message_handler_process_events, deliver}
use event_queue.RedisSub.Delivery.{IsExclusive, is_accepted, deliver_once}

abbrev mails : OpenEntry
mails = record { namespace = "default"; type = "Mail"; sub_type = "send"; count = 1 }

abbrev first : Instance
first = record {
  tenant_is_valid = true;
  is_event_queue_active = true;
  app = app;
  event_map = configured;
  context_fails = false;
  own_namespace = some "default";
  time = 1000;
}

abbrev second : Instance
second = record first { time = 1200 }

-- An instance that does not process events now.
abbrev inactive : Instance
inactive = record first { is_event_queue_active = false; time = 900 }

abbrev is_multi : Option EventConfig → Bool
is_multi none = false
is_multi (some c) = c.multi_instance_processing

first-IsExclusive : IsExclusive mails first
unfolding message_handler_process_events generate_key lookup
first-IsExclusive c accepted = sym (ap is_multi accepted)

second-IsExclusive : IsExclusive mails second
unfolding message_handler_process_events generate_key lookup
second-IsExclusive c accepted = sym (ap is_multi accepted)

inactive-IsExclusive : IsExclusive mails inactive
unfolding message_handler_process_events generate_key lookup
inactive-IsExclusive c accepted = sym (ap is_multi accepted)

-- The first instance processes the events, and the second one finds the lock taken.
deliver_once_example :
    length
      (deliver memory_redis
        (some "t1")
        "lock"
        1800000
        (λ n. "now")
        mails
        (inactive ∷ first ∷ second ∷ [])
        []).0
    ≡ flag (any (is_accepted mails) (inactive ∷ first ∷ second ∷ []))
unfolding lookup
deliver_once_example =
    deliver_once memory_redis (some "t1") "lock" (some "default") 1800000 (λ n. "now") mails
      (inactive ∷ first ∷ second ∷ []) [] (refl, (refl, (refl, tt)))
      (inactive-IsExclusive, (first-IsExclusive, (second-IsExclusive, tt))) (omega arith)
      (λ time. refl)
