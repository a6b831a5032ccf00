-- ===== src/Broadcast.antt =====
-- src/redis/redisPub.js: broadcastEvent, over Redis or in the own process.
pub mod Published
mod Examples
use event_queue.Prelude.{
  ℕ, zero, suc, ◌+◌, String, Bool, true, false, not, ◌&&◌, ◌||◌, Option, none, some, List, [], ◌∷◌,
  if◌then◌else◌,
}
use event_queue.Lock.{Context, generate_key, join}

-- An event to broadcast, in the context of the broadcast, with what its broadcast meets: which keys
-- of locks exist at each try, whether the message cannot be published, and whether the run in the
-- own process throws.
pub record Target : Type 0 where
  pub namespace : String
  pub type_name : String
  pub sub_type : String
  pub context : Context
  pub lock_exists : (key : String) → (try : ℕ) → Bool
  pub publish_fails : Bool
  pub run_fails : Bool

pub record EventConfig : Type 0 where
  pub multi_instance_processing : Bool
  pub is_periodic : Bool

-- The fields of config that broadcastEvent reads.
pub record Settings : Type 0 where
  pub is_event_queue_active : Bool
  pub redis_enabled : Bool
  pub register_as_event_processor : Bool

abbrev pub tries_for_publish_periodic_event : ℕ
tries_for_publish_periodic_event = 10

-- What the tries for an event come to: the waits of 30 s, and whether one gets to the publication.
pub record Tried : Type 0 where
  pub waits : ℕ
  pub is_reached : Bool

-- What a broadcast does: the messages in Redis, the runs in the own process, and the waits.
pub record Effects : Type 0 where
  pub messages : List Target
  pub runs : List Target
  pub waits : ℕ

abbrev pub no_effects : Effects
no_effects = record { messages = []; runs = []; waits = 0 }

-- The key that `checkLockExists` asks for. `acquireDistributedLock` of the processor takes the lock
-- without the namespace of the configuration in its key.
unfoldable pub lock_key : Target → String
unfolding generate_key join
lock_key e = generate_key e.context true (join (e.namespace ∷ e.type_name ∷ e.sub_type ∷ [])) false

-- The test in a try; with several instances there is no lock to ask for.
abbrev pub is_locked : EventConfig → Target → ℕ → Bool
is_locked c e i = if c.multi_instance_processing then false else e.lock_exists (lock_key e) i

-- The loop over the tries, from try `i` on.
unfoldable pub publish_tries : Bool → EventConfig → Target → (i tries : ℕ) → Tried
publish_tries force c e i zero = record { waits = 0; is_reached = false }
publish_tries force c e i (suc tries) =
    let rest = publish_tries force c e (suc i) tries in
    if is_locked c e i
    then (if not c.is_periodic && not force
        then record { waits = 0; is_reached = false }
        else record rest { waits = suc rest.waits })
    else record { waits = 0; is_reached = true }

-- The loop over the events; a publication that fails ends it.
module _ (get_event_config : Target → Option EventConfig) (force : Bool) where
  abbrev pub add_tried : Target → Tried → Effects → Effects
  add_tried e t rest =
      if t.is_reached
      then (if e.publish_fails
          then record { messages = []; runs = []; waits = t.waits }
          else record {
            messages = e ∷ rest.messages;
            runs = rest.runs;
            waits = t.waits + rest.waits;
          })
      else record rest { waits = t.waits + rest.waits }

  abbrev pub publish_if_configured : Option EventConfig → Target → Effects → Effects
  publish_if_configured none e rest = rest
  publish_if_configured (some c) e rest =
      add_tried e (publish_tries force c e 0 tries_for_publish_periodic_event) rest

  unfoldable pub publish_events : List Target → Effects
  unfolding publish_tries
  publish_events [] = no_effects
  publish_events (e ∷ es) = publish_if_configured (get_event_config e) e (publish_events es)

-- `_processLocalWithoutRedis`; a run that throws ends the loop.
module _ (should_process_namespace : String → Bool) where
  unfoldable pub run_events : List Target → List Target
  run_events [] = []
  run_events (e ∷ es) =
      let rest = run_events es in
      if should_process_namespace e.namespace then (if e.run_fails then [] else e ∷ rest) else rest

  abbrev pub process_local_without_redis : Settings → List Target → Effects
  process_local_without_redis c es = record {
    messages = [];
    runs = if c.register_as_event_processor then run_events es else [];
    waits = 0;
  }

-- `broadcastEvent`; the check of the tenant has its answer as an argument.
unfoldable pub broadcast_event :
    (get_event_config : Target → Option EventConfig)
    → (should_process_namespace : String → Bool) → Settings
    → (tenant_is_valid force : Bool) → List Target
    → Effects
unfolding publish_events run_events
broadcast_event get_event_config should_process_namespace c tenant_is_valid force es =
    if not c.is_event_queue_active
    then no_effects
    else if not c.redis_enabled
    then (if tenant_is_valid
        then process_local_without_redis should_process_namespace c es
        else no_effects)
    else publish_events get_event_config force es
