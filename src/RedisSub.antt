-- ===== src/RedisSub.antt =====
-- src/redis/redisSub.js and src/runner/runnerHelper.js: what the instances of an application do
-- with a message. The commands of Redis come one after the other, in the order of the instances.
pub mod Delivery
mod Examples
use event_queue.Prelude.{
  ℕ, String, Bool, true, false, not, ◌&&◌, Option, none, some, List, [], ◌∷◌, if◌then◌else◌,
}
use event_queue.Prelude.Dict.{insert}
use event_queue.Lock.{generate_key, acquire_lock_redis}
use event_queue.Lock.Stores.{Redis}
use event_queue.Config.Event.{EventMap, EventConfig}
use event_queue.Config.Access.{get_event_config}
use event_queue.Config.Applications.{should_be_processed}
use event_queue.Config.Names.{is_cap_event_type}
use event_queue.OpenEvents.{
  OpenEntry, App, Connection, connected, no_service, connect_failed, has_action,
  should_be_processed_in_this_application,
}

-- An instance that gets the message: the answer of the check of the tenant, its configuration,
-- whether the context of the user cannot be made, the namespace that `config.namespace` gives it,
-- and the time at which its worker queue starts the function of the event.
pub record Instance : Type 0 where
  pub tenant_is_valid : Bool
  pub is_event_queue_active : Bool
  pub app : App
  pub event_map : EventMap
  pub context_fails : Bool
  pub own_namespace : Option String
  pub time : ℕ

-- The configurations behind the search for the service; `none` is an early return.
abbrev pub connect_to_service : App → OpenEntry → Connection → EventMap → Option EventMap
connect_to_service app o connect_failed m = none
connect_to_service app o no_service m = none
connect_to_service app o connected m =
    if has_action (app.normalize o.sub_type).action_name
    then none
    else some (insert (app.added o.sub_type).0 (app.added o.sub_type).1 m)

abbrev pub ensure_configuration : App → OpenEntry → Option EventConfig → EventMap → Option EventMap
ensure_configuration app o (some c) m = some m
ensure_configuration app o none m =
    if is_cap_event_type o.type
    then connect_to_service app o (app.connect_to (app.normalize o.sub_type).srv_name) m
    else none

abbrev pub accepted_by : App → OpenEntry → Option EventMap → Option EventConfig
accepted_by app o none = none
accepted_by app o (some m) =
    if should_be_processed_in_this_application app m o
    then get_event_config m (some o.namespace) o.type o.sub_type
    else none

-- `_messageHandlerProcessEvents` up to the call of the runner, with the type of the message: the
-- configuration of the event that is run.
unfoldable pub message_handler_process_events : OpenEntry → Instance → Option EventConfig
unfolding insert get_event_config should_be_processed
message_handler_process_events o i =
    if i.tenant_is_valid && i.is_event_queue_active && not i.context_fails
    then accepted_by i.app o (
        ensure_configuration i.app o
          (get_event_config i.event_map (some o.namespace) o.type o.sub_type) i.event_map)
    else none

-- The key of the lock of a message: the instance's own namespace is a part of it.
unfoldable pub message_key :
    (tenant : Option String) → (lock_id : String) → (own_namespace : Option String) → String
unfolding generate_key
message_key tenant lock_id own_namespace =
    generate_key (record { namespace = own_namespace; tenant = tenant }) true lock_id false

-- `_exec` of `runEventCombinationForTenant` at a time, for the tenant and the lock of the message:
-- whether it processes the events. The lock expires after the transaction timeout.
module _ (redis : Redis) (tenant : Option String) (lock_id : String) (global_tx_timeout : ℕ)
    (date : ℕ → String) where
  open redis use {Store}

  unfoldable pub exec :
      (own_namespace : Option String) → EventConfig → (time : ℕ) → Store → Bool × Store
  unfolding acquire_lock_redis message_key
  exec own_namespace c time s =
      if c.multi_instance_processing
      then (true, s)
      else acquire_lock_redis redis time (message_key tenant lock_id own_namespace)
          global_tx_timeout (date time) false s

  abbrev pub exec_if_accepted :
      (own_namespace : Option String) → Option EventConfig → (time : ℕ) → Store → Bool × Store
  exec_if_accepted own_namespace none time s = (false, s)
  exec_if_accepted own_namespace (some c) time s = exec own_namespace c time s

  -- The instances that process the events of a message.
  unfoldable pub deliver : OpenEntry → List Instance → Store → List Instance × Store
  unfolding exec
  deliver o [] s = ([], s)
  deliver o (i ∷ is) s =
      let (processes, s') =
        exec_if_accepted i.own_namespace (message_handler_process_events o i) i.time s in
      let (others, s'') = deliver o is s' in (if processes then i ∷ others else others, s'')
