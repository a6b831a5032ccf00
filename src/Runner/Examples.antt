-- ===== src/Runner/Examples.antt =====
-- src/runner/runner.js and src/shared/SetIntervalDriftSafe.js: small runs.
use event_queue.Prelude.{
  ◌≡◌, refl, ℕ, ◌+◌, ◌*◌, String, true, false, none, some, List, [], ◌∷◌, ◌++◌, All, arith,
}
use event_queue.Prelude.Dict.{lookup, insert}
use event_queue.Prelude.Int.{pos, ◌+ℤ◌}
use event_queue.Lock.{acquire_lock_redis}
use event_queue.Lock.Memory.{memory_redis, Entries}
use event_queue.OpenEvents.{OpenEntry}
use event_queue.Runner.{
  acquired, lock_fails, Tenant, Settings, check_periodic_event_update,
  execute_events_all_tenants_redis,
}
use event_queue.Runner.Updates.{updates, check_periodic_event_update_once}
use event_queue.Runner.Counts.{count_in, total_calls, execute_events_all_tenants_redis-counts}
use event_queue.Runner.Broadcasts.{execute_events_all_tenants_redis-broadcasts}
use event_queue.Runner.Schedule.{
  Gate, at_start, fn_with_running_check, chain_settles, OffsetConfig,
  calculate_offset_for_first_run,
}
use event_queue.Runner.FirstRun.{first_runs_meet}
use event_queue.Runner.Interval.{new_interval, run, fire_all, fire_all-due}

abbrev settings : Settings
settings = record {
  update_periodic_events = true;
  has_periodic_events = true;
  has_tenant_filter = false;
  redis_enabled = true;
  collect_event_queue_metrics = true;
  processing_namespaces = "default" ∷ [];
}

abbrev mails : OpenEntry
mails = record { namespace = "default"; type = "Mail"; sub_type = "send"; count = 3 }

abbrev tenant_a : Tenant
tenant_a = record {
  id = "a";
  auth_fails = false;
  update_lock = acquired;
  entries = some (mails ∷ []);
}

abbrev tenant_b : Tenant
tenant_b = record tenant_a { id = "b"; entries = none }

abbrev tenant_c : Tenant
tenant_c = record tenant_a { id = "c"; entries = some (record mails { count = 2 } ∷ []) }

abbrev tenants : List Tenant
tenants = tenant_a ∷ tenant_b ∷ tenant_c ∷ []

-- The first run cannot get its lock, and the second one does not try again.
check_periodic_event_update_once_example :
    All
      (λ u. (u.checked ≡ []) × (u.should_continue ≡ true))
      (updates settings
        (λ ids. "hash")
        ((acquired, tenants) ∷ [])
        (check_periodic_event_update settings
          (λ ids. "hash")
          lock_fails
          tenants
          none).tenant_id_hash)
check_periodic_event_update_once_example =
    check_periodic_event_update_once settings (λ ids. "hash") lock_fails tenants none
      ((acquired, tenants) ∷ []) (refl, tt)

execute_events_all_tenants_redis-counts_example :
    count_in "default" (execute_events_all_tenants_redis settings acquired tenants).global_calls
    ≡ total_calls "default"
        (execute_events_all_tenants_redis settings acquired tenants).tenant_calls
execute_events_all_tenants_redis-counts_example =
    execute_events_all_tenants_redis-counts settings acquired tenants "default" refl
      ((refl, (refl, tt)), ((refl, tt), (tt, tt)))

execute_events_all_tenants_redis-broadcasts_example :
    (xs ys : List (String × List OpenEntry)) × ((execute_events_all_tenants_redis settings
        lock_fails
        (tenant_b ∷ tenant_a ∷ tenant_c ∷ [])).broadcasts
      ≡ xs ++ ("a", mails ∷ []) ∷ ys)
execute_events_all_tenants_redis-broadcasts_example =
    execute_events_all_tenants_redis-broadcasts settings lock_fails (tenant_b ∷ []) (tenant_c ∷ [])
      tenant_a mails [] refl refl refl

-- The single run is rejected, and the next run starts it again.
abbrev again : Gate
again = fn_with_running_check true (chain_settles true (fn_with_running_check true at_start))

abbrev offsets : OffsetConfig
offsets = record { redis_enabled = true; run_interval = 1500; default_offset = 10000 }

abbrev iso : ℕ → String
iso n = "1970-01-01T00:00:01.000Z"

abbrev date_time : String → ℕ
date_time s = 1000

-- The first instance sets the time, and the second one starts 200 ms later.
abbrev first_store : Entries
first_store =
    (calculate_offset_for_first_run memory_redis iso date_time "RUN_TS" offsets false 1000 [] 1001
      []).1

first_runs_meet_example :
    (calculate_offset_for_first_run memory_redis iso date_time "RUN_TS" offsets false 1200
        first_store 1200 first_store).0
      +ℤ pos 1200
    ≡ (calculate_offset_for_first_run memory_redis iso date_time "RUN_TS" offsets false 1000 [] 1001
        []).0
      +ℤ pos 1000
unfolding lookup insert calculate_offset_for_first_run acquire_lock_redis
first_runs_meet_example =
    first_runs_meet memory_redis iso date_time "RUN_TS" offsets 1000 1001 1200 1200 [] []
      first_store first_store refl (omega arith) refl refl

fire_all-due_example :
    (fire_all (20 ∷ 70 ∷ 0 ∷ []) (run 1000 (new_interval 100))).due ≡ some (1000 + 100 + 3 * 100)
fire_all-due_example = fire_all-due 100 1000 (20 ∷ 70 ∷ 0 ∷ []) (omega arith) (omega arith)
