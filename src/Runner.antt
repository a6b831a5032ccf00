-- ===== src/Runner.antt =====
-- src/runner/runner.js: the runs for all tenants. The environment of a run comes with its tenants:
-- whether their contexts can be made, what their locks and searches answer. The writes of the
-- counters are done when a run ends, and its broadcasts go on behind it.
pub mod Updates
pub mod Counts
pub mod Broadcasts
pub mod Schedule
pub mod FirstRun
pub mod Interval
mod Examples
use event_queue.Prelude.{
  ℕ, ◌+◌, String, Bool, true, false, not, ◌&&◌, ◌||◌, Option, none, some, List, [], ◌∷◌, ◌++◌, map,
  if◌then◌else◌, str_eq, filter,
}
use event_queue.Prelude.Dict.{lookup, insert}
use event_queue.OpenEvents.{OpenEntry}

-- What `acquireLock` comes to.
pub data LockAnswer : Type 0 where
  acquired refused lock_fails : LockAnswer

-- A tenant: whether the context of its user cannot be made, its lock for the update of periodic
-- events, and the result of `getOpenQueueEntries`, which is `none` where it throws.
pub record Tenant : Type 0 where
  pub id : String
  pub auth_fails : Bool
  pub update_lock : LockAnswer
  pub entries : Option (List OpenEntry)

pub record Settings : Type 0 where
  pub update_periodic_events : Bool
  -- Whether `periodicEvents` has elements, and whether there is a `tenantIdFilterEventProcessing`.
  pub has_periodic_events : Bool
  pub has_tenant_filter : Bool
  pub redis_enabled : Bool
  pub collect_event_queue_metrics : Bool
  pub processing_namespaces : List String

abbrev pub is_acquired : LockAnswer → Bool
is_acquired acquired = true
is_acquired refused = false
is_acquired lock_fails = false

abbrev pub is_refused : LockAnswer → Bool
is_refused acquired = false
is_refused refused = true
is_refused lock_fails = false

abbrev pub ids_of : List Tenant → List String
ids_of ts = map (λ t. t.id) ts

abbrev pub updates_periodic_events : Settings → Bool
updates_periodic_events c = c.update_periodic_events && c.has_periodic_events

-- One round of `_executePeriodicEventsAllTenants`: whether the tenant's events are checked, by
-- `_checkPeriodicEventsSingleTenant`.
abbrev pub is_updated : Settings → Tenant → Bool
is_updated c t =
    not t.auth_fails
    && ((if not c.redis_enabled && not c.has_tenant_filter then is_acquired t.update_lock else true)
        && updates_periodic_events c)

unfoldable pub execute_periodic_events_all_tenants : Settings → List Tenant → List String
unfolding filter
execute_periodic_events_all_tenants c ts = ids_of (filter (λ t. is_updated c t) ts)

-- `_multiTenancyPeriodicEvents`: whether it returns `true`, and the tenants that were checked.
unfoldable pub multi_tenancy_periodic_events :
    Settings → LockAnswer → List Tenant → Bool × List String
unfolding execute_periodic_events_all_tenants
multi_tenancy_periodic_events c lock ts =
    if c.redis_enabled && not c.has_tenant_filter && not (is_acquired lock)
    then (false, [])
    else (true, execute_periodic_events_all_tenants c ts)

-- `tenantIdHash` afterwards, the tenants that were checked, and whether the run goes on.
pub record Update : Type 0 where
  pub tenant_id_hash : Option String
  pub checked : List String
  pub should_continue : Bool

abbrev pub update_first : String → Bool × List String → Update
update_first hash r = record { tenant_id_hash = some hash; checked = r.1; should_continue = r.0 }

abbrev pub update_again : Bool → (old hash : String) → Bool × List String → Update
update_again true old hash r = record {
  tenant_id_hash = some old;
  checked = [];
  should_continue = true;
}
update_again false old hash r = record {
  tenant_id_hash = some hash;
  checked = r.1;
  should_continue = true;
}

abbrev pub update_by_hash : Option String → (hash : String) → Bool × List String → Update
update_by_hash none hash r = update_first hash r
update_by_hash (some old) hash r = update_again (str_eq old hash) old hash r

-- `_checkPeriodicEventUpdate`; the hash of the list of tenants is a parameter.
unfoldable pub check_periodic_event_update :
    Settings → (hash_of : List String → String) → LockAnswer → List Tenant → Option String → Update
unfolding multi_tenancy_periodic_events
check_periodic_event_update c hash_of lock ts hash =
    if not (updates_periodic_events c)
    then record { tenant_id_hash = hash; checked = []; should_continue = true }
    else update_by_hash hash (hash_of (ids_of ts)) (multi_tenancy_periodic_events c lock ts)

abbrev pub Counts : Type 0
Counts = List (String × ℕ)

abbrev pub or_zero : Option ℕ → ℕ
or_zero none = 0
or_zero (some n) = n

-- `Object.fromEntries(config.processingNamespaces.map((name) => [name, 0]))`.
unfoldable pub zeros : List String → Counts
unfolding insert
zeros [] = []
zeros (n ∷ ns) = insert n 0 (zeros ns)

-- The loop that adds the counts of entries to their namespaces.
unfoldable pub add_counts : List OpenEntry → Counts → Counts
unfolding insert lookup
add_counts [] d = d
add_counts (o ∷ os) d =
    add_counts os (insert o.namespace (or_zero (lookup o.namespace d) + o.count) d)

-- What a run with Redis leaves: `tenantCounts`, the calls of `setTenantCounter` for each tenant,
-- the broadcasts, and the calls of `setGlobalCounter`.
pub record RedisRun : Type 0 where
  pub tenant_counts : List (String × List OpenEntry)
  pub tenant_calls : List (String × Counts)
  pub broadcasts : List (String × List OpenEntry)
  pub global_calls : Counts

abbrev pub no_run : RedisRun
no_run = record { tenant_counts = []; tenant_calls = []; broadcasts = []; global_calls = [] }

abbrev pub broadcast_unless_empty : String → List OpenEntry → List (String × List OpenEntry)
broadcast_unless_empty id [] = []
broadcast_unless_empty id (o ∷ os) = (id, o ∷ os) ∷ []

abbrev pub publish_open : Settings → String → List OpenEntry → RedisRun → RedisRun
publish_open c id os r = record r {
  tenant_counts = insert id os r.tenant_counts;
  tenant_calls =
      r.tenant_calls
      ++ (if c.collect_event_queue_metrics
          then (id, add_counts os (zeros c.processing_namespaces)) ∷ []
          else []);
  broadcasts = r.broadcasts ++ broadcast_unless_empty id os;
}

abbrev pub publish_found : Settings → String → Option (List OpenEntry) → RedisRun → RedisRun
publish_found c id none r = r
publish_found c id (some os) r = publish_open c id os r

-- The loop over the tenants; the error of one tenant is caught in its round.
unfoldable pub publish_tenants : Settings → List Tenant → RedisRun → RedisRun
unfolding add_counts zeros insert
publish_tenants c [] r = r
publish_tenants c (t ∷ ts) r =
    publish_tenants c ts (if t.auth_fails then r else publish_found c t.id t.entries r)

-- The loop over the values of `tenantCounts`.
unfoldable pub add_all_counts : List (String × List OpenEntry) → Counts → Counts
unfolding add_counts
add_all_counts [] d = d
add_all_counts ((id, os) ∷ rest) d = add_all_counts rest (add_counts os d)

abbrev pub with_global_calls : Settings → RedisRun → RedisRun
with_global_calls c r = record r {
  global_calls =
      if c.collect_event_queue_metrics
      then add_all_counts r.tenant_counts (zeros c.processing_namespaces)
      else [];
}

-- `_executeEventsAllTenantsRedis`: an error of the lock is logged, and the run goes on.
unfoldable pub execute_events_all_tenants_redis : Settings → LockAnswer → List Tenant → RedisRun
unfolding publish_tenants add_all_counts zeros
execute_events_all_tenants_redis c lock ts =
    if not c.has_tenant_filter && is_refused lock
    then no_run
    else with_global_calls c (publish_tenants c ts no_run)

-- `_singleTenantRedis`: here an error of the lock ends the run, as does one of the search.
unfoldable pub single_tenant_redis : Settings → LockAnswer → Option (List OpenEntry) → RedisRun
unfolding add_counts zeros
single_tenant_redis c refused found = no_run
single_tenant_redis c lock_fails found = no_run
single_tenant_redis c acquired none = no_run
single_tenant_redis c acquired (some os) = record {
  tenant_counts = [];
  tenant_calls = [];
  broadcasts = broadcast_unless_empty "" os;
  global_calls =
      if c.collect_event_queue_metrics then add_counts os (zeros c.processing_namespaces) else [];
}

-- `_executeEventsAllTenants`: what is added to the worker queue, with its tenant, in this order.
unfoldable pub execute_events_all_tenants : List Tenant → List (String × OpenEntry)
execute_events_all_tenants [] = []
execute_events_all_tenants (t ∷ ts) =
    let rest = execute_events_all_tenants ts in
    elim t.entries [
      | none ↦ rest
      | some os ↦ if t.auth_fails then rest else map (λ o. (t.id, o)) os ++ rest
    ]

-- `_multiTenancyRedis`; `none` for the tenants is a `getAllTenantIds` that throws.
unfoldable pub multi_tenancy_redis :
    Settings
    → (hash_of : List String → String) → (update_lock run_lock : LockAnswer) → Option (List Tenant)
    → Option String
    → Option Update × RedisRun
unfolding check_periodic_event_update execute_events_all_tenants_redis
multi_tenancy_redis c hash_of update_lock run_lock none hash = (none, no_run)
multi_tenancy_redis c hash_of update_lock run_lock (some ts) hash =
    let u = check_periodic_event_update c hash_of update_lock ts hash in
    (some u, if u.should_continue then execute_events_all_tenants_redis c run_lock ts else no_run)

-- `_multiTenancyDb`, which goes on whatever the update comes to.
unfoldable pub multi_tenancy_db :
    Settings
    → (hash_of : List String → String) → (update_lock : LockAnswer) → Option (List Tenant)
    → Option String
    → Option Update × List (String × OpenEntry)
unfolding check_periodic_event_update execute_events_all_tenants
multi_tenancy_db c hash_of update_lock none hash = (none, [])
multi_tenancy_db c hash_of update_lock (some ts) hash = (
  some (check_periodic_event_update c hash_of update_lock ts hash),
  execute_events_all_tenants ts,
)
