-- ===== src/Lock/Instance.antt =====
-- src/shared/distributedLock.js: the exported operations of one instance, on Redis or on the table,
-- with the locks that it keeps track of (`existingLocks`).
pub mod Shutdown
pub mod Foreign
use event_queue.Prelude.{
  ℕ, String, Bool, true, false, not, ◌&&◌, Option, none, some, List, [], ◌∷◌, if◌then◌else◌, str_eq,
}
use event_queue.Prelude.Dict
use event_queue.Lock.Stores.{Redis, LockRow, LockTable}
use event_queue.Lock.{
  Context, generate_key, acquire_lock_redis, renew_lock_redis, release_lock_redis, acquire_lock_db,
  renew_lock_db, release_lock_db,
}

pub record Options : Type 0 where
  pub tenant_scoped : Bool
  pub expiry_time : ℕ
  pub keep_track_of_lock : Bool
  pub skip_namespace : Bool
  pub override_value : Bool

-- `!!value`, where `none` is a missing value.
abbrev pub is_truthy : Option String → Bool
is_truthy none = false
is_truthy (some value) = not (str_eq value "")

module _ (redis : Redis) (table : LockTable) where
  -- What an instance works on; the two stores are shared with other instances.
  pub record Locks : Type 0 where
    pub redis_enabled : Bool
    pub store : redis.Store
    pub rows : table.Table
    -- The keys with their tenants.
    pub existing_locks : List (String × Option String)

  -- `existingLocks[fullKey] = context.tenant`, if the lock was acquired and is to be kept track of.
  abbrev pub track : Bool → String → Option String → Locks → Locks
  track kept key tenant l =
      if kept then record l { existing_locks = Dict.insert key tenant l.existing_locks } else l

  abbrev pub with_store : Bool × redis.Store → Locks → Bool × Locks
  with_store (result, s) l = (result, record l { store = s })

  abbrev pub with_rows : Bool × table.Table → Locks → Bool × Locks
  with_rows (result, t) l = (result, record l { rows = t })

  -- `_acquireLockRedis` and `_acquireLockDB`, with their bookkeeping.
  unfoldable pub acquire_on :
      (time : ℕ) → String → (value : String) → Option String → Options → Locks → Bool × Locks
  acquire_on time key value tenant o l =
      let (result, l') =
        if l.redis_enabled
        then with_store
            (acquire_lock_redis redis time key o.expiry_time value o.override_value l.store) l
        else with_rows (acquire_lock_db table time key o.expiry_time value o.override_value l.rows)
            l in
      (result, track (result && o.keep_track_of_lock) key tenant l')

  -- `acquireLock`; the value is the time in Redis, and "true" in the table.
  unfoldable pub acquire_lock :
      (time : ℕ) → (time_text : String) → Context → String → Options → Locks → Bool × Locks
  unfolding acquire_on
  acquire_lock time time_text c key o l =
      acquire_on time (generate_key c o.tenant_scoped key o.skip_namespace)
        (if l.redis_enabled then time_text else "true") c.tenant
        (record o { override_value = false }) l

  -- `renewLock`.
  unfoldable pub renew_lock : (time : ℕ) → Context → String → Options → Locks → Bool × Locks
  renew_lock time c key o l =
      let full_key = generate_key c o.tenant_scoped key false in
      if l.redis_enabled
      then with_store (renew_lock_redis redis time full_key o.expiry_time l.store) l
      else with_rows (renew_lock_db table time full_key o.expiry_time l.rows) l

  -- `setValueWithExpire`, which keeps no track of a value in the table.
  unfoldable pub set_value_with_expire :
      (time : ℕ) → Context → String → (value : String) → Options → Locks → Bool × Locks
  unfolding acquire_on
  set_value_with_expire time c key value o l =
      acquire_on time (generate_key c o.tenant_scoped key false) value c.tenant
        (record o { keep_track_of_lock = o.keep_track_of_lock && l.redis_enabled }) l

  -- `_releaseLockRedis` and `_releaseLockDb`.
  unfoldable pub release_on : (time : ℕ) → String → Locks → Bool × Locks
  unfolding Dict.delete
  release_on time key l =
      let (result, l') =
        if l.redis_enabled
        then with_store (release_lock_redis redis time key l.store) l
        else with_rows (release_lock_db table key l.rows) l in
      (result, record l' { existing_locks = Dict.delete key l.existing_locks })

  -- `releaseLock`.
  unfoldable pub release_lock : (time : ℕ) → Context → String → Options → Locks → Bool × Locks
  unfolding release_on
  release_lock time c key o l =
      release_on time (generate_key c o.tenant_scoped key o.skip_namespace) l

  abbrev pub value_of : Option LockRow → Option String
  value_of none = none
  value_of (some row) = some row.value

  -- `getValue`: the table knows no expiry.
  unfoldable pub get_value : (time : ℕ) → Context → String → Options → Locks → Option String
  get_value time c key o l =
      let full_key = generate_key c o.tenant_scoped key false in
      if l.redis_enabled
      then redis.get time full_key l.store
      else value_of (table.find full_key l.rows)

  -- `checkLockExists`.
  unfoldable pub check_lock_exists : (time : ℕ) → Context → String → Options → Locks → Bool
  unfolding get_value
  check_lock_exists time c key o l = is_truthy (get_value time c key o l)

  -- The loop of `shutdownHandler` over the entries of `existingLocks`.
  unfoldable pub release_all : (time : ℕ) → List (String × Option String) → Locks → Locks
  unfolding release_on
  release_all time [] l = l
  release_all time ((key, tenant) ∷ es) l = release_all time es (release_on time key l).1

  -- `shutdownHandler`.
  unfoldable pub shutdown_handler : (time : ℕ) → Locks → Locks
  unfolding release_all
  shutdown_handler time l = release_all time l.existing_locks l
