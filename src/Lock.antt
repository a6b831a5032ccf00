-- ===== src/Lock.antt =====
-- src/shared/distributedLock.js: a lock with an expiry time, in Redis or in a table. Times are
-- milliseconds; each function runs at one time. Statements of one function run in one transaction.
pub mod Stores
pub mod Agreement
pub mod Renewal
pub mod Memory
pub mod Instance
mod Examples
use Prim.Native.String
use event_queue.Prelude.{
  ℕ, ◌+◌, String, Bool, true, false, not, Option, none, some, List, [], ◌∷◌, ◌++◌, if◌then◌else◌,
  leb, str_eq,
}
use event_queue.Prelude.Dict
use event_queue.Lock.Stores.{Redis, LockRow, LockTable}

-- `keyParts.join("##")`.
unfoldable pub join : List String → String
join [] = ""
join (p ∷ []) = p
join (p ∷ q ∷ ps) = let rest = join (q ∷ ps) in String.◌++◌ p (String.◌++◌ "##" rest)

-- `config.redisNamespace(addPublishNamespace)`, with the configured namespace.
unfoldable pub redis_namespace : Option String → Bool → String
unfolding join
redis_namespace none add_publish_namespace = "EVENT_QUEUE"
redis_namespace (some namespace) add_publish_namespace =
    if add_publish_namespace
    then (if str_eq namespace "" then "EVENT_QUEUE" else join ("EVENT_QUEUE" ∷ namespace ∷ []))
    else "EVENT_QUEUE"

pub record Context : Type 0 where
  -- `config.namespace` and `context.tenant`.
  pub namespace : Option String
  pub tenant : Option String

abbrev pub or_empty : Option String → String
or_empty none = ""
or_empty (some s) = s

-- `_generateKey`.
unfoldable pub generate_key :
    Context → (tenant_scoped : Bool) → String → (skip_namespace : Bool) → String
unfolding redis_namespace
generate_key c tenant_scoped key skip_namespace = join (
    redis_namespace c.namespace (not skip_namespace)
    ∷ (if tenant_scoped then or_empty c.tenant ∷ key ∷ [] else key ∷ []))

module _ (redis : Redis) where
  open redis use {Store, get, set, set_nx, set_xx, del}

  -- `_acquireLockRedis`, without the bookkeeping of `existingLocks`.
  unfoldable pub acquire_lock_redis :
      (time : ℕ)
      → String
      → (expiry : ℕ) → (value : String) → (override : Bool) → Store
      → Bool × Store
  acquire_lock_redis time key expiry value override s =
      if override then (true, set time key value expiry s) else set_nx time key value expiry s

  -- `_renewLockRedis`: where XX finds nothing and GET neither, the key is set anew.
  abbrev pub renewed : (time : ℕ) → String → (expiry : ℕ) → Bool × Store → Bool × Store
  renewed time key expiry (true, s) = (true, s)
  renewed time key expiry (false, s) = elim (get time key s) [
    | some _ ↦ (false, s)
    | none ↦ (true, set time key "true" expiry s)
  ]

  unfoldable pub renew_lock_redis : (time : ℕ) → String → (expiry : ℕ) → Store → Bool × Store
  renew_lock_redis time key expiry s = renewed time key expiry (set_xx time key "true" expiry s)

  -- `_releaseLockRedis`.
  unfoldable pub release_lock_redis : (time : ℕ) → String → Store → Bool × Store
  release_lock_redis time key s = del time key s

module _ (table : LockTable) where
  open table use {Table, find, insert, update, delete}

  abbrev is_expired : (time expiry : ℕ) → Option LockRow → Bool
  is_expired time expiry none = false
  is_expired time expiry (some row) = leb (row.created_at + expiry) time

  abbrev after_conflict :
      (time : ℕ)
      → String
      → (expiry : ℕ) → (value : String) → (override : Bool) → Table
      → Bool × Table
  after_conflict time key expiry value override t =
      let row : LockRow = record { value = value; created_at = time } in
      if override
      then (true, update key row t)
      else if is_expired time expiry (find key t)
      then (true, update key row t)
      else (false, t)

  -- `_acquireLockDB`, without the bookkeeping of `existingLocks`.
  unfoldable pub acquire_lock_db :
      (time : ℕ)
      → String
      → (expiry : ℕ) → (value : String) → (override : Bool) → Table
      → Bool × Table
  acquire_lock_db time key expiry value override t =
      elim (insert key (record { value = value; created_at = time }) t) [
        | some t' ↦ (true, t')
        | none ↦ after_conflict time key expiry value override t
      ]

  -- `renewLock` without Redis.
  unfoldable pub renew_lock_db : (time : ℕ) → String → (expiry : ℕ) → Table → Bool × Table
  unfolding acquire_lock_db
  renew_lock_db time key expiry t = acquire_lock_db time key expiry "true" true t

  -- `_releaseLockDb`.
  unfoldable pub release_lock_db : String → Table → Bool × Table
  release_lock_db key t = (true, delete key t)
