-- ===== src/Lock/Instance/Shutdown.antt =====
-- src/shared/distributedLock.js: what `shutdownHandler` leaves in the store and in `existingLocks`.
use event_queue.Prelude.{
  ◌≡◌, refl, ℕ, String, Bool, true, false, not, ◌&&◌, Option, none, some, List, [], ◌∷◌,
  if◌then◌else◌, arith, str_eq,
}
use event_queue.Prelude.Dict.{has, delete, lookup-delete, has-lookup}
use event_queue.Lock.Stores.{Redis, LockTable}
use event_queue.Lock.{release_lock_redis, release_lock_db}
use event_queue.Lock.Instance.{Locks, release_on, release_all, shutdown_handler}

abbrev pub is_some {ℓ} : {A : Type ℓ} → Option A → Bool
is_some none = false
is_some (some a) = true

has-delete :
    {V : Type 0} (k j : String) (m : List (String × V))
    → has j (delete k m) ≡ (not (str_eq k j) && has j m)
has-delete k j m = ground (arith, has-lookup j m, has-lookup j (delete k m), lookup-delete k j m)

module _ (redis : Redis) (table : LockTable) where
  -- The key stands in the store that the instance works on.
  abbrev pub is_there : (later : ℕ) → String → Locks redis table → Bool
  is_there later key l =
      if l.redis_enabled
      then is_some (redis.get later key l.store)
      else is_some (table.find key l.rows)

  pub is_there-release_on :
      (time later : ℕ) (key other : String) (l : Locks redis table)
      → is_there later other (release_on redis table time key l).1
        ≡ (not (str_eq key other) && is_there later other l)
  unfolding release_on release_lock_redis release_lock_db
  is_there-release_on time later key other l =
      ground (arith, redis.get-del time later key other l.store, table.find-delete key other l.rows)

  is_there-release_all :
      (time later : ℕ) (other : String) (es : List (String × Option String)) (l : Locks redis table)
      → is_there later other (release_all redis table time es l)
        ≡ (not (has other es) && is_there later other l)
  unfolding release_all has
  is_there-release_all time later other [] l = refl
  is_there-release_all time later other ((key, tenant) ∷ es) l = ground (
    arith,
    is_there-release_all time later other es (release_on redis table time key l).1,
    is_there-release_on time later key other l,
  )

  has-release_all :
      (time : ℕ) (other : String) (es : List (String × Option String)) (l : Locks redis table)
      → has other (release_all redis table time es l).existing_locks
        ≡ (not (has other es) && has other l.existing_locks)
  unfolding release_all has
  has-release_all time other [] l = refl
  has-release_all time other ((key, tenant) ∷ es) l = ground (
    arith,
    has-release_all time other es (release_on redis table time key l).1,
    has-delete key other l.existing_locks,
  )

  -- After the handler of the shutdown, no lock of `existingLocks` stands in the store that the
  -- instance works on, whoever wrote it there, every other key is as it was, and no lock is kept
  -- track of any more.
  pub shutdown_handler_lem :
      (time later : ℕ) (key : String) (l : Locks redis table)
      → (is_there later key (shutdown_handler redis table time l)
          ≡ (not (has key l.existing_locks) && is_there later key l))
        × (has key (shutdown_handler redis table time l).existing_locks ≡ false)
  unfolding shutdown_handler
  shutdown_handler_lem time later key l = (
    is_there-release_all time later key l.existing_locks l,
    ground (arith, has-release_all time key l.existing_locks l),
  )
