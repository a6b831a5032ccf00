-- ===== src/Lock/Instance/Foreign.antt =====
-- src/shared/distributedLock.js: several instances on the same stores, and when a lock exists.
use event_queue.Prelude.{
  ◌≡◌, subst, ℕ, ◌+◌, ◌≤◌, String, true, false, Option, none, some, List, if◌then◌else◌, ltb, arith,
  eq_iff, str_eq, Bool-cases, Option-cases, inl, inr,
}
use event_queue.Lock.Stores.{Redis, LockRow, LockTable}
use event_queue.Lock.Instance.{
  Locks, Options, acquire_lock, release_lock, check_lock_exists, get_value,
}
use event_queue.Lock.Instance.Shutdown.{is_there, is_there-release_on}
use event_queue.Lock.Renewal.{acquire_lock_redis_cases}
use event_queue.Lock.{Context, generate_key, acquire_lock_redis, acquire_lock_db}

module _ (redis : Redis) (table : LockTable) where
  open redis use {set_nx_free, get-del, get-set}
  open table use {insert_free, find-delete, find-update}

  -- The stores, seen by an instance that keeps track of other locks.
  abbrev pub handed_to : List (String × Option String) → Locks redis table → Locks redis table
  handed_to others l = record l { existing_locks = others }

  acquire_lock_free :
      (time : ℕ) (time_text key : String) (c : Context) (o : Options) (l : Locks redis table)
      → is_there redis table time (generate_key c o.tenant_scoped key o.skip_namespace) l ≡ false
      → (acquire_lock redis table time time_text c key o l).0 ≡ true
  unfolding acquire_lock acquire_lock_redis acquire_lock_db
  acquire_lock_free time time_text key c o l free =
      let full_key = generate_key c o.tenant_scoped key o.skip_namespace in
      elim (Bool-cases l.redis_enabled) [
        | inl on ↦
            let absent : redis.get time full_key l.store ≡ none = ground (arith, free, on) in
            ground (arith, on, set_nx_free time o.expiry_time full_key time_text l.store absent)
        | inr off ↦
            let absent : table.find full_key l.rows ≡ none = ground (arith, free, off) in
            ground (
              arith,
              off,
              insert_free full_key (record { value = "true"; created_at = time }) l.rows absent,
            )
      ]

  -- Where two instances build the same key, a lock that one of them has released can be acquired by
  -- the other, whoever held it: the release does not ask for the holder.
  pub acquire_lock-release_lock :
      (time later : ℕ) (time_text key : String) (c c' : Context) (o o' : Options)
      (others : List (String × Option String)) (l : Locks redis table)
      → generate_key c o.tenant_scoped key o.skip_namespace
        ≡ generate_key c' o'.tenant_scoped key o'.skip_namespace
      → (acquire_lock redis table later time_text c' key o'
          (handed_to others (release_lock redis table time c key o l).1)).0
        ≡ true
  unfolding release_lock
  acquire_lock-release_lock time later time_text key c c' o o' others l same =
      let full_key = generate_key c o.tenant_scoped key o.skip_namespace in
      acquire_lock_free later time_text key c' o'
        (handed_to others (release_lock redis table time c key o l).1)
        (subst
          (λ k. is_there redis table later k (release_lock redis table time c key o l).1 ≡ false)
          same
          (ground (
            arith,
            eq_iff full_key full_key,
            is_there-release_on redis table time later full_key full_key l,
          )))

  -- A successful acquisition on the table leaves its row there, over an expired row too.
  acquire_lock_db_row :
      (time expiry : ℕ) (key value : String) (t : table.Table)
      → (acquire_lock_db table time key expiry value false t).0 ≡ true
      → table.find key (acquire_lock_db table time key expiry value false t).1
        ≡ some (record { value = value; created_at = time })
  unfolding acquire_lock_db
  acquire_lock_db_row time expiry key value t taken =
      let row : LockRow = record { value = value; created_at = time } in
      let there = find-update key key row t in
      elim (Option-cases (table.find key t)) [
        | inl free ↦ ground (arith, insert_free key row t free, there, eq_iff key key)
        | inr (old, held) ↦
            ground (arith, table.insert_taken key row t held, held, taken, there, eq_iff key key)
      ]

  -- After a successful acquisition with a value that is not empty and a key with the namespace, the
  -- lock exists: in Redis exactly until the expiry time is over, in the table without an end.
  pub check_lock_exists-acquire_lock :
      (time later : ℕ) (time_text key : String) (c : Context) (o : Options) (l : Locks redis table)
      → time ≤ later
      → o.skip_namespace ≡ false
      → str_eq time_text "" ≡ false
      → (acquire_lock redis table time time_text c key o l).0 ≡ true
      → check_lock_exists redis table later c key o
          (acquire_lock redis table time time_text c key o l).1
        ≡ (if l.redis_enabled then ltb later (time + o.expiry_time) else true)
  unfolding acquire_lock check_lock_exists get_value
  check_lock_exists-acquire_lock time later time_text key c o l le named truthy taken =
      let full_key = generate_key c o.tenant_scoped key o.skip_namespace in
      elim (Bool-cases l.redis_enabled) [
        | inl on ↦
            let (free, stored) =
              acquire_lock_redis_cases redis time o.expiry_time full_key time_text l.store
                (ground (arith, taken, on)) in
            let seen = get-set time later o.expiry_time full_key full_key time_text l.store le in
            ground (arith, on, named, truthy, stored, seen, eq_iff full_key full_key)
        | inr off ↦
            let there =
              acquire_lock_db_row time o.expiry_time full_key "true" l.rows
                (ground (arith, taken, off)) in
            ground (arith, off, named, there)
      ]
