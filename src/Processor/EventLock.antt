-- ===== src/Processor/EventLock.antt =====
-- src/EventQueueProcessorBase.js: the lock of an event type, acquired by `acquireDistributedLock`,
-- renewed by `#renewDistributedLock` and given back by `handleReleaseLock`, with Redis as the store.
-- `interval` is `keepAliveMaxInProgressTime * 1000`.
use event_queue.Prelude.{
  ℕ, ◌+◌, ◌≤◌, ◌≡◌, ◌≢◌, ap, sym, ◌∙◌, String, Bool, true, false, none, [], ◌∷◌, if◌then◌else◌,
  arith, eq_iff,
}
use event_queue.Lock.Stores.{Redis}
use event_queue.Lock.{
  Context, join, generate_key, acquire_lock_redis, renew_lock_redis, release_lock_redis,
}
use event_queue.Lock.Renewal.{
  renew_lock_redis-eq, acquire_lock_redis_cases, acquire_lock_redis_free,
}

pub record EventType : Type 0 where
  pub event_type : String
  pub event_sub_type : String
  pub namespace : String
  -- `concurrentEventProcessing`: several instances may process the event, without a lock.
  pub multi_instance : Bool

unfoldable pub acquire_key : Context → EventType → String
unfolding join generate_key
acquire_key c e =
    generate_key c true (join (e.namespace ∷ e.event_type ∷ e.event_sub_type ∷ [])) true

unfoldable pub renew_key : Context → EventType → String
unfolding join generate_key
renew_key c e = generate_key c true (join (e.event_type ∷ e.event_sub_type ∷ [])) false

module _ (redis : Redis) (c : Context) (e : EventType) where
  open redis use {
    Store, get, set, set_nx, set_xx, get-set, get-del, set_nx_free, set_nx_taken, set_xx_free,
    set_xx_taken,
  }

  -- `acquireDistributedLock`: whether processing goes on, and `__lockAcquired`.
  pub record Acquired : Type 0 where
    pub go_on : Bool
    pub lock_acquired : Bool
    pub store : Store

  unfoldable pub acquire_distributed_lock :
      (time : ℕ) → (value : String) → (interval : ℕ) → Store → Acquired
  acquire_distributed_lock time value interval s =
      let (taken, s') = acquire_lock_redis redis time (acquire_key c e) interval value false s in
      if e.multi_instance
      then record { go_on = true; lock_acquired = false; store = s }
      else record { go_on = taken; lock_acquired = taken; store = s' }

  unfoldable pub renew_distributed_lock : (time interval : ℕ) → Store → Bool × Store
  renew_distributed_lock time interval s =
      if e.multi_instance then (true, s) else renew_lock_redis redis time (renew_key c e) interval s

  unfoldable pub handle_release_lock : (time : ℕ) → (lock_acquired : Bool) → Store → Store
  handle_release_lock time lock_acquired s =
      if lock_acquired then (release_lock_redis redis time (acquire_key c e) s).1 else s

  abbrev acquired_single : (time : ℕ) → (value : String) → (interval : ℕ) → Store → Acquired
  acquired_single time value interval s =
      let r = acquire_lock_redis redis time (acquire_key c e) interval value false s in
      record { go_on = r.0; lock_acquired = r.0; store = r.1 }

  acquire_distributed_lock_single :
      (time : ℕ) (value : String) (interval : ℕ) (s : Store)
      → e.multi_instance ≡ false
      → acquire_distributed_lock time value interval s ≡ acquired_single time value interval s
  unfolding acquire_distributed_lock
  acquire_distributed_lock_single time value interval s single = ground (arith, single)

  renew_distributed_lock_single :
      (time interval : ℕ) (s : Store)
      → e.multi_instance ≡ false
      → (renew_distributed_lock time interval s).1 ≡ set time (renew_key c e) "true" interval s
  unfolding renew_distributed_lock
  renew_distributed_lock_single time interval s single =
      ground (arith, single, renew_lock_redis-eq redis time interval (renew_key c e) s)

  -- A renewal leaves the lock itself as it was, unless the two keys agree: `#renewDistributedLock`
  -- builds another key than `acquireDistributedLock`. So once the time of the acquisition is over,
  -- another instance gets the lock, whatever was renewed in between.
  pub renewal_does_not_extend :
      (first renewed second interval : ℕ) (value other : String) (s : Store)
      → renew_key c e ≢ acquire_key c e
      → e.multi_instance ≡ false
      → (acquire_distributed_lock first value interval s).lock_acquired ≡ true
      → first ≤ renewed
      → renewed ≤ second
      → first + interval ≤ second
      → (acquire_distributed_lock second other interval
          (renew_distributed_lock renewed interval
            (acquire_distributed_lock first value interval s).store).1).lock_acquired
        ≡ true
  renewal_does_not_extend first renewed second interval value other s apart single taken a b over =
      let key = acquire_key c e in
      let s' = set first key value interval s in
      let first_eq = acquire_distributed_lock_single first value interval s single in
      let (_, stored) =
        acquire_lock_redis_cases redis first interval key value s
          (ap (λ r. r.lock_acquired) (sym first_eq) ∙ taken) in
      let expired : get second key (set renewed (renew_key c e) "true" interval s') ≡ none =
        ground (
          arith,
          get-set renewed second interval (renew_key c e) key "true" s' b,
          get-set first second interval key key value s (omega arith),
          eq_iff (renew_key c e) key,
          eq_iff key key,
        ) in
      rw
        (
          first_eq,
          stored,
          renew_distributed_lock_single renewed interval s' single,
          acquire_distributed_lock_single second other interval _ single,
        )
        (acquire_lock_redis_free redis second interval key other _ expired)
