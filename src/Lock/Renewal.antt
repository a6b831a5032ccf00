-- ===== src/Lock/Renewal.antt =====
-- src/shared/distributedLock.js: what an acquisition and a renewal leave in Redis.
use event_queue.Prelude.{ℕ, ◌≡◌, String, true, false, none, arith, Option-cases, inl, inr}
use event_queue.Lock.Stores.{Redis}
use event_queue.Lock.{acquire_lock_redis, renew_lock_redis, renewed}

module _ (redis : Redis) (time expiry : ℕ) (key : String) where
  open redis use {
    Store, get, set, set_nx, set_xx, set_nx_free, set_nx_taken, set_xx_free, set_xx_taken,
  }

  -- A renewal always succeeds, and sets the key whether it was there or not.
  pub renew_lock_redis-eq :
      (s : Store) → renew_lock_redis redis time key expiry s ≡ (true, set time key "true" expiry s)
  unfolding renew_lock_redis
  renew_lock_redis-eq s = elim (Option-cases (get time key s)) [
    | inl free ↦ rw (set_xx_free time expiry key "true" s free) (rw (free, renewed))
    | inr (v, held) ↦ rw (set_xx_taken time expiry key "true" s held)
  ]

  -- An acquisition that succeeds found the key free, and sets it.
  pub acquire_lock_redis_cases :
      (value : String) (s : Store)
      → (acquire_lock_redis redis time key expiry value false s).0 ≡ true
      → (get time key s ≡ none)
        × ((acquire_lock_redis redis time key expiry value false s).1 ≡ set time key value expiry s)
  unfolding acquire_lock_redis
  acquire_lock_redis_cases value s h = elim (Option-cases (get time key s)) [
    | inl free ↦ (free, rw (set_nx_free time expiry key value s free))
    | inr (v, held) ↦ absurd (ground (arith, set_nx_taken time expiry key value s held))
  ]

  pub acquire_lock_redis_free :
      (value : String) (s : Store)
      → get time key s ≡ none
      → (acquire_lock_redis redis time key expiry value false s).0 ≡ true
  unfolding acquire_lock_redis
  acquire_lock_redis_free value s free = rw (set_nx_free time expiry key value s free)
