-- ===== src/Runner/FirstRun.antt =====
-- src/runner/runner.js: instances that start at different times have their first runs together.
use event_queue.Prelude.{
  ◌≡◌, refl, ap, sym, subst, ◌∙◌, ℕ, ◌+◌, ◌<◌, String, Bool, true, false, none, some, arith,
  Option-cases, inl, inr, ltb, eq_refl,
}
use event_queue.Prelude.Int.{ℤ, pos, ◌+ℤ◌, int_laws}
use event_queue.Lock.{acquire_lock_redis}
use event_queue.Lock.Stores.{Redis}
use event_queue.Runner.Schedule.{
  OffsetConfig, offset_from, after_get, calculate_offset_for_first_run,
}

offset_from-add :
    (c : OffsetConfig) (now last_run : ℕ)
    → offset_from c now last_run +ℤ pos now ≡ pos (last_run + c.run_interval)
offset_from-add c now last_run = omega int_laws

module _ (redis : Redis) (to_iso_string : ℕ → String) (get_time : String → ℕ) (key : String)
    (c : OffsetConfig) where
  open redis use {Store, get, set, get-set, set_nx_free, set_nx_taken}

  -- The store holds a time, and the offset leads to the run interval behind it.
  abbrev Meets : (now time : ℕ) → ℤ × Store → Type 0
  Meets now time (offset, s) =
      (v : String) × (get time key s ≡ some v)
      × (offset +ℤ pos now ≡ pos (get_time v + c.run_interval))

  own_value :
      (time : ℕ) (value : String) (s : Store)
      → 0 < c.run_interval
      → get time key (set time key value c.run_interval s) ≡ some value
  own_value time value s long =
      let live : ltb time (time + c.run_interval) ≡ true = ground arith in
      rw (get-set time time c.run_interval key key value s (omega arith))
        (rw (eq_refl key) (rw live refl))

  after_get-Meets :
      (now time : ℕ) (s : Store)
      → 0 < c.run_interval
      → Meets now time (after_get redis to_iso_string get_time key c now time none s)
  unfolding acquire_lock_redis
  after_get-Meets now time s long = elim (Option-cases (get time key s)) [
    | inl free ↦ rw (set_nx_free time c.run_interval key (to_iso_string now) s free) (
      to_iso_string now,
      own_value time (to_iso_string now) s long,
      offset_from-add c now (get_time (to_iso_string now)),
    )
    | inr (v, held) ↦
        rw (set_nx_taken time c.run_interval key (to_iso_string now) s held, held)
          (v, refl, offset_from-add c now (get_time v))
  ]

  abbrev offset : (fails : Bool) → (now : ℕ) → Store → (time : ℕ) → Store → ℤ × Store
  offset fails now s time s' =
      calculate_offset_for_first_run redis to_iso_string get_time key c fails now s time s'

  -- An instance that finds a time of the last run waits for the run interval behind it.
  offset-held :
      (now time : ℕ) (s s' : Store) {v : String}
      → c.redis_enabled ≡ true
      → get now key s ≡ some v
      → (offset false now s time s').0 ≡ offset_from c now (get_time v)
  unfolding calculate_offset_for_first_run
  offset-held now time s s' enabled held = rw (enabled, held) refl

  offset_absent :
      (now time : ℕ) (s s' : Store)
      → c.redis_enabled ≡ true
      → get now key s ≡ none
      → offset false now s time s' ≡ after_get redis to_iso_string get_time key c now time none s'
  unfolding calculate_offset_for_first_run acquire_lock_redis
  offset_absent now time s s' enabled absent = rw (enabled, absent) refl

  offset-Meets :
      (now time : ℕ) (s s' : Store)
      → c.redis_enabled ≡ true
      → 0 < c.run_interval
      → get now key s ≡ none
      → Meets now time (offset false now s time s')
  offset-Meets now time s s' enabled long absent =
      subst (Meets now time) (sym (offset_absent now time s s' enabled absent))
        (after_get-Meets now time s' long)

-- With Redis, an instance that finds no time of a last run, and a later one that still finds what
-- the store held for the first one, have their first runs at the same time, also where another
-- instance sets the time between the commands of the first one.
pub first_runs_meet :
    (redis : Redis) (to_iso_string : ℕ → String) (get_time : String → ℕ) (key : String)
    (c : OffsetConfig) (now time now' time' : ℕ) (s s' t t' : redis.Store)
    → c.redis_enabled ≡ true
    → 0 < c.run_interval
    → redis.get now key s ≡ none
    → redis.get now' key t
      ≡ redis.get time key
          (calculate_offset_for_first_run redis to_iso_string get_time key c false now s time s').1
    → (calculate_offset_for_first_run redis to_iso_string get_time key c false now' t time' t').0
        +ℤ pos now'
      ≡ (calculate_offset_for_first_run redis to_iso_string get_time key c false now s time s').0
        +ℤ pos now
first_runs_meet redis to_iso_string get_time key c now time now' time' s s' t t' enabled long absent
      same =
    let (v, held, first) =
      offset-Meets redis to_iso_string get_time key c now time s s' enabled long absent in
    let second =
      offset-held redis to_iso_string get_time key c now' time' t t' enabled (same ∙ held) in
    ap (λ o. o +ℤ pos now') second ∙ offset_from-add c now' (get_time v) ∙ sym first
