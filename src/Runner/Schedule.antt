-- ===== src/Runner/Schedule.antt =====
-- src/runner/runner.js: when the first run of an instance starts, and the function that is called
-- before its first periodic run.
use event_queue.Prelude.{
  ◌≡◌, ℕ, ◌+◌, ◌-◌, ◌≤◌, ◌<◌, String, Bool, true, false, not, ◌&&◌, Option, none, some,
  if◌then◌else◌, flag, arith,
}
use event_queue.Prelude.Int.{ℤ, pos, ◌-ℤ◌}
use event_queue.Lock.{acquire_lock_redis}
use event_queue.Lock.Stores.{Redis}

-- `singleRunDone`, the chains of the single run and the run behind it that have not settled, and
-- how many were started and rejected so far, which the code does not count.
pub record Gate : Type 0 where
  pub single_run_done : Bool
  pub pending : ℕ
  pub started : ℕ
  pub failed : ℕ

-- `fnWithRunningCheck`, as far as the single run goes.
unfoldable pub fn_with_running_check : (is_active : Bool) → Gate → Gate
fn_with_running_check is_active g =
    if is_active && not g.single_run_done
    then record g { single_run_done = true; pending = g.pending + 1; started = g.started + 1 }
    else g

-- The end of the chain `singleRunFn().then(periodicFn).catch(…)`.
unfoldable pub chain_settles : (rejected : Bool) → Gate → Gate
chain_settles rejected g =
    if rejected
    then record g { single_run_done = false; pending = g.pending - 1; failed = g.failed + 1 }
    else record g { pending = g.pending - 1 }

abbrev pub at_start : Gate
at_start = record { single_run_done = false; pending = 0; started = 0; failed = 0 }

pub data Reach : Gate → Type 0 where
  registered : Reach at_start
  ticks : {g : Gate} (is_active : Bool) → Reach g → Reach (fn_with_running_check is_active g)
  settles :
      {g : Gate} (rejected : Bool) → 0 < g.pending → Reach g → Reach (chain_settles rejected g)

pub record IsCounted (g : Gate) : Type 0 where
  pub once : g.started ≡ g.failed + flag g.single_run_done
  pub one_at_most : g.pending ≤ flag g.single_run_done

ticks-IsCounted :
    (is_active : Bool) (g : Gate) → IsCounted g → IsCounted (fn_with_running_check is_active g)
unfolding fn_with_running_check
ticks-IsCounted is_active g h = ground arith

settles-IsCounted :
    (rejected : Bool) (g : Gate)
    → 0 < g.pending
    → IsCounted g
    → IsCounted (chain_settles rejected g)
unfolding chain_settles
settles-IsCounted rejected g running h = ground arith

Reach-IsCounted : {g : Gate} → Reach g → IsCounted g
Reach-IsCounted registered = record { once = omega arith; one_at_most = omega arith }
Reach-IsCounted (ticks {g} is_active r) = ticks-IsCounted is_active g (Reach-IsCounted r)
Reach-IsCounted (settles {g} rejected running r) =
    settles-IsCounted rejected g running (Reach-IsCounted r)

-- Whatever the order of the runs and of the ends of the chains, there is at most one single run at
-- a time, and at most one more than have been rejected.
pub Reach-single_run : {g : Gate} → Reach g → (g.pending ≤ 1) × (g.started ≤ g.failed + 1)
Reach-single_run {g} r = let h = Reach-IsCounted r in ground (arith, h.once, h.one_at_most)

pub record OffsetConfig : Type 0 where
  pub redis_enabled : Bool
  pub run_interval : ℕ
  -- `OFFSET_FIRST_RUN`, or its default.
  pub default_offset : ℕ

-- `new Date(lastRunTs).getTime() + runInterval - now`.
abbrev pub offset_from : OffsetConfig → (now last_run : ℕ) → ℤ
offset_from c now last_run = pos (last_run + c.run_interval) -ℤ pos now

-- The dates as texts; the date of a value that is missing is 0.
module _ (redis : Redis) (to_iso_string : ℕ → String) (get_time : String → ℕ) (key : String) where
  open redis use {Store, get}

  abbrev pub time_of_value : Option String → ℕ
  time_of_value none = 0
  time_of_value (some v) = get_time v

  abbrev pub after_set : OffsetConfig → (now time : ℕ) → Bool × Store → ℤ × Store
  after_set c now time (true, s) = (offset_from c now (get_time (to_iso_string now)), s)
  after_set c now time (false, s) = (offset_from c now (time_of_value (get time key s)), s)

  abbrev pub after_get : OffsetConfig → (now time : ℕ) → Option String → Store → ℤ × Store
  after_get c now time (some v) s = (offset_from c now (get_time v), s)
  after_get c now time none s =
      after_set c now time
        (acquire_lock_redis redis time key c.run_interval (to_iso_string now) false s)

  -- `_calculateOffsetForFirstRun`: the first command at `now` on the one store, those behind it at
  -- `time` on the other one, which may have changed meanwhile.
  unfoldable pub calculate_offset_for_first_run :
      OffsetConfig → (redis_fails : Bool) → (now : ℕ) → Store → (time : ℕ) → Store → ℤ × Store
  unfolding acquire_lock_redis
  calculate_offset_for_first_run c redis_fails now s time s' =
      if c.redis_enabled && not redis_fails
      then after_get c now time (get now key s) s'
      else (pos c.default_offset, s')
