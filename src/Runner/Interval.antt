-- ===== src/Runner/Interval.antt =====
-- src/shared/SetIntervalDriftSafe.js: an interval that makes up for the lateness of its timers.
use event_queue.Prelude.{
  ◌≡◌, refl, ap, sym, subst, ◌∙◌, ℕ, zero, suc, ◌+◌, ◌-◌, ◌*◌, ◌<◌, Bool, true, false, Option, none,
  some, List, [], ◌∷◌, if◌then◌else◌, ◌==◌, arith, All, length, leb,
}
use event_queue.Prelude.Int.{ℤ, pos, negsuc, sub_ℕ}

-- The fields of the class, with the time at which the timer is due.
pub record Interval : Type 0 where
  pub interval : ℕ
  pub adjusted_interval : ℤ
  pub expected_cycle_time : ℕ
  pub should_run : Bool
  pub due : Option ℕ

-- `constructor`.
abbrev pub new_interval : ℕ → Interval
new_interval n = record {
  interval = n;
  adjusted_interval = pos n;
  expected_cycle_time = 0;
  should_run = true;
  due = none;
}

-- `setTimeout`: a delay below 1 ms counts as 1 ms.
abbrev pub delay_of : ℤ → ℕ
delay_of (pos zero) = 1
delay_of (pos (suc n)) = suc n
delay_of (negsuc n) = 1

-- The times of a cycle; `interval - (now - expected)` is an integer.
abbrev pub next_cycle : (now : ℕ) → Interval → Interval
next_cycle now s =
    if s.expected_cycle_time == 0
    then record s { expected_cycle_time = now + s.interval }
    else record s {
      adjusted_interval = sub_ℕ (s.interval + s.expected_cycle_time) now;
      expected_cycle_time = s.expected_cycle_time + s.interval;
    }

abbrev pub with_timer : (now : ℕ) → Interval → Interval
with_timer now s = record s { due = some (now + delay_of s.adjusted_interval) }

-- `run`.
unfoldable pub run : (now : ℕ) → Interval → Interval
run now s = if s.should_run then with_timer now (next_cycle now s) else s

-- `start` and `stop`; a running interval is stopped before it is started again.
unfoldable pub start : (now : ℕ) → Interval → Interval
unfolding run
start now s = run now (record s { should_run = true })

unfoldable pub stop : Interval → Interval
stop s = record s { should_run = false; due = none }

-- The callback of the timer, so many milliseconds after it was due: it runs the next cycle before
-- it calls the given function.
abbrev pub fire_at : Option ℕ → (late : ℕ) → Interval → Interval
fire_at none late s = s
fire_at (some due) late s = if s.should_run then run (due + late) s else s

unfoldable pub fire : (late : ℕ) → Interval → Interval
unfolding run
fire late s = fire_at s.due late s

-- Timers one after the other, with the lateness of each.
unfoldable pub fire_all : List ℕ → Interval → Interval
unfolding fire
fire_all [] s = s
fire_all (late ∷ lates) s = fire_all lates (fire late s)

-- A running interval whose next timer is due at the end of a cycle.
pub record IsOnTime (n due : ℕ) (s : Interval) : Type 0 where
  pub period : s.interval ≡ n
  pub runs : s.should_run ≡ true
  pub expected : s.expected_cycle_time ≡ due
  pub timer : s.due ≡ some due

delay_of_pos : (n : ℕ) → 0 < n → delay_of (pos n) ≡ n
delay_of_pos zero h = absurd (omega arith)
delay_of_pos (suc n) h = refl

run-IsOnTime : (n now : ℕ) → 0 < n → IsOnTime n (now + n) (run now (new_interval n))
unfolding run
run-IsOnTime n now long = record {
  period = refl;
  runs = refl;
  expected = refl;
  timer = ap (λ d. some (now + d)) (delay_of_pos n long);
}

-- The delay makes up for a timer that was late by less than a cycle.
delay_after :
    (n due late : ℕ) → late < n → due + late + delay_of (sub_ℕ (n + due) (due + late)) ≡ due + n
delay_after n due late short =
    let early : leb (due + late) (n + due) ≡ true = ground arith in
    rw early (omega (arith, delay_of_pos (n + due - (due + late)) (omega arith)))

-- A cycle behind one on time.
cycle : (n due now : ℕ) → Interval
cycle n due now = record {
  interval = n;
  adjusted_interval = sub_ℕ (n + due) now;
  expected_cycle_time = due + n;
  should_run = true;
  due = some (now + delay_of (sub_ℕ (n + due) now));
}

cycle-IsOnTime : (n due late : ℕ) → late < n → IsOnTime n (due + n) (cycle n due (due + late))
unfolding cycle
cycle-IsOnTime n due late short = record {
  period = refl;
  runs = refl;
  expected = refl;
  timer = ap some (delay_after n due late short);
}

fire_on_time :
    (n due late : ℕ) (adjusted : ℤ)
    → 0 < due
    → fire late (record {
      interval = n;
      adjusted_interval = adjusted;
      expected_cycle_time = due;
      should_run = true;
      due = some due;
    })
      ≡ cycle n due (due + late)
unfolding fire cycle
fire_on_time n due late adjusted later =
    let counted : (due == 0) ≡ false = ground arith in rw counted refl

fire-cycle :
    (n due late : ℕ) (s : Interval)
    → 0 < due
    → IsOnTime n due s
    → fire late s ≡ cycle n due (due + late)
fire-cycle n due late s later h =
    ap (fire late) (λ i. record {
      interval = h.period i;
      adjusted_interval = s.adjusted_interval;
      expected_cycle_time = h.expected i;
      should_run = h.runs i;
      due = h.timer i;
    })
    ∙ fire_on_time n due late s.adjusted_interval later

fire-IsOnTime :
    (n due late : ℕ) (s : Interval)
    → 0 < due
    → late < n
    → IsOnTime n due s
    → IsOnTime n (due + n) (fire late s)
fire-IsOnTime n due late s later short h =
    subst (IsOnTime n (due + n)) (sym (fire-cycle n due late s later h))
      (cycle-IsOnTime n due late short)

fire_all_from :
    (n due : ℕ) (lates : List ℕ) (s : Interval)
    → 0 < due
    → All (λ late. late < n) lates
    → IsOnTime n due s
    → (fire_all lates s).due ≡ some (due + length lates * n)
unfolding fire_all
fire_all_from n due [] s later short h = h.timer ∙ ap some (grind arith)
fire_all_from n due (late ∷ lates) s later (first, rest) h =
    fire_all_from n (due + n) lates (fire late s) (omega arith) rest
      (fire-IsOnTime n due late s later first h)
    ∙ ap some (grind arith)

-- As long as every timer is late by less than an interval, the timers do not drift: the one behind
-- a number of timers is due that many intervals after the end of the first one.
pub fire_all-due :
    (n now : ℕ) (lates : List ℕ)
    → 0 < n
    → All (λ late. late < n) lates
    → (fire_all lates (run now (new_interval n))).due ≡ some (now + n + length lates * n)
fire_all-due n now lates long short =
    fire_all_from n (now + n) lates (run now (new_interval n)) (omega arith) short
      (run-IsOnTime n now long)
