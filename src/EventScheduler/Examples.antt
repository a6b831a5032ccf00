-- ===== src/EventScheduler/Examples.antt =====
-- Runs of the scheduler on one event.
use event_queue.Prelude.{◌≤◌, flag}
use event_queue.EventScheduler.{Delayed, key_of, Scheduler, no_timers, schedule_event, is_scheduled}
use event_queue.EventScheduler.Timers.{Reach, starts, steps, schedules, armed_for, Reach-armed_for}

abbrev delayed : Delayed
delayed = record {
  tenant = "t1";
  type = "Mail";
  sub_type = "send";
  namespace = "default";
  date = 5_000;
  date_text = "1970-01-01T00:00:05.000Z";
}

abbrev once : Scheduler
once = schedule_event delayed 0 no_timers

once-Reach : Reach once
once-Reach = steps no_timers once starts (schedules delayed 0)

-- A second call for the same event arms no second timer.
abbrev twice : Scheduler
twice = schedule_event delayed 10 once

twice-Reach : Reach twice
twice-Reach = steps once twice once-Reach (schedules delayed 10)

Reach-armed_for_example :
    armed_for (key_of delayed) twice ≤ flag (is_scheduled (key_of delayed) twice)
Reach-armed_for_example = Reach-armed_for twice twice-Reach (key_of delayed)
