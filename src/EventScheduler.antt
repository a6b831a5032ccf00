-- ===== src/EventScheduler.antt =====
-- src/shared/eventScheduler.js: the timers for events whose start lies ahead. A timer is named by
-- the number of timers before it; `armed` are the timers of Node.js that have not run and were not
-- cleared, with what their handlers captured. Dates are milliseconds, and stand for their texts.
pub mod Timers
mod Examples
use event_queue.Lock.{join}
use event_queue.Prelude.{
  ℕ, suc, String, Bool, true, false, not, ◌&&◌, ◌||◌, Option, none, some, List, [], ◌∷◌,
  if◌then◌else◌, ◌-◌, ◌==◌, str_eq, filter, any,
}

-- The arguments of `scheduleEvent`, with the text `date.toISOString()`.
pub record Delayed : Type 0 where
  pub tenant : String
  pub type : String
  pub sub_type : String
  pub namespace : String
  pub date : ℕ
  pub date_text : String

unfoldable pub key_of : Delayed → String
unfolding join
key_of d = join (d.tenant ∷ d.type ∷ d.sub_type ∷ d.namespace ∷ d.date_text ∷ [])

pub record Timer : Type 0 where
  pub timeout : ℕ
  pub event : Delayed
  -- The delay handed to `setTimeout`: 0 if the date is past, as Node.js treats it.
  pub relative : ℕ

pub record Scheduler : Type 0 where
  pub scheduled_events : List String
  pub events_by_tenants : List (String × ℕ)
  pub armed : List Timer
  pub timeouts : ℕ

unfoldable pub no_timers : Scheduler
no_timers = record { scheduled_events = []; events_by_tenants = []; armed = []; timeouts = 0 }

unfoldable pub is_scheduled : String → Scheduler → Bool
is_scheduled key s = any (λ k. str_eq k key) s.scheduled_events

abbrev pub arm : Delayed → (now : ℕ) → Scheduler → Scheduler
arm d now s = record {
  scheduled_events = key_of d ∷ s.scheduled_events;
  events_by_tenants = (d.tenant, s.timeouts) ∷ s.events_by_tenants;
  armed = record { timeout = s.timeouts; event = d; relative = d.date - now } ∷ s.armed;
  timeouts = suc s.timeouts;
}

-- `scheduleEvent`.
unfoldable pub schedule_event : Delayed → (now : ℕ) → Scheduler → Scheduler
unfolding is_scheduled any
schedule_event d now s = if is_scheduled (key_of d) s then s else arm d now s

-- The handler of a timer, which then broadcasts the event of its key.
unfoldable pub fire : Timer → Scheduler → Scheduler
unfolding filter
fire t s = record s {
  scheduled_events = filter (λ k. not (str_eq k (key_of t.event))) s.scheduled_events;
  events_by_tenants = filter (λ e. not (e.1 == t.timeout)) s.events_by_tenants;
  armed = filter (λ u. not (u.timeout == t.timeout)) s.armed;
}

unfoldable pub is_of_tenant : String → List (String × ℕ) → Timer → Bool
is_of_tenant tenant es t = any (λ e. str_eq e.0 tenant && e.1 == t.timeout) es

-- `clearForTenant`.
unfoldable pub clear_for_tenant : String → Scheduler → Scheduler
unfolding is_of_tenant filter any
clear_for_tenant tenant s = record s {
  armed = filter (λ t. not (is_of_tenant tenant s.events_by_tenants t)) s.armed;
}
