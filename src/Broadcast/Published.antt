-- ===== src/Broadcast/Published.antt =====
-- src/redis/redisPub.js: the messages of a broadcast, and how often it waits.
use event_queue.Prelude.{
  ℕ, zero, suc, Bool, false, not, ◌&&◌, ◌||◌, Option, none, some, List, [], ◌∷◌, if◌then◌else◌, any,
}
use event_queue.Broadcast.{Target, EventConfig, tries_for_publish_periodic_event, is_locked}

abbrev pub range : (i n : ℕ) → List ℕ
range i zero = []
range i (suc n) = i ∷ range (suc i) n

-- Whether the lock is free at one of some tries.
abbrev pub is_free_at : EventConfig → Target → List ℕ → Bool
is_free_at c e is = any (λ i. not (is_locked c e i)) is

abbrev pub waits_for_lock : Bool → EventConfig → Bool
waits_for_lock force c = c.is_periodic || force

-- An event that does not wait for the lock has one try.
abbrev pub tries_of : Bool → EventConfig → List ℕ
tries_of force c = range 0 (if waits_for_lock force c then tries_for_publish_periodic_event else 1)

-- Whether the event gets to its publication.
abbrev pub is_reached : Bool → Option EventConfig → Target → Bool
is_reached force none e = false
is_reached force (some c) e = is_free_at c e (tries_of force c)

-- The events up to the first one whose publication fails.
abbrev pub until_failed : (Target → Option EventConfig) → Bool → List Target → List Target
until_failed get_event_config force [] = []
until_failed get_event_config force (e ∷ es) =
    if is_reached force (get_event_config e) e && e.publish_fails
    then []
    else e ∷ until_failed get_event_config force es

module _ (get_event_config : Target → Option EventConfig) (force : Bool) where
  -- The messages of an event and of those behind it.
  abbrev sent : Bool → Target → List Target → List Target
  sent reached e rest = if reached then (if e.publish_fails then [] else e ∷ rest) else rest
