-- ===== src/OpenEvents/Selectable.antt =====
-- src/runner/openEvents.js and src/EventQueueProcessorBase.js: the search of a run finds what the
-- processor of an event type can select.
use mathlib.Core.Logic.Or
use event_queue.Prelude.{
  ◌≡◌, refl, ◌+◌, String, Bool, ◌&&◌, List, [], ◌∷◌, flag, eq_iff, arith, filter, length,
}
use event_queue.Database.{Event}
use event_queue.Processor.Select.{Config}
use event_queue.OpenEvents.{OpenEntry, is_event_of, reported, count_in_groups, groups_of}

reported-count_in_groups :
    (n ty st : String) (e : Event) (os : List OpenEntry)
    → reported n ty st (count_in_groups e os) ≡ flag (is_event_of n ty st e) + reported n ty st os
unfolding reported count_in_groups
reported-count_in_groups n ty st e [] = ground arith
reported-count_in_groups n ty st e (o ∷ os) = ground (
  arith,
  reported-count_in_groups n ty st e os,
  eq_iff o.namespace n,
  eq_iff e.namespace n,
  eq_iff e.namespace o.namespace,
  eq_iff o.type ty,
  eq_iff e.type ty,
  eq_iff e.type o.type,
  eq_iff o.sub_type st,
  eq_iff e.sub_type st,
  eq_iff e.sub_type o.sub_type,
)

pub reported-groups_of :
    (p : Event → Bool) (n ty st : String) (es : List Event)
    → reported n ty st (groups_of (filter p es))
      ≡ length (filter (λ e. p e && is_event_of n ty st e) es)
unfolding reported groups_of filter
reported-groups_of p n ty st [] = refl
reported-groups_of p n ty st (e ∷ es) = ground (
  arith,
  reported-groups_of p n ty st es,
  reported-count_in_groups n ty st e (groups_of (filter p es)),
)
