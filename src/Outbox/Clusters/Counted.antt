-- ===== src/Outbox/Clusters/Counted.antt =====
-- src/outbox/EventQueueGenericOutboxHandler.js: how often an event stands in the processing map.
use event_queue.Prelude.{◌≡◌, ℕ, ◌+◌, String, Option, none, some, List, [], ◌++◌, if◌then◌else◌}
use event_queue.Outbox.Clusters.{Queued, ClusterMap, Groups, cluster_by_action, Clustering}
use event_queue.Outbox.Clusters.Answered.{
  Verdict, every_valid, some_invalid, some_thrown, then_verdict, verdict, Tallies, in_last,
  answered,
}
use event_queue.Outbox.Clusters.Occurrences.{in_groups, in_map, occurrences}

-- The generic events of a chunk, and what the handlers answer.
abbrev pub generic_events : Clustering → List Queued → Groups
generic_events c es = (cluster_by_action c.has_specific_handler c.specific_available es ([], [])).0

abbrev pub specific_events : Clustering → List Queued → Groups
specific_events c es = (cluster_by_action c.has_specific_handler c.specific_available es ([], [])).1

-- What the handlers answer, counted by the events, and whether all of them answer a valid result.
abbrev pub all_answered : String → Clustering → List Queued → Tallies
all_answered id c es =
    let specific = answered (occurrences id) c.send_specific (specific_events c es) in
    if c.generic_available
    then answered (occurrences id) c.send_generic (generic_events c es) ++ specific
    else specific

abbrev pub verdict_of : Clustering → List Queued → Verdict
verdict_of c es =
    let specific = verdict c.send_specific (specific_events c es) in
    if c.generic_available
    then then_verdict (verdict c.send_generic (generic_events c es)) specific
    else specific

-- How often an event is added beside the clusters of the answers, or beside the chunk.
abbrev pub added_at_once : String → Clustering → List Queued → ℕ
added_at_once id c es = if c.generic_available then 0 else in_groups id (generic_events c es)

abbrev pub Counted :
    String → ClusterMap → (added : ℕ) → List Queued → Tallies → Verdict → Option ClusterMap → Type 0
Counted id m added es ts every_valid r =
    (m' : ClusterMap) × (r ≡ some m') × (in_map id m' ≡ in_map id m + added + in_last ts)
Counted id m added es ts some_invalid r =
    (m' : ClusterMap) × (r ≡ some m') × (in_map id m' ≡ in_map id m + added + occurrences id es)
Counted id m added es ts some_thrown r = r ≡ none
