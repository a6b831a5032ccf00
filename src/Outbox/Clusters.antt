-- ===== src/Outbox/Clusters.antt =====
-- src/outbox/EventQueueGenericOutboxHandler.js: how the events of a chunk are clustered by the
-- handlers of a service, and addEntryToProcessingMap of src/EventQueueProcessorBase.js.
pub mod Answered
pub mod Occurrences
pub mod Counted
use event_queue.Prelude.{
  ◌≡◌, refl, ap, sym, ◌∙◌, ℕ, ◌+◌, String, Bool, true, false, not, ◌&&◌, ◌||◌, Option, none, some,
  List, [], ◌∷◌, ◌++◌, if◌then◌else◌, str_eq, flag, sum_by, sum_by-append, arith, eq_iff,
  Bool-cases, Option-cases, inl, inr,
}
use event_queue.Prelude.Dict.{lookup, insert}

-- A queue entry after `modifyQueueEntry`: its id, the event of its payload, and the payload.
pub record Queued : Type 0 where
  pub id : String
  pub event : String
  pub payload : String

pub record Cluster : Type 0 where
  pub queue_entries : List Queued
  pub payload : String

abbrev pub ClusterMap : Type 0
ClusterMap = List (String × Cluster)

abbrev pub with_entry : Queued → (payload : String) → Option Cluster → Cluster
with_entry e payload none = record { queue_entries = e ∷ []; payload = payload }
with_entry e payload (some c) = record c { queue_entries = c.queue_entries ++ e ∷ [] }

-- `addEntryToProcessingMap`.
unfoldable pub add_entry_to_processing_map :
    (key : String) → Queued → (payload : String) → ClusterMap → ClusterMap
unfolding insert lookup
add_entry_to_processing_map key e payload m = insert key (with_entry e payload (lookup key m)) m

-- `clusterQueueEntries` of the base class: each event is a cluster.
unfoldable pub cluster_each : List Queued → ClusterMap → ClusterMap
unfolding add_entry_to_processing_map
cluster_each [] m = m
cluster_each (e ∷ es) m = cluster_each es (add_entry_to_processing_map e.id e e.payload m)

abbrev pub Groups : Type 0
Groups = List (String × List Queued)

abbrev pub or_none : Option (List Queued) → List Queued
or_none none = []
or_none (some es) = es

unfoldable pub add_to_action : Queued → Groups → Groups
unfolding insert lookup
add_to_action e g = insert e.event (or_none (lookup e.event g) ++ e ∷ []) g

-- `#clusterByAction`: the generic and the specific events, by their actions.
unfoldable pub to_groups : (is_specific : Bool) → Queued → Groups × Groups → Groups × Groups
unfolding add_to_action
to_groups true e g = (g.0, add_to_action e g.1)
to_groups false e g = (add_to_action e g.0, g.1)

unfoldable pub cluster_by_action :
    (has_specific_handler : String → Bool)
    → (specific_available : Bool) → List Queued
    → Groups × Groups
    → Groups × Groups
unfolding to_groups
cluster_by_action has_specific_handler specific_available [] g = g
cluster_by_action has_specific_handler specific_available (e ∷ es) g =
    cluster_by_action has_specific_handler specific_available es
      (to_groups (has_specific_handler e.event && specific_available) e g)

-- What a handler returned: an entry of its object has an array of queue entries, and an object as
-- payload, or not.
pub record Returned : Type 0 where
  pub queue_entries : Option (List Queued)
  pub payload : Option String

pub data HandlerResult : Type 0 where
  handler_throws no_object : HandlerResult
  clusters : List (String × Returned) → HandlerResult

-- The result as a map, and `#validateCluster`: `none` is a result that is not valid.
abbrev pub valid_cluster :
    String → Option (List Queued) → Option String → Option ClusterMap → Option ClusterMap
valid_cluster key (some es) (some p) (some rest) =
    some ((key, record { queue_entries = es; payload = p }) ∷ rest)
valid_cluster key _ _ _ = none

unfoldable pub validate_cluster : List (String × Returned) → Option ClusterMap
validate_cluster [] = some []
validate_cluster ((key, r) ∷ rs) = valid_cluster key r.queue_entries r.payload (validate_cluster rs)

-- `Object.assign(clusterMap, clusterResult)`.
unfoldable pub assign : ClusterMap → ClusterMap → ClusterMap
unfolding insert
assign m [] = m
assign m ((key, c) ∷ cs) = assign (insert key c m) cs

pub data Answers : Type 0 where
  all_valid : ClusterMap → Answers
  not_valid sending_failed : Answers

-- The loop over the actions, from a `clusterMap` on.
module _ (send : String → List Queued → HandlerResult) where
  abbrev pub assign_valid : Option ClusterMap → ClusterMap → (ClusterMap → Answers) → Answers
  assign_valid none m rest = not_valid
  assign_valid (some cs) m rest = rest (assign m cs)

  abbrev pub after_handler : HandlerResult → ClusterMap → (ClusterMap → Answers) → Answers
  after_handler handler_throws m rest = sending_failed
  after_handler no_object m rest = not_valid
  after_handler (clusters rs) m rest = assign_valid (validate_cluster rs) m rest

  unfoldable pub send_all : Groups → ClusterMap → Answers
  unfolding validate_cluster assign
  send_all [] m = all_valid m
  send_all ((action, es) ∷ gs) m = after_handler (send action es) m (send_all gs)

-- The loop over the generic events where no generic handler is available.
unfoldable pub cluster_groups : Groups → ClusterMap → ClusterMap
unfolding cluster_each
cluster_groups [] m = m
cluster_groups ((action, es) ∷ gs) m = cluster_groups gs (cluster_each es m)

unfoldable pub add_entries : (key payload : String) → List Queued → ClusterMap → ClusterMap
unfolding add_entry_to_processing_map
add_entries key payload [] m = m
add_entries key payload (e ∷ es) m =
    add_entries key payload es (add_entry_to_processing_map key e payload m)

-- `#addToProcessingMap`.
unfoldable pub add_to_processing_map : ClusterMap → ClusterMap → ClusterMap
unfolding add_entries
add_to_processing_map [] m = m
add_to_processing_map ((key, c) ∷ cs) m =
    add_to_processing_map cs (add_entries key c.payload c.queue_entries m)

-- The handlers of a service for clustering, and which of them are relevant for the chunk.
pub record Clustering : Type 0 where
  pub generic_available : Bool
  pub specific_available : Bool
  pub has_specific_handler : String → Bool
  pub send_generic : String → List Queued → HandlerResult
  pub send_specific : String → List Queued → HandlerResult

-- The processing map behind the loops: without clustering where an answer is not valid; `none`
-- where a handler throws.
abbrev pub finish_clusters : List Queued → ClusterMap → Answers → Option ClusterMap
finish_clusters es m (all_valid cs) = some (add_to_processing_map cs m)
finish_clusters es m not_valid = some (cluster_each es m)
finish_clusters es m sending_failed = none

abbrev pub send_specific_after : Clustering → Groups → Answers → Answers
send_specific_after c specific (all_valid m) = send_all c.send_specific specific m
send_specific_after c specific not_valid = not_valid
send_specific_after c specific sending_failed = sending_failed

-- `clusterQueueEntries`, on the processing map of the chunk.
unfoldable pub cluster_queue_entries : Clustering → List Queued → ClusterMap → Option ClusterMap
unfolding cluster_each cluster_by_action send_all cluster_groups add_to_processing_map
cluster_queue_entries c es m =
    let (generic, specific) =
      cluster_by_action c.has_specific_handler c.specific_available es ([], []) in
    if not c.generic_available && not c.specific_available
    then some (cluster_each es m)
    else if c.generic_available
    then finish_clusters es m (send_specific_after c specific (send_all c.send_generic generic []))
    else finish_clusters es (cluster_groups generic m) (send_all c.send_specific specific [])

-- `clusterBase` without a callback: `key_of` is the key that `#resolveRefBase` makes of an event.
unfoldable pub cluster_base : (key_of : Queued → String) → List Queued → ClusterMap → ClusterMap
unfolding add_entry_to_processing_map
cluster_base key_of [] m = m
cluster_base key_of (e ∷ es) m =
    cluster_base key_of es (add_entry_to_processing_map (key_of e) e e.payload m)
