-- ===== src/Outbox/Clusters/Occurrences.antt =====
-- src/outbox/EventQueueGenericOutboxHandler.js: how often an event stands in lists, maps and groups.
use event_queue.Prelude.{
  ◌≡◌, refl, ℕ, ◌+◌, String, Bool, true, false, ◌&&◌, Option, none, some, List, [], ◌∷◌, ◌++◌,
  str_eq, flag, sum_by, sum_by-append, arith, Bool-cases, inl, inr,
}
use event_queue.Prelude.Dict.{lookup, insert}
use event_queue.Outbox.Clusters.{
  Queued, Cluster, ClusterMap, with_entry, add_entry_to_processing_map, cluster_each, Groups,
  or_none, add_to_action, to_groups, cluster_by_action, cluster_groups, add_entries,
  add_to_processing_map, cluster_base,
}

abbrev old : {V : Type 0} → (V → ℕ) → Option V → ℕ
old f none = 0
old f (some v) = f v

-- An insertion replaces what was there.
total-insert :
    {V : Type 0} (f : V → ℕ) (key : String) (v : V) (m : List (String × V))
    → sum_by (λ e. f e.1) (insert key v m) + old f (lookup key m) ≡ sum_by (λ e. f e.1) m + f v
unfolding insert lookup
total-insert f key v [] = omega arith
total-insert f key v ((k, w) ∷ m) = elim (Bool-cases (str_eq k key)) [
  | inl same ↦ rw same (omega arith)
  | inr other ↦ rw other (omega (arith, total-insert f key v m))
]

module _ (id : String) where
  -- How often the event stands in a list, in the clusters of a map, and in the groups of actions.
  abbrev pub occurrences : List Queued → ℕ
  occurrences es = sum_by (λ e. flag (str_eq e.id id)) es

  abbrev pub in_map : ClusterMap → ℕ
  in_map m = sum_by (λ e. occurrences e.1.queue_entries) m

  abbrev pub in_groups : Groups → ℕ
  in_groups g = sum_by (λ e. occurrences e.1) g

  abbrev in_cluster : Cluster → ℕ
  in_cluster c = occurrences c.queue_entries

  in_cluster-with_entry :
      (e : Queued) (payload : String) (o : Option Cluster)
      → in_cluster (with_entry e payload o) ≡ old in_cluster o + occurrences (e ∷ [])
  in_cluster-with_entry e payload none = omega arith
  in_cluster-with_entry e payload (some c) =
      sum_by-append (λ x. flag (str_eq x.id id)) c.queue_entries (e ∷ [])

  in_map-add_entry_to_processing_map :
      (key : String) (e : Queued) (payload : String) (m : ClusterMap)
      → in_map (add_entry_to_processing_map key e payload m) ≡ in_map m + occurrences (e ∷ [])
  unfolding add_entry_to_processing_map
  in_map-add_entry_to_processing_map key e payload m = omega (
    arith,
    total-insert in_cluster key (with_entry e payload (lookup key m)) m,
    in_cluster-with_entry e payload (lookup key m),
  )

  pub in_map-cluster_each :
      (es : List Queued) (m : ClusterMap) → in_map (cluster_each es m) ≡ in_map m + occurrences es
  unfolding cluster_each
  in_map-cluster_each [] m = omega arith
  in_map-cluster_each (e ∷ es) m = omega (
    arith,
    in_map-cluster_each es (add_entry_to_processing_map e.id e e.payload m),
    in_map-add_entry_to_processing_map e.id e e.payload m,
  )

  in_map-cluster_base :
      (key_of : Queued → String) (es : List Queued) (m : ClusterMap)
      → in_map (cluster_base key_of es m) ≡ in_map m + occurrences es
  unfolding cluster_base
  in_map-cluster_base key_of [] m = omega arith
  in_map-cluster_base key_of (e ∷ es) m = omega (
    arith,
    in_map-cluster_base key_of es (add_entry_to_processing_map (key_of e) e e.payload m),
    in_map-add_entry_to_processing_map (key_of e) e e.payload m,
  )

  pub in_map-cluster_groups :
      (gs : Groups) (m : ClusterMap) → in_map (cluster_groups gs m) ≡ in_map m + in_groups gs
  unfolding cluster_groups
  in_map-cluster_groups [] m = omega arith
  in_map-cluster_groups ((action, es) ∷ gs) m =
      omega (arith, in_map-cluster_groups gs (cluster_each es m), in_map-cluster_each es m)

  in_map-add_entries :
      (key payload : String) (es : List Queued) (m : ClusterMap)
      → in_map (add_entries key payload es m) ≡ in_map m + occurrences es
  unfolding add_entries
  in_map-add_entries key payload [] m = omega arith
  in_map-add_entries key payload (e ∷ es) m = omega (
    arith,
    in_map-add_entries key payload es (add_entry_to_processing_map key e payload m),
    in_map-add_entry_to_processing_map key e payload m,
  )

  pub in_map-add_to_processing_map :
      (cs m : ClusterMap) → in_map (add_to_processing_map cs m) ≡ in_map m + in_map cs
  unfolding add_to_processing_map
  in_map-add_to_processing_map [] m = omega arith
  in_map-add_to_processing_map ((key, c) ∷ cs) m = omega (
    arith,
    in_map-add_to_processing_map cs (add_entries key c.payload c.queue_entries m),
    in_map-add_entries key c.payload c.queue_entries m,
  )

  in_old : (o : Option (List Queued)) → occurrences (or_none o) ≡ old occurrences o
  in_old none = refl
  in_old (some es) = refl

  in_groups-add_to_action :
      (e : Queued) (g : Groups) → in_groups (add_to_action e g) ≡ in_groups g + occurrences (e ∷ [])
  unfolding add_to_action
  in_groups-add_to_action e g = omega (
    arith,
    total-insert occurrences e.event (or_none (lookup e.event g) ++ e ∷ []) g,
    sum_by-append (λ x. flag (str_eq x.id id)) (or_none (lookup e.event g)) (e ∷ []),
    in_old (lookup e.event g),
  )

  in_groups-to_groups :
      (is_specific : Bool) (e : Queued) (g : Groups × Groups)
      → in_groups (to_groups is_specific e g).0 + in_groups (to_groups is_specific e g).1
        ≡ in_groups g.0 + in_groups g.1 + occurrences (e ∷ [])
  unfolding to_groups
  in_groups-to_groups true e g = omega (arith, in_groups-add_to_action e g.1)
  in_groups-to_groups false e g = omega (arith, in_groups-add_to_action e g.0)

  -- Each event is a generic or a specific one.
  pub in_groups-cluster_by_action :
      (has_specific : String → Bool) (available : Bool) (es : List Queued) (g : Groups × Groups)
      → in_groups (cluster_by_action has_specific available es g).0
          + in_groups (cluster_by_action has_specific available es g).1
        ≡ in_groups g.0 + in_groups g.1 + occurrences es
  unfolding cluster_by_action
  in_groups-cluster_by_action has_specific available [] g = omega arith
  in_groups-cluster_by_action has_specific available (e ∷ es) g =
      let test = has_specific e.event && available in
      omega (
        arith,
        in_groups-cluster_by_action has_specific available es (to_groups test e g),
        in_groups-to_groups test e g,
      )
