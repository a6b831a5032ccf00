-- ===== src/Runner/Counts.antt =====
-- src/runner/runner.js: the counters and the broadcasts of a run for all tenants.
use event_queue.Prelude.{
  ◌≡◌, refl, ap, ◌∙◌, ℕ, ◌+◌, String, Bool, true, false, not, ◌&&◌, ◌||◌, List, [], ◌∷◌,
  if◌then◌else◌, str_eq, eq_iff, arith, All, sum_by, sum_by-append, Bool-cases, Option-cases, inl,
  inr,
}
use event_queue.Prelude.Dict.{has, has-insert, lookup, insert, lookup-insert}
use event_queue.OpenEvents.{OpenEntry}
use event_queue.Runner.{
  LockAnswer, is_refused, Tenant, Settings, Counts, or_zero, zeros, add_counts, RedisRun, no_run,
  publish_open, publish_tenants, add_all_counts, execute_events_all_tenants_redis,
}

if_true : (test : Bool) (d e : Counts) → test ≡ true → (if test then d else e) ≡ d
if_true test d e holds = rw holds refl

-- No id stands twice in a list of tenants.
abbrev pub Distinct : List Tenant → Type 0
Distinct [] = Unit
Distinct (t ∷ ts) = All (λ u. str_eq t.id u.id ≡ false) ts × Distinct ts

new_behind :
    (id j : String) (d : List (String × List OpenEntry))
    → (str_eq j id || has id d) ≡ false
    → has id d ≡ false
new_behind id j d new = ground arith

insert-new :
    (id : String) (os : List OpenEntry) (d : List (String × List OpenEntry)) (ts : List Tenant)
    → All (λ u. str_eq id u.id ≡ false) ts
    → All (λ u. has u.id d ≡ false) ts
    → All (λ u. has u.id (insert id os d) ≡ false) ts
insert-new id os d [] others new = tt
insert-new id os d (u ∷ ts) (other, others) (first, new) =
    (rw (has-insert id u.id os d) (rw (other, first) refl), insert-new id os d ts others new)

nothing-new : (ts : List Tenant) → All (λ u. has {V = List OpenEntry} u.id [] ≡ false) ts
unfolding has
nothing-new [] = tt
nothing-new (t ∷ ts) = (refl, nothing-new ts)

module _ (ns : String) where
  -- How many events entries report for the namespace, and what counters say of it.
  abbrev amount : List OpenEntry → ℕ
  amount os = sum_by (λ o. if str_eq o.namespace ns then o.count else 0) os

  abbrev pub count_in : Counts → ℕ
  count_in d = or_zero (lookup ns d)

  lookup-add_counts :
      (os : List OpenEntry) (d : Counts) → count_in (add_counts os d) ≡ count_in d + amount os
  unfolding add_counts
  lookup-add_counts [] d = omega arith
  lookup-add_counts (o ∷ os) d =
      let d' = insert o.namespace (or_zero (lookup o.namespace d) + o.count) d in
      lookup-add_counts os d'
      ∙ ground (
        arith,
        lookup-insert o.namespace ns (or_zero (lookup o.namespace d) + o.count) d,
        eq_iff o.namespace ns,
      )

  lookup-zeros : (names : List String) → count_in (zeros names) ≡ 0
  unfolding zeros lookup
  lookup-zeros [] = refl
  lookup-zeros (n ∷ names) = ground (arith, lookup-insert n ns 0 (zeros names), lookup-zeros names)

  abbrev total : List (String × List OpenEntry) → ℕ
  total d = sum_by (λ e. amount e.1) d

  abbrev pub total_calls : List (String × Counts) → ℕ
  total_calls calls = sum_by (λ e. count_in e.1) calls

  lookup-add_all_counts :
      (rs : List (String × List OpenEntry)) (d : Counts)
      → count_in (add_all_counts rs d) ≡ count_in d + total rs
  unfolding add_all_counts
  lookup-add_all_counts [] d = omega arith
  lookup-add_all_counts ((id, os) ∷ rs) d =
      omega (arith, lookup-add_all_counts rs (add_counts os d), lookup-add_counts os d)

  total-insert :
      (id : String) (os : List OpenEntry) (d : List (String × List OpenEntry))
      → has id d ≡ false
      → total (insert id os d) ≡ total d + amount os
  unfolding has insert
  total-insert id os [] new = omega arith
  total-insert id os ((j, v) ∷ d) new = elim (Bool-cases (str_eq j id)) [
    | inl same ↦ absurd (ground (arith, new, same))
    | inr other ↦ rw other (omega (arith, total-insert id os d (new_behind id j d new)))
  ]

  -- What has been called for the tenants so far is what has been counted.
  abbrev Balanced : RedisRun → Type 0
  Balanced r = total_calls r.tenant_calls ≡ total r.tenant_counts

  publish_open-Balanced :
      (c : Settings) (id : String) (os : List OpenEntry) (r : RedisRun)
      → c.collect_event_queue_metrics ≡ true
      → has id r.tenant_counts ≡ false
      → Balanced r
      → Balanced (publish_open c id os r)
  publish_open-Balanced c id os r metrics new balanced = rw metrics (
      omega (
        arith,
        sum_by-append {0} (λ e. count_in e.1) r.tenant_calls
            ((id, add_counts os (zeros c.processing_namespaces)) ∷ []),
        lookup-add_counts os (zeros c.processing_namespaces),
        lookup-zeros c.processing_namespaces,
        total-insert id os r.tenant_counts new,
      ))

  publish_tenants-Balanced :
      (c : Settings) (ts : List Tenant) (r : RedisRun)
      → c.collect_event_queue_metrics ≡ true
      → Distinct ts
      → All (λ t. has t.id r.tenant_counts ≡ false) ts
      → Balanced r
      → Balanced (publish_tenants c ts r)
  unfolding publish_tenants
  publish_tenants-Balanced c [] r metrics distinct new balanced = balanced
  publish_tenants-Balanced c (t ∷ ts) r metrics (others, distinct) (first, new) balanced =
      elim (Bool-cases t.auth_fails) [
        | inl failed ↦ rw failed (publish_tenants-Balanced c ts r metrics distinct new balanced)
        | inr made ↦ rw made (elim (Option-cases t.entries) [
          | inl absent ↦ rw absent (publish_tenants-Balanced c ts r metrics distinct new balanced)
          | inr (os, found) ↦ rw found (
              publish_tenants-Balanced c ts (publish_open c t.id os r) metrics distinct
                (insert-new t.id os r.tenant_counts ts others new)
                (publish_open-Balanced c t.id os r metrics first balanced))
        ])
      ]

-- Where the metrics are collected and no tenant is listed twice, the global counter of a namespace
-- is set to the sum of what the counters of the tenants are set to, whatever the locks answer and
-- whichever tenants fail.
pub execute_events_all_tenants_redis-counts :
    (c : Settings) (lock : LockAnswer) (ts : List Tenant) (ns : String)
    → c.collect_event_queue_metrics ≡ true
    → Distinct ts
    → count_in ns (execute_events_all_tenants_redis c lock ts).global_calls
      ≡ total_calls ns (execute_events_all_tenants_redis c lock ts).tenant_calls
unfolding execute_events_all_tenants_redis lookup
execute_events_all_tenants_redis-counts c lock ts ns metrics distinct =
    elim (Bool-cases (not c.has_tenant_filter && is_refused lock)) [
      | inl ended ↦ rw ended refl
      | inr goes_on ↦
          let r = publish_tenants c ts no_run in
          rw goes_on (
            omega (
              arith,
              ap (count_in ns) (
                  if_true c.collect_event_queue_metrics
                    (add_all_counts r.tenant_counts (zeros c.processing_namespaces)) [] metrics),
              lookup-add_all_counts ns r.tenant_counts (zeros c.processing_namespaces),
              lookup-zeros ns c.processing_namespaces,
              publish_tenants-Balanced ns c ts no_run metrics distinct (nothing-new ts) refl,
            ))
    ]
