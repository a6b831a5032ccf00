-- ===== src/EventScheduler/Timers.antt =====
-- src/shared/eventScheduler.js: which timers there are.
use event_queue.Prelude.{
  ◌≡◌, refl, ℕ, suc, ◌-◌, ◌≤◌, String, Bool, true, false, not, ◌&&◌, List, [], ◌∷◌, ◌==◌, str_eq,
  filter, any, arith, eq_refl, eq_iff, sum_by, flag, All, All-map, ◌∙◌, flag-le_one, Bool-cases,
  inl, inr, subst,
}
use event_queue.EventScheduler.{
  Delayed, key_of, Timer, Scheduler, no_timers, is_scheduled, schedule_event, fire,
  clear_for_tenant, is_of_tenant,
}

module _ {ℓ} {A : Type ℓ} (p q : A → Bool) where
  sum_by-filter :
      (xs : List A) → sum_by (λ x. flag (q x)) (filter p xs) ≤ sum_by (λ x. flag (q x)) xs
  unfolding filter
  sum_by-filter [] = omega arith
  sum_by-filter (x ∷ xs) = ground (arith, sum_by-filter xs)

  sum_by-filter_less :
      (xs : List A)
      → any (λ x. not (p x) && q x) xs ≡ true
      → suc (sum_by (λ x. flag (q x)) (filter p xs)) ≤ sum_by (λ x. flag (q x)) xs
  unfolding filter any
  sum_by-filter_less [] h = ground arith
  sum_by-filter_less (x ∷ xs) h = ground (arith, sum_by-filter xs, sum_by-filter_less xs)

  any-filter_kept :
      ((x : A) → q x ≡ true → p x ≡ true) → (xs : List A) → any q (filter p xs) ≡ any q xs
  unfolding filter any
  any-filter_kept h [] = refl
  any-filter_kept h (x ∷ xs) = ground (arith, h x, any-filter_kept h xs)

-- What an instance does with the scheduler; timers run in any order.
pub data Step (s : Scheduler) : Scheduler → Type 0 where
  schedules : (d : Delayed) (now : ℕ) → Step s (schedule_event d now s)
  fires :
      (t : Timer)
      → any
          (λ u. not (not (u.timeout == t.timeout)) && str_eq (key_of u.event) (key_of t.event))
          s.armed
        ≡ true
      → Step s (fire t s)
  clears : (tenant : String) → Step s (clear_for_tenant tenant s)

pub data Reach : Scheduler → Type 0 where
  starts : Reach no_timers
  steps : (s s' : Scheduler) → Reach s → Step s s' → Reach s'

-- The timers that are armed for a key.
abbrev pub armed_for : String → Scheduler → ℕ
armed_for key s = sum_by (λ t. flag (str_eq (key_of t.event) key)) s.armed

arm_bound :
    (d : Delayed) (now : ℕ) (s : Scheduler) (key : String)
    → armed_for key s ≤ flag (is_scheduled key s)
    → armed_for key (schedule_event d now s) ≤ flag (is_scheduled key (schedule_event d now s))
unfolding schedule_event
arm_bound d now s key h = ground (arith, eq_iff (key_of d) key, h)

fire_bound :
    (t : Timer) (s : Scheduler) (key : String)
    → any
        (λ u. not (not (u.timeout == t.timeout)) && str_eq (key_of u.event) (key_of t.event))
        s.armed
      ≡ true
    → armed_for key s ≤ flag (is_scheduled key s)
    → armed_for key (fire t s) ≤ flag (is_scheduled key (fire t s))
unfolding fire is_scheduled
fire_bound t s key present h = elim (Bool-cases (str_eq (key_of t.event) key)) [
  | inl same ↦
      let less =
        sum_by-filter_less (λ u. not (u.timeout == t.timeout))
          (λ u. str_eq (key_of u.event) (key_of t.event)) s.armed present in
      subst
        (λ k.
          armed_for k s ≤ flag (is_scheduled k s)
          → armed_for k (fire t s) ≤ flag (is_scheduled k (fire t s)))
        ((eq_iff (key_of t.event) key).0 same)
        (λ b. omega (arith, less, b, flag-le_one (is_scheduled (key_of t.event) s))) h
  | inr other ↦
      let kept =
        any-filter_kept (λ k. not (str_eq k (key_of t.event))) (λ k. str_eq k key)
          (λ k e.
            ground (arith, eq_iff k key, eq_iff k (key_of t.event), eq_iff (key_of t.event) key))
          s.scheduled_events in
      let fewer =
        sum_by-filter (λ u. not (u.timeout == t.timeout)) (λ u. str_eq (key_of u.event) key)
          s.armed in
      rw (kept) (omega (arith, fewer, h))
]

clear_bound :
    (tenant : String) (s : Scheduler) (key : String)
    → armed_for key s ≤ flag (is_scheduled key s)
    → armed_for key (clear_for_tenant tenant s)
      ≤ flag (is_scheduled key (clear_for_tenant tenant s))
unfolding clear_for_tenant is_scheduled
clear_bound tenant s key h =
    let fewer =
      sum_by-filter (λ t. not (is_of_tenant tenant s.events_by_tenants t))
        (λ u. str_eq (key_of u.event) key) s.armed in
    omega (arith, fewer, h)

-- In every reachable state at most one timer is armed for the key of an event, and only while the key is marked
-- as scheduled.
pub Reach-armed_for :
    (s : Scheduler) → Reach s → (key : String) → armed_for key s ≤ flag (is_scheduled key s)
unfolding no_timers
Reach-armed_for s starts key = ground arith
Reach-armed_for s (steps s₀ s₁ reach (schedules d now)) key =
    arm_bound d now s₀ key (Reach-armed_for s₀ reach key)
Reach-armed_for s (steps s₀ s₁ reach (fires t present)) key =
    fire_bound t s₀ key present (Reach-armed_for s₀ reach key)
Reach-armed_for s (steps s₀ s₁ reach (clears tenant)) key =
    clear_bound tenant s₀ key (Reach-armed_for s₀ reach key)

abbrev Tracked : List (String × ℕ) → Timer → Type 0
Tracked es t = is_of_tenant t.event.tenant es t ≡ true

All-filter {ℓ κ} :
    {A : Type ℓ} (P : A → Type κ) (p : A → Bool) (xs : List A) → All P xs → All P (filter p xs)
unfolding filter
All-filter P p [] h = tt
All-filter P p (x ∷ xs) (h, hs) = elim (Bool-cases (p x)) [
  | inl e ↦ rw (e) (h, All-filter P p xs hs)
  | inr e ↦ rw (e) (All-filter P p xs hs)
]

Tracked-arm :
    (d : Delayed) (n : ℕ) (es : List (String × ℕ)) (t : Timer)
    → Tracked es t
    → Tracked ((d.tenant, n) ∷ es) t
unfolding is_of_tenant any
Tracked-arm d n es t h = ground (arith, h)

Tracked-fire :
    (n : ℕ) (es : List (String × ℕ)) (ts : List Timer)
    → All (Tracked es) ts
    → All (Tracked (filter (λ e. not (e.1 == n)) es)) (filter (λ u. not (u.timeout == n)) ts)
unfolding filter is_of_tenant
Tracked-fire n es [] h = tt
Tracked-fire n es (t ∷ ts) (h, hs) = elim (Bool-cases (t.timeout == n)) [
  | inl e ↦ rw (e) (Tracked-fire n es ts hs)
  | inr other ↦ rw (other) (
    any-filter_kept (λ e. not (e.1 == n)) (λ e. str_eq e.0 t.event.tenant && e.1 == t.timeout)
          (λ e k. ground (arith, other, k)) es
        ∙ h,
    Tracked-fire n es ts hs,
  )
]

new-Tracked :
    (d : Delayed) (n r : ℕ) (es : List (String × ℕ))
    → Tracked ((d.tenant, n) ∷ es) (record { timeout = n; event = d; relative = r })
unfolding is_of_tenant any
new-Tracked d n r es = ground (arith, eq_refl d.tenant)

Reach-Tracked : (s : Scheduler) → Reach s → All (Tracked s.events_by_tenants) s.armed
unfolding no_timers schedule_event fire clear_for_tenant
Reach-Tracked s starts = tt
Reach-Tracked s (steps s₀ s₁ reach (schedules d now)) =
    elim (Bool-cases (is_scheduled (key_of d) s₀)) [
      | inl e ↦ rw (e) (Reach-Tracked s₀ reach)
      | inr e ↦ rw (e) (
        new-Tracked d s₀.timeouts (d.date - now) s₀.events_by_tenants,
        All-map (λ t. Tracked-arm d s₀.timeouts s₀.events_by_tenants t) s₀.armed
            (Reach-Tracked s₀ reach),
      )
    ]
Reach-Tracked s (steps s₀ s₁ reach (fires t present)) =
    Tracked-fire t.timeout s₀.events_by_tenants s₀.armed (Reach-Tracked s₀ reach)
Reach-Tracked s (steps s₀ s₁ reach (clears tenant)) =
    All-filter _ _ s₀.armed (Reach-Tracked s₀ reach)

Tracked-clear_for_tenant :
    (tenant : String) (es : List (String × ℕ)) (ts : List Timer)
    → All (Tracked es) ts
    → any (λ t. str_eq t.event.tenant tenant) (filter (λ t. not (is_of_tenant tenant es t)) ts)
      ≡ false
unfolding filter any
Tracked-clear_for_tenant tenant es [] h = refl
Tracked-clear_for_tenant tenant es (t ∷ ts) (h, hs) =
    ground (arith, h, eq_iff t.event.tenant tenant, Tracked-clear_for_tenant tenant es ts hs)

-- In a reachable state, after `clearForTenant` no timer of the tenant is armed, but its keys stay
-- marked as scheduled: the next `scheduleEvent` of an event that was scheduled changes nothing.
pub clear_for_tenant_blocks :
    (s : Scheduler)
    → Reach s
    → (d : Delayed) (now : ℕ) → is_scheduled (key_of d) s ≡ true
    → (any (λ t. str_eq t.event.tenant d.tenant) (clear_for_tenant d.tenant s).armed ≡ false)
      × (schedule_event d now (clear_for_tenant d.tenant s) ≡ clear_for_tenant d.tenant s)
unfolding clear_for_tenant schedule_event is_scheduled
clear_for_tenant_blocks s reach d now marked = (
  Tracked-clear_for_tenant d.tenant s.events_by_tenants s.armed (Reach-Tracked s reach),
  rw (marked) refl,
)
