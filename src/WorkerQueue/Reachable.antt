-- ===== src/WorkerQueue/Reachable.antt =====
-- src/shared/WorkerQueue.js: the states that an instance of the queue can reach, by calls of
-- `addToQueue`, by promises that settle, and by ticks of `#adjustPriority`.
use event_queue.Prelude.{
  ℕ, suc, ◌≤◌, ◌≡◌, refl, Bool, Option, [], ◌∙◌, inl, inr, arith, Option-cases, String, sum_by,
}
use event_queue.WorkerQueue.{
  Queue, init, check_for_next, waiting, enqueue, remove_running, release, settle, add_to_queue,
  queued, adjust_priority, new_entry, start,
}
use event_queue.WorkerQueue.Weights.{load_of, check_for_next_from_ind}
use event_queue.WorkerQueue.Capacity.{
  IsValid, IsBusy, check_for_next-IsBusy, settle-IsValid, add_to_queue-IsValid, init-IsValid,
  idle-empty, add_to_queue_cases, enqueue_same,
}
use event_queue.WorkerQueue.Aging.{
  adjust_priority_same, adjust_priority-IsValid, adjust_priority-IsBusy,
}
use event_queue.WorkerQueue.Conservation.{
  occurrences, add_to_queue-occurrences, settle-occurrences, adjust_priority-occurrences,
}

pub data Step (q : Queue) : Queue → Type 0 where
  add :
      (load : ℕ) (label : String) (name : Option String) (increase : Bool) (now : ℕ) {promise : ℕ}
      {q' : Queue}
      → add_to_queue load label name increase now q ≡ queued promise q'
      → Step q q'
  finish : (promise : ℕ) → Step q (settle promise q)
  tick : (check_time : ℕ) → Step q (adjust_priority check_time q)

pub data Reach (concurrency : Option ℕ) : Queue → Type 0 where
  initial : Reach concurrency (init concurrency)
  next : {q q' : Queue} → Reach concurrency q → Step q q' → Reach concurrency q'

pub record Invariant (q : Queue) : Type 0 where
  pub valid : IsValid q
  pub busy : IsBusy q
  pub unused : (p : ℕ) → q.created ≤ p → occurrences p q ≡ 0
  pub once : (p : ℕ) → occurrences p q ≤ 1

check_for_next-created : (q : Queue) → (check_for_next q).created ≡ q.created
unfolding check_for_next start
check_for_next-created q =
    check_for_next_from_ind (λ x. x.created ≡ q.created) (λ a e b t h. t.same.created ∙ h)
      (waiting q) q refl

settle-created : (p : ℕ) (q : Queue) → (settle p q).created ≡ q.created
unfolding settle
settle-created p q = elim (Option-cases (remove_running p q.running_promises)) [
  | inl missing ↦ rw (missing, settle)
  | inr ((r, rs), eq) ↦ rw (eq, settle) (check_for_next-created (release r rs q))
]

settle-IsBusy : (p : ℕ) (q : Queue) → IsBusy q → IsBusy (settle p q)
unfolding settle
settle-IsBusy p q b = elim (Option-cases (remove_running p q.running_promises)) [
  | inl missing ↦ rw (missing, settle) b
  | inr ((r, rs), eq) ↦ rw (eq, settle) (check_for_next-IsBusy (release r rs q))
]

settle-occurrences_le : (x p : ℕ) (q : Queue) → occurrences x (settle p q) ≤ occurrences x q
unfolding settle
settle-occurrences_le x p q = elim (Option-cases (remove_running p q.running_promises)) [
  | inl missing ↦ rw (missing, settle) (omega arith)
  | inr ((r, rs), eq) ↦ omega (arith, settle-occurrences x p q eq)
]

Step-Invariant : {q q' : Queue} → Step q q' → Invariant q → Invariant q'
Step-Invariant {q} (add load label name increase now {promise} {q'} h) i =
    let (p, _, _, same, eq) = add_to_queue_cases load label name increase now q h in
    let made : q'.created ≡ suc q.created = rw eq (
      check_for_next-created (enqueue p (new_entry load label increase now q) q)
      ∙ (enqueue_same p (new_entry load label increase now q) q).3) in
    record {
      valid = add_to_queue-IsValid load label name increase now q h i.valid;
      busy = rw eq (check_for_next-IsBusy (enqueue p (new_entry load label increase now q) q));
      unused = λ x le. ground (
        arith,
        made,
        same,
        i.unused x,
        add_to_queue-occurrences x load label name increase now q h,
      );
      once = λ x. ground (
        arith,
        same,
        i.unused x,
        i.once x,
        add_to_queue-occurrences x load label name increase now q h,
      );
    }
Step-Invariant {q} (finish p) i = record {
  valid = settle-IsValid p q i.valid;
  busy = settle-IsBusy p q i.busy;
  unused = λ x le. omega (arith, settle-created p q, i.unused x, settle-occurrences_le x p q);
  once = λ x. omega (arith, i.once x, settle-occurrences_le x p q);
}
Step-Invariant {q} (tick t) i = record {
  valid = adjust_priority-IsValid t q i.valid;
  busy = adjust_priority-IsBusy t q i.busy;
  unused = λ x le.
      omega
        (arith, (adjust_priority_same t q).created, i.unused x, adjust_priority-occurrences x t q);
  once = λ x. omega (arith, i.once x, adjust_priority-occurrences x t q);
}

Reach-Invariant : {concurrency : Option ℕ} {q : Queue} → Reach concurrency q → Invariant q
unfolding init
Reach-Invariant {concurrency} initial = record {
  valid = init-IsValid concurrency;
  busy = inr (tt, tt, tt, tt);
  unused = λ p h. omega arith;
  once = λ p. omega arith;
}
Reach-Invariant (next r s) = Step-Invariant s (Reach-Invariant r)

-- In every reachable state the load counter is the sum of the running loads and at most the limit.
pub Reach-load :
    {concurrency : Option ℕ} (q : Queue)
    → Reach concurrency q
    → (q.running_load ≡ sum_by load_of q.running_promises) × (q.running_load ≤ q.concurrency_limit)
Reach-load q r = let v = (Reach-Invariant r).valid in (v.counted, v.bounded)

-- In every reachable state no waiting entry could start: the limit is reached or each waiting
-- entry is larger than the load that is left.
pub Reach-IsBusy : {concurrency : Option ℕ} (q : Queue) → Reach concurrency q → IsBusy q
Reach-IsBusy q r = (Reach-Invariant r).busy

-- In a reachable state in which nothing runs nothing waits.
pub Reach-never_stalls :
    {concurrency : Option ℕ} (q : Queue)
    → Reach concurrency q
    → q.running_promises ≡ []
    → waiting q ≡ 0
Reach-never_stalls q r idle = let i = Reach-Invariant r in idle-empty q i.valid i.busy idle

-- In every reachable state a promise stands at most once among the waiting and the running ones.
pub Reach-once :
    {concurrency : Option ℕ} (q : Queue) (p : ℕ) → Reach concurrency q → occurrences p q ≤ 1
Reach-once q p r = (Reach-Invariant r).once p
