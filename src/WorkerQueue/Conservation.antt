-- ===== src/WorkerQueue/Conservation.antt =====
-- src/shared/WorkerQueue.js: a queued promise waits or runs until it settles, and only once.
use event_queue.Prelude.{
  ℕ, ◌+◌, ◌==◌, ◌≡◌, refl, Bool, Option, some, List, [], ◌∷◌, inl, inr, arith, sum_by,
  sum_by-append, Option-cases, flag, String, ◌∙◌, ap,
}
use event_queue.WorkerQueue.{
  Priority, low, medium, high, very_high, Entry, Running, Queue, start, check_for_next, waiting,
  enqueue, remove_running, release, settle, add_to_queue, queued, adjust_priority, new_entry,
}
use event_queue.WorkerQueue.Weights.{total, Taken, check_for_next_from_ind}
use event_queue.WorkerQueue.Capacity.{add_to_queue_cases}
use event_queue.WorkerQueue.Aging.{total-adjust_priority, adjust_priority_same}

-- How often a promise stands in the queues or among the running ones.
abbrev pub occurrences : ℕ → Queue → ℕ
occurrences p q =
    total (λ e. flag (e.promise == p)) q + sum_by (λ r. flag (r.promise == p)) q.running_promises

start-occurrences :
    (p n : ℕ) (q : Queue) (e : Entry) (q' : Queue)
    → Taken q e q'
    → occurrences p q ≡ n
    → occurrences p (start e q') ≡ n
unfolding start
start-occurrences p n q e q' t h = omega (
  arith,
  h,
  t.weight (λ x. flag (x.promise == p)),
  ap (sum_by (λ r. flag (r.promise == p))) t.same.running,
  sum_by-append {0} (λ r. flag (r.promise == p)) q'.running_promises
      (record { promise = e.promise; load = e.load } ∷ []),
)

pub check_for_next-occurrences :
    (p : ℕ) (q : Queue) → occurrences p (check_for_next q) ≡ occurrences p q
unfolding check_for_next
check_for_next-occurrences p q =
    check_for_next_from_ind (λ x. occurrences p x ≡ occurrences p q)
      (start-occurrences p (occurrences p q)) (waiting q) q refl

enqueue-occurrences :
    (x : ℕ) (p : Priority) (e : Entry) (q : Queue)
    → occurrences x (enqueue p e q) ≡ occurrences x q + flag (e.promise == x)
unfolding enqueue
enqueue-occurrences x low e q =
    omega (arith, sum_by-append {0} (λ y. flag (y.promise == x)) q.low_entries (e ∷ []))
enqueue-occurrences x medium e q =
    omega (arith, sum_by-append {0} (λ y. flag (y.promise == x)) q.medium_entries (e ∷ []))
enqueue-occurrences x high e q =
    omega (arith, sum_by-append {0} (λ y. flag (y.promise == x)) q.high_entries (e ∷ []))
enqueue-occurrences x very_high e q =
    omega (arith, sum_by-append {0} (λ y. flag (y.promise == x)) q.very_high_entries (e ∷ []))

-- A call of `addToQueue` that does not throw adds one occurrence of its own promise, and none of
-- another.
pub add_to_queue-occurrences :
    (x load : ℕ) (label : String) (name : Option String) (increase : Bool) (now : ℕ) (q : Queue)
    {promise : ℕ} {q' : Queue}
    → add_to_queue load label name increase now q ≡ queued promise q'
    → occurrences x q' ≡ occurrences x q + flag (promise == x)
add_to_queue-occurrences x load label name increase now q h =
    let (p, _, _, same, eq) = add_to_queue_cases load label name increase now q h in
    rw (eq, same)
      (check_for_next-occurrences x _
        ∙ enqueue-occurrences x p (new_entry load label increase now q) q)

remove_running-occurrences :
    (x p : ℕ) (rs : List Running) {r : Running} {others : List Running}
    → remove_running p rs ≡ some (r, others)
    → sum_by (λ y. flag (y.promise == x)) rs
      ≡ flag (p == x) + sum_by (λ y. flag (y.promise == x)) others
unfolding remove_running
remove_running-occurrences x p [] h = ground arith
remove_running-occurrences x p (y ∷ rs) {r} {others} h = elim (Option-cases (remove_running p rs)) [
  | inl missing ↦ ground arith
  | inr (found, eq) ↦ ground (arith, remove_running-occurrences x p rs eq)
]

-- When a running promise settles, one occurrence of it goes and every other promise keeps its own.
pub settle-occurrences :
    (x p : ℕ) (q : Queue) {r : Running} {others : List Running}
    → remove_running p q.running_promises ≡ some (r, others)
    → occurrences x (settle p q) + flag (p == x) ≡ occurrences x q
unfolding settle
settle-occurrences x p q {r} {others} h =
    rw (h, settle)
      (omega (
        arith,
        check_for_next-occurrences x (release r others q),
        remove_running-occurrences x p q.running_promises h,
      ))

pub adjust_priority-occurrences :
    (x t : ℕ) (q : Queue) → occurrences x (adjust_priority t q) ≡ occurrences x q
adjust_priority-occurrences x t q = omega (
  arith,
  total-adjust_priority (λ e. flag (e.promise == x)) (λ t e. refl) t q,
  ap (sum_by (λ r. flag (r.promise == x))) (adjust_priority_same t q).running,
)
