-- ===== src/WorkerQueue/Capacity.antt =====
-- src/shared/WorkerQueue.js: the load that runs stays within the limit, and `#checkForNext` stops
-- only when nothing more can start.
use event_queue.Prelude.{
  String, ℕ, zero, suc, ◌+◌, ◌≤◌, ◌<◌, ◌==◌, ◌≡◌, ap, refl, subst, Bool, Option, none, some, List,
  [], ◌∷◌, ◌++◌, ◌⊎◌, inl, inr, arith, length, sum_by, sum_by-append, All, All-append, Bool-cases,
  Option-cases,
}
use event_queue.WorkerQueue.{
  Priority, low, medium, high, very_high, Entry, Running, Queue, priorities, take_next, start,
  waiting, nothing_to_do, check_for_next_from, check_for_next, remove_running, release, settle,
  enqueue, add_to_queue, queued, init, new_entry, priority_of,
}
use event_queue.WorkerQueue.Weights.{
  total, load_of, AllWaiting, Taken, NothingFits, take_next-Taken, take_next-none,
  check_for_next_from_ind,
}

pub record IsValid (q : Queue) : Type 0 where
  pub limit_pos : 1 ≤ q.concurrency_limit
  pub counted : q.running_load ≡ sum_by load_of q.running_promises
  pub bounded : q.running_load ≤ q.concurrency_limit
  pub each : AllWaiting (λ e. e.load ≤ q.concurrency_limit) q

-- No waiting entry can start: the limit is reached, or each is too large for what is left.
abbrev pub IsBusy : Queue → Type 0
IsBusy q = (q.running_load ≡ q.concurrency_limit) ⊎ NothingFits q

sum_by-running :
    (rs : List Running) (r : Running) → sum_by load_of (rs ++ r ∷ []) ≡ sum_by load_of rs + r.load
sum_by-running rs r = omega (arith, sum_by-append {0} load_of rs (r ∷ []))

start-IsValid :
    (q : Queue) (e : Entry) (q' : Queue) → Taken q e q' → IsValid q → IsValid (start e q')
unfolding start
start-IsValid q e q' t v =
    let s = t.same in
    record {
      limit_pos = rw s.limit v.limit_pos;
      counted = omega (
        arith,
        sum_by-running q'.running_promises (record { promise = e.promise; load = e.load }),
        s.running_load,
        v.counted,
        ap (sum_by load_of) s.running,
      );
      bounded = omega (arith, s.limit, s.running_load, t.fits);
      each = rw s.limit (t.all (λ x. x.load ≤ q.concurrency_limit) v.each).1;
    }

pub check_for_next-IsValid : (q : Queue) → IsValid q → IsValid (check_for_next q)
unfolding check_for_next
check_for_next-IsValid q v = check_for_next_from_ind IsValid start-IsValid (waiting q) q v

length-sum_by : (es : List Entry) → length es ≡ sum_by (λ _. 1) es
length-sum_by [] = refl
length-sum_by (e ∷ es) = omega (arith, length-sum_by es)

waiting-total : (q : Queue) → waiting q ≡ total (λ _. 1) q
waiting-total q = omega (
  arith,
  length-sum_by q.low_entries,
  length-sum_by q.medium_entries,
  length-sum_by q.high_entries,
  length-sum_by q.very_high_entries,
)

All-of_empty : (P : Entry → Type 0) (es : List Entry) → length es ≡ 0 → All P es
All-of_empty P [] h = tt
All-of_empty P (e ∷ es) h = absurd (omega arith)

AllWaiting-of_empty : (P : Entry → Type 0) (q : Queue) → waiting q ≡ 0 → AllWaiting P q
AllWaiting-of_empty P q h = (
  All-of_empty P _ (omega arith),
  All-of_empty P _ (omega arith),
  All-of_empty P _ (omega arith),
  All-of_empty P _ (omega arith),
)

check_for_next_from-IsBusy :
    (fuel : ℕ) (q : Queue) → waiting q ≤ fuel → IsBusy (check_for_next_from fuel q)
unfolding check_for_next_from nothing_to_do
check_for_next_from-IsBusy zero q h = inr (AllWaiting-of_empty _ q (omega arith))
check_for_next_from-IsBusy (suc fuel) q h = elim (Bool-cases (waiting q == 0)) [
  | inl empty ↦ rw (empty, check_for_next_from) (inr (AllWaiting-of_empty _ q (ground arith)))
  | inr some_wait ↦ elim (Bool-cases (q.running_load == q.concurrency_limit)) [
    | inl full ↦ rw (some_wait, full, check_for_next_from) (inl (ground arith))
    | inr room ↦ elim (Option-cases (take_next q priorities)) [
      | inl missing ↦
          rw (some_wait, room, missing, check_for_next_from) (inr (take_next-none q missing))
      | inr ((p, e, q'), eq) ↦
          elim (Bool-cases ((start e q').running_load == q'.concurrency_limit)) [
            | inl full ↦ rw (some_wait, room, eq, full, check_for_next_from) (inl (ground arith))
            | inr more ↦
                rw (some_wait, room, eq, more, check_for_next_from)
                  (check_for_next_from-IsBusy fuel (start e q') (
                    omega (
                      arith,
                      waiting-total q,
                      waiting-total q',
                      (take_next-Taken q priorities eq).weight (λ _. 1),
                    )))
          ]
    ]
  ]
]

pub check_for_next-IsBusy : (q : Queue) → IsBusy (check_for_next q)
unfolding check_for_next
check_for_next-IsBusy q = check_for_next_from-IsBusy (waiting q) q (omega arith)

empty-of_large :
    (limit : ℕ) (es : List Entry)
    → All (λ e. e.load ≤ limit) es
    → All (λ e. limit < 0 + e.load) es
    → length es ≡ 0
empty-of_large limit [] a b = refl
empty-of_large limit (e ∷ es) a b = absurd (omega arith)

-- A valid busy queue in which nothing runs has nothing that waits.
pub idle-empty : (q : Queue) → IsValid q → IsBusy q → q.running_promises ≡ [] → waiting q ≡ 0
idle-empty q v b idle =
    let none_runs : q.running_load ≡ 0 = omega (arith, v.counted, ap (sum_by load_of) idle) in
    elim b [
      | inl full ↦ absurd (omega (arith, v.limit_pos))
      | inr large ↦
          let (l, m, h, x) =
            subst (λ n. AllWaiting (λ e. q.concurrency_limit < n + e.load) q) none_runs large in
          omega (
            arith,
            empty-of_large _ q.low_entries v.each.0 l,
            empty-of_large _ q.medium_entries v.each.1 m,
            empty-of_large _ q.high_entries v.each.2 h,
            empty-of_large _ q.very_high_entries v.each.3 x,
          )
    ]

AllWaiting-enqueue :
    (P : Entry → Type 0) (p : Priority) (e : Entry) (q : Queue)
    → P e
    → AllWaiting P q
    → AllWaiting P (enqueue p e q)
unfolding enqueue
AllWaiting-enqueue P low e q h (l, m, g, v) = (All-append P _ _ l (h, tt), m, g, v)
AllWaiting-enqueue P medium e q h (l, m, g, v) = (l, All-append P _ _ m (h, tt), g, v)
AllWaiting-enqueue P high e q h (l, m, g, v) = (l, m, All-append P _ _ g (h, tt), v)
AllWaiting-enqueue P very_high e q h (l, m, g, v) = (l, m, g, All-append P _ _ v (h, tt))

pub enqueue_same :
    (p : Priority) (e : Entry) (q : Queue)
    → ((enqueue p e q).concurrency_limit ≡ q.concurrency_limit)
      × ((enqueue p e q).running_load ≡ q.running_load)
      × ((enqueue p e q).running_promises ≡ q.running_promises)
      × ((enqueue p e q).created ≡ suc q.created)
unfolding enqueue
enqueue_same low e q = (refl, refl, refl, refl)
enqueue_same medium e q = (refl, refl, refl, refl)
enqueue_same high e q = (refl, refl, refl, refl)
enqueue_same very_high e q = (refl, refl, refl, refl)

enqueue-IsValid :
    (p : Priority) (e : Entry) (q : Queue)
    → e.load ≤ q.concurrency_limit
    → IsValid q
    → IsValid (enqueue p e q)
enqueue-IsValid p e q h v =
    let (limit, load, running, _) = enqueue_same p e q in
    record {
      limit_pos = rw limit v.limit_pos;
      counted = rw (load, running) v.counted;
      bounded = rw (load, limit) v.bounded;
      each = rw limit (AllWaiting-enqueue (λ x. x.load ≤ q.concurrency_limit) p e q h v.each);
    }

remove_running-load :
    (p : ℕ) (rs : List Running) {r : Running} {others : List Running}
    → remove_running p rs ≡ some (r, others)
    → sum_by load_of rs ≡ r.load + sum_by load_of others
unfolding remove_running
remove_running-load p [] h = ground arith
remove_running-load p (x ∷ rs) {r} {others} h = elim (Option-cases (remove_running p rs)) [
  | inl missing ↦ ground arith
  | inr (found, eq) ↦ ground (arith, remove_running-load p rs eq)
]

pub settle-IsValid : (p : ℕ) (q : Queue) → IsValid q → IsValid (settle p q)
unfolding settle
settle-IsValid p q v = elim (Option-cases (remove_running p q.running_promises)) [
  | inl missing ↦ rw (missing, settle) v
  | inr ((r, rs), eq) ↦
      rw (eq, settle)
        (check_for_next-IsValid (release r rs q) (record {
          limit_pos = v.limit_pos;
          counted = omega (arith, remove_running-load p q.running_promises eq, v.counted);
          bounded = omega (arith, v.bounded);
          each = v.each;
        }))
]

pub init-IsValid : (concurrency : Option ℕ) → IsValid (init concurrency)
unfolding init
init-IsValid none = record {
  limit_pos = omega arith;
  counted = refl;
  bounded = omega arith;
  each = (tt, tt, tt, tt);
}
init-IsValid (some zero) = record {
  limit_pos = omega arith;
  counted = refl;
  bounded = omega arith;
  each = (tt, tt, tt, tt);
}
init-IsValid (some (suc n)) = record {
  limit_pos = omega arith;
  counted = refl;
  bounded = omega arith;
  each = (tt, tt, tt, tt);
}

-- What `addToQueue` does: it throws in two cases, and otherwise queues the entry and looks for work.
pub add_to_queue_cases :
    (load : ℕ) (label : String) (name : Option String) (increase : Bool) (now : ℕ) (q : Queue)
    {promise : ℕ} {q' : Queue}
    → add_to_queue load label name increase now q ≡ queued promise q'
    → (p : Priority) × (priority_of name ≡ some p)
      × (load ≤ q.concurrency_limit)
      × (promise ≡ q.created)
      × (q' ≡ check_for_next (enqueue p (new_entry load label increase now q) q))
unfolding add_to_queue
add_to_queue_cases load label name increase now q {promise} {q'} h =
    elim (Option-cases (priority_of name)) [
      | inl missing ↦ absurd (ground arith)
      | inr (p, eq) ↦ (p, eq, ground arith, ground arith, ground arith)
    ]

pub add_to_queue-IsValid :
    (load : ℕ) (label : String) (name : Option String) (increase : Bool) (now : ℕ) (q : Queue)
    {promise : ℕ} {q' : Queue}
    → add_to_queue load label name increase now q ≡ queued promise q'
    → IsValid q
    → IsValid q'
add_to_queue-IsValid load label name increase now q h v =
    let (p, _, small, _, eq) = add_to_queue_cases load label name increase now q h in
    rw eq (check_for_next-IsValid _ (enqueue-IsValid p _ q small v))
