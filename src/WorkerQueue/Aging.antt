-- ===== src/WorkerQueue/Aging.antt =====
-- src/shared/WorkerQueue.js: what `#adjustPriority` does to the waiting entries.
use event_queue.Prelude.{
  ℕ, ◌+◌, ◌≤◌, ◌<◌, ◌≡◌, refl, true, List, [], ◌∷◌, ◌++◌, inl, inr, arith, sum_by, sum_by-append,
  All, All-append,
}
use event_queue.WorkerQueue.{
  Entry, Queue, is_overdue, shift, split_overdue, raise_priority, adjust_priority,
}
use event_queue.WorkerQueue.Weights.{total, AllWaiting, SameRest}
use event_queue.WorkerQueue.Capacity.{IsValid, IsBusy}

module _ (P : Entry → Type 0) (keep : (t : ℕ) (e : Entry) → P e → P (shift t e)) (t : ℕ) where
  All-split_overdue :
      (es : List Entry) → All P es → All P (split_overdue t es).0 × All P (split_overdue t es).1
  unfolding split_overdue
  All-split_overdue [] h = (tt, tt)
  All-split_overdue (e ∷ []) (h, _) = ground (arith, keep t e h)
  All-split_overdue (e ∷ f ∷ es) (h, (k, l)) =
      ground (arith, keep t e h, All-split_overdue es l, All-split_overdue (f ∷ es) (k, l))

  pub AllWaiting-adjust_priority : (q : Queue) → AllWaiting P q → AllWaiting P (adjust_priority t q)
  unfolding adjust_priority raise_priority
  AllWaiting-adjust_priority q (l, m, h, v) =
      let a = All-split_overdue q.low_entries l in
      let m' = All-append P _ _ m a.1 in
      let b = All-split_overdue _ m' in
      let h' = All-append P _ _ h b.1 in
      let c = All-split_overdue _ h' in (a.0, b.0, c.0, All-append P _ _ v c.1)

module _ (w : Entry → ℕ) (same : (t : ℕ) (e : Entry) → w (shift t e) ≡ w e) (t : ℕ) where
  sum_by-split_overdue :
      (es : List Entry)
      → sum_by w es ≡ sum_by w (split_overdue t es).0 + sum_by w (split_overdue t es).1
  unfolding split_overdue
  sum_by-split_overdue [] = omega arith
  sum_by-split_overdue (e ∷ []) = ground (arith, same t e)
  sum_by-split_overdue (e ∷ f ∷ es) =
      ground (arith, same t e, sum_by-split_overdue es, sum_by-split_overdue (f ∷ es))

  moved :
      (es fs : List Entry)
      → sum_by w (split_overdue t es).0 + sum_by w (fs ++ (split_overdue t es).1)
        ≡ sum_by w es + sum_by w fs
  moved es fs =
      omega (arith, sum_by-split_overdue es, sum_by-append {0} w fs (split_overdue t es).1)

  pub total-adjust_priority : (q : Queue) → total w (adjust_priority t q) ≡ total w q
  unfolding adjust_priority raise_priority
  total-adjust_priority q =
      let m' = q.medium_entries ++ (split_overdue t q.low_entries).1 in
      let h' = q.high_entries ++ (split_overdue t m').1 in
      omega (
        arith,
        moved q.low_entries q.medium_entries,
        moved m' q.high_entries,
        moved h' q.very_high_entries,
      )

pub adjust_priority_same : (t : ℕ) (q : Queue) → SameRest q (adjust_priority t q)
unfolding adjust_priority raise_priority
adjust_priority_same t q = record {
  limit = refl;
  running = refl;
  running_load = refl;
  created = refl;
}

pub adjust_priority-IsValid : (t : ℕ) (q : Queue) → IsValid q → IsValid (adjust_priority t q)
unfolding adjust_priority raise_priority
adjust_priority-IsValid t q v = record {
  limit_pos = v.limit_pos;
  counted = v.counted;
  bounded = v.bounded;
  each = AllWaiting-adjust_priority (λ e. e.load ≤ q.concurrency_limit) (λ t e h. h) t q v.each;
}

pub adjust_priority-IsBusy : (t : ℕ) (q : Queue) → IsBusy q → IsBusy (adjust_priority t q)
unfolding adjust_priority raise_priority
adjust_priority-IsBusy t q b = elim b [
  | inl full ↦ inl full
  | inr large ↦ inr (
      AllWaiting-adjust_priority (λ e. q.concurrency_limit < q.running_load + e.load) (λ t e h. h) t
        q large)
]

is_overdue-shift :
    (t first : ℕ) (later : List ℕ) (e : Entry)
    → e.shifted ≡ first ∷ later
    → is_overdue t (shift t e) ≡ is_overdue t e
unfolding is_overdue
is_overdue-shift t first later e once = rw once

-- An entry that already moved up once, and is the only one waiting below very high, goes up two
-- levels in one pass: its age is still taken from the first move.
pub adjust_priority_leaps :
    (t first : ℕ) (later : List ℕ) (e : Entry) (q : Queue)
    → is_overdue t e ≡ true
    → e.shifted ≡ first ∷ later
    → q.low_entries ≡ []
    → q.medium_entries ≡ e ∷ []
    → q.high_entries ≡ []
    → (adjust_priority t q).very_high_entries ≡ q.very_high_entries ++ shift t (shift t e) ∷ []
unfolding adjust_priority raise_priority split_overdue
adjust_priority_leaps t first later e q over once l m h =
    rw (l, m, h) (ground (arith, is_overdue-shift t first later e once))
