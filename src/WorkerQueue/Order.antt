-- ===== src/WorkerQueue/Order.antt =====
-- src/shared/WorkerQueue.js: which waiting entry `#checkForNext` starts.
use event_queue.Prelude.{
  ℕ, ◌+◌, ◌≤◌, ◌<◌, ◌≡◌, ap, sym, subst, some, List, [], ◌∷◌, ◌++◌, inl, inr, arith, leb, All,
  Bool-cases, Option-cases,
}
use event_queue.WorkerQueue.{
  Priority, low, medium, high, very_high, Entry, Queue, entries, set_entries, priorities,
  take_fitting, take_next,
}
use event_queue.WorkerQueue.Weights.{take_fitting-none, take_fitting_fits}

-- The list splits at the entry that is taken: nothing before it fits, and what was before and
-- behind it stays in its order.
pub record IsFirstFitting (running limit : ℕ) (es : List Entry) (e : Entry) (rest : List Entry)
    : Type 0 where
  pub before : List Entry
  pub behind : List Entry
  pub split : es ≡ before ++ e ∷ behind
  pub left : rest ≡ before ++ behind
  pub fits : running + e.load ≤ limit
  pub none_before : All (λ x. limit < running + x.load) before

take_fitting-IsFirstFitting :
    (running limit : ℕ) (es : List Entry) {e : Entry} {rest : List Entry}
    → take_fitting running limit es ≡ some (e, rest)
    → IsFirstFitting running limit es e rest
unfolding take_fitting
take_fitting-IsFirstFitting running limit [] h = absurd (ground arith)
take_fitting-IsFirstFitting running limit (x ∷ es) {e} {rest} h =
    elim (Bool-cases (leb (running + x.load) limit)) [
      | inl fits ↦ record {
        before = [];
        behind = es;
        split = ground arith;
        left = ground arith;
        fits = take_fitting_fits running limit (x ∷ es) h;
        none_before = tt;
      }
      | inr large ↦ elim (Option-cases (take_fitting running limit es)) [
        | inl missing ↦ absurd (ground arith)
        | inr ((e', others), eq) ↦
            let f = take_fitting-IsFirstFitting running limit es eq in
            record {
              before = x ∷ f.before;
              behind = f.behind;
              split = ground (arith, f.split);
              left = ground (arith, f.left);
              fits = take_fitting_fits running limit (x ∷ es) h;
              none_before = (ground arith, f.none_before);
            }
      ]
    ]

-- How urgent a priority is: its place in `Object.values(Priorities)`, low first.
abbrev pub rank : Priority → ℕ
rank low = 0
rank medium = 1
rank high = 2
rank very_high = 3

-- No priority above `p` has an entry that fits.
abbrev pub NoneAbove : Queue → Priority → Type 0
NoneAbove q p =
    (r : Priority)
    → rank p < rank r
    → All (λ x. q.concurrency_limit < q.running_load + x.load) (entries q r)

-- `p` is the first of the priorities `ps` that has an entry that fits, and `e` is taken there.
pub record IsNext (q : Queue) (ps : List Priority) (p : Priority) (e : Entry) (q' : Queue)
    : Type 0 where
  pub skipped : List Priority
  pub later : List Priority
  pub split : ps ≡ skipped ++ p ∷ later
  pub none_skipped :
      All (λ r. All (λ x. q.concurrency_limit < q.running_load + x.load) (entries q r)) skipped
  pub rest : List Entry
  pub first : IsFirstFitting q.running_load q.concurrency_limit (entries q p) e rest
  pub others_stay : q' ≡ set_entries q p rest

take_next_scan :
    (q : Queue) (ps : List Priority) (p : Priority) (e : Entry) (q' : Queue)
    → take_next q ps ≡ some (p, e, q')
    → IsNext q ps p e q'
unfolding take_next
take_next_scan q [] p e q' h = absurd (ground arith)
take_next_scan q (r ∷ ps) p e q' h =
    elim (Option-cases (take_fitting q.running_load q.concurrency_limit (entries q r))) [
      | inl missing ↦
          let n = take_next_scan q ps p e q' (rw (missing, take_next) at h) in
          record {
            skipped = r ∷ n.skipped;
            later = n.later;
            split = ap (λ l. r ∷ l) n.split;
            none_skipped = (take_fitting-none _ _ _ missing, n.none_skipped);
            rest = n.rest;
            first = n.first;
            others_stay = n.others_stay;
          }
      | inr ((e', es), eq) ↦
          let found : some (r, e', set_entries q r es) ≡ some (p, e, q') =
            rw (eq, take_next) at h in
          let same_p : r ≡ p = cc in
          let same_e : e' ≡ e = cc in
          let same_q : set_entries q r es ≡ q' = cc in
          record {
            skipped = [];
            later = ps;
            split = ap (λ x. x ∷ ps) same_p;
            none_skipped = tt;
            rest = es;
            first =
                subst (λ x. IsFirstFitting q.running_load q.concurrency_limit (entries q x) e es)
                  same_p
                  (subst (λ x. IsFirstFitting q.running_load q.concurrency_limit (entries q r) x es)
                    same_e (take_fitting-IsFirstFitting _ _ _ eq));
            others_stay = subst (λ x. q' ≡ set_entries q x es) same_p (sym same_q);
          }
    ]

-- A priority before the one that is taken has no entry that fits.
not_first :
    (q : Queue) (s : Priority) (ps : List Priority) (p : Priority) (e : Entry) (q' : Queue)
    → take_next q (s ∷ ps) ≡ some (p, e, q')
    → rank p < rank s
    → All (λ x. q.concurrency_limit < q.running_load + x.load) (entries q s)
      × (take_next q ps ≡ some (p, e, q'))
unfolding take_next
not_first q s ps p e q' h above =
    elim (Option-cases (take_fitting q.running_load q.concurrency_limit (entries q s))) [
      | inl missing ↦ (take_fitting-none _ _ _ missing, rw (missing, take_next) at h)
      | inr ((e', es), eq) ↦
          let found : some (s, e', set_entries q s es) ≡ some (p, e, q') =
            rw (eq, take_next) at h in
          let same_p : s ≡ p = cc in absurd (omega (arith, ap rank same_p))
    ]

take_next-NoneAbove :
    (q : Queue) (p : Priority) (e : Entry) (q' : Queue)
    → take_next q priorities ≡ some (p, e, q')
    → NoneAbove q p
take_next-NoneAbove q p e q' h very_high above = (not_first q very_high _ p e q' h above).0
take_next-NoneAbove q p e q' h high above =
    let (_, h1) = not_first q very_high _ p e q' h (omega arith) in
    (not_first q high _ p e q' h1 above).0
take_next-NoneAbove q p e q' h medium above =
    let (_, h1) = not_first q very_high _ p e q' h (omega arith) in
    let (_, h2) = not_first q high _ p e q' h1 (omega arith) in
    (not_first q medium _ p e q' h2 above).0
take_next-NoneAbove q p e q' h low above = absurd (omega arith)

-- The entry that `#checkForNext` takes fits, stands in the highest priority that holds an entry
-- that fits (none that ranks above it, from low over medium and high to veryHigh, holds one), and
-- is the first one there that fits; only this entry leaves the queues.
pub take_next-IsNext :
    (q : Queue) (p : Priority) (e : Entry) (q' : Queue)
    → take_next q priorities ≡ some (p, e, q')
    → IsNext q priorities p e q' × NoneAbove q p
take_next-IsNext q p e q' h = (take_next_scan q priorities p e q' h, take_next-NoneAbove q p e q' h)
