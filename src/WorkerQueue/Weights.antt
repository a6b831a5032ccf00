-- ===== src/WorkerQueue/Weights.antt =====
-- src/shared/WorkerQueue.js: sums over the waiting and the running entries, and how the loops of
-- `#checkForNext` move one entry from the first to the second.
use event_queue.Prelude.{
  ℕ, zero, suc, ◌+◌, ◌≤◌, ◌<◌, ◌==◌, subst, ◌≡◌, refl, none, some, List, [], ◌∷◌, inl, inr, arith,
  leb, sum_by, Bool-cases, Option-cases, All,
}
use event_queue.WorkerQueue.{
  nothing_to_do, check_for_next_from, Priority, low, medium, high, very_high, Entry, Running, Queue,
  entries, set_entries, take_fitting, take_next, priorities, start,
}

abbrev pub total : (Entry → ℕ) → Queue → ℕ
total w q =
    sum_by w q.low_entries
    + sum_by w q.medium_entries
    + sum_by w q.high_entries
    + sum_by w q.very_high_entries

abbrev pub load_of : Running → ℕ
load_of r = r.load

-- A predicate on every waiting entry.
abbrev pub AllWaiting : (Entry → Type 0) → Queue → Type 0
AllWaiting P q =
    All P q.low_entries × All P q.medium_entries × All P q.high_entries × All P q.very_high_entries

-- Everything but the waiting entries.
pub record SameRest (q q' : Queue) : Type 0 where
  pub limit : q'.concurrency_limit ≡ q.concurrency_limit
  pub running : q'.running_promises ≡ q.running_promises
  pub running_load : q'.running_load ≡ q.running_load
  pub created : q'.created ≡ q.created

pub sum_by-take_fitting :
    (w : Entry → ℕ) (running limit : ℕ) (es : List Entry) {e : Entry} {rest : List Entry}
    → take_fitting running limit es ≡ some (e, rest)
    → sum_by w es ≡ w e + sum_by w rest
unfolding take_fitting
sum_by-take_fitting w running limit [] h = ground arith
sum_by-take_fitting w running limit (x ∷ es) {e} {rest} h =
    elim (Bool-cases (leb (running + x.load) limit)) [
      | inl fits ↦ ground arith
      | inr large ↦ elim (Option-cases (take_fitting running limit es)) [
        | inl missing ↦ ground arith
        | inr (found, eq) ↦ ground (arith, sum_by-take_fitting w running limit es eq)
      ]
    ]

pub All-take_fitting :
    (P : Entry → Type 0) (running limit : ℕ) (es : List Entry) {e : Entry} {rest : List Entry}
    → take_fitting running limit es ≡ some (e, rest)
    → All P es
    → P e × All P rest
unfolding take_fitting
All-take_fitting P running limit [] h all = ground arith
All-take_fitting P running limit (x ∷ es) {e} {rest} h all =
    elim (Bool-cases (leb (running + x.load) limit)) [
      | inl fits ↦ ground arith
      | inr large ↦ elim (Option-cases (take_fitting running limit es)) [
        | inl missing ↦ ground arith
        | inr (found, eq) ↦ ground (arith, All-take_fitting P running limit es eq all.1)
      ]
    ]

pub take_fitting_fits :
    (running limit : ℕ) (es : List Entry) {e : Entry} {rest : List Entry}
    → take_fitting running limit es ≡ some (e, rest)
    → running + e.load ≤ limit
unfolding take_fitting
take_fitting_fits running limit [] h = ground arith
take_fitting_fits running limit (x ∷ es) {e} {rest} h =
    elim (Option-cases (take_fitting running limit es)) [
      | inl missing ↦ ground arith
      | inr (found, eq) ↦ ground (arith, take_fitting_fits running limit es eq)
    ]

pub take_fitting-none :
    (running limit : ℕ) (es : List Entry)
    → take_fitting running limit es ≡ none
    → All (λ e. limit < running + e.load) es
unfolding take_fitting
take_fitting-none running limit [] h = tt
take_fitting-none running limit (x ∷ es) h = elim (Option-cases (take_fitting running limit es)) [
  | inl missing ↦ (ground arith, take_fitting-none running limit es missing)
  | inr (found, eq) ↦ ground arith
]

-- What `#checkForNext` takes out of the queues.
pub record Taken (q : Queue) (e : Entry) (q' : Queue) : Type 1 where
  pub same : SameRest q q'
  pub fits : q.running_load + e.load ≤ q.concurrency_limit
  pub weight : (w : Entry → ℕ) → total w q ≡ w e + total w q'
  pub all : (P : Entry → Type 0) → AllWaiting P q → P e × AllWaiting P q'

take_at :
    (q : Queue) (p : Priority) {e : Entry} {es : List Entry}
    → take_fitting q.running_load q.concurrency_limit (entries q p) ≡ some (e, es)
    → Taken q e (set_entries q p es)
take_at q low h = record {
  same = record { limit = refl; running = refl; running_load = refl; created = refl };
  fits = take_fitting_fits _ _ _ h;
  weight = λ w. omega (arith, sum_by-take_fitting w _ _ _ h);
  all = λ P a. let t = All-take_fitting P _ _ _ h a.0 in (t.0, (t.1, a.1, a.2, a.3));
}
take_at q medium h = record {
  same = record { limit = refl; running = refl; running_load = refl; created = refl };
  fits = take_fitting_fits _ _ _ h;
  weight = λ w. omega (arith, sum_by-take_fitting w _ _ _ h);
  all = λ P a. let t = All-take_fitting P _ _ _ h a.1 in (t.0, (a.0, t.1, a.2, a.3));
}
take_at q high h = record {
  same = record { limit = refl; running = refl; running_load = refl; created = refl };
  fits = take_fitting_fits _ _ _ h;
  weight = λ w. omega (arith, sum_by-take_fitting w _ _ _ h);
  all = λ P a. let t = All-take_fitting P _ _ _ h a.2 in (t.0, (a.0, a.1, t.1, a.3));
}
take_at q very_high h = record {
  same = record { limit = refl; running = refl; running_load = refl; created = refl };
  fits = take_fitting_fits _ _ _ h;
  weight = λ w. omega (arith, sum_by-take_fitting w _ _ _ h);
  all = λ P a. let t = All-take_fitting P _ _ _ h a.3 in (t.0, (a.0, a.1, a.2, t.1));
}

-- The outer loop either takes an entry, or nothing that waits at the given priorities fits.
pub take_next-Taken :
    (q : Queue) (ps : List Priority) {p : Priority} {e : Entry} {q' : Queue}
    → take_next q ps ≡ some (p, e, q')
    → Taken q e q'
unfolding take_next
take_next-Taken q [] h = absurd (ground arith)
take_next-Taken q (r ∷ ps) {p} {e} {q'} h =
    elim (Option-cases (take_fitting q.running_load q.concurrency_limit (entries q r))) [
      | inl missing ↦ take_next-Taken q ps (rw (missing, take_next) at h)
      | inr ((e', es), eq) ↦
          let found : some (r, e', set_entries q r es) ≡ some (p, e, q') =
            rw (eq, take_next) at h in
          let same_e : e' ≡ e = cc in
          let same_q : set_entries q r es ≡ q' = cc in
          subst (λ x. Taken q e x) same_q
            (subst (λ x. Taken q x (set_entries q r es)) same_e (take_at q r eq))
    ]

abbrev pub NothingFits : Queue → Type 0
NothingFits q = AllWaiting (λ e. q.concurrency_limit < q.running_load + e.load) q

take_next-none_each :
    (q : Queue) (ps : List Priority)
    → take_next q ps ≡ none
    → All (λ p. All (λ e. q.concurrency_limit < q.running_load + e.load) (entries q p)) ps
unfolding take_next
take_next-none_each q [] h = tt
take_next-none_each q (r ∷ ps) h =
    elim (Option-cases (take_fitting q.running_load q.concurrency_limit (entries q r))) [
      | inl missing ↦
          (take_fitting-none _ _ _ missing, take_next-none_each q ps (rw (missing, take_next) at h))
      | inr (found, eq) ↦ absurd (ground arith)
    ]

pub take_next-none : (q : Queue) → take_next q priorities ≡ none → NothingFits q
take_next-none q h = let (a, (b, (c, (d, _)))) = take_next-none_each q priorities h in (d, c, b, a)

-- What every start of an entry keeps, `#checkForNext` keeps.
pub check_for_next_from_ind {ℓ} :
    (P : Queue → Type ℓ)
    → ((q : Queue) (e : Entry) (q' : Queue) → Taken q e q' → P q → P (start e q'))
    → (fuel : ℕ) (q : Queue) → P q
    → P (check_for_next_from fuel q)
unfolding check_for_next_from
check_for_next_from_ind P keep zero q h = h
check_for_next_from_ind P keep (suc fuel) q h = elim (Bool-cases (nothing_to_do q)) [
  | inl done ↦ rw (done, check_for_next_from) h
  | inr more ↦ elim (Option-cases (take_next q priorities)) [
    | inl missing ↦ rw (more, missing, check_for_next_from) h
    | inr ((p, e, q'), eq) ↦
        let next = keep q e q' (take_next-Taken q priorities eq) h in
        elim (Bool-cases ((start e q').running_load == q'.concurrency_limit)) [
          | inl full ↦ rw (more, eq, full, check_for_next_from) next
          | inr room ↦
              rw (more, eq, room, check_for_next_from)
                (check_for_next_from_ind P keep fuel (start e q') next)
        ]
  ]
]
