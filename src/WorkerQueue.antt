-- ===== src/WorkerQueue.antt =====
-- src/shared/WorkerQueue.js: the queue that limits how much load an instance runs at a time.
-- A state is the object's private fields. A promise is a number that `created` hands out, and
-- stands for the callback with its `resolve` and `reject`. Times are nanoseconds. `none`
-- as the concurrency is `NaN` or a negative number; a queue without one (`undefined`) is left out.
pub mod Weights
pub mod Capacity
pub mod Order
pub mod Conservation
pub mod Reachable
pub mod Aging
mod Examples
use event_queue.Prelude.{
  ℕ, zero, suc, ◌+◌, ◌-◌, ◌*◌, ◌/◌, String, Bool, true, false, not, ◌&&◌, ◌||◌, Option, none, some,
  List, [], ◌∷◌, ◌++◌, if◌then◌else◌, ltb, leb, ◌==◌, length, str_eq,
}

pub data Priority : Type 0 where
  low medium high very_high : Priority

-- `Object.values(Priorities).reverse()`.
abbrev pub priorities : List Priority
priorities = very_high ∷ high ∷ medium ∷ low ∷ []

pub record Entry : Type 0 where
  pub load : ℕ
  pub label : String
  pub promise : ℕ
  pub increase_priority_over_time : Bool
  pub start_time : ℕ
  -- What `entry.push(checkTime)` appends, from index 7 on.
  pub shifted : List ℕ

pub record Running : Type 0 where
  pub promise : ℕ
  pub load : ℕ

pub record Queue : Type 0 where
  pub concurrency_limit : ℕ
  pub running_promises : List Running
  pub running_load : ℕ
  pub low_entries : List Entry
  pub medium_entries : List Entry
  pub high_entries : List Entry
  pub very_high_entries : List Entry
  pub created : ℕ

-- `this.#queue[priority]`, read and written.
abbrev pub entries : Queue → Priority → List Entry
entries q low = q.low_entries
entries q medium = q.medium_entries
entries q high = q.high_entries
entries q very_high = q.very_high_entries

abbrev pub set_entries : Queue → Priority → List Entry → Queue
set_entries q low es = record q { low_entries = es }
set_entries q medium es = record q { medium_entries = es }
set_entries q high es = record q { high_entries = es }
set_entries q very_high es = record q { very_high_entries = es }

abbrev limit_of : Option ℕ → ℕ
limit_of none = 1
limit_of (some zero) = 1
limit_of (some (suc n)) = suc n

-- `constructor(concurrency)`.
unfoldable pub init : Option ℕ → Queue
init concurrency = record {
  concurrency_limit = limit_of concurrency;
  running_promises = [];
  running_load = 0;
  low_entries = [];
  medium_entries = [];
  high_entries = [];
  very_high_entries = [];
  created = 0;
}

abbrev pub waiting : Queue → ℕ
waiting q =
    length q.low_entries
    + length q.medium_entries
    + length q.high_entries
    + length q.very_high_entries

-- The inner loop of `#checkForNext`: the first entry that fits, and the queue without it.
unfoldable pub take_fitting : (running_load limit : ℕ) → List Entry → Option (Entry × List Entry)
take_fitting running limit [] = none
take_fitting running limit (e ∷ es) =
    let rest = take_fitting running limit es in
    if leb (running + e.load) limit
    then some (e, es)
    else elim rest [ none ↦ none | some (found, others) ↦ some (found, e ∷ others) ]

-- The outer loop of `#checkForNext`, over the priorities that are left.
unfoldable pub take_next : Queue → List Priority → Option (Priority × Entry × Queue)
unfolding take_fitting
take_next q [] = none
take_next q (p ∷ ps) = elim (take_fitting q.running_load q.concurrency_limit (entries q p)) [
  | some (e, es) ↦ some (p, e, set_entries q p es)
  | none ↦ take_next q ps
]

-- The synchronous part of `_executeFunction`, up to its call of `#checkForNext`.
unfoldable pub start : Entry → Queue → Queue
start e q = record q {
  running_promises = q.running_promises ++ record { promise = e.promise; load = e.load } ∷ [];
  running_load = q.running_load + e.load;
}

unfoldable pub nothing_to_do : Queue → Bool
nothing_to_do q = waiting q == 0 || q.running_load == q.concurrency_limit

-- `#checkForNext`, which `_executeFunction` calls again unless the limit is reached. The fuel
-- bounds the entries that are started.
unfoldable pub check_for_next_from : ℕ → Queue → Queue
unfolding nothing_to_do take_next start
check_for_next_from zero q = q
check_for_next_from (suc fuel) q = elim (nothing_to_do q) [
  | true ↦ q
  | false ↦ elim (take_next q priorities) [
    | none ↦ q
    | some (p, e, q') ↦ elim ((start e q').running_load == q'.concurrency_limit) [
      | true ↦ start e q'
      | false ↦ check_for_next_from fuel (start e q')
    ]
  ]
]

unfoldable pub check_for_next : Queue → Queue
unfolding check_for_next_from
check_for_next q = check_for_next_from (waiting q) q

pub data Error : Type 0 where
  load_higher_than_limit priority_not_allowed : Error

pub data Added : Type 0 where
  thrown : Error → Added
  queued : (promise : ℕ) → Queue → Added

-- `PRIORITIES.includes(priority)`, with the default `Priorities.Medium`.
unfoldable pub priority_of : Option String → Option Priority
priority_of none = some medium
priority_of (some name) =
    if str_eq name "low"
    then some low
    else if str_eq name "medium"
    then some medium
    else if str_eq name "high"
    then some high
    else if str_eq name "veryHigh"
    then some very_high
    else none

unfoldable pub enqueue : Priority → Entry → Queue → Queue
enqueue p e q = record (set_entries q p (entries q p ++ e ∷ [])) { created = suc q.created }

abbrev new_entry : (load : ℕ) → String → Bool → (now : ℕ) → Queue → Entry
new_entry load label increase now q = record {
  load = load;
  label = label;
  promise = q.created;
  increase_priority_over_time = increase;
  start_time = now;
  shifted = [];
}

-- `addToQueue`.
unfoldable pub add_to_queue : ℕ → String → Option String → Bool → (now : ℕ) → Queue → Added
unfolding priority_of enqueue check_for_next
add_to_queue load label name increase now q =
    if ltb q.concurrency_limit load
    then thrown load_higher_than_limit
    else elim (priority_of name) [
      | none ↦ thrown priority_not_allowed
      | some p ↦
          queued q.created (check_for_next (enqueue p (new_entry load label increase now q) q))
    ]

-- `runningPromises.splice(runningPromises.indexOf(promise), 1)`.
unfoldable pub remove_running : ℕ → List Running → Option (Running × List Running)
remove_running p [] = none
remove_running p (r ∷ rs) =
    let rest = remove_running p rs in
    if r.promise == p
    then some (r, rs)
    else elim rest [ none ↦ none | some (found, others) ↦ some (found, r ∷ others) ]

abbrev pub release : Running → List Running → Queue → Queue
release r rs q = record q { running_promises = rs; running_load = q.running_load - r.load }

-- The `finally` handler of a running promise. There is none for a promise that does not run.
unfoldable pub settle : ℕ → Queue → Queue
unfolding remove_running check_for_next
settle p q = elim (remove_running p q.running_promises) [
  | none ↦ q
  | some (r, rs) ↦ check_for_next (release r rs q)
]

-- `INCREASE_PRIORITY_AFTER * MIN_TO_MS`, and `Math.round(Number(diff) / NANO_TO_MS)`.
abbrev pub increase_priority_after_ms : ℕ
increase_priority_after_ms = 3 * (60 * 1000)

abbrev pub round_to_ms : ℕ → ℕ
round_to_ms nanos = (nanos + 500_000) / 1_000_000

abbrev pub reference_time : Entry → ℕ
reference_time e = elim e.shifted [ [] ↦ e.start_time | t ∷ ts ↦ t ]

unfoldable pub is_overdue : (check_time : ℕ) → Entry → Bool
is_overdue check_time e =
    e.increase_priority_over_time
    && ltb increase_priority_after_ms (round_to_ms (check_time - reference_time e))

abbrev pub shift : ℕ → Entry → Entry
shift check_time e = record e { shifted = e.shifted ++ check_time ∷ [] }

-- The inner loop of `#adjustPriority`: what stays and what moves up. After the `splice` the index
-- still goes up, so the entry behind one that moves is not looked at.
unfoldable pub split_overdue : (check_time : ℕ) → List Entry → List Entry × List Entry
unfolding is_overdue
split_overdue t [] = ([], [])
split_overdue t (e ∷ []) = if is_overdue t e then ([], shift t e ∷ []) else (e ∷ [], [])
split_overdue t (e ∷ f ∷ es) =
    let behind = split_overdue t es in
    let rest = split_overdue t (f ∷ es) in
    if is_overdue t e then (f ∷ behind.0, shift t e ∷ behind.1) else (e ∷ rest.0, rest.1)

unfoldable pub raise_priority : (check_time : ℕ) → Priority → Priority → Queue → Queue
unfolding split_overdue
raise_priority t p next q =
    let q' = set_entries q p (split_overdue t (entries q p)).0 in
    set_entries q' next (entries q' next ++ (split_overdue t (entries q p)).1)

-- `#adjustPriority`.
unfoldable pub adjust_priority : (check_time : ℕ) → Queue → Queue
unfolding raise_priority
adjust_priority t q =
    raise_priority t high very_high (raise_priority t medium high (raise_priority t low medium q))
