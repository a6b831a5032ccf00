-- ===== src/Statistics/Changes.antt =====
-- src/dbHandler.js: what a transaction adds up, beside what it does to
-- the rows.
use event_queue.Prelude.{
  ◌≡◌, ℕ, ◌+◌, ◌-◌, ◌≤◌, Bool, true, false, ◌||◌, some, List, [], ◌∷◌, ◌==◌, arith, sum_by,
  if◌then◌else◌,
}
use event_queue.Prelude.Int.{pos, pos_part, neg_part, ◌-ℤ◌, int_laws}
use event_queue.Constants.{
  status_open, status_in_progress, status_done, status_error, status_exceeded, status_suspended,
}
use event_queue.Statistics.{TxStats, after_create, after_update, is_zero}

-- Pending (Open or Error) events, those in progress, and those that are Done, Exceeded or Suspended.
pub data Kind : Type 0 where
  waiting running closed : Kind

-- What a transaction does to events of a tenant, with their number: they are inserted, with the flag
-- `_skipEventQueueBroadcast` or without it, are deleted, or, from one kind, are written as Open, as
-- InProgress, as Error, or as Done, Exceeded or Suspended.
pub data Change : Type 0 where
  inserted : (skip_broadcast : Bool) → ℕ → Change
  opened taken failed deleted : Kind → ℕ → Change
  finished : Kind → (status : ℕ) → ℕ → Change

pub record Rows : Type 0 where
  pub pending : ℕ
  pub in_progress : ℕ

abbrev pub remove : Kind → ℕ → Rows → Rows
remove waiting n r = record r { pending = r.pending - n }
remove running n r = record r { in_progress = r.in_progress - n }
remove closed n r = r

unfoldable pub rows_after : Change → Rows → Rows
rows_after (inserted skip_broadcast n) r = record r { pending = r.pending + n }
rows_after (opened from n) r =
    let left = remove from n r in record left { pending = left.pending + n }
rows_after (taken from n) r =
    let left = remove from n r in record left { in_progress = left.in_progress + n }
rows_after (failed from n) r =
    let left = remove from n r in record left { pending = left.pending + n }
rows_after (finished from status n) r = remove from n r
rows_after (deleted from n) r = remove from n r

-- There are as many rows of a kind.
abbrev pub HasRows : Kind → ℕ → Rows → Type 0
HasRows waiting n r = n ≤ r.pending
HasRows running n r = n ≤ r.in_progress
HasRows closed n r = Unit

abbrev pub IsPossible : Change → Rows → Type 0
IsPossible (inserted skip_broadcast n) r = Unit
IsPossible (opened from n) r = HasRows from n r
IsPossible (taken from n) r = HasRows from n r
IsPossible (failed from n) r = HasRows from n r
IsPossible (deleted from n) r = HasRows from n r
IsPossible (finished from status n) r =
    ((status == status_done || (status == status_exceeded || status == status_suspended)) ≡ true)
    × HasRows from n r

-- What the handlers of the table see of a change; no handler sees a deletion.
unfoldable pub handled : Change → TxStats → TxStats
unfolding after_create after_update
handled (inserted skip_broadcast n) tx = after_create skip_broadcast n tx
handled (opened from n) tx = after_update (some status_open) n tx
handled (taken from n) tx = after_update (some status_in_progress) n tx
handled (failed from n) tx = after_update (some status_error) n tx
handled (finished from status n) tx = after_update (some status) n tx
handled (deleted from n) tx = tx

abbrev pub if_waiting : Kind → ℕ → ℕ
if_waiting waiting n = n
if_waiting running n = 0
if_waiting closed n = 0

abbrev pub unless_waiting : Kind → ℕ → ℕ
unless_waiting waiting n = 0
unless_waiting running n = n
unless_waiting closed n = n

abbrev pub if_running : Kind → ℕ → ℕ
if_running waiting n = 0
if_running running n = n
if_running closed n = 0

abbrev pub unless_running : Kind → ℕ → ℕ
unless_running waiting n = n
unless_running running n = 0
unless_running closed n = n

-- By how much a change makes the pending counter too low: events inserted with the flag, and events
-- that were not pending and are written as Open or as InProgress.
abbrev pub pending_low : Change → ℕ
pending_low (inserted skip_broadcast n) = if skip_broadcast then n else 0
pending_low (opened from n) = unless_waiting from n
pending_low (taken from n) = unless_waiting from n
pending_low (failed from n) = 0
pending_low (finished from status n) = 0
pending_low (deleted from n) = 0

-- Too high: pending events that are deleted, or written as another status than Open or InProgress.
abbrev pub pending_high : Change → ℕ
pending_high (inserted skip_broadcast n) = 0
pending_high (opened from n) = 0
pending_high (taken from n) = 0
pending_high (failed from n) = if_waiting from n
pending_high (finished from status n) = if_waiting from n
pending_high (deleted from n) = if_waiting from n

-- The running counter is too low by the events that were not in progress and are written as another
-- status than Open or InProgress.
abbrev pub running_low : Change → ℕ
running_low (inserted skip_broadcast n) = 0
running_low (opened from n) = 0
running_low (taken from n) = 0
running_low (failed from n) = unless_running from n
running_low (finished from status n) = unless_running from n
running_low (deleted from n) = 0

-- Too high: events in progress that are deleted, or written as Open or InProgress.
abbrev pub running_high : Change → ℕ
running_high (inserted skip_broadcast n) = 0
running_high (opened from n) = if_running from n
running_high (taken from n) = if_running from n
running_high (failed from n) = 0
running_high (finished from status n) = 0
running_high (deleted from n) = if_running from n

unfoldable pub all_rows_after : List Change → Rows → Rows
unfolding rows_after
all_rows_after [] r = r
all_rows_after (c ∷ cs) r = all_rows_after cs (rows_after c r)

abbrev pub ArePossible : List Change → Rows → Type 0
ArePossible [] r = Unit
ArePossible (c ∷ cs) r = IsPossible c r × ArePossible cs (rows_after c r)

unfoldable pub all_handled : List Change → TxStats → TxStats
unfolding handled
all_handled [] tx = tx
all_handled (c ∷ cs) tx = all_handled cs (handled c tx)

-- A transaction without a handler has nothing to add.
abbrev pub IsTouched : TxStats → Type 0
IsTouched tx =
    ((tx.has_create_handler || tx.open_count == 0) ≡ true)
    × ((tx.has_update_handler || is_zero tx.pending_delta) ≡ true)
    × ((tx.has_update_handler || is_zero tx.in_progress_delta) ≡ true)

handled-IsTouched : (c : Change) (tx : TxStats) → IsTouched tx → IsTouched (handled c tx)
unfolding handled
handled-IsTouched (inserted skip_broadcast n) tx h = ground arith
handled-IsTouched (opened from n) tx h = ground arith
handled-IsTouched (taken from n) tx h = ground arith
handled-IsTouched (failed from n) tx h = ground arith
handled-IsTouched (finished from status n) tx h = ground arith
handled-IsTouched (deleted from n) tx h = h

-- What the transaction adds up is the change of the rows, but for the missed changes.
abbrev pub FollowsPending : TxStats → Rows → Rows → (low high : ℕ) → Type 0
FollowsPending tx before r low high =
    r.pending + neg_part tx.pending_delta + high
    ≡ before.pending + tx.open_count + pos_part tx.pending_delta + low

abbrev pub FollowsInProgress : TxStats → Rows → Rows → (low high : ℕ) → Type 0
FollowsInProgress tx before r low high =
    r.in_progress + neg_part tx.in_progress_delta + high
    ≡ before.in_progress + pos_part tx.in_progress_delta + low

final_cases :
    (status : ℕ)
    → (status == status_done || (status == status_exceeded || status == status_suspended)) ≡ true
    → (n : ℕ) (tx : TxStats)
    → after_update (some status) n tx
      ≡ record tx { has_update_handler = true; in_progress_delta = tx.in_progress_delta -ℤ pos n }
unfolding after_update
final_cases status final n tx = ground (arith, final)

handled-FollowsPending :
    (c : Change) (tx : TxStats) (before r : Rows) (low high : ℕ)
    → IsPossible c r
    → FollowsPending tx before r low high
    → FollowsPending
        (handled c tx)
        before
        (rows_after c r)
        (low + pending_low c)
        (high + pending_high c)
unfolding handled rows_after
handled-FollowsPending (inserted true n) tx before r low high p h = omega int_laws
handled-FollowsPending (inserted false n) tx before r low high p h = omega int_laws
handled-FollowsPending (opened waiting n) tx before r low high p h = omega int_laws
handled-FollowsPending (opened running n) tx before r low high p h = omega int_laws
handled-FollowsPending (opened closed n) tx before r low high p h = omega int_laws
handled-FollowsPending (taken waiting n) tx before r low high p h = omega int_laws
handled-FollowsPending (taken running n) tx before r low high p h = omega int_laws
handled-FollowsPending (taken closed n) tx before r low high p h = omega int_laws
handled-FollowsPending (failed waiting n) tx before r low high p h = omega int_laws
handled-FollowsPending (failed running n) tx before r low high p h = omega int_laws
handled-FollowsPending (failed closed n) tx before r low high p h = omega int_laws
handled-FollowsPending (deleted waiting n) tx before r low high p h = omega int_laws
handled-FollowsPending (deleted running n) tx before r low high p h = omega int_laws
handled-FollowsPending (deleted closed n) tx before r low high p h = omega int_laws
handled-FollowsPending (finished waiting status n) tx before r low high (final, p) h =
    rw (final_cases status final n tx) (omega int_laws)
handled-FollowsPending (finished running status n) tx before r low high (final, p) h =
    rw (final_cases status final n tx) (omega int_laws)
handled-FollowsPending (finished closed status n) tx before r low high (final, p) h =
    rw (final_cases status final n tx) (omega int_laws)

handled-FollowsInProgress :
    (c : Change) (tx : TxStats) (before r : Rows) (low high : ℕ)
    → IsPossible c r
    → FollowsInProgress tx before r low high
    → FollowsInProgress
        (handled c tx)
        before
        (rows_after c r)
        (low + running_low c)
        (high + running_high c)
unfolding handled rows_after
handled-FollowsInProgress (inserted true n) tx before r low high p h = omega int_laws
handled-FollowsInProgress (inserted false n) tx before r low high p h = omega int_laws
handled-FollowsInProgress (opened waiting n) tx before r low high p h = omega int_laws
handled-FollowsInProgress (opened running n) tx before r low high p h = omega int_laws
handled-FollowsInProgress (opened closed n) tx before r low high p h = omega int_laws
handled-FollowsInProgress (taken waiting n) tx before r low high p h = omega int_laws
handled-FollowsInProgress (taken running n) tx before r low high p h = omega int_laws
handled-FollowsInProgress (taken closed n) tx before r low high p h = omega int_laws
handled-FollowsInProgress (failed waiting n) tx before r low high p h = omega int_laws
handled-FollowsInProgress (failed running n) tx before r low high p h = omega int_laws
handled-FollowsInProgress (failed closed n) tx before r low high p h = omega int_laws
handled-FollowsInProgress (deleted waiting n) tx before r low high p h = omega int_laws
handled-FollowsInProgress (deleted running n) tx before r low high p h = omega int_laws
handled-FollowsInProgress (deleted closed n) tx before r low high p h = omega int_laws
handled-FollowsInProgress (finished waiting status n) tx before r low high (final, p) h =
    rw (final_cases status final n tx) (omega int_laws)
handled-FollowsInProgress (finished running status n) tx before r low high (final, p) h =
    rw (final_cases status final n tx) (omega int_laws)
handled-FollowsInProgress (finished closed status n) tx before r low high (final, p) h =
    rw (final_cases status final n tx) (omega int_laws)

pub all_handled-Follows :
    (cs : List Change) (tx : TxStats) (before r : Rows) (pl ph rl rh : ℕ)
    → ArePossible cs r
    → IsTouched tx
    → FollowsPending tx before r pl ph
    → FollowsInProgress tx before r rl rh
    → IsTouched (all_handled cs tx)
      × FollowsPending
          (all_handled cs tx)
          before
          (all_rows_after cs r)
          (pl + sum_by pending_low cs)
          (ph + sum_by pending_high cs)
      × FollowsInProgress
          (all_handled cs tx)
          before
          (all_rows_after cs r)
          (rl + sum_by running_low cs)
          (rh + sum_by running_high cs)
unfolding all_handled all_rows_after
all_handled-Follows [] tx before r pl ph rl rh possible touched p i =
    (touched, omega arith, omega arith)
all_handled-Follows (c ∷ cs) tx before r pl ph rl rh (can, possible) touched p i =
    let (touched', p', i') =
      all_handled-Follows cs (handled c tx) before (rows_after c r) (pl + pending_low c)
        (ph + pending_high c) (rl + running_low c) (rh + running_high c) possible
        (handled-IsTouched c tx touched) (handled-FollowsPending c tx before r pl ph can p)
        (handled-FollowsInProgress c tx before r rl rh can i) in
    (touched', omega (arith, p'), omega (arith, i'))
