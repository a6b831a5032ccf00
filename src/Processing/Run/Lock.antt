-- ===== src/Processing/Run/Lock.antt =====
-- src/processEventQueue.js: the lock of a run.
use event_queue.Prelude.{
  ◌≡◌, refl, Bool, true, false, not, ◌&&◌, List, [], ◌∷◌, ◌++◌, if◌then◌else◌, any, arith,
  Bool-cases, inl, inr, any-append, append-nil,
}
use event_queue.Processing.Run.{
  Effect, acquired, continued, released, Outcome, finished, failed, still_running, Round, Settings,
  process_round, should_continue, after_round, process_chunks, Start, with_release, processed_body,
  after_lock, process_event_queue, is_running,
}

abbrev pub is_lock_effect : Effect → Bool
is_lock_effect acquired = true
is_lock_effect released = true
is_lock_effect _ = false

after_round-unlocked :
    (p : List Effect × Bool) (next : Bool × Bool) (rest : List Effect × Outcome)
    → any is_lock_effect p.0 ≡ false
    → any is_lock_effect rest.0 ≡ false
    → any is_lock_effect (after_round p next rest).0 ≡ false
unfolding any
after_round-unlocked (es, false) next rest h k = h
after_round-unlocked (es, true) (true, s) rest h k =
    ground (arith, any-append is_lock_effect es rest.0)
after_round-unlocked (es, true) (false, true) rest h k =
    ground (arith, any-append is_lock_effect es (continued ∷ []))
after_round-unlocked (es, true) (false, false) rest h k =
    ground (arith, any-append is_lock_effect es [])

process_round-unlocked : (r : Round) → any is_lock_effect (process_round r).0 ≡ false
unfolding process_round any
process_round-unlocked r = ground arith

process_chunks-unlocked :
    (c : Settings) (rs : List Round) → any is_lock_effect (process_chunks c rs).0 ≡ false
unfolding process_chunks any
process_chunks-unlocked c [] = refl
process_chunks-unlocked c (r ∷ rs) =
    after_round-unlocked (process_round r) (should_continue c r) (process_chunks c rs)
      (process_round-unlocked r) (process_chunks-unlocked c rs)

abbrev pub has_lock : Start → Bool
has_lock s = s.has_implementation && not s.is_blocked && s.lock_acquired

with_release-eq :
    (lock : Bool) (o : List Effect × Outcome)
    → is_running o.1 ≡ false
    → (with_release lock (after_lock lock o)).0
      ≡ (if lock then acquired ∷ o.0 ++ released ∷ [] else o.0)
with_release-eq true (es, finished) h = refl
with_release-eq true (es, failed) h = refl
with_release-eq false (es, finished) h = append-nil es
with_release-eq false (es, failed) h = append-nil es
with_release-eq lock (es, still_running) h = cc

with_release-over :
    (lock : Bool) (o : List Effect × Outcome)
    → is_running (with_release lock (after_lock lock o)).1 ≡ false
    → is_running o.1 ≡ false
with_release-over lock (es, finished) h = refl
with_release-over lock (es, failed) h = refl
with_release-over lock (es, still_running) h = h

processed_body-unlocked :
    (c : Settings) (s : Start) (rs : List Round)
    → any is_lock_effect (processed_body c s rs).0 ≡ false
unfolding any
processed_body-unlocked c s rs = elim (Bool-cases s.is_periodic) [
  | inl periodic ↦ rw periodic refl
  | inr ad_hoc ↦ rw ad_hoc (process_chunks-unlocked c rs)
]

-- A run that is over has released the lock if it acquired it, as its last effect and only once,
-- whatever failed in between; without the lock it neither acquires nor releases one.
pub process_event_queue-released :
    (c : Settings) (s : Start) (rs : List Round)
    → is_running (process_event_queue c s rs).1 ≡ false
    → (body : List Effect) × (any is_lock_effect body ≡ false)
      × ((process_event_queue c s rs).0
          ≡ (if has_lock s then acquired ∷ body ++ released ∷ [] else body))
unfolding process_event_queue any
process_event_queue-released c s rs over = elim (Bool-cases s.has_implementation) [
  | inr missing ↦ ([], refl, rw missing refl)
  | inl found ↦ elim (Bool-cases s.is_blocked) [
    | inl blocked ↦ ([], refl, rw (found, blocked) refl)
    | inr free ↦ elim (Bool-cases s.go_on) [
      | inr stopped ↦ (
        [],
        refl,
        rw (found, free, stopped) (with_release-eq s.lock_acquired ([], finished) refl),
      )
      | inl going ↦ (
        (processed_body c s rs).0,
        processed_body-unlocked c s rs,
        rw (found, free, going)
            (with_release-eq s.lock_acquired (processed_body c s rs) (
              with_release-over s.lock_acquired (processed_body c s rs)
                (rw (found, free, going) at over))),
      )
    ]
  ]
]
