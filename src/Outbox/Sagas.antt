-- ===== src/Outbox/Sagas.antt =====
-- src/outbox/EventQueueGenericOutboxHandler.js: the follow-up events of a saga come to an end.
use event_queue.Prelude.{
  ◌≡◌, ◌⊎◌, sym, subst, ℕ, suc, ◌+◌, ◌≤◌, ◌<◌, Bool, true, false, not, Option, none, some, List, [],
  ◌∷◌, arith, All, All-append, Bool-cases, Option-cases, inl, inr,
}
use event_queue.Processor.Status.{UpdateData}
use event_queue.Outbox.{
  Saga, saga_success, saga_failed, saga_done, EventName, Handlers, check_handler_exists, is_success,
  is_last, send_if, follow_ups_of, follow_ups, publish_followup_events,
}

abbrev pub rank : Option Saga → ℕ
rank none = 2
rank (some saga_success) = 1
rank (some saga_failed) = 0
rank (some saga_done) = 0

check_handler_exists-saga :
    (h : Handlers) (e : EventName) (saga : Saga) {e' : EventName}
    → check_handler_exists h e saga ≡ some e'
    → e'.saga ≡ some saga
unfolding check_handler_exists
check_handler_exists-saga h e saga found = ground arith

-- What is sent for a saga below the rank of an event.
send_if-below :
    (bound : ℕ) (test : Bool) (h : Handlers) (e : EventName) (saga : Saga)
    → (test ≡ true → rank (some saga) < bound)
    → All (λ e'. rank e'.saga < bound) (send_if test (check_handler_exists h e saga))
send_if-below bound test h e saga below = elim (Option-cases (check_handler_exists h e saga)) [
  | inl absent ↦ rw absent tt
  | inr (e', found) ↦ elim (Bool-cases test) [
    | inl sent ↦
        rw (found, sent)
          (
            subst (λ s. rank s < bound) (sym (check_handler_exists-saga h e saga found))
                (below sent),
            tt,
          )
    | inr left ↦ rw (found, left) tt
  ]
]

ranks :
    (s : Option Saga) → is_last s ≡ false → (not (is_success s) ≡ true → 1 < rank s) × (0 < rank s)
ranks none h = ((λ plain. omega arith), omega arith)
ranks (some saga_success) h = ((λ plain. absurd (ground (arith, plain))), omega arith)
ranks (some saga_failed) h = absurd (ground (arith, h))
ranks (some saga_done) h = absurd (ground (arith, h))

follow_ups-below :
    (h : Handlers) (e : EventName) (us : List UpdateData)
    → is_last e.saga ≡ false
    → All (λ e'. rank e'.saga < rank e.saga) (follow_ups h e us)
unfolding follow_ups
follow_ups-below h e [] more = tt
follow_ups-below h e (u ∷ us) more =
    let (plain, any) = ranks e.saga more in
    let IsBelow : EventName → Type 0 = λ e'. rank e'.saga < rank e.saga in
    All-append IsBelow (follow_ups_of h e u) (follow_ups h e us)
      (All-append IsBelow _ _
        (send_if-below (rank e.saga) _ h e saga_success (λ test. plain (ground (arith, test))))
        (All-append IsBelow _ _ (send_if-below (rank e.saga) _ h e saga_failed (λ test. any))
          (send_if-below (rank e.saga) _ h e saga_done (λ test. any))))
      (follow_ups-below h e us more)

publish_followup_events-below :
    (h : Handlers) (e : EventName) (us : List UpdateData)
    → All (λ e'. rank e'.saga < rank e.saga) (publish_followup_events h e us)
unfolding publish_followup_events
publish_followup_events-below h e us = elim (Bool-cases (is_last e.saga)) [
  | inl last ↦ rw last tt
  | inr more ↦ rw more (follow_ups-below h e us more)
]

-- Membership with its place.
abbrev pub In : EventName → List EventName → Type 0
In e [] = ⊥
In e (e' ∷ es) = (e ≡ e') ⊎ In e es

-- A chain of events, each a follow-up of the one before, whatever the statuses are.
pub data Chain (h : Handlers) (first : EventName) : ℕ → EventName → Type 0 where
  start : Chain h first 0 first
  follow :
      {n : ℕ} {e : EventName} (e' : EventName) (us : List UpdateData)
      → Chain h first n e
      → In e' (publish_followup_events h e us)
      → Chain h first (suc n) e'

All-In : (P : EventName → Type 0) (e : EventName) (es : List EventName) → All P es → In e es → P e
All-In P e [] h i = elim i [ ]
All-In P e (e' ∷ es) (p, h) (inl same) = subst P (sym same) p
All-In P e (e' ∷ es) (p, h) (inr i) = All-In P e es h i

Chain-rank :
    (h : Handlers) (first : EventName) {n : ℕ} {e : EventName}
    → Chain h first n e
    → n + rank e.saga ≤ rank first.saga
Chain-rank h first start = omega arith
Chain-rank h first (follow {n} {e} e' us chain i) =
    let lower =
      All-In (λ x. rank x.saga < rank e.saga) e' _ (publish_followup_events-below h e us) i in
    omega (arith, lower, Chain-rank h first chain)

rank_bound : (s : Option Saga) → rank s ≤ 2
rank_bound none = omega arith
rank_bound (some saga_success) = omega arith
rank_bound (some saga_failed) = omega arith
rank_bound (some saga_done) = omega arith

-- Whatever handlers there are and whatever statuses they report, a chain of follow-up events has at
-- most two links.
pub Chain-bound :
    (h : Handlers) (first : EventName) {n : ℕ} {e : EventName} → Chain h first n e → n ≤ 2
Chain-bound h first chain = omega (arith, Chain-rank h first chain, rank_bound first.saga)
