-- ===== src/Common/Limit.antt =====
-- src/shared/common.js: how many promises run at the same time.
use event_queue.Prelude.{
  ◌≡◌, ◌⊎◌, subst, ℕ, ◌+◌, ◌≤◌, ◌<◌, true, List, [], ◌∷◌, ◌++◌, length, length-append,
  if◌then◌else◌, leb, arith, All, Bool-cases, inl, inr,
}
use event_queue.Common.{Started, still_running, waits, limiter}

-- `Promise.race` waits until one of the running promises has settled.
unfoldable pub Settles : (limit total : ℕ) → List Started → (running : List ℕ) → Type 0
Settles limit total [] running = Unit
Settles limit total (s ∷ ss) running =
    let now = running ++ s.payload ∷ [] in
    (waits limit total now ≡ true → length (still_running s.settled now) < length now)
    × Settles limit total ss (if waits limit total now then still_running s.settled now else now)

-- All payloads can run at the same time, or the loop waits.
abbrev IsBounded : (limit total : ℕ) → List Started → List ℕ → Type 0
IsBounded limit total ss running = (leb limit total ≡ true) ⊎ (length running + length ss < limit)

limiter_from :
    (limit total : ℕ) (ss : List Started) (running : List ℕ)
    → IsBounded limit total ss running
    → Settles limit total ss running
    → length running < limit
    → All (λ now. length now ≤ limit) (limiter limit total ss running)
unfolding limiter Settles
limiter_from limit total [] running bounded fair h = tt
limiter_from limit total (s ∷ ss) running bounded (fair, rest) h =
    let now = running ++ s.payload ∷ [] in
    let grown = length-append running (s.payload ∷ []) in
    elim (Bool-cases (waits limit total now)) [
      | inl waiting ↦
          let after = still_running s.settled now in
          let fewer = fair waiting in
          let rest' : Settles limit total ss after =
            subst (λ w. Settles limit total ss (if w then after else now)) waiting rest in
          rw waiting (
            omega (arith, grown),
            limiter_from limit total ss after (inl (ground (arith, waiting))) rest'
                (omega (arith, grown)),
          )
      | inr going ↦
          let rest' : Settles limit total ss now =
            subst (λ w. Settles limit total ss (if w then still_running s.settled now else now))
              going rest in
          let bounded' : IsBounded limit total ss now = elim bounded [
            | inl can ↦ inl can
            | inr few ↦ inr (omega (arith, grown))
          ] in
          let below : length now < limit = elim bounded [
            | inl can ↦ ground (arith, going, can)
            | inr few ↦ omega (arith, grown)
          ] in
          rw going (omega (arith, grown), limiter_from limit total ss now bounded' rest' below)
    ]

-- For a limit above 0, `limiter` never runs more promises at the same time than the limit says,
-- where each wait for running promises ends with one of them.
pub limiter_bound :
    (limit : ℕ) (ss : List Started)
    → 0 < limit
    → Settles limit (length ss) ss []
    → All (λ now. length now ≤ limit) (limiter limit (length ss) ss [])
limiter_bound limit ss some_limit fair = elim (Bool-cases (leb limit (length ss))) [
  | inl can ↦ limiter_from limit (length ss) ss [] (inl can) fair some_limit
  | inr few ↦ limiter_from limit (length ss) ss [] (inr (ground (arith, few))) fair some_limit
]
