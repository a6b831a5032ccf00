-- ===== src/Processing/Run/Chunks.antt =====
-- src/processEventQueue.js: how the loop over the chunks ends.
use event_queue.Prelude.{
  ◌≡◌, refl, ◌+◌, Bool, true, false, ◌||◌, List, [], ◌∷◌, leb, any, arith, any-append,
}
use event_queue.Processing.Run.{
  Effect, continued, Outcome, finished, Round, Settings, process_round, should_continue,
  after_round, process_chunks, is_continued, is_running,
}

should_continue_early :
    (c : Settings) (r : Round)
    → (should_continue c r).0 ≡ true
    → leb (c.start_time + c.run_interval) r.now ≡ false
unfolding should_continue
should_continue_early c r h = ground arith

after_round-ends :
    (p : List Effect × Bool) (next : Bool × Bool) (rest : List Effect × Outcome)
    → (next.0 ≡ true → is_running rest.1 ≡ false)
    → is_running (after_round p next rest).1 ≡ false
after_round-ends (es, false) next rest h = refl
after_round-ends (es, true) (true, s) rest h = h refl
after_round-ends (es, true) (false, s) rest h = refl

-- The loop ends at the latest with the first round that ends after the run interval.
pub process_chunks-ends :
    (c : Settings) (rs : List Round)
    → any (λ r. leb (c.start_time + c.run_interval) r.now) rs ≡ true
    → is_running (process_chunks c rs).1 ≡ false
unfolding process_chunks any
process_chunks-ends c [] h = cc
process_chunks-ends c (r ∷ rs) h =
    after_round-ends (process_round r) (should_continue c r) (process_chunks c rs)
      (λ more. process_chunks-ends c rs (ground (arith, h, should_continue_early c r more)))

after_round-continued :
    (p : List Effect × Bool) (next : Bool × Bool) (rest : List Effect × Outcome)
    (empty later : Bool)
    → (next.0 || (next.1 || empty)) ≡ true
    → (rest.1 ≡ finished → (any is_continued rest.0 || later) ≡ true)
    → (after_round p next rest).1 ≡ finished
    → (any is_continued (after_round p next rest).0 || (empty || later)) ≡ true
unfolding any
after_round-continued (es, false) next rest empty later reason ih h = cc
after_round-continued (es, true) (true, s) rest empty later reason ih h =
    ground (arith, any-append is_continued es rest.0, ih h)
after_round-continued (es, true) (false, true) rest empty later reason ih h =
    ground (arith, any-append is_continued es (continued ∷ []))
after_round-continued (es, true) (false, false) rest empty later reason ih h =
    ground (arith, reason)

should_continue_reason :
    (c : Settings) (r : Round)
    → c.select_next_chunk ≡ true
    → ((should_continue c r).0 || ((should_continue c r).1 || r.empty_chunk_selected)) ≡ true
unfolding should_continue
should_continue_reason c r h = ground arith

-- A run of an event with further chunks does not end without a reason: where no chunk was empty, a
-- run that ends without an error has scheduled another one.
pub process_chunks-continued :
    (c : Settings) (rs : List Round)
    → c.select_next_chunk ≡ true
    → (process_chunks c rs).1 ≡ finished
    → (any is_continued (process_chunks c rs).0 || any (λ r. r.empty_chunk_selected) rs) ≡ true
unfolding process_chunks any
process_chunks-continued c [] next h = cc
process_chunks-continued c (r ∷ rs) next h =
    after_round-continued (process_round r) (should_continue c r) (process_chunks c rs)
      r.empty_chunk_selected (any (λ r. r.empty_chunk_selected) rs)
      (should_continue_reason c r next) (process_chunks-continued c rs next) h
