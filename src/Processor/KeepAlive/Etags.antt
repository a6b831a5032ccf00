-- ===== src/Processor/KeepAlive/Etags.antt =====
-- src/EventQueueProcessorBase.js: what the loop of the keep-alive makes of the etags.
use event_queue.Prelude.{
  ◌≡◌, refl, ℕ, String, Bool, true, false, not, ◌&&◌, ◌||◌, List, [], ◌∷◌, ◌==◌, arith, Bool-cases,
  inl, inr, str_eq, eq_iff,
}
use event_queue.Prelude.Dict
use event_queue.Prelude.Dict.{lookup, lookup-insert, has, has-insert}
use event_queue.Processor.KeepAlive.{
  Row, Processor, etag_is, sort_events, forget, is_empty, select_rows, after_sort, keep_alive,
}

-- No row is as its etag says.
unfoldable pub none_matches : List Row → List (String × ℕ) → Bool
none_matches [] etags = true
none_matches (e ∷ es) etags =
    not (etag_is (lookup e.id etags) e.last_attempt_timestamp) && none_matches es etags

-- No row was last attempted at the time.
unfoldable pub none_at : ℕ → List Row → Bool
none_at time [] = true
none_at time (e ∷ es) = not (time == e.last_attempt_timestamp) && none_at time es

unfoldable pub has_row : String → List Row → Bool
has_row id [] = false
has_row id (e ∷ es) = str_eq e.id id || has_row id es

-- An etag that differs from a time still does so after the loop.
sort_events-differs :
    (new_ts : ℕ) (id : String) (time : ℕ) (es : List Row) (etags : List (String × ℕ))
    → etag_is (lookup id etags) time ≡ false
    → (new_ts == time) ≡ false
    → etag_is (lookup id (sort_events new_ts es etags).sorted_etags) time ≡ false
unfolding sort_events
sort_events-differs new_ts id time [] etags h other = h
sort_events-differs new_ts id time (e ∷ es) etags h other =
    let kept = sort_events-differs new_ts id time es etags h other in
    let set =
      sort_events-differs new_ts id time es (Dict.insert e.id new_ts etags)
        (ground (arith, lookup-insert e.id id new_ts etags, h, other)) other in
    ground (arith, kept, set)

-- After the loop, no row has the etag that it had in the loop.
pub sort_events-none_matches :
    (new_ts : ℕ) (es : List Row) (etags : List (String × ℕ))
    → none_at new_ts es ≡ true
    → none_matches es (sort_events new_ts es etags).sorted_etags ≡ true
unfolding sort_events none_matches none_at
sort_events-none_matches new_ts [] etags new = refl
sort_events-none_matches new_ts (e ∷ es) etags new =
    let other : (new_ts == e.last_attempt_timestamp) ≡ false = ground (arith, new) in
    let behind : none_at new_ts es ≡ true = ground (arith, new) in
    let etags' = Dict.insert e.id new_ts etags in
    elim (Bool-cases (etag_is (lookup e.id etags) e.last_attempt_timestamp)) [
      | inl valid ↦
          let differs =
            sort_events-differs new_ts e.id e.last_attempt_timestamp es etags'
              (ground (arith, lookup-insert e.id e.id new_ts etags, eq_iff e.id e.id, other))
              other in
          rw valid (ground (arith, differs, sort_events-none_matches new_ts es etags' behind))
      | inr outdated ↦
          let differs =
            sort_events-differs new_ts e.id e.last_attempt_timestamp es etags outdated other in
          rw outdated (ground (arith, differs, sort_events-none_matches new_ts es etags behind))
    ]

-- Where no row matches, all are outdated and the etags stay.
pub sort_events-outdated :
    (new_ts : ℕ) (es : List Row) (etags : List (String × ℕ))
    → none_matches es etags ≡ true
    → sort_events new_ts es etags
      ≡ record { outdated_events = es; valid_event_ids = []; sorted_etags = etags }
unfolding sort_events none_matches
sort_events-outdated new_ts [] etags h = refl
sort_events-outdated new_ts (e ∷ es) etags h =
    let outdated : etag_is (lookup e.id etags) e.last_attempt_timestamp ≡ false =
      ground (arith, h) in
    rw outdated (rw (sort_events-outdated new_ts es etags (ground (arith, h))))

pub forget-keeps :
    (es : List Row) (p : Processor)
    → ((forget es p).etag_map ≡ p.etag_map)
      × ((forget es p).keep_alive_violated ≡ p.keep_alive_violated)
unfolding forget
forget-keeps [] p = (refl, refl)
forget-keeps (e ∷ es) p = forget-keeps es (record p {
  queue_entries_map = Dict.delete e.id p.queue_entries_map;
  outdated_event_map = Dict.insert e.id 1 p.outdated_event_map;
})

-- The outdated events are kept as such.
pub has-forget :
    (id : String) (es : List Row) (p : Processor)
    → has id (forget es p).outdated_event_map ≡ (has_row id es || has id p.outdated_event_map)
unfolding forget has_row
has-forget id [] p = refl
has-forget id (e ∷ es) p =
    let p' : Processor = record p {
      queue_entries_map = Dict.delete e.id p.queue_entries_map;
      outdated_event_map = Dict.insert e.id 1 p.outdated_event_map;
    } in
    ground (arith, has-forget id es p', has-insert e.id id 1 p.outdated_event_map)

-- A run that has something to do.
pub keep_alive-runs :
    (commits : Bool) (new_ts : ℕ) (ids : List String) (rows : List Row) (p : Processor)
    → is_empty ids ≡ false
    → p.keep_alive_violated ≡ false
    → keep_alive commits new_ts ids rows p
      ≡ after_sort commits new_ts
          (select_rows ids rows)
          (sort_events new_ts (select_rows ids rows) p.etag_map)
          rows
          p
unfolding keep_alive
keep_alive-runs commits new_ts ids rows p some_ids intact = rw (some_ids, intact) refl
