-- ===== src/Processor/KeepAlive/RolledBack.antt =====
-- src/EventQueueProcessorBase.js: a keep-alive behind one whose transaction was rolled back.
use event_queue.Prelude.{
  ◌≡◌, refl, sym, subst, ap, ◌∙◌, ℕ, String, Bool, true, false, not, ◌&&◌, ◌||◌, List, [], ◌∷◌,
  arith,
}
use event_queue.Prelude.Dict.{has}
use event_queue.Processor.KeepAlive.{
  Row, Processor, select_rows, sort_events, is_empty, after_sort, keep_alive,
}
use event_queue.Processor.KeepAlive.Etags.{
  none_matches, none_at, has_row, sort_events-none_matches, sort_events-outdated, forget-keeps,
  has-forget, keep_alive-runs,
}

and_false : (b : Bool) → (b && false) ≡ false
and_false false = refl
and_false true = refl

has_row-is_empty : (id : String) (es : List Row) → has_row id es ≡ true → is_empty es ≡ false
unfolding has_row
has_row-is_empty id [] h = sym h
has_row-is_empty id (e ∷ es) h = refl

-- Behind a loop that found no valid event, nothing is written.
none_valid :
    (commits : Bool) (new_ts : ℕ) (id : String) (events rows : List Row) (p : Processor)
    → none_matches events p.etag_map ≡ true
    → p.keep_alive_violated ≡ false
    → let (rows', p') =
        after_sort commits new_ts events (sort_events new_ts events p.etag_map) rows p in
      (rows' ≡ rows)
      × (p'.keep_alive_violated ≡ not (is_empty events))
      × (has id p'.outdated_event_map ≡ (has_row id events || has id p.outdated_event_map))
unfolding after_sort
none_valid commits new_ts id events rows p none intact =
    let marked : Processor = record p {
      keep_alive_violated = not (is_empty events) || p.keep_alive_violated;
    } in
    let (etags, violated) = forget-keeps events marked in
    rw (sort_events-outdated new_ts events p.etag_map none, and_false commits)
      (refl, violated ∙ ground (arith, intact), has-forget id events marked)

-- If the transaction of a keep-alive is rolled back and it found no outdated event, the next
-- keep-alive takes every event for outdated that was selected, although no row has changed: the new
-- etags stay.
pub rolled_back_stops :
    (commits : Bool) (first second : ℕ) (id : String) (ids : List String) (rows : List Row)
    (p : Processor)
    → is_empty ids ≡ false
    → p.keep_alive_violated ≡ false
    → none_at first (select_rows ids rows) ≡ true
    → ((keep_alive false first ids rows p).1).keep_alive_violated ≡ false
    → has_row id (select_rows ids rows) ≡ true
    → let (rows', p') = keep_alive false first ids rows p in
      let (rows'', p'') = keep_alive commits second ids rows' p' in
      (rows'' ≡ rows) × (p''.keep_alive_violated ≡ true) × (has id p''.outdated_event_map ≡ true)
unfolding after_sort
rolled_back_stops commits first second id ids rows p some_ids intact new valid given =
    let events = select_rows ids rows in
    let s = sort_events first events p.etag_map in
    let p' = (after_sort false first events s rows p).1 in
    let runs : keep_alive false first ids rows p ≡ (rows, p') =
      keep_alive-runs false first ids rows p some_ids intact in
    let intact' : p'.keep_alive_violated ≡ false =
      sym (ap (λ r. r.1.keep_alive_violated) runs) ∙ valid in
    let none : none_matches events p'.etag_map ≡ true =
      subst (λ etags. none_matches events etags ≡ true)
        (sym
          (forget-keeps s.outdated_events (record p {
            etag_map = s.sorted_etags;
            keep_alive_violated = not (is_empty s.outdated_events) || p.keep_alive_violated;
          })).0)
        (sort_events-none_matches first events p.etag_map new) in
    let (same, violated, marked) = none_valid commits second id events rows p' none intact' in
    rw (runs, keep_alive-runs commits second ids rows p' some_ids intact')
      (same, violated ∙ rw (has_row-is_empty id events given) refl, marked ∙ rw given refl)
