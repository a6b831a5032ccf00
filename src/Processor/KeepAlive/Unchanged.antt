-- ===== src/Processor/KeepAlive/Unchanged.antt =====
-- src/EventQueueProcessorBase.js: the etags and the rows behind a keep-alive that commits.
use event_queue.Prelude.{
  ◌≡◌, refl, sym, ap, ◌∙◌, ℕ, String, Bool, true, false, not, ◌&&◌, ◌||◌, some, List, [], ◌∷◌, ◌==◌,
  arith, Bool-cases, inl, inr, str_eq, eq_iff,
}
use event_queue.Constants.{status_in_progress}
use event_queue.Prelude.Dict
use event_queue.Prelude.Dict.{includes, lookup, lookup-insert}
use event_queue.Processor.KeepAlive.{
  Row, Processor, etag_is, select_rows, sort_events, forget, touch, succeeded, is_empty, after_sort,
  keep_alive,
}
use event_queue.Processor.KeepAlive.Etags.{has_row, forget-keeps, keep_alive-runs}

-- Every row is as its etag says.
unfoldable pub all_match : List Row → List (String × ℕ) → Bool
all_match [] etags = true
all_match (e ∷ es) etags =
    etag_is (lookup e.id etags) e.last_attempt_timestamp && all_match es etags

all_match-empty :
    (es : List Row) (etags : List (String × ℕ))
    → ((id : String) → has_row id es ≡ true → false ≡ true)
    → all_match es etags ≡ true
unfolding all_match has_row
all_match-empty [] etags absent = refl
all_match-empty (e ∷ es) etags absent =
    absurd (ground (arith, absent e.id (ground (arith, eq_iff e.id e.id))))

includes-is_empty :
    (id : String) (ids : List String) → is_empty ids ≡ true → includes id ids ≡ false
unfolding includes
includes-is_empty id [] h = refl
includes-is_empty id (i ∷ ids) h = absurd (ground (arith, h))

module _ (ts : ℕ) where
  sort_events-stays :
      (id : String) (es : List Row) (etags : List (String × ℕ))
      → lookup id etags ≡ some ts
      → lookup id (sort_events ts es etags).sorted_etags ≡ some ts
  unfolding sort_events
  sort_events-stays id [] etags h = h
  sort_events-stays id (e ∷ es) etags h =
      let set =
        sort_events-stays id es (Dict.insert e.id ts etags)
          (ground (arith, lookup-insert e.id id ts etags, h)) in
      ground (arith, sort_events-stays id es etags h, set)

  succeeded-stays :
      (id : String) (es : List Row) (etags : List (String × ℕ))
      → lookup id etags ≡ some ts
      → lookup id (succeeded ts es etags) ≡ some ts
  unfolding succeeded
  succeeded-stays id [] etags h = h
  succeeded-stays id (e ∷ es) etags h =
      let set =
        succeeded-stays id es (Dict.insert e.id ts etags)
          (ground (arith, lookup-insert e.id id ts etags, h)) in
      ground (arith, succeeded-stays id es etags h, set)

  -- A valid event has the new etag.
  sort_events-set :
      (id : String) (es : List Row) (etags : List (String × ℕ))
      → includes id (sort_events ts es etags).valid_event_ids ≡ true
      → lookup id (sort_events ts es etags).sorted_etags ≡ some ts
  unfolding sort_events includes
  sort_events-set id [] etags h = absurd (ground (arith, h))
  sort_events-set id (e ∷ es) etags h =
      let etags' = Dict.insert e.id ts etags in
      elim (Bool-cases (etag_is (lookup e.id etags) e.last_attempt_timestamp)) [
        | inl valid ↦ elim (Bool-cases (str_eq e.id id)) [
          | inl same ↦
              let stays =
                sort_events-stays id es etags'
                  (ground (arith, lookup-insert e.id id ts etags, same)) in
              rw valid stays
          | inr other ↦ rw valid (sort_events-set id es etags' (ground (arith, h, valid, other)))
        ]
        | inr outdated ↦ rw outdated (sort_events-set id es etags (ground (arith, h, outdated)))
      ]

  -- Without outdated events, every row is valid.
  sort_events-valid :
      (id : String) (es : List Row) (etags : List (String × ℕ))
      → is_empty (sort_events ts es etags).outdated_events ≡ true
      → has_row id es ≡ true
      → includes id (sort_events ts es etags).valid_event_ids ≡ true
  unfolding sort_events includes has_row
  sort_events-valid id [] etags h given = absurd (ground (arith, given))
  sort_events-valid id (e ∷ es) etags h given =
      elim (Bool-cases (etag_is (lookup e.id etags) e.last_attempt_timestamp)) [
        | inl valid ↦ elim (Bool-cases (str_eq e.id id)) [
          | inl same ↦ rw (valid, same) refl
          | inr other ↦
              rw (valid, other)
                (sort_events-valid id es (Dict.insert e.id ts etags) (ground (arith, h, valid))
                  (ground (arith, given, other)))
        ]
        | inr outdated ↦ absurd (ground (arith, h, outdated))
      ]

  -- The rows that were all valid match the new etags.
  all_match-touch :
      (ids valid : List String) (rows : List Row) (etags : List (String × ℕ))
      → ((id : String) → has_row id (select_rows ids rows) ≡ true → includes id valid ≡ true)
      → ((id : String) → includes id valid ≡ true → lookup id etags ≡ some ts)
      → all_match (select_rows ids (touch ts valid rows)) etags ≡ true
  unfolding select_rows touch all_match has_row
  all_match-touch ids valid [] etags given set = refl
  all_match-touch ids valid (r ∷ rs) etags given set =
      let selected = includes r.id ids && (r.status == status_in_progress) in
      let behind = all_match-touch ids valid rs etags (λ id h. given id (ground (arith, h))) set in
      elim (Bool-cases selected) [
        | inl chosen ↦
            let is_valid = given r.id (ground (arith, chosen, eq_iff r.id r.id)) in
            ground (arith, chosen, is_valid, set r.id is_valid, behind)
        | inr skipped ↦ ground (arith, skipped, behind)
      ]

-- A keep-alive of a processor without violation whose transaction commits and that finds no
-- outdated event, leaves every row of its events that is in progress with the etag that the
-- processor has, so that the next one finds them unchanged.
pub keep_alive-all_match :
    (new_ts : ℕ) (ids : List String) (rows : List Row) (p : Processor)
    → is_empty ids ≡ false
    → p.keep_alive_violated ≡ false
    → ((keep_alive true new_ts ids rows p).1).keep_alive_violated ≡ false
    → let (rows', p') = keep_alive true new_ts ids rows p in
      all_match (select_rows ids rows') p'.etag_map ≡ true
unfolding after_sort
keep_alive-all_match new_ts ids rows p some_ids intact calm =
    let events = select_rows ids rows in
    let s = sort_events new_ts events p.etag_map in
    let sorted : Processor = record p {
      etag_map = s.sorted_etags;
      keep_alive_violated = not (is_empty s.outdated_events) || p.keep_alive_violated;
    } in
    let (etags, violated) = forget-keeps s.outdated_events sorted in
    let runs = keep_alive-runs true new_ts ids rows p some_ids intact in
    let calm' = sym (ap (λ r. r.1.keep_alive_violated) runs) ∙ calm in
    let no_outdated : is_empty s.outdated_events ≡ true = ground (arith, calm', violated, intact) in
    let all_valid : (id : String)
        → has_row id events ≡ true
        → includes id s.valid_event_ids ≡ true =
      λ id h. sort_events-valid new_ts id events p.etag_map no_outdated h in
    rw runs (elim (Bool-cases (is_empty s.valid_event_ids)) [
      | inl idle ↦ rw idle (
          all_match-empty events (forget s.outdated_events sorted).etag_map
            (λ id h. sym (includes-is_empty id s.valid_event_ids idle) ∙ all_valid id h))
      | inr busy ↦ rw busy (
          all_match-touch new_ts ids s.valid_event_ids rows
            (succeeded new_ts events (forget s.outdated_events sorted).etag_map) all_valid
            (λ id h.
              succeeded-stays new_ts id events (forget s.outdated_events sorted).etag_map
                (rw etags (sort_events-set new_ts id events p.etag_map h))))
    ])
