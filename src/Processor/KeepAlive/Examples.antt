-- ===== src/Processor/KeepAlive/Examples.antt =====
-- src/EventQueueProcessorBase.js: runs of the keep-alive.
use event_queue.Prelude.{◌≡◌, refl, true, false, List, [], ◌∷◌}
use event_queue.Prelude.Dict.{lookup, includes}
use event_queue.Processor.KeepAlive.{Row, Processor, select_rows, keep_alive, sort_events}
use event_queue.Processor.KeepAlive.Unchanged.{all_match, keep_alive-all_match}

abbrev rows : List Row
rows =
    record { id = "e1"; status = 1; last_attempt_timestamp = 10 }
    ∷ record { id = "e2"; status = 2; last_attempt_timestamp = 10 }
    ∷ []

abbrev processor : Processor
processor = record {
  etag_map = ("e1", 10) ∷ ("e2", 10) ∷ [];
  queue_entries_map = [];
  outdated_event_map = [];
  keep_alive_violated = false;
}

keep_alive-all_match_example :
    let (rows', processor') = keep_alive true 20 ("e1" ∷ "e2" ∷ []) rows processor in
    all_match (select_rows ("e1" ∷ "e2" ∷ []) rows') processor'.etag_map ≡ true
unfolding keep_alive sort_events select_rows includes lookup
keep_alive-all_match_example =
    keep_alive-all_match 20 ("e1" ∷ "e2" ∷ []) rows processor refl refl refl
