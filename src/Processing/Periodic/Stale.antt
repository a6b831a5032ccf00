-- ===== src/Processing/Periodic/Stale.antt =====
-- src/processEventQueue.js: which entries a run of a periodic event settles.
use event_queue.Prelude.{
  ◌≡◌, refl, ℕ, true, some, List, [], ◌∷◌, ◌++◌, map, if◌then◌else◌, append-nil,
}
use event_queue.Constants.{status_done, status_error}
use event_queue.Processing.Periodic.{
  Settings, Entry, Round, State, set_periodic_event_status, split_duplicates, select_and_schedule,
  process_entry, process_periodic_event, schedule_next_period_event,
}

split_duplicates-eq : (e : Entry) (es : List Entry) → split_duplicates e es ≡ (e, es)
unfolding split_duplicates
split_duplicates-eq e [] = refl
split_duplicates-eq e (f ∷ es) = rw (split_duplicates-eq e es) refl

abbrev pub final_status : Round → ℕ
final_status r = if r.handler_throws then status_error else status_done

-- One round with entries inserts one event, sets every further entry to Done without running it,
-- and runs the handler for the first and sets its status.
pub round_settles :
    (c : Settings) (r : Round) (e : Entry) (es : List Entry) (s : State)
    → r.entries ≡ e ∷ es
    → process_entry r (select_and_schedule c r s).0 ≡ record {
      queue_entry = some e;
      inserted = s.inserted ++ (schedule_next_period_event c r.now r.offset e).start_after ∷ [];
      statuses = (s.statuses ++ map (λ f. (f.id, status_done)) es) ++ (e.id, final_status r) ∷ [];
    }
unfolding select_and_schedule process_entry set_periodic_event_status
round_settles c r e es s given = rw (given, split_duplicates-eq e es) refl

-- If a run goes on because it is behind its schedule and then selects nothing, the handler runs
-- again for the entry of the round before, and sets its status again.
pub stale_entry :
    (c : Settings) (r r' : Round) (e : Entry) (s : State) (rs : List Round)
    → r.entries ≡ e ∷ []
    → (schedule_next_period_event c r.now r.offset e).process_next ≡ true
    → r'.entries ≡ []
    → (process_periodic_event c (r ∷ r' ∷ rs) s).statuses
      ≡ (s.statuses ++ (e.id, final_status r) ∷ []) ++ (e.id, final_status r') ∷ []
unfolding process_periodic_event select_and_schedule process_entry set_periodic_event_status
    split_duplicates
stale_entry c r r' e s rs given more nothing =
    rw (given, more, nothing) (rw (append-nil s.statuses) refl)
