-- ===== src/Processing/Overwritten.antt =====
-- src/processEventQueue.js and src/EventQueueProcessorBase.js: what a failing commit does to events
-- of the chunk that were already committed.
use event_queue.Prelude.{
  Bool-cases, inl, inr, ◌≡◌, refl, ◌∙◌, String, true, false, Option, none, some, List, [], ◌∷◌,
  arith, eq_iff, str_eq,
}
use event_queue.Prelude.Dict.{includes, lookup}
use event_queue.Constants.{status_error}
use event_queue.Processor.Status.{
  StatusMap, Reported, add_status, update, with_status, add_status_to_all,
}
use event_queue.Processor.Status.Aggregate.{lookup-add_status}
use event_queue.Processor.Status.Checks.{checked, lookup-checked}
use event_queue.Processing.Transactions.{handle_error_tx}

abbrev pub failed_entry : Option Reported
failed_entry = some (update (with_status status_error))

add_status_to_all-kept :
    (ids : List String) (m : StatusMap) (id : String)
    → lookup id m ≡ failed_entry
    → lookup id (add_status_to_all ids status_error none m) ≡ failed_entry
unfolding add_status_to_all
add_status_to_all-kept [] m id h = h
add_status_to_all-kept (j ∷ ids) m id h =
    add_status_to_all-kept ids (add_status j status_error none m) id
      (ground (arith, eq_iff j id, lookup-add_status j id status_error m, h))

add_status_to_all-new :
    (ids : List String) (m : StatusMap) (id : String)
    → lookup id m ≡ none
    → includes id ids ≡ true
    → lookup id (add_status_to_all ids status_error none m) ≡ failed_entry
unfolding add_status_to_all includes
add_status_to_all-new [] m id h given = cc
add_status_to_all-new (j ∷ ids) m id h given = elim (Bool-cases (str_eq j id)) [
  | inl same ↦
      add_status_to_all-kept ids (add_status j status_error none m) id
        (ground (arith, same, eq_iff j id, lookup-add_status j id status_error m, h))
  | inr other ↦
      add_status_to_all-new ids (add_status j status_error none m) id
        (ground (arith, other, lookup-add_status j id status_error m, h))
        (ground (arith, other, given))
]

-- If the transaction of one cluster fails, the status Error is written for every entry of the chunk
-- that the shared map has no status of, whether a status of it was already committed or not: an
-- event that was Done, together with what its handler wrote, is Error again.
pub lookup-checked-handle_error_tx :
    (selected entries commited outdated : List String) (shared : StatusMap) (id : String)
    → lookup id shared ≡ none
    → includes id selected ≡ true
    → includes id entries ≡ true
    → lookup id (checked false selected entries commited outdated (handle_error_tx entries shared))
      ≡ some (with_status status_error)
unfolding handle_error_tx
lookup-checked-handle_error_tx selected entries commited outdated shared id free chosen given =
    lookup-checked false selected entries commited outdated (handle_error_tx entries shared) id
    ∙ rw (add_status_to_all-new entries shared id free given, chosen) refl
