-- ===== src/Outbox/Unknown.antt =====
-- src/outbox/EventQueueGenericOutboxHandler.js: objects with fields that are not allowed, and what
-- setEventStatus of src/EventQueueProcessorBase.js makes of them.
use event_queue.Prelude.{
  ◌≡◌, refl, sym, ap, subst, ◌∙◌, ℕ, ◌<◌, String, true, false, Option, none, some, List, [], ◌∷◌,
  leb, arith, eq_iff,
}
use Prim.Native.String.{compare}
use text.Mathlib.Text.{is_eq}
use event_queue.Prelude.Dict.{lookup, insert}
use event_queue.Constants.{status_done}
use event_queue.Processor.Status.{
  Value, UpdateData, Reported, update, with_status, tuples, done, thrown, determine_and_add,
  add_tuples, collect,
}
use event_queue.Outbox.{
  Entry, object_element, array, returned, with_objects, process_event, entry_tuples,
  with_default_status,
}

same : (id : String) → is_eq (compare id id) ≡ true
same id = (eq_iff id id).1 refl

lookup-same : (id : String) {V : Type 0} (v : V) → lookup id ((id, v) ∷ []) ≡ some v
unfolding lookup
lookup-same id v = rw (same id) refl

-- What is above Done does not replace it.
determine_and_add-done :
    (id : String) (u : UpdateData) (s : ℕ)
    → u.status ≡ some s
    → status_done < s
    → determine_and_add id (update u) none ((id, update (with_status status_done)) ∷ [])
      ≡ done ((id, update (with_status status_done)) ∷ [])
unfolding determine_and_add insert
determine_and_add-done id u s reported high =
    let lower : leb s status_done ≡ false = ground (arith, high) in
    rw (lookup-same id (update (with_status status_done))) (rw (reported, lower, same id) refl)

with_default_status_lem : (u : UpdateData) (s : ℕ) → u.status ≡ some s → with_default_status u ≡ u
with_default_status_lem u s reported =
    subst (λ o. (elim o [ none ↦ record u { status = some status_done } | some t ↦ u ]) ≡ u)
      (sym reported) refl

add_tuples-determine_and_add :
    (id : String) (r : Reported) (ts : List (Option (String × Reported)))
    (m m' : List (String × Reported))
    → determine_and_add id r none m ≡ done m'
    → add_tuples (some (id, r) ∷ ts) m ≡ add_tuples ts m'
unfolding add_tuples determine_and_add
add_tuples-determine_and_add id r ts m m' step =
    ap (λ o. elim o [ done n ↦ add_tuples ts n | thrown ↦ (m, false) ]) step

first_done :
    (id : String)
    → determine_and_add id (update (with_status status_done)) none []
      ≡ done ((id, update (with_status status_done)) ∷ [])
unfolding determine_and_add lookup insert
first_done id = refl

no_more : (m : List (String × Reported)) → add_tuples [] m ≡ (m, true)
unfolding add_tuples
no_more m = refl

-- The two tuples of one object: Done, and then what it reports.
add_tuples-entry_tuples :
    (id : String) (u : UpdateData) (s : ℕ)
    → u.status ≡ some s
    → status_done < s
    → add_tuples (entry_tuples id (record { id = some id; fields = u; has_other_fields = true })) []
      ≡ ((id, update (with_status status_done)) ∷ [], true)
add_tuples-entry_tuples id u s reported high =
    add_tuples-determine_and_add id _ _ [] _ (first_done id)
    ∙ add_tuples-determine_and_add id _ _ _ _
        (rw (with_default_status_lem u s reported) (determine_and_add-done id u s reported high))
    ∙ no_more _

collect-add_tuples :
    (ids : List String) (ts : List (Option (String × Reported))) (m : List (String × Reported))
    → add_tuples ts [] ≡ (m, true)
    → collect ids (tuples ts) [] ≡ m
unfolding collect
collect-add_tuples ids ts m added = rw added refl

-- An array with one object that has an id, a field that is not allowed and a status above Done
-- (Error, Exceeded or Suspended) gives the event the status Done, and its other fields are lost.
pub collect-process_event :
    (type_error : Value) (ids : List String) (id : String) (u : UpdateData) (s : ℕ)
    → u.status ≡ some s
    → status_done < s
    → let e : Entry = record { id = some id; fields = u; has_other_fields = true } in
      lookup id (
        collect ids
          (tuples (process_event type_error ids (returned (array (object_element e ∷ [])))))
          [])
      ≡ some (update (with_status status_done))
unfolding process_event with_objects
collect-process_event type_error ids id u s reported high =
    rw (collect-add_tuples ids _ _ (add_tuples-entry_tuples id u s reported high))
      (lookup-same id _)
