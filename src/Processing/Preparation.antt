-- ===== src/Processing/Preparation.antt =====
-- src/processEventQueue.js: the loop that checks the selected events before they are processed, with
-- the operations of src/EventQueueProcessorBase.js that it calls. What the overridable functions do
-- is a parameter: the payload of an event, or what they throw.
use event_queue.Prelude.{
  ℕ, zero, suc, Bool-cases, inl, inr, ◌≡◌, refl, String, true, ◌||◌, Option, none, some, List, [],
  ◌∷◌, if◌then◌else◌, arith, eq_refl, str_eq, All,
}
use event_queue.Prelude.Dict.{includes, has, lookup, has-insert}
use event_queue.Constants.{status_done, status_error}
use event_queue.Processor.Status.{
  Value, Reported, number, done, undefined, UpdateData, fails, at_least, StatusMap, add_status,
  add_status_to_all, handle_error_during_processing, determine_and_add, merged, update, with_status,
}

-- What `checkEventAndGeneratePayload` returns.
pub data Payload : Type 0 where
  null undefined_payload payload : Payload
  throws : Value → Payload

pub record Prepared : Type 0 where
  pub status_map : StatusMap
  -- The keys of `queueEntriesWithPayloadMap`.
  pub with_payload : List String

-- `addEventWithPayloadForProcessing`: only for a selected entry.
unfoldable pub add_event_with_payload : (selected : List String) → String → Prepared → Prepared
unfolding includes
add_event_with_payload selected id p =
    if includes id selected
    then record p {
      with_payload = if includes id p.with_payload then p.with_payload else id ∷ p.with_payload;
    }
    else p

unfoldable pub prepare_entry : (selected : List String) → String → Payload → Prepared → Prepared
unfolding add_event_with_payload
prepare_entry selected id null p = record p {
  status_map = add_status id status_done none p.status_map;
}
prepare_entry selected id undefined_payload p = record p {
  status_map = add_status id status_error none p.status_map;
}
prepare_entry selected id payload p = add_event_with_payload selected id p
prepare_entry selected id (throws error) p = record p {
  status_map = (handle_error_during_processing error (id ∷ []) p.status_map).0;
}

unfoldable pub prepare_entries :
    (selected : List String) → List (String × Payload) → Prepared → Prepared
unfolding prepare_entry
prepare_entries selected [] p = p
prepare_entries selected ((id, result) ∷ es) p =
    prepare_entries selected es (prepare_entry selected id result p)

-- A report never fails to be taken up.
merged-update :
    (o : Option Reported) (u : UpdateData) → (r : Reported) × (merged o (update u) ≡ done r)
merged-update none u = (update u, refl)
merged-update (some (number zero)) u = (update u, refl)
merged-update (some (number (suc n))) u = (number (suc n), refl)
merged-update (some undefined) u = (update u, refl)
merged-update (some (update v)) u = elim (Bool-cases (fails v.status)) [
  | inl failed ↦ (update v, rw failed refl)
  | inr fine ↦ elim (Bool-cases (at_least v.status u.status)) [
    | inl smaller ↦ (update u, rw (fine, smaller) refl)
    | inr larger ↦ (update v, rw (fine, larger) refl)
  ]
]

has-add_status :
    (id : String) (s : ℕ) (error : Option Value) (m : StatusMap) (j : String)
    → has j (add_status id s error m) ≡ (str_eq id j || has j m)
unfolding add_status determine_and_add
has-add_status id s none m j =
    let (r, e) = merged-update (lookup id m) (with_status s) in
    rw (e, add_status, determine_and_add) (has-insert id j r m)
has-add_status id s (some error) m j =
    let (r, e) = merged-update (lookup id m) (record (with_status s) { error = some error }) in
    rw (e, add_status, determine_and_add) (has-insert id j r m)

-- An entry of the loop is settled: it has a status, or it waits for its processing.
abbrev pub IsSettled : Prepared → String → Type 0
IsSettled p id = (has id p.status_map || includes id p.with_payload) ≡ true

prepare_entry-IsSettled :
    (selected : List String) (id : String) (result : Payload) (p : Prepared)
    → includes id selected ≡ true
    → IsSettled (prepare_entry selected id result p) id
unfolding prepare_entry add_event_with_payload handle_error_during_processing includes
    add_status_to_all
prepare_entry-IsSettled selected id null p h =
    ground (arith, has-add_status id status_done none p.status_map id, eq_refl id)
prepare_entry-IsSettled selected id undefined_payload p h =
    ground (arith, has-add_status id status_error none p.status_map id, eq_refl id)
prepare_entry-IsSettled selected id payload p h = ground (arith, h, eq_refl id)
prepare_entry-IsSettled selected id (throws error) p h =
    ground (arith, has-add_status id status_error (some error) p.status_map id, eq_refl id)

-- What is settled stays so.
prepare_entry-keeps :
    (selected : List String) (id : String) (result : Payload) (p : Prepared) (j : String)
    → IsSettled p j
    → IsSettled (prepare_entry selected id result p) j
unfolding prepare_entry add_event_with_payload handle_error_during_processing includes
    add_status_to_all
prepare_entry-keeps selected id null p j h =
    ground (arith, has-add_status id status_done none p.status_map j)
prepare_entry-keeps selected id undefined_payload p j h =
    ground (arith, has-add_status id status_error none p.status_map j)
prepare_entry-keeps selected id payload p j h = ground (arith, h)
prepare_entry-keeps selected id (throws error) p j h =
    ground (arith, has-add_status id status_error (some error) p.status_map j)

prepare_entries-keeps :
    (selected : List String) (es : List (String × Payload)) (p : Prepared) (j : String)
    → IsSettled p j
    → IsSettled (prepare_entries selected es p) j
unfolding prepare_entries
prepare_entries-keeps selected [] p j h = h
prepare_entries-keeps selected ((id, r) ∷ es) p j h =
    prepare_entries-keeps selected es (prepare_entry selected id r p) j
      (prepare_entry-keeps selected id r p j h)

abbrev pub IsSelected : List String → String × Payload → Type 0
IsSelected selected e = includes e.0 selected ≡ true

abbrev pub SettledIn : Prepared → String × Payload → Type 0
SettledIn p e = IsSettled p e.0

-- The preparation loses no selected event: afterwards each has a status, or waits for its
-- processing with a payload.
pub prepare_entries-IsSettled :
    (selected : List String) (es : List (String × Payload)) (p : Prepared)
    → All (IsSelected selected) es
    → All (SettledIn (prepare_entries selected es p)) es
unfolding prepare_entries
prepare_entries-IsSettled selected [] p h = tt
prepare_entries-IsSettled selected ((id, r) ∷ es) p (first, rest) = (
  prepare_entries-keeps selected es (prepare_entry selected id r p) id
      (prepare_entry-IsSettled selected id r p first),
  prepare_entries-IsSettled selected es (prepare_entry selected id r p) rest,
)
