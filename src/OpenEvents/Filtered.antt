-- ===== src/OpenEvents/Filtered.antt =====
-- src/runner/openEvents.js: the entries that the loop over the rows of the search keeps.

use event_queue.Prelude.{
  ◌≡◌, refl, ap, ◌∙◌, String, Bool, true, false, Option, none, some, List, [], ◌∷◌, if◌then◌else◌,
  str_eq, eq_iff, arith, Bool-cases, Option-cases, inl, inr, &&_split,
}
use event_queue.Prelude.Dict.{lookup, lookup-insert}
use event_queue.Config.Event.{EventMap, EventConfig, generate_key}
use event_queue.Config.Access.{get_event_config}
use event_queue.Config.Applications.{should_be_processed}
use event_queue.Config.Names.{is_cap_event_type}
use event_queue.OpenEvents.{
  OpenEntry, Connection, connected, no_service, connect_failed, connect_service, cap_event_passes,
  is_entry_of, reported, App, is_processed_by, passes, should_be_processed_in_this_application,
  filter_entries,
}

-- Without the filter, every entry is kept.
pub filter_entries_all :
    (app : App) (os : List OpenEntry) (m : EventMap) → filter_entries app false os m ≡ (os, m)
unfolding filter_entries passes
filter_entries_all app [] m = refl
filter_entries_all app (o ∷ os) m = rw (filter_entries_all app os m) refl

if_same {ℓ} : {A : Type ℓ} (b : Bool) (a : A) → (if b then a else a) ≡ a
if_same true a = refl
if_same false a = refl

-- The key whose configuration says which applications process a type: outbox events have the
-- normalized sub type in it.
abbrev pub processed_key_of : App → (namespace type sub_type : String) → String
processed_key_of app n ty st =
    generate_key (some n) (some ty)
      (some (if is_cap_event_type ty then (app.normalize st).sub_type else st))

module _ (app : App) (n ty st : String) where
  abbrev key : String
  key = generate_key (some n) (some ty) (some st)

  abbrev processed_key : String
  processed_key = processed_key_of app n ty st

  -- The type is an ad-hoc or periodic event of the configuration, for this application.
  pub record IsHandled (m : EventMap) : Type 0 where
    pub config : EventConfig
    pub found : lookup key m ≡ some config
    pub processed_config : EventConfig
    pub found_processed : lookup processed_key m ≡ some processed_config
    pub processed : should_be_processed app.application processed_config ≡ true

  -- What is configured for a service of CAP has other keys.
  abbrev pub KeepsKey : Type 0
  KeepsKey =
      (s : String)
      → (str_eq (app.added s).0 key ≡ false) × (str_eq (app.added s).0 processed_key ≡ false)

  entry_parts :
      (o : OpenEntry)
      → is_entry_of n ty st o ≡ true
      → (o.namespace ≡ n) × (o.type ≡ ty) × (o.sub_type ≡ st)
  entry_parts o same =
      let (rest, third) = &&_split _ _ same in
      let (first, second) = &&_split _ _ rest in
      ((eq_iff o.namespace n).0 first, (eq_iff o.type ty).0 second, (eq_iff o.sub_type st).0 third)

  passes_found :
      (m : EventMap) (o : OpenEntry) (c : EventConfig)
      → lookup (generate_key (some o.namespace) (some o.type) (some o.sub_type)) m ≡ some c
      → passes app true m o ≡ (should_be_processed_in_this_application app m o, m)
  unfolding passes get_event_config
  passes_found m o c found =
      rw found
        (if_same (is_cap_event_type o.type) (should_be_processed_in_this_application app m o, m))

  passes-IsHandled :
      (m : EventMap) (o : OpenEntry)
      → IsHandled m
      → is_entry_of n ty st o ≡ true
      → passes app true m o ≡ (true, m)
  passes-IsHandled m o handled same =
      let (first, second, third) = entry_parts o same in
      let same_key : processed_key_of app o.namespace o.type o.sub_type ≡ processed_key =
        ap (λ x. processed_key_of app x o.type o.sub_type) first
        ∙ ap (λ x. processed_key_of app n x o.sub_type) second
        ∙ ap (λ x. processed_key_of app n ty x) third in
      passes_found m o handled.config (cc (handled.found))
      ∙ ap (λ (k : String). (is_processed_by app (lookup k m), m)) same_key
      ∙ ap (λ (c : Option EventConfig). (is_processed_by app c, m)) handled.found_processed
      ∙ ap (λ (b : Bool). (b, m)) handled.processed

  -- No service that is added takes the key.
  abbrev IsKept : String → Type 0
  IsKept k = (s : String) → str_eq (app.added s).0 k ≡ false

  connect_service_keeps :
      (k : String) (x : Connection) (m : EventMap) (o : OpenEntry)
      → IsKept k
      → lookup k (connect_service app x m o).1 ≡ lookup k m
  connect_service_keeps k connect_failed m o keeps = refl
  connect_service_keeps k no_service m o keeps = refl
  connect_service_keeps k connected m o keeps =
      ground (
        arith,
        lookup-insert (app.added o.sub_type).0 k (app.added o.sub_type).1 m,
        keeps o.sub_type,
      )

  cap_event_passes_keeps :
      (k : String) (found : Option EventConfig) (m : EventMap) (o : OpenEntry)
      → IsKept k
      → lookup k (cap_event_passes app found m o).1 ≡ lookup k m
  cap_event_passes_keeps k none m o keeps = connect_service_keeps k _ m o keeps
  cap_event_passes_keeps k (some c) m o keeps = refl

  passes_keeps :
      (k : String) (m : EventMap) (o : OpenEntry)
      → IsKept k
      → lookup k (passes app true m o).1 ≡ lookup k m
  unfolding passes
  passes_keeps k m o keeps = elim (Bool-cases (is_cap_event_type o.type)) [
    | inl cap ↦ rw cap (cap_event_passes_keeps k _ m o keeps)
    | inr no_cap ↦ elim (Option-cases (get_event_config m (some o.namespace) o.type o.sub_type)) [
      | inl absent ↦ rw (no_cap, absent) refl
      | inr (c, found) ↦ rw (no_cap, found) refl
    ]
  ]

  passes_keep :
      (m : EventMap) (o : OpenEntry) → KeepsKey → IsHandled m → IsHandled (passes app true m o).1
  passes_keep m o keeps handled = record {
    config = handled.config;
    found = passes_keeps key m o (λ s. (keeps s).0) ∙ handled.found;
    processed_config = handled.processed_config;
    found_processed = passes_keeps processed_key m o (λ s. (keeps s).1) ∙ handled.found_processed;
    processed = handled.processed;
  }

  filter_entries-nil : (m : EventMap) → (filter_entries app true [] m).0 ≡ []
  unfolding filter_entries
  filter_entries-nil m = refl

  filter_entries_step :
      (o : OpenEntry) (os : List OpenEntry) (m : EventMap)
      → (filter_entries app true (o ∷ os) m).0 ≡ (
          if (passes app true m o).0
          then o ∷ (filter_entries app true os (passes app true m o).1).0
          else (filter_entries app true os (passes app true m o).1).0)
  unfolding filter_entries
  filter_entries_step o os m = refl

  -- With the filter, the entries of a handled type are kept.
  pub reported-filter_entries :
      (os : List OpenEntry) (m : EventMap)
      → KeepsKey
      → IsHandled m
      → reported n ty st (filter_entries app true os m).0 ≡ reported n ty st os
  unfolding reported
  reported-filter_entries [] m keeps handled = rw (filter_entries-nil m) refl
  reported-filter_entries (o ∷ os) m keeps handled =
      let ih =
        reported-filter_entries os (passes app true m o).1 keeps (passes_keep m o keeps handled) in
      elim (Bool-cases (is_entry_of n ty st o)) [
        | inl same ↦
            rw (filter_entries_step o os m, ap (λ r. r.0) (passes-IsHandled m o handled same))
              (omega (arith, ih))
        | inr other ↦ rw (filter_entries_step o os m) (ground (arith, ih, other))
      ]
