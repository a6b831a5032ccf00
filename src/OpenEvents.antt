-- ===== src/OpenEvents.antt =====
-- src/runner/openEvents.js: the search for events that a run has to process.
pub mod Filtered
pub mod Selectable
pub mod Samples
mod Examples
use event_queue.Prelude.{
  ℕ, ◌+◌, ◌*◌, ◌/◌, ◌==◌, ◌≡◌, refl, String, Bool, true, false, not, ◌&&◌, ◌||◌, Option, none, some,
  List, [], ◌∷◌, if◌then◌else◌, leb, str_eq, arith, filter, length, eq_iff,
}
use event_queue.Prelude.Dict.{includes, insert, lookup}
use event_queue.Constants.{status_open, status_in_progress, status_error}
use event_queue.Database.{Event, EventTable}
use event_queue.Processor.Select.{at_most, is_null}
use event_queue.Config.Event.{EventMap, EventConfig, generate_key}
use event_queue.Config.Access.{get_event_config}
use event_queue.Config.Applications.{Application, should_be_processed}
use event_queue.Config.Names.{is_cap_event_type, Normalized}

-- A row of the SELECT, and an element of the result.
pub record OpenEntry : Type 0 where
  pub namespace : String
  pub type : String
  pub sub_type : String
  pub count : ℕ

abbrev pub is_entry_of : (namespace type sub_type : String) → OpenEntry → Bool
is_entry_of namespace type sub_type o =
    str_eq o.namespace namespace && str_eq o.type type && str_eq o.sub_type sub_type

abbrev pub is_event_of : (namespace type sub_type : String) → Event → Bool
is_event_of namespace type sub_type e =
    str_eq e.namespace namespace && str_eq e.type type && str_eq e.sub_type sub_type

-- How many events the entries report for a type.
unfoldable pub reported : (namespace type sub_type : String) → List OpenEntry → ℕ
reported namespace type sub_type [] = 0
reported namespace type sub_type (o ∷ os) =
    (if is_entry_of namespace type sub_type o then o.count else 0)
    + reported namespace type sub_type os

-- `SELECT count(ID) as count … GROUP BY type, subType, namespace` on a table.
pub record Grouping (db : EventTable) : Type 0 where
  pub select_counts : (Event → Bool) → db.Table → List OpenEntry
  pub reported-select_counts :
      (p : Event → Bool) (namespace type sub_type : String) (t : db.Table)
      → reported namespace type sub_type (select_counts p t)
        ≡ length (filter (λ e. p e && is_event_of namespace type sub_type e) (db.rows t))

abbrev pub thirty_days : ℕ
thirty_days = 30 * (24 * 60 * 60 * 1000)

-- `config.processingNamespaces`, `config.runInterval` and `config.globalTxTimeout`.
pub record Settings : Type 0 where
  pub processing_namespaces : List String
  pub run_interval : ℕ
  pub global_tx_timeout : ℕ

-- The parts of the condition of the SELECT; `b <= now - d` is `b + d <= now`.
abbrev pub is_due : Settings → (start_time : ℕ) → Event → Bool
is_due c now e = is_null e.start_after || at_most e.start_after (now + c.run_interval * 12 / 10)

abbrev pub is_old_enough : Option ℕ → (age now : ℕ) → Bool
is_old_enough none age now = false
is_old_enough (some a) age now = leb (a + age) now

abbrev pub is_young : Option ℕ → (age now : ℕ) → Bool
is_young none age now = false
is_young (some a) age now = leb now (a + age)

abbrev pub has_open_status : Settings → (start_time : ℕ) → Event → Bool
has_open_status c now e =
    e.status == status_open
    || (e.status == status_error
        || (e.status == status_in_progress
            && is_old_enough e.last_attempt_timestamp c.global_tx_timeout now))

abbrev pub is_recent : (start_time : ℕ) → Event → Bool
is_recent now e =
    is_young (some e.created_at) thirty_days now || is_young e.start_after thirty_days now

unfoldable pub is_open : Settings → (start_time : ℕ) → Event → Bool
is_open c now e =
    includes e.namespace c.processing_namespaces
    && (is_due c now e && (has_open_status c now e && is_recent now e))

-- What `cds.connect.to` comes to.
pub data Connection : Type 0 where
  connected no_service connect_failed : Connection

-- The application and the services of CAP: `added` is the entry of the map that
-- `addCAPServiceWithoutEnvConfig` makes from the options of a service.
pub record App : Type 0 where
  pub application : Application
  pub normalize : String → Normalized
  pub connect_to : Option String → Connection
  pub added : String → String × EventConfig

abbrev pub has_action : Option String → Bool
has_action none = false
has_action (some a) = true

-- `shouldBeProcessedInThisApplication`; without a configuration it throws, and nothing is added.
abbrev pub is_processed_by : App → Option EventConfig → Bool
is_processed_by app none = false
is_processed_by app (some c) = should_be_processed app.application c

abbrev pub should_be_processed_in_this_application : App → EventMap → OpenEntry → Bool
should_be_processed_in_this_application app m o = is_processed_by app (
    lookup
      (generate_key (some o.namespace) (some o.type) (
        some
          (if is_cap_event_type o.type then (app.normalize o.sub_type).sub_type else o.sub_type)))
      m)

abbrev pub connect_service : App → Connection → EventMap → OpenEntry → Bool × EventMap
connect_service app connect_failed m o = (false, m)
connect_service app no_service m o = (false, m)
connect_service app connected m o =
    if has_action (app.normalize o.sub_type).action_name
    then (false, m)
    else (let (key, c) = app.added o.sub_type in
        let m' = insert key c m in (should_be_processed_in_this_application app m' o, m'))

abbrev pub cap_event_passes : App → Option EventConfig → EventMap → OpenEntry → Bool × EventMap
cap_event_passes app none m o =
    connect_service app (app.connect_to (app.normalize o.sub_type).srv_name) m o
cap_event_passes app (some c) m o = (should_be_processed_in_this_application app m o, m)

-- Whether the loop adds an entry, and the map of configurations afterwards.
unfoldable pub passes : App → (filter_app_specific : Bool) → EventMap → OpenEntry → Bool × EventMap
unfolding should_be_processed
passes app filter_app_specific m o =
    if not filter_app_specific
    then (true, m)
    else (let found = get_event_config m (some o.namespace) o.type o.sub_type in
        if is_cap_event_type o.type then cap_event_passes app found m o else (elim found [
          | none ↦ (false, m)
          | some c ↦ (should_be_processed_in_this_application app m o, m)
        ]))

-- The loop over the rows of the SELECT.
unfoldable pub filter_entries :
    App → (filter_app_specific : Bool) → List OpenEntry → EventMap → List OpenEntry × EventMap
unfolding passes
filter_entries app filter_app_specific [] m = ([], m)
filter_entries app filter_app_specific (o ∷ os) m =
    let (is_kept, m') = passes app filter_app_specific m o in
    let (kept, m'') = filter_entries app filter_app_specific os m' in
    (if is_kept then o ∷ kept else kept, m'')

-- `getOpenQueueEntries`.
module _ (db : EventTable) (grouping : Grouping db) where
  unfoldable pub get_open_queue_entries :
      Settings
      → App
      → (start_time : ℕ) → (filter_app_specific : Bool) → db.Table
      → EventMap
      → List OpenEntry × EventMap
  unfolding filter_entries is_open
  get_open_queue_entries c app start_time filter_app_specific t m =
      filter_entries app filter_app_specific
        (grouping.select_counts (λ e. is_open c start_time e) t) m

-- The groups of a list of rows, in the order of their first rows.
unfoldable pub count_in_groups : Event → List OpenEntry → List OpenEntry
count_in_groups e [] =
    record { namespace = e.namespace; type = e.type; sub_type = e.sub_type; count = 1 } ∷ []
count_in_groups e (o ∷ os) =
    let others = count_in_groups e os in
    if is_event_of o.namespace o.type o.sub_type e
    then record o { count = o.count + 1 } ∷ os
    else o ∷ others

unfoldable pub groups_of : List Event → List OpenEntry
unfolding count_in_groups
groups_of [] = []
groups_of (e ∷ es) = count_in_groups e (groups_of es)
