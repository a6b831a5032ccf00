-- ===== src/Config/EventMap.antt =====
-- src/config.js: the map of the configurations, and how it is built.
use event_queue.Prelude.{
  ℕ, ◌+◌, ◌*◌, String, Bool, true, false, not, ◌&&◌, ◌||◌, Option, none, some, List, [], ◌∷◌,
  if◌then◌else◌, leb, ◌==◌,
}
use event_queue.Prelude.Dict.{lookup, insert}
use event_queue.Prelude.Results.{Result, ok, err, ◌>>=◌, ◌>>◌, throw_if}
use event_queue.Config.Event.{
  Items, no_array, items, AppName, regex, name, EventConfig, EventMap, ConfigError,
  duplicate_event_registration, no_cron_or_interval, cron_and_interval, cant_parse_cron_expression,
  invalid_interval_between_cron, invalid_interval, multi_instance_processing_not_allowed, Settings,
  or_default, is_missing, key_of, sanitize_ad_hoc, sanitize_periodic, basic_event_transformation,
  basic_event_validation, default_retry_after, min_interval_sec, text_of,
}
use Prim.Native.String

abbrev pub is_registered : Bool → Option EventConfig → Bool
is_registered periodic none = false
is_registered periodic (some e) = if periodic then e.is_periodic else not e.is_periodic

-- `!event.interval`: missing or 0.
abbrev pub no_interval : Option ℕ → Bool
no_interval none = true
no_interval (some n) = n == 0

-- The gap between two dates has to be above the minimum.
abbrev pub wide_enough : Option (ℕ × ℕ) → Result ConfigError (Unit {0})
wide_enough none = err cant_parse_cron_expression
wide_enough (some (next, after_next)) =
    throw_if (leb after_next (next + min_interval_sec * 1000)) invalid_interval_between_cron

abbrev pub is_regex : AppName → Bool
is_regex (regex test) = true
is_regex (name s) = false

-- The elements of a validated array: all are of the right type.
abbrev pub elements : {A : Type 0} → List (Option A) → List A
elements [] = []
elements (none ∷ xs) = elements xs
elements (some a ∷ xs) = a ∷ elements xs

abbrev pub array_of : {A : Type 0} → Option (Items A) → Option (List A)
array_of none = none
array_of (some no_array) = none
array_of (some (items xs)) = some (elements xs)

abbrev pub with_suffix : Option String → Option String
with_suffix none = some "undefined_PERIODIC"
with_suffix (some t) = some (String.◌++◌ t "_PERIODIC")

unfoldable pub register_all :
    (EventMap → EventConfig → Result ConfigError EventMap)
    → List EventConfig
    → EventMap
    → Result ConfigError EventMap
register_all register [] m = ok m
register_all register (e ∷ es) m = register m e >>= register_all register es

module _ (c : Settings) where
  abbrev pub parses : Option String → Result ConfigError (Unit {0})
  parses none = ok tt
  parses (some t) = elim (c.next_dates t) [ none ↦ err cant_parse_cron_expression | some _ ↦ ok tt ]

  -- `#validateAdHocEvents`.
  unfoldable pub validate_ad_hoc : EventMap → EventConfig → Result ConfigError EventConfig
  unfolding basic_event_validation
  validate_ad_hoc m e = do
    throw_if (is_registered false (lookup (key_of e) m)) duplicate_event_registration
    throw_if (c.is_multi_tenancy && e.multi_instance_processing)
        multi_instance_processing_not_allowed
    parses e.time_bucket
    basic_event_validation c
        (record e { inherit_trace_context = some (or_default e.inherit_trace_context true) })
    ok (record e { inherit_trace_context = some (or_default e.inherit_trace_context true) })

  -- The time zone of a cron expression.
  unfoldable pub with_time_zone : EventConfig → EventConfig
  with_time_zone e =
      let utc = or_default e.utc false in
      let use_cron_timezone =
        if is_missing c.cron_timezone then false else or_default e.use_cron_timezone true in
      record e {
        utc = some utc;
        use_cron_timezone = some use_cron_timezone;
        tz = if utc || not use_cron_timezone then some "UTC" else c.cron_timezone;
      }

  abbrev pub validate_schedule : EventConfig → Result ConfigError EventConfig
  validate_schedule e =
      if is_missing e.cron
      then (do
        throw_if (no_interval e.interval || leb (or_default e.interval 0) min_interval_sec)
            invalid_interval
        ok e)
      else (do wide_enough (c.next_dates (text_of e.cron)); ok (with_time_zone e))

  -- `#validatePeriodicConfig`.
  unfoldable pub validate_periodic : EventMap → EventConfig → Result ConfigError EventConfig
  unfolding basic_event_validation with_time_zone
  validate_periodic m e = do
    throw_if (is_registered true (lookup (key_of e) m)) duplicate_event_registration
    throw_if (is_missing e.cron && no_interval e.interval) no_cron_or_interval
    throw_if (not (is_missing e.cron) && not (no_interval e.interval)) cron_and_interval
    e' ← validate_schedule e
    basic_event_validation c e'
    ok e'

  -- `#parseRegexOrString`.
  unfoldable pub parse_regex_or_string : String → AppName
  parse_regex_or_string s = elim (c.regex_of s) [ none ↦ name s | some test ↦ regex test ]

  -- `Object.fromEntries(new Map(…))`.
  abbrev pub name_map : List String → List (String × AppName) → List (String × AppName)
  name_map [] m = m
  name_map (s ∷ ss) m = name_map ss (insert s (parse_regex_or_string s) m)

  abbrev pub contains_regex : List String → Bool
  contains_regex [] = false
  contains_regex (s ∷ ss) = is_regex (parse_regex_or_string s) || contains_regex ss

  -- `#basicEventTransformationAfterValidate`.
  unfoldable pub transformation_after_validate : EventConfig → EventConfig
  unfolding parse_regex_or_string insert
  transformation_after_validate e = record e {
    app_name_map = elim (array_of e.app_names) [ none ↦ none | some ns ↦ some (name_map ns []) ];
    app_name_contains_regex = elim (array_of e.app_names) [
      | none ↦ false
      | some ns ↦ contains_regex ns
    ];
    app_instances_map = array_of e.app_instances;
    retry_failed_after = some (or_default e.retry_failed_after default_retry_after);
    retry_open_after = some (or_default e.retry_open_after default_retry_after);
  }

  -- One round of the first `reduce` of `set fileContent`.
  unfoldable pub register_ad_hoc : EventMap → EventConfig → Result ConfigError EventMap
  unfolding sanitize_ad_hoc basic_event_transformation validate_ad_hoc transformation_after_validate
  register_ad_hoc m event = do
    e ← validate_ad_hoc m (basic_event_transformation c (sanitize_ad_hoc event))
    ok (insert (key_of e) (transformation_after_validate e) m)

  -- One round of the second.
  unfoldable pub register_periodic : EventMap → EventConfig → Result ConfigError EventMap
  unfolding sanitize_periodic basic_event_transformation validate_periodic
      transformation_after_validate
  register_periodic m event =
      let e₀ = sanitize_periodic event in
      do
        e ← validate_periodic m (
            basic_event_transformation c
              (record e₀ { type = with_suffix e₀.type; is_periodic = true }))
        ok (insert (key_of e) (transformation_after_validate e) m)

  -- `set fileContent`: the event map.
  unfoldable pub file_content :
      (events periodic_events : List EventConfig) → Result ConfigError EventMap
  unfolding register_all
  file_content events periodic_events =
      register_all register_ad_hoc events [] >>= register_all register_periodic periodic_events
