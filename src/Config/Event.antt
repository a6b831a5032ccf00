-- ===== src/Config/Event.antt =====
-- src/config.js: one event's configuration, its defaults and what makes it acceptable. Optional
-- fields are `undefined` if `none`; options that are only passed on are left out. Numbers are
-- natural.
use event_queue.Prelude.{
  ℕ, ◌*◌, String, Bool, true, false, not, Option, none, some, List, [], ◌∷◌, ltb, str_eq, any,
}
use event_queue.Prelude.Dict.{includes}
use event_queue.Prelude.Results.{Result, ◌>>◌, throw_if}
use event_queue.Lock.{join}

-- An array of the configuration file; `none` is an element of another type.
pub data Items (A : Type 0) : Type 0 where
  no_array : Items A
  items : List (Option A) → Items A

pub data AppName : Type 0 where
  regex : (test : String → Bool) → AppName
  name : String → AppName

pub record EventConfig : Type 0 where
  pub type : Option String
  pub sub_type : Option String
  pub impl : Option String
  -- `some none` is `null`.
  pub namespace : Option (Option String)
  pub load : Option ℕ
  pub priority : Option String
  pub increase_priority_over_time : Option Bool
  pub keep_alive_interval : Option ℕ
  -- In milliseconds, since the factor is 3.5.
  pub keep_alive_max_in_progress_time : Option ℕ
  pub check_for_next_chunk : Option Bool
  pub app_names : Option (Items String)
  pub app_instances : Option (Items ℕ)
  pub multi_instance_processing : Bool
  pub inherit_trace_context : Option Bool
  pub time_bucket : Option String
  pub process_after_commit : Option Bool
  pub retry_failed_after : Option ℕ
  pub retry_open_after : Option ℕ
  pub interval : Option ℕ
  pub cron : Option String
  pub utc : Option Bool
  pub use_cron_timezone : Option Bool
  pub random_offset : Option ℕ
  pub tz : Option String
  pub is_periodic : Bool
  pub app_name_map : Option (List (String × AppName))
  pub app_name_contains_regex : Bool
  pub app_instances_map : Option (List ℕ)

abbrev pub EventMap : Type 0
EventMap = List (String × EventConfig)

pub data ConfigError : Type 0 where
  missing_impl missing_type missing_sub_type app_names_format app_instances_format : ConfigError
  priority_not_allowed load_higher_than_limit : ConfigError
  duplicate_event_registration no_cron_or_interval cron_and_interval : ConfigError
  cant_parse_cron_expression invalid_interval_between_cron invalid_interval : ConfigError
  multi_instance_processing_not_allowed : ConfigError

-- The fields of `Config` that the operations read, and the third-party code: `cron-parser`, which
-- gives the next two dates of an expression that it can parse, and regular expressions: for a text
-- of the form `/source/flags`, what `test` answers where `lastIndex` is 0. With a flag g or y a test
-- that matches sets `lastIndex`, and the next one starts there.
pub record Settings : Type 0 where
  pub namespace : Option String
  pub instance_load_limit : ℕ
  pub is_multi_tenancy : Bool
  pub cron_timezone : Option String
  pub next_dates : String → Option (ℕ × ℕ)
  pub regex_of : String → Option (String → Bool)

abbrev pub or_default {ℓ} : {A : Type ℓ} → Option A → A → A
or_default none d = d
or_default (some a) d = a

abbrev pub text_of : Option String → String
text_of none = ""
text_of (some s) = s

-- `!text`: missing or empty.
abbrev pub is_missing : Option String → Bool
is_missing none = true
is_missing (some s) = str_eq s ""

abbrev pub namespace_of : EventConfig → Option String
namespace_of e = elim e.namespace [ none ↦ none | some n ↦ n ]

-- `generateKey`.
unfoldable pub generate_key : Option String → Option String → Option String → String
unfolding join
generate_key namespace type sub_type =
    join (text_of namespace ∷ text_of type ∷ text_of sub_type ∷ [])

unfoldable pub key_of : EventConfig → String
unfolding generate_key
key_of e = generate_key (namespace_of e) e.type e.sub_type

-- `#sanitizeParamsAdHocEvent` and `#sanitizeParamsPeriodicEventEvent`: only the options of the
-- allow list are taken over.
unfoldable pub sanitize_ad_hoc : EventConfig → EventConfig
sanitize_ad_hoc e = record e {
  interval = none;
  cron = none;
  utc = none;
  use_cron_timezone = none;
  random_offset = none;
  tz = none;
  is_periodic = false;
  app_name_map = none;
  app_name_contains_regex = false;
  app_instances_map = none;
}

unfoldable pub sanitize_periodic : EventConfig → EventConfig
sanitize_periodic e = record e {
  check_for_next_chunk = none;
  multi_instance_processing = false;
  inherit_trace_context = none;
  time_bucket = none;
  process_after_commit = none;
  retry_failed_after = none;
  retry_open_after = none;
  tz = none;
  is_periodic = false;
  app_name_map = none;
  app_name_contains_regex = false;
  app_instances_map = none;
}

abbrev pub default_keep_alive_interval : ℕ
default_keep_alive_interval = 60

abbrev pub default_retry_after : ℕ
default_retry_after = 5 * (60 * 1000)

abbrev pub min_interval_sec : ℕ
min_interval_sec = 10

-- `#basicEventTransformation`.
unfoldable pub basic_event_transformation : Settings → EventConfig → EventConfig
basic_event_transformation c e = record e {
  load = some (or_default e.load 1);
  priority = some (or_default e.priority "medium");
  increase_priority_over_time = some (or_default e.increase_priority_over_time true);
  keep_alive_interval = some (or_default e.keep_alive_interval default_keep_alive_interval);
  keep_alive_max_in_progress_time =
      some (or_default e.keep_alive_interval default_keep_alive_interval * 3500);
  check_for_next_chunk = some (or_default e.check_for_next_chunk true);
  namespace = some (or_default e.namespace c.namespace);
}

abbrev pub is_none {ℓ} : {A : Type ℓ} → Option A → Bool
is_none none = true
is_none (some a) = false

-- `appNames && (!Array.isArray(appNames) || appNames.some((a) => typeof a !== "string"))`.
abbrev pub is_malformed : {A : Type 0} → Option (Items A) → Bool
is_malformed none = false
is_malformed (some no_array) = true
is_malformed (some (items xs)) = any is_none xs

abbrev pub is_priority : Option String → Bool
is_priority none = false
is_priority (some p) = includes p ("low" ∷ "medium" ∷ "high" ∷ "veryHigh" ∷ [])

-- `#basicEventValidation`.
unfoldable pub basic_event_validation : Settings → EventConfig → Result ConfigError (Unit {0})
unfolding any includes
basic_event_validation c e = do
  throw_if (is_missing e.impl) missing_impl
  throw_if (is_missing e.type) missing_type
  throw_if (is_missing e.sub_type) missing_sub_type
  throw_if (is_malformed e.app_names) app_names_format
  throw_if (is_malformed e.app_instances) app_instances_format
  throw_if (not (is_priority e.priority)) priority_not_allowed
  throw_if (ltb c.instance_load_limit (or_default e.load 0)) load_higher_than_limit
