-- ===== src/Config/Access.antt =====
-- src/config.js: reading the map of configurations.
use event_queue.Prelude.{String, Bool, true, false, not, Option, none, some, List, map, filter}
use event_queue.Prelude.Dict.{lookup, delete}
use event_queue.Config.Event.{EventMap, EventConfig, or_default, generate_key}

-- `getEventConfig`.
unfoldable pub get_event_config :
    EventMap → (namespace : Option String) → (type sub_type : String) → Option EventConfig
get_event_config m namespace type sub_type =
    lookup (generate_key namespace (some type) (some sub_type)) m

-- `hasEventAfterCommitFlag`.
unfoldable pub has_event_after_commit_flag :
    EventMap → (namespace : Option String) → (type sub_type : String) → Bool
unfolding get_event_config
has_event_after_commit_flag m namespace type sub_type =
    elim (get_event_config m namespace type sub_type) [
      | none ↦ true
      | some e ↦ or_default e.process_after_commit true
    ]

-- `isPeriodicEvent`.
unfoldable pub is_periodic_event :
    EventMap → (namespace : Option String) → (type sub_type : String) → Bool
unfolding get_event_config
is_periodic_event m namespace type sub_type = elim (get_event_config m namespace type sub_type) [
  | none ↦ false
  | some e ↦ e.is_periodic
]

-- `removeEvent`.
unfoldable pub remove_event :
    EventMap → (namespace : Option String) → (type sub_type : String) → EventMap
remove_event m namespace type sub_type =
    delete (generate_key namespace (some type) (some sub_type)) m

-- `events` and `periodicEvents`.
unfoldable pub events : EventMap → List EventConfig
unfolding filter
events m = filter (λ e. not e.is_periodic) (map (λ entry. entry.1) m)

unfoldable pub periodic_events : EventMap → List EventConfig
unfolding filter
periodic_events m = filter (λ e. e.is_periodic) (map (λ entry. entry.1) m)
