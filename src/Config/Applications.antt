-- ===== src/Config/Applications.antt =====
-- src/config.js: which application processes an event.
pub mod Matching
use event_queue.Prelude.{
  ◌≡◌, refl, ℕ, String, Bool, true, false, not, ◌&&◌, ◌||◌, Option, none, some, List, [], ◌∷◌,
  if◌then◌else◌, ◌==◌, any, arith, str_eq, eq_refl, eq_iff, All, Bool-cases, Option-cases, inl, inr,
  ap, sym, ◌∙◌, subst,
}
use event_queue.Prelude.Dict.{has, lookup, insert}
use event_queue.Config.Event.{EventMap, AppName, regex, name, EventConfig, Settings}
use event_queue.Config.EventMap.{
  is_regex, parse_regex_or_string, name_map, array_of, contains_regex,
  transformation_after_validate,
}

-- `env.applicationName` and `env.applicationInstance`.
pub record Application : Type 0 where
  pub name : String
  pub instance_number : ℕ

-- The loop over the map in the presence of regular expressions: `result` is the last test, and the
-- loop stops at the first that holds.
unfoldable pub matches_from : String → (all rest : List (String × AppName)) → (result : Bool) → Bool
unfolding has
matches_from app all [] result = result
matches_from app all ((key, regex test) ∷ rest) result = elim (test app) [
  | true ↦ true
  | false ↦ matches_from app all rest false
]
matches_from app all ((key, name s) ∷ rest) result = elim (has app all) [
  | true ↦ true
  | false ↦ matches_from app all rest false
]

unfoldable pub matches_app_names : (contains_regex : Bool) → String → List (String × AppName) → Bool
unfolding matches_from
matches_app_names contains_regex app m =
    if contains_regex then matches_from app m m true else has app m

unfoldable pub matches_instance : ℕ → Option (List ℕ) → Bool
unfolding any
matches_instance n none = true
matches_instance n (some ns) = any (λ k. k == n) ns

-- `shouldBeProcessedInThisApplication`, from the configuration on.
unfoldable pub should_be_processed : Application → EventConfig → Bool
unfolding matches_app_names matches_instance
should_be_processed a e = elim e.app_name_map [
  | none ↦ matches_instance a.instance_number e.app_instances_map
  | some m ↦
      matches_app_names e.app_name_contains_regex a.name m
      && matches_instance a.instance_number e.app_instances_map
]
