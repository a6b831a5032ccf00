-- ===== src/Config/Applications/Matching.antt =====
-- src/config.js: the loop over the configured names against a description of it.
use event_queue.Prelude.{
  ◌≡◌, refl, String, Bool, true, false, not, ◌&&◌, ◌||◌, none, some, List, [], ◌∷◌, ◌==◌, any,
  arith, str_eq, eq_iff, All, Bool-cases, Option-cases, inl, inr, ap, sym, ◌∙◌,
}
use event_queue.Prelude.Dict.{has, insert}
use event_queue.Config.Event.{AppName, regex, name, EventConfig, Settings}
use event_queue.Config.EventMap.{
  is_regex, parse_regex_or_string, name_map, array_of, contains_regex,
  transformation_after_validate,
}
use event_queue.Config.Applications.{
  Application, matches_from, matches_app_names, matches_instance, should_be_processed,
}

abbrev pub regex_test : String → String × AppName → Bool
regex_test app (key, regex test) = test app
regex_test app (key, name s) = false

abbrev is_regex_entry : String × AppName → Bool
is_regex_entry (key, v) = is_regex v

abbrev is_name : String × AppName → Bool
is_name (key, regex test) = false
is_name (key, name s) = true

abbrev key_is : String → String × AppName → Bool
key_is app e = str_eq e.0 app

has-any : (app : String) (m : List (String × AppName)) → has app m ≡ any (key_is app) m
unfolding has any
has-any app [] = refl
has-any app ((k, v) ∷ m) = ground (arith, has-any app m)

matches_from-eq :
    (app : String) (all rest : List (String × AppName))
    → matches_from app all rest false
      ≡ (any (regex_test app) rest || (any is_name rest && any (key_is app) all))
unfolding matches_from any
matches_from-eq app all [] = refl
matches_from-eq app all ((key, regex test) ∷ rest) = ground (arith, matches_from-eq app all rest)
matches_from-eq app all ((key, name s) ∷ rest) =
    ground (arith, matches_from-eq app all rest, has-any app all)

matches_from-start :
    (app : String) (all rest : List (String × AppName))
    → any is_regex_entry rest ≡ true
    → matches_from app all rest true ≡ matches_from app all rest false
unfolding matches_from any
matches_from-start app all [] h = cc
matches_from-start app all ((key, regex test) ∷ rest) h = refl
matches_from-start app all ((key, name s) ∷ rest) h = refl

module _ (c : Settings) where
  abbrev IsParsed : String × AppName → Type 0
  IsParsed e = e.1 ≡ parse_regex_or_string c e.0

  abbrev parsed : String → String × AppName
  parsed s = (s, parse_regex_or_string c s)

  insert-IsParsed :
      (s : String) (m : List (String × AppName))
      → All IsParsed m
      → All IsParsed (insert s (parse_regex_or_string c s) m)
  unfolding insert
  insert-IsParsed s [] h = (refl, tt)
  insert-IsParsed s ((k, v) ∷ m) (first, rest) = elim (Bool-cases (str_eq k s)) [
    | inl same ↦ rw same ((ap (parse_regex_or_string c) (sym ((eq_iff k s).0 same)), rest))
    | inr other ↦ rw other (first, insert-IsParsed s m rest)
  ]

  any-insert :
      (q : String × AppName → Bool) (s : String) (m : List (String × AppName))
      → All IsParsed m
      → any q (insert s (parse_regex_or_string c s) m) ≡ (q (parsed s) || any q m)
  unfolding insert any
  any-insert q s [] h = refl
  any-insert q s ((k, v) ∷ m) (first, rest) = elim (Bool-cases (str_eq k s)) [
    | inl same ↦
        let eq = (eq_iff k s).0 same in
        let new = ap (λ x. q (x, parse_regex_or_string c s)) eq in
        let old = ap (λ x. q (k, x)) first ∙ ap (λ x. q (parsed x)) eq in
        rw same (ground (arith, new, old))
    | inr other ↦ rw (other, any-insert q s m rest) (ground arith)
  ]

  any-name_map :
      (q : String × AppName → Bool) (ns : List String) (m : List (String × AppName))
      → All IsParsed m
      → any q (name_map c ns m) ≡ (any (λ s. q (parsed s)) ns || any q m)
  unfolding any
  any-name_map q [] m h = refl
  any-name_map q (s ∷ ns) m h =
      any-name_map q ns (insert s (parse_regex_or_string c s) m) (insert-IsParsed s m h)
      ∙ rw (any-insert q s m h) (ground arith)

  -- A configured name stands for an application: the regular expression that it is matches the
  -- application's name, or it is this name.
  unfoldable pub names_app : String → String → Bool
  unfolding parse_regex_or_string
  names_app app s = elim (c.regex_of s) [ none ↦ str_eq s app | some test ↦ test app ]

  -- What the application's name is says whether a name of it is plain.
  plain_of_same :
      (app s : String) → c.regex_of app ≡ none → str_eq s app ≡ true → c.regex_of s ≡ none
  plain_of_same app s plain same = ap c.regex_of ((eq_iff s app).0 same) ∙ plain

  parsed_name :
      (app s : String)
      → c.regex_of s ≡ none
      → (is_name (parsed s) ≡ true)
        × (regex_test app (parsed s) ≡ false)
        × (is_regex_entry (parsed s) ≡ false)
        × (names_app app s ≡ str_eq s app)
  unfolding names_app
  parsed_name app s e = (
    rw (e, parse_regex_or_string, is_name) refl,
    rw (e, parse_regex_or_string, regex_test) refl,
    rw (e, parse_regex_or_string, is_regex) refl,
    rw (e, names_app) refl,
  )

  parsed_regex :
      (app s : String) (test : String → Bool)
      → c.regex_of s ≡ some test
      → (is_name (parsed s) ≡ false)
        × (regex_test app (parsed s) ≡ test app)
        × (is_regex_entry (parsed s) ≡ true)
        × (names_app app s ≡ test app)
  unfolding names_app
  parsed_regex app s test e = (
    rw (e, parse_regex_or_string, is_name) refl,
    rw (e, parse_regex_or_string, regex_test) refl,
    rw (e, parse_regex_or_string, is_regex) refl,
    rw (e, names_app) refl,
  )

  -- One configured name under the three tests.
  parsed_cases :
      (app s : String)
      → c.regex_of app ≡ none
      → (names_app app s ≡ (regex_test app (parsed s) || str_eq s app))
        × ((not (str_eq s app) || is_name (parsed s)) ≡ true)
        × ((is_regex_entry (parsed s) || not (regex_test app (parsed s))) ≡ true)
  parsed_cases app s plain = elim (Option-cases (c.regex_of s)) [
    | inl e ↦ let (a, b, d, f) = parsed_name app s e in ground arith
    | inr (test, e) ↦
        let (a, b, d, f) = parsed_regex app s test e in
        elim (Bool-cases (str_eq s app)) [
          | inl same ↦ let g = sym (plain_of_same app s plain same) ∙ e in cc
          | inr other ↦ ground arith
        ]
  ]

  any-is_name :
      (app : String) (ns : List String)
      → c.regex_of app ≡ none
      → any (λ s. key_is app (parsed s)) ns ≡ true
      → any (λ s. is_name (parsed s)) ns ≡ true
  unfolding any
  any-is_name app [] plain h = h
  any-is_name app (s ∷ ns) plain h =
      let (a, b, d) = parsed_cases app s plain in ground (arith, any-is_name app ns plain)

  no_regex_test :
      (app : String) (ns : List String)
      → c.regex_of app ≡ none
      → contains_regex c ns ≡ false
      → any (λ s. regex_test app (parsed s)) ns ≡ false
  unfolding any
  no_regex_test app [] plain h = refl
  no_regex_test app (s ∷ ns) plain h =
      let (a, b, d) = parsed_cases app s plain in ground (arith, no_regex_test app ns plain)

  any-names_app :
      (app : String) (ns : List String)
      → c.regex_of app ≡ none
      → any (names_app app) ns
        ≡ (any (λ s. regex_test app (parsed s)) ns || any (λ s. key_is app (parsed s)) ns)
  unfolding any
  any-names_app app [] plain = refl
  any-names_app app (s ∷ ns) plain =
      let (a, b, d) = parsed_cases app s plain in ground (arith, any-names_app app ns plain)

  any-is_regex : (ns : List String) → any (λ s. is_regex_entry (parsed s)) ns ≡ contains_regex c ns
  unfolding any
  any-is_regex [] = refl
  any-is_regex (s ∷ ns) = ap (λ b. is_regex_entry (parsed s) || b) (any-is_regex ns)

  matches_app_names-eq :
      (app : String) (ns : List String)
      → c.regex_of app ≡ none
      → matches_app_names (contains_regex c ns) app (name_map c ns []) ≡ any (names_app app) ns
  unfolding matches_app_names any
  matches_app_names-eq app ns plain =
      let m = name_map c ns [] in
      let tests = any-name_map (regex_test app) ns [] tt in
      let keys = any-name_map (key_is app) ns [] tt in
      let names = any-name_map is_name ns [] tt in
      let regexes = any-name_map is_regex_entry ns [] tt in
      elim (Bool-cases (contains_regex c ns)) [
        | inl some_regex ↦ rw (some_regex) (
            matches_from-start app m m (ground (arith, regexes, any-is_regex ns))
            ∙ matches_from-eq app m m
            ∙ ground
                (arith, tests, keys, names, any-is_name app ns plain, any-names_app app ns plain))
        | inr plain_only ↦ rw (plain_only) (
            has-any app m
            ∙ ground (arith, keys, no_regex_test app ns plain, any-names_app app ns plain))
      ]

  -- An event is processed by an application whose name is no regular expression itself exactly when
  -- one of the configured names stands for the application, or no array of names is configured (an
  -- empty one excludes each application), and its instance is one of the configured ones, or no
  -- array of instances is configured. The regular expressions have 0 as `lastIndex`: they have no
  -- flag g or y, or were not tested before.
  pub should_be_processed-eq :
      (a : Application) (e : EventConfig)
      → c.regex_of a.name ≡ none
      → should_be_processed a (transformation_after_validate c e) ≡ (
          elim (array_of e.app_names) [ none ↦ true | some ns ↦ any (names_app a.name) ns ]
          && elim (array_of e.app_instances) [
            | none ↦ true
            | some ns ↦ any (λ n. n == a.instance_number) ns
          ])
  unfolding should_be_processed transformation_after_validate
  should_be_processed-eq a e plain = elim (Option-cases (array_of e.app_names)) [
    | inl none_given ↦ rw none_given refl
    | inr (ns, given) ↦ rw given (
        ap (λ b. b && matches_instance a.instance_number (array_of e.app_instances))
          (matches_app_names-eq a.name ns plain))
  ]
