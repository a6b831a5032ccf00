-- ===== src/Config/Registered.antt =====
-- src/config.js: what holds of every configuration that was registered.
use event_queue.Prelude.{
  ◌⊎◌, ◌≡◌, refl, ◌∙◌, sym, subst, ◌≤◌, String, true, false, not, ◌&&◌, ◌||◌, none, some, List, [],
  ◌∷◌, if◌then◌else◌, ltb, leb, arith, All, Bool-cases, inl, inr, eq_iff, str_eq,
}
use event_queue.Prelude.Dict.{lookup, insert}
use event_queue.Prelude.Results.{Result, ok, >>=-eq-ok, throw_if-eq-ok, throw_if_passed}
use event_queue.Config.Event.{
  EventMap, EventConfig, ConfigError, Settings, or_default, is_missing, key_of, is_priority,
  sanitize_ad_hoc, sanitize_periodic, basic_event_transformation, basic_event_validation,
  min_interval_sec, is_malformed, multi_instance_processing_not_allowed, app_names_format,
  app_instances_format, priority_not_allowed, load_higher_than_limit, invalid_interval, text_of,
  duplicate_event_registration, no_cron_or_interval, cron_and_interval,
}
use event_queue.Config.EventMap.{
  no_interval, parses, with_suffix, wide_enough, is_registered, validate_ad_hoc, validate_periodic,
  transformation_after_validate, register_ad_hoc, register_periodic, register_all, file_content,
  with_time_zone, validate_schedule,
}

module _ (c : Settings) where
  pub record IsComplete (e : EventConfig) : Type 0 where
    pub has_impl : is_missing e.impl ≡ false
    pub has_type : is_missing e.type ≡ false
    pub has_sub_type : is_missing e.sub_type ≡ false
    pub has_app_names : is_malformed e.app_names ≡ false
    pub has_priority : is_priority e.priority ≡ true
    pub fits : or_default e.load 0 ≤ c.instance_load_limit

  -- A periodic event has either a cron expression or an interval above the minimum; another event
  -- has none of both.
  abbrev pub IsScheduled : EventConfig → Type 0
  IsScheduled e =
      if e.is_periodic
      then (not (is_missing e.cron) ≡ no_interval e.interval)
        × ((is_missing e.cron && leb (or_default e.interval 0) min_interval_sec) ≡ false)
      else (e.cron ≡ none) × (e.interval ≡ none)

  abbrev pub IsRegistered : String × EventConfig → Type 0
  IsRegistered (key, e) = (key ≡ key_of e) × IsComplete e × IsScheduled e

  basic_event_validation-IsComplete :
      (e : EventConfig) → basic_event_validation c e ≡ ok tt → IsComplete e
  unfolding basic_event_validation
  basic_event_validation-IsComplete e h =
      let (impl, h₁) = throw_if_passed (is_missing e.impl) _ _ h in
      let (type, h₂) = throw_if_passed (is_missing e.type) _ _ h₁ in
      let (sub_type, h₃) = throw_if_passed (is_missing e.sub_type) _ _ h₂ in
      let (names, h₄) = throw_if_passed (is_malformed e.app_names) app_names_format _ h₃ in
      let (instances, h₅) =
        throw_if_passed (is_malformed e.app_instances) app_instances_format _ h₄ in
      let (priority, h₆) =
        throw_if_passed (not (is_priority e.priority)) priority_not_allowed _ h₅ in
      let load =
        throw_if-eq-ok (ltb c.instance_load_limit (or_default e.load 0)) load_higher_than_limit
          h₆ in
      record {
        has_impl = impl;
        has_type = type;
        has_sub_type = sub_type;
        has_app_names = names;
        has_priority = ground arith;
        fits = ground arith;
      }

  validate_schedule-cases :
      (e e' : EventConfig)
      → validate_schedule c e ≡ ok e'
      → ((is_missing e.cron ≡ true)
          × ((no_interval e.interval || leb (or_default e.interval 0) min_interval_sec) ≡ false)
          × (e' ≡ e))
        ⊎ ((is_missing e.cron ≡ false) × (e' ≡ with_time_zone c e))
  validate_schedule-cases e e' h = elim (Bool-cases (is_missing e.cron)) [
    | inl missing ↦
        let (wide, same) =
          throw_if_passed (no_interval e.interval || leb (or_default e.interval 0) min_interval_sec)
            invalid_interval (ok e) (rw missing at h) in
        inl (missing, wide, cc)
    | inr given ↦
        let (u, checked, same) =
          >>=-eq-ok (wide_enough (c.next_dates (text_of e.cron))) (λ _. ok (with_time_zone c e))
            (rw given at h) in
        inr (given, cc)
  ]

  -- What the periodic validation returns.
  validate_periodic-IsRegistered :
      (m : EventMap) (e e' : EventConfig)
      → e.is_periodic ≡ true
      → validate_periodic c m e ≡ ok e'
      → IsComplete e' × IsScheduled e'
  unfolding validate_periodic with_time_zone
  validate_periodic-IsRegistered m e e' periodic h =
      let (fresh, h₁) =
        throw_if_passed (is_registered true (lookup (key_of e) m)) duplicate_event_registration _
          h in
      let (some_one, h₂) =
        throw_if_passed (is_missing e.cron && no_interval e.interval) no_cron_or_interval _ h₁ in
      let (not_both, h₃) =
        throw_if_passed (not (is_missing e.cron) && not (no_interval e.interval)) cron_and_interval
          _ h₂ in
      let (e₁, scheduled, h₄) = >>=-eq-ok (validate_schedule c e) _ h₃ in
      let (u, valid, same) = >>=-eq-ok (basic_event_validation c e₁) (λ _. ok e₁) h₄ in
      let eq : e₁ ≡ e' = cc in
      let complete = subst IsComplete eq (basic_event_validation-IsComplete e₁ valid) in
      elim (validate_schedule-cases e e₁ scheduled) [
        | inl (missing, wide, kept) ↦
            (complete, subst IsScheduled (sym kept ∙ eq) (rw periodic (ground arith)))
        | inr (given, zoned) ↦
            (complete, subst IsScheduled (sym zoned ∙ eq) (rw periodic (ground arith)))
      ]

  validate_ad_hoc-IsRegistered :
      (m : EventMap) (e e' : EventConfig)
      → e.is_periodic ≡ false
      → e.cron ≡ none
      → e.interval ≡ none
      → validate_ad_hoc c m e ≡ ok e'
      → IsComplete e' × IsScheduled e'
  unfolding validate_ad_hoc
  validate_ad_hoc-IsRegistered m e e' ad_hoc no_cron none_given h =
      let (fresh, h₁) =
        throw_if_passed (is_registered false (lookup (key_of e) m)) duplicate_event_registration _
          h in
      let (allowed, h₂) =
        throw_if_passed (c.is_multi_tenancy && e.multi_instance_processing)
          multi_instance_processing_not_allowed _ h₁ in
      let (u, parsed, h₃) = >>=-eq-ok (parses c e.time_bucket) _ h₂ in
      let e₁ = record e {
        inherit_trace_context = some (or_default e.inherit_trace_context true);
      } in
      let (v, valid, same) = >>=-eq-ok (basic_event_validation c e₁) (λ _. ok e₁) h₃ in
      let eq : e₁ ≡ e' = cc in
      (
        subst IsComplete eq (basic_event_validation-IsComplete e₁ valid),
        subst IsScheduled eq (rw (ad_hoc, no_cron, none_given) (refl, refl)),
      )

  -- What is set after the validation touches none of this.
  transformation_after_validate-IsRegistered :
      (e : EventConfig)
      → IsComplete e × IsScheduled e
      → IsRegistered (key_of e, transformation_after_validate c e)
  unfolding transformation_after_validate key_of
  transformation_after_validate-IsRegistered e (complete, scheduled) = (
    refl,
    record {
      has_impl = complete.has_impl;
      has_type = complete.has_type;
      has_sub_type = complete.has_sub_type;
      has_app_names = complete.has_app_names;
      has_priority = complete.has_priority;
      fits = complete.fits;
    },
    scheduled,
  )

  insert-IsRegistered :
      (key : String) (e : EventConfig) (m : EventMap)
      → IsRegistered (key, e)
      → All IsRegistered m
      → All IsRegistered (insert key e m)
  unfolding insert
  insert-IsRegistered key e [] new old = (new, tt)
  insert-IsRegistered key e ((k, old_e) ∷ m) new (first, old) = elim (Bool-cases (str_eq k key)) [
    | inl same ↦
        rw same ((subst (λ k'. IsRegistered (k', e)) (sym ((eq_iff k key).0 same)) new, old))
    | inr other ↦ rw other (first, insert-IsRegistered key e m new old)
  ]

  register_ad_hoc-IsRegistered :
      (m m' : EventMap) (event : EventConfig)
      → All IsRegistered m
      → register_ad_hoc c m event ≡ ok m'
      → All IsRegistered m'
  unfolding register_ad_hoc sanitize_ad_hoc basic_event_transformation
  register_ad_hoc-IsRegistered m m' event registered h =
      let e = basic_event_transformation c (sanitize_ad_hoc event) in
      let (e', valid, inserted) = >>=-eq-ok (validate_ad_hoc c m e) _ h in
      let eq : insert (key_of e') (transformation_after_validate c e') m ≡ m' = cc in
      subst (All IsRegistered) eq (
        insert-IsRegistered (key_of e') _ m
          (transformation_after_validate-IsRegistered e'
            (validate_ad_hoc-IsRegistered m e e' refl refl refl valid))
          registered)

  register_periodic-IsRegistered :
      (m m' : EventMap) (event : EventConfig)
      → All IsRegistered m
      → register_periodic c m event ≡ ok m'
      → All IsRegistered m'
  unfolding register_periodic sanitize_periodic basic_event_transformation
  register_periodic-IsRegistered m m' event registered h =
      let e₀ = sanitize_periodic event in
      let e =
        basic_event_transformation c
          (record e₀ { type = with_suffix e₀.type; is_periodic = true }) in
      let (e', valid, inserted) = >>=-eq-ok (validate_periodic c m e) _ h in
      let eq : insert (key_of e') (transformation_after_validate c e') m ≡ m' = cc in
      subst (All IsRegistered) eq (
        insert-IsRegistered (key_of e') _ m
          (transformation_after_validate-IsRegistered e'
            (validate_periodic-IsRegistered m e e' refl valid))
          registered)

  register_all-IsRegistered :
      (register : EventMap → EventConfig → Result ConfigError EventMap)
      → ((m m' : EventMap) (event : EventConfig)
          → All IsRegistered m
          → register m event ≡ ok m'
          → All IsRegistered m')
      → (es : List EventConfig) (m m' : EventMap) → All IsRegistered m
      → register_all register es m ≡ ok m'
      → All IsRegistered m'
  unfolding register_all
  register_all-IsRegistered register keeps [] m m' registered h =
      let eq : m ≡ m' = cc in subst (All IsRegistered) eq registered
  register_all-IsRegistered register keeps (e ∷ es) m m' registered h =
      let (m₁, first, rest) = >>=-eq-ok (register m e) _ h in
      register_all-IsRegistered register keeps es m₁ m' (keeps m m₁ e registered first) rest

-- Every configuration in the map that `set fileContent` builds stands under its own key and is
-- complete: it has an implementation, a type and a sub type, app names that are texts, a known
-- priority and a load within the limit of the instance; a periodic one has either a cron expression
-- or an interval above the minimum, the others have neither.
pub file_content-IsRegistered :
    (c : Settings) (events periodic_events : List EventConfig) (m : EventMap)
    → file_content c events periodic_events ≡ ok m
    → All (IsRegistered c) m
unfolding file_content
file_content-IsRegistered c events periodic_events m h =
    let (m₁, first, rest) = >>=-eq-ok (register_all (register_ad_hoc c) events []) _ h in
    register_all-IsRegistered c (register_periodic c) (register_periodic-IsRegistered c)
      periodic_events m₁ m
      (register_all-IsRegistered c (register_ad_hoc c) (register_ad_hoc-IsRegistered c) events [] m₁
        tt first)
      rest
