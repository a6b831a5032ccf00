-- ===== src/Publish/Checks.antt =====
-- src/publishEvent.js: what the loop over the events lets through, and what it sets.
use event_queue.Prelude.{
  ◌≡◌, refl, ◌∙◌, ap, sym, subst, false, not, ◌&&◌, Option, none, some, arith,
}
use event_queue.Prelude.Results.{ok, throw_if_passed}
use event_queue.Config.Event.{EventConfig, is_missing, text_of}
use event_queue.Publish.{
  StartAfter, date, NewEvent, Options, Environment, config_of, is_unset, is_malformed_date,
  periodic, bucket_date, prepared, prepare, unknown_event_type, malformed_date,
  manuel_periodic_event_insert,
}

bucket_date_formed :
    (env : Environment) (c : Option EventConfig) (s : StartAfter)
    → is_malformed_date s ≡ false
    → is_malformed_date (bucket_date env c s) ≡ false
bucket_date_formed env none s h = h
bucket_date_formed env (some c) s h = ground arith

-- What `prepare` checked, if it returned.
prepare-eq-ok :
    (env : Environment) (o : Options) (e e' : NewEvent)
    → prepare env o e ≡ ok e'
    → ((is_unset (config_of env e) && not o.allow_not_existing_configuration) ≡ false)
      × (is_malformed_date e.start_after ≡ false)
      × (periodic (config_of env e) ≡ false)
      × (prepared env o e ≡ e')
unfolding prepare
prepare-eq-ok env o e e' h =
    let c = config_of env e in
    let (known, h₁) =
      throw_if_passed (is_unset c && not o.allow_not_existing_configuration) unknown_event_type _
        h in
    let (formed, h₂) = throw_if_passed (is_malformed_date e.start_after) malformed_date _ h₁ in
    let (ad_hoc, h₃) = throw_if_passed (periodic c) manuel_periodic_event_insert _ h₂ in
    (known, formed, ad_hoc, cc)

-- An event that is published is configured, unless that is not asked for, is not periodic, and its
-- date is not malformed; it keeps its type, sub type and payload and gets a namespace, under which
-- its configuration is found again.
pub prepare_checks :
    (env : Environment) (o : Options) (e e' : NewEvent)
    → prepare env o e ≡ ok e'
    → ((is_unset (config_of env e') && not o.allow_not_existing_configuration) ≡ false)
      × (periodic (config_of env e') ≡ false)
      × (is_malformed_date e'.start_after ≡ false)
      × (e'.type ≡ e.type)
      × (e'.sub_type ≡ e.sub_type)
      × (e'.payload ≡ e.payload)
      × (is_unset e'.namespace ≡ false)
      × (config_of env e' ≡ config_of env e)
prepare_checks env o e e' h =
    let (known, formed, ad_hoc, same) = prepare-eq-ok env o e e' h in
    subst
      (λ e'.
        ((is_unset (config_of env e') && not o.allow_not_existing_configuration) ≡ false)
        × (periodic (config_of env e') ≡ false)
        × (is_malformed_date e'.start_after ≡ false)
        × (e'.type ≡ e.type)
        × (e'.sub_type ≡ e.sub_type)
        × (e'.payload ≡ e.payload)
        × (is_unset e'.namespace ≡ false)
        × (config_of env e' ≡ config_of env e))
      same
      (
        known,
        ad_hoc,
        bucket_date_formed env (config_of env e) e.start_after formed,
        refl,
        refl,
        refl,
        refl,
        refl,
      )

-- The date that an event has is not kept if its configuration has a time bucket: it is overwritten
-- by the next date of the bucket.
pub prepare_overwrites :
    (env : Environment) (o : Options) (e e' : NewEvent) (c : EventConfig)
    → config_of env e ≡ some c
    → is_missing c.time_bucket ≡ false
    → prepare env o e ≡ ok e'
    → e'.start_after ≡ date (env.next_date (text_of c.time_bucket))
prepare_overwrites env o e e' c found bucket h =
    let (known, formed, ad_hoc, same) = prepare-eq-ok env o e e' h in
    sym (ap (λ x. x.start_after) same) ∙ rw (found, bucket_date, bucket) refl
