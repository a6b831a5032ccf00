-- ===== src/Housekeeping/Deleted.antt =====
-- src/housekeeping/EventQueueDeleteEvents.js: which rows are deleted.
use event_queue.Prelude.{
  ◌≡◌, refl, sym, ◌∙◌, ap, ℕ, ◌+◌, ◌*◌, ◌==◌, leb, String, str_eq, Bool, false, not, ◌&&◌, ◌||◌,
  Option, none, some, Option-cases, inl, inr, if◌then◌else◌, List, [], ◌∷◌, ◌++◌, any, any-append,
  filter, filter_all, arith,
}
use event_queue.Prelude.Dict.{includes}
use event_queue.Database.{Event, EventTable}
use event_queue.Housekeeping.{
  EventConfig, days_of, ByDays, add_by_days, delete_by_days, has_type, is_older, is_deleted,
  delete_groups, process_periodic_event,
}

filter-filter {ℓ} :
    {A : Type ℓ} (p q : A → Bool) (xs : List A)
    → filter p (filter q xs) ≡ filter (λ x. q x && p x) xs
unfolding filter
filter-filter p q [] = refl
filter-filter p q (x ∷ xs) = ground (arith, filter-filter p q xs)

filter_ext {ℓ} :
    {A : Type ℓ} (p q : A → Bool)
    → ((x : A) → p x ≡ q x)
    → (xs : List A) → filter p xs ≡ filter q xs
unfolding filter
filter_ext p q h [] = refl
filter_ext p q h (x ∷ xs) = rw (h x, filter_ext p q h xs) refl

-- The days that the rows of a configuration are kept.
abbrev pub kept_days : Option ℕ → ℕ
kept_days none = 7
kept_days (some days) = if days == 0 then 7 else days

days_of-kept_days : (c : EventConfig) → days_of c ≡ kept_days c.delete_finished_events_after_days
unfolding days_of
days_of-kept_days c = ground arith

module _ (namespaces : List String) (timestamp : ℕ) where
  -- The last attempt was at least that many days ago; a row that was never tried is not old.
  abbrev pub was_tried_before : (last_attempt : Option ℕ) → (days : ℕ) → Bool
  was_tried_before none days = false
  was_tried_before (some t) days = leb (t + days * 86400000) timestamp

  -- A row that a configuration has deleted: it is of its type and sub type, in a processed
  -- namespace, and was last tried as many days ago as are kept.
  abbrev pub takes : Event → EventConfig → Bool
  takes e c =
      (str_eq c.type e.type && str_eq c.sub_type e.sub_type)
      && (was_tried_before e.last_attempt_timestamp (kept_days c.delete_finished_events_after_days)
          && includes e.namespace namespaces)

  is_older-days_of :
      (e : Event) (c : EventConfig)
      → is_older timestamp (days_of c) e
        ≡ was_tried_before e.last_attempt_timestamp (kept_days c.delete_finished_events_after_days)
  unfolding is_older
  is_older-days_of e c =
      ap (λ d. is_older timestamp d e) (days_of-kept_days c)
      ∙ elim (Option-cases e.last_attempt_timestamp) [
        | inl never ↦ rw never refl
        | inr (t, tried) ↦ rw tried refl
      ]

  abbrev any_group : Event → ByDays → Bool
  any_group e gs = any (λ g. is_deleted namespaces timestamp g e) gs

  any_group-add_by_days :
      (e : Event) (c : EventConfig) (gs : ByDays)
      → any_group e (add_by_days c gs) ≡ (takes e c || any_group e gs)
  unfolding any add_by_days is_deleted
  any_group-add_by_days e c [] = ground (arith, is_older-days_of e c)
  any_group-add_by_days e c ((days, cs) ∷ gs) = ground (
    arith,
    any-append (has_type e) cs (c ∷ []),
    any_group-add_by_days e c gs,
    is_older-days_of e c,
  )

  any_group-delete_by_days :
      (e : Event) (cs : List EventConfig) (gs : ByDays)
      → any_group e (delete_by_days cs gs) ≡ (any (takes e) cs || any_group e gs)
  unfolding any delete_by_days
  any_group-delete_by_days e [] gs = refl
  any_group-delete_by_days e (c ∷ cs) gs =
      ground (arith, any_group-delete_by_days e cs (add_by_days c gs), any_group-add_by_days e c gs)

  module _ (db : EventTable) where
    open db use {Table, rows, delete_where, rows-delete_where}

    rows-delete_groups :
        (gs : ByDays) (t : Table)
        → rows (delete_groups db namespaces timestamp gs t)
          ≡ filter (λ e. not (any_group e gs)) (rows t)
    unfolding delete_groups any
    rows-delete_groups [] t = sym (filter_all (rows t))
    rows-delete_groups (g ∷ gs) t =
        rows-delete_groups gs (delete_where (is_deleted namespaces timestamp g) t)
        ∙ ap (filter (λ e. not (any_group e gs))) (rows-delete_where _ t)
        ∙ filter-filter _ _ (rows t)
        ∙ filter_ext _ _ (λ e. ground arith) (rows t)

    -- The deletion takes exactly the rows of a configured type and sub type whose last attempt is
    -- as old as the configuration says, in a processed namespace, whatever their status is; 0 days
    -- count as the default of 7, and rows that were never tried stay.
    pub rows-process_periodic_event :
        (events periodic_events : List EventConfig) (t : Table)
        → rows (process_periodic_event db namespaces timestamp events periodic_events t)
          ≡ filter (λ e. not (any (takes e) (events ++ periodic_events))) (rows t)
    unfolding process_periodic_event any
    rows-process_periodic_event events periodic_events t =
        rows-delete_groups (delete_by_days (events ++ periodic_events) []) t
        ∙ filter_ext _ _
            (λ e. ground (arith, any_group-delete_by_days e (events ++ periodic_events) []))
            (rows t)
