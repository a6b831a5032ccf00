-- ===== src/PeriodicEvents/Covered.antt =====
-- src/periodicEvents.js: every configured event has a row afterwards, where all rows are in one
-- namespace.
use event_queue.Prelude.{
  ◌≡◌, refl, sym, subst, ◌∙◌, ap, ℕ, String, Bool, true, false, not, ◌&&◌, Option, List, [], ◌∷◌,
  ◌++◌, str_eq, any, any-append, filter, filter_all, append-nil, map, arith, All, All-append,
  All-map, Bool-cases, Option-cases, inl, inr, eq_iff,
}
use event_queue.Prelude.Dict.{lookup}
use event_queue.Database.{Event, EventTable}
use event_queue.PeriodicEvents.{
  PeriodicEvent, Group, key_of, key_of_event, key_of_group, is_pending, current_periodic_events,
  sort_events, has_same_date, changed_events, new_row, insert_period_events, update_events,
  check_and_insert_periodic_events, has_changed_interval, has_changed_cron, delete_changed,
  insert_unless_empty, check_groups,
}
use event_queue.PeriodicEvents.Groups.{represents, IsBacked, current_periodic_events-IsBacked}
use event_queue.PeriodicEvents.Sorting.{
  has_event, IsKept, existing_event_map-IsKept, sort_events-new, IsFound, sort_events-IsFound,
  All-filter,
}
use event_queue.PeriodicEvents.{is_replaced}

abbrev pub key_of_row : Event → String
key_of_row r = key_of r.namespace r.type r.sub_type

-- A row of the key is Open or InProgress.
abbrev pub is_covered : String → List Event → Bool
is_covered key rows = any (λ r. str_eq (key_of_row r) key && is_pending r) rows

module _ (namespace : String) where
  abbrev pub IsSingle : List Event → Type 0
  IsSingle rows = All (λ r. r.namespace ≡ namespace) rows

  -- What holds of an event whose row is replaced.
  abbrev IsReplaced : PeriodicEvent × Group → Type 0
  IsReplaced (e, g) = (key_of_group g ≡ key_of_event e) × (g.namespace ≡ namespace)

  IsBacked-namespace :
      (rows : List Event) (g : Group) → IsSingle rows → IsBacked rows g → g.namespace ≡ namespace
  unfolding any
  IsBacked-namespace [] g single h = absurd (ground (arith, h))
  IsBacked-namespace (r ∷ rs) g (same, single) h = elim (Bool-cases (represents g r)) [
    | inl here ↦ (eq_iff g.namespace r.namespace).0 (ground (arith, here)) ∙ same
    | inr there ↦ IsBacked-namespace rs g single (ground (arith, h, there))
  ]

  key_of_row-same_date :
      (r : Event) (g : Group)
      → r.namespace ≡ g.namespace
      → has_same_date r g ≡ true
      → key_of_row r ≡ key_of_group g
  key_of_row-same_date r g same h =
      let type = (eq_iff g.type r.type).0 (ground (arith, h)) in
      let sub_type = (eq_iff g.sub_type r.sub_type).0 (ground (arith, h)) in
      rw (same, type, sub_type) refl

  is_replaced-other :
      (key : String) (r : Event) (cs : List (PeriodicEvent × Group))
      → r.namespace ≡ namespace
      → key_of_row r ≡ key
      → All IsReplaced cs
      → has_event key (map (λ c. c.0) cs) ≡ false
      → is_replaced cs r ≡ false
  unfolding any
  is_replaced-other key r [] same here h other = refl
  is_replaced-other key r ((e, g) ∷ cs) same here ((found, same'), h) other =
      let rest = is_replaced-other key r cs same here h (ground (arith, other)) in
      elim (Bool-cases (has_same_date r g)) [
        | inl taken ↦
            let k : key_of_event e ≡ key =
              sym found ∙ sym (key_of_row-same_date r g (same ∙ sym same') taken) ∙ here in
            absurd (ground (arith, other, (eq_iff (key_of_event e) key).1 k))
        | inr left ↦ ground (arith, left, rest)
      ]

  -- The row that backs a group of another key stays.
  is_covered-kept :
      (key : String) (g : Group) (cs : List (PeriodicEvent × Group)) (rows : List Event)
      → key_of_group g ≡ key
      → All IsReplaced cs
      → has_event key (map (λ c. c.0) cs) ≡ false
      → IsSingle rows
      → IsBacked rows g
      → is_covered key (filter (λ r. not (is_replaced cs r)) rows) ≡ true
  unfolding any filter
  is_covered-kept key g cs [] here h other single backed = absurd (ground (arith, backed))
  is_covered-kept key g cs (r ∷ rs) here h other (same, single) backed =
      elim (Bool-cases (represents g r)) [
        | inl found ↦
            let is_key =
              key_of_row-same_date r g
                (sym ((eq_iff g.namespace r.namespace).0 (ground (arith, found))))
                (ground (arith, found))
              ∙ here in
            rw (is_replaced-other key r cs same is_key h other)
              (ground (arith, found, (eq_iff (key_of_row r) key).1 is_key))
        | inr elsewhere ↦
            let rest =
              is_covered-kept key g cs rs here h other single (ground (arith, backed, elsewhere)) in
            ground (arith, rest)
      ]

module _ (next_date : String → Option String → ℕ → ℕ) (new_id : PeriodicEvent → String) where
  is_covered-new_row :
      (now : ℕ) (key : String) (es : List PeriodicEvent)
      → is_covered key (map (new_row next_date new_id now) es) ≡ has_event key es
  unfolding any new_row
  is_covered-new_row now key [] = refl
  is_covered-new_row now key (e ∷ es) = ground (arith, is_covered-new_row now key es)

  module _ (db : EventTable) (now : ℕ) where
    open db use {Table, rows, delete_where, insert_into, rows-delete_where, rows-insert_into}

    rows-delete_changed :
        (cs : List (PeriodicEvent × Group)) (t : Table)
        → rows (delete_changed next_date new_id db cs t)
          ≡ filter (λ r. not (is_replaced cs r)) (rows t)
    unfolding any
    rows-delete_changed [] t = sym (filter_all (rows t))
    rows-delete_changed (c ∷ cs) t = rows-delete_where _ t

    rows-insert_unless_empty :
        (es : List PeriodicEvent) (t : Table)
        → rows (insert_unless_empty next_date new_id db now es t)
          ≡ rows t ++ map (new_row next_date new_id now) es
    unfolding insert_period_events
    rows-insert_unless_empty [] t = sym (append-nil (rows t))
    rows-insert_unless_empty (e ∷ es) t = rows-insert_into _ t

    changed_events-IsReplaced :
        (namespace : String) (es : List PeriodicEvent) (m : List (String × Group)) (t : Table)
        → IsSingle namespace (rows t)
        → ((k : String) → IsKept (rows t) k (lookup k m))
        → All (IsReplaced namespace) (changed_events next_date new_id now (sort_events es m))
    unfolding changed_events
    changed_events-IsReplaced namespace es m t single kept =
        let (cron, interval) = sort_events-IsFound es m in
        All-map
          (λ (e, g) found.
            let (key, backed) =
              subst (IsKept (rows t) (key_of_event e)) found (kept (key_of_event e)) in
            (key, IsBacked-namespace namespace (rows t) g single backed))
          _
          (All-append (IsFound m) _ _ (All-filter (IsFound m) (has_changed_interval now) _ interval)
            (All-filter (IsFound m) (has_changed_cron next_date new_id) _ cron))

    -- What an update leaves, where every group that there is is found under its event's key.
    update_events-covered :
        (namespace key : String) (es : List PeriodicEvent) (m : List (String × Group)) (t : Table)
        → IsSingle namespace (rows t)
        → ((k : String) → IsKept (rows t) k (lookup k m))
        → has_event key es ≡ true
        → is_covered key (rows (update_events next_date new_id db now (sort_events es m) t)) ≡ true
    unfolding update_events
    update_events-covered namespace key es m t single kept given =
        let s = sort_events es m in
        let changed = changed_events next_date new_id now s in
        let inserted = s.new_events ++ map (λ c. c.0) changed in
        let left = filter (λ r. not (is_replaced changed r)) (rows t) in
        let leaves =
          rows-insert_unless_empty inserted (delete_changed next_date new_id db changed t)
          ∙ ap (λ l. l ++ map (new_row next_date new_id now) inserted)
              (rows-delete_changed changed t) in
        let new =
          is_covered-new_row now key inserted
          ∙ any-append (λ e. str_eq (key_of_event e) key) s.new_events (map (λ c. c.0) changed) in
        let replaced = changed_events-IsReplaced namespace es m t single kept in
        rw (leaves, any-append)
          (elim (Bool-cases (has_event key (map (λ c. c.0) changed))) [
            | inl again ↦ ground (arith, new, again)
            | inr other ↦ elim (Option-cases (lookup key m)) [
              | inl absent ↦ ground (arith, new, sort_events-new key es m absent given)
              | inr (g, there) ↦
                  let (same, backed) = subst (IsKept (rows t) key) there (kept key) in
                  ground (
                    arith,
                    is_covered-kept namespace key g changed (rows t) same replaced other single
                        backed,
                  )
            ]
          ])

    check_groups-covered :
        (namespace key : String) (es : List PeriodicEvent) (gs : List Group) (t : Table)
        → IsSingle namespace (rows t)
        → All (IsBacked (rows t)) gs
        → has_event key es ≡ true
        → is_covered key (rows (check_groups next_date new_id db now es gs t)) ≡ true
    unfolding insert_period_events lookup
    check_groups-covered namespace key es [] t single backed given =
        rw (rows-insert_into (map (new_row next_date new_id now) es) t, any-append)
          (ground (arith, is_covered-new_row now key es, given))
    check_groups-covered namespace key es (g ∷ gs) t single backed given =
        update_events-covered namespace key es _ t single
          (λ k. existing_event_map-IsKept (rows t) k (g ∷ gs) [] backed tt) given

    -- If all rows of the table are in one namespace, every configured event has a row afterwards
    -- that is Open or InProgress and has its key.
    pub check_and_insert_periodic_events-covered :
        (namespace key : String) (es : List PeriodicEvent) (t : Table)
        → IsSingle namespace (rows t)
        → has_event key es ≡ true
        → is_covered key (rows (check_and_insert_periodic_events next_date new_id db now es t))
          ≡ true
    unfolding check_and_insert_periodic_events
    check_and_insert_periodic_events-covered namespace key es t single given =
        check_groups-covered namespace key es (current_periodic_events es (rows t)) t single
          (current_periodic_events-IsBacked es (rows t)) given
