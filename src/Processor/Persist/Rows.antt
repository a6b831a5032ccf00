-- ===== src/Processor/Persist/Rows.antt =====
-- src/EventQueueProcessorBase.js: what `persistEventStatus` leaves in the rows of the event table.
use event_queue.Prelude.{
  ℕ, ◌+◌, ◌-◌, ◌==◌, ◌≡◌, refl, ap, ◌∙◌, sym, subst, true, Option, none, some, List, [], ◌∷◌, ◌++◌,
  if◌then◌else◌, map, map-ext, map-map, map_self, append-nil, ap₂, arith, inl, inr, Bool-cases,
  Option-cases,
}
use event_queue.Prelude.Dict.{lookup, includes, has-lookup}
use event_queue.Constants.{status_open, status_error}
use event_queue.Database.{Event, EventTable, where_id_in}
use event_queue.Processor.Status.{Value, UpdateData}
use event_queue.Processor.Status.Checks.{UpdateMap}
use event_queue.Processor.Persist.{
  Group, RetryConfig, same_key, same_status, same_text, group_entries, row_update, apply_update,
  is_open_or_error, Written, write_group, write_groups, write_group_as, persist, persist_groups,
  add_to_group, insert_saga_events, or_else, time_of, keep_or,
}
use event_queue.Processor.Persist.Groups.{Unique, groups_of, groups_of-none, groups_of-some}

same_status-eq : (a b : Option ℕ) → same_status a b ≡ true → a ≡ b
same_status-eq none none h = refl
same_status-eq none (some b) h = cc
same_status-eq (some a) none h = cc
same_status-eq (some a) (some b) h = ground arith

module _ (config : RetryConfig) (now : ℕ) where
  -- One entry's data written to a row.
  abbrev pub write_row_as : Option ℕ → UpdateData → Event → Event
  write_row_as none u e = e
  write_row_as (some s) u e = apply_update (row_update config now s u) e

  abbrev pub write_row : UpdateData → Event → Event
  write_row u e = write_row_as u.status u e

  abbrev pub write_rows : List UpdateData → Event → Event
  write_rows [] e = e
  write_rows (u ∷ us) e = write_rows us (write_row u e)

  -- The row of an event after the statements of a map.
  unfoldable pub written_row : UpdateMap → Event → Event
  written_row m e = write_rows (groups_of e.id (group_entries [] m)) e

  -- What an entry of the map asks for. An own start time is read from the group's first entry.
  abbrev pub StartTime : ℕ → Option Value → Option ℕ → Option ℕ → Type 0
  StartTime s none old new = new ≡ (
      if is_open_or_error s
      then some
          (now + (if s == status_error then config.retry_failed_after else config.retry_open_after))
      else old)
  StartTime s (some v) old new = Unit

  abbrev pub RowSpec : Option ℕ → Option Value → Event → Event → Type 0
  RowSpec none start e e' = e' ≡ e
  RowSpec (some s) start e e' =
      (e'.id ≡ e.id)
      × (e'.status ≡ s)
      × (e'.attempts ≡ (if s == status_open then e.attempts - 1 else e.attempts))
      × (e'.last_attempt_timestamp ≡ some now)
      × StartTime s start e.start_after e'.start_after

  abbrev pub EntrySpec : Option UpdateData → Event → Event → Type 0
  EntrySpec none e e' = e' ≡ e
  EntrySpec (some u) e e' = RowSpec u.status u.start_after e e'

  StartTime-row_update :
      (s : ℕ) (a b : Option Value) (old : Option ℕ)
      → same_text b a ≡ true
      → StartTime s a old (
          keep_or
            (if is_open_or_error s
              then or_else (time_of b) (
                  now
                  + (if s == status_error
                      then config.retry_failed_after
                      else config.retry_open_after))
              else none)
            old)
  StartTime-row_update s none none old h = ground arith
  StartTime-row_update s none (some v) old h = cc
  StartTime-row_update s (some v) b old h = tt

  RowSpec-apply_update :
      (s : ℕ) (u v : UpdateData) (e : Event)
      → same_text v.start_after u.start_after ≡ true
      → RowSpec (some s) u.start_after e (apply_update (row_update config now s v) e)
  unfolding row_update apply_update
  RowSpec-apply_update s u v e h =
      (refl, refl, refl, refl, StartTime-row_update s u.start_after v.start_after e.start_after h)

  RowSpec-write_row_as :
      (o : Option ℕ) (u v : UpdateData) (e : Event)
      → same_text v.start_after u.start_after ≡ true
      → RowSpec o u.start_after e (write_row_as o v e)
  RowSpec-write_row_as none u v e h = refl
  RowSpec-write_row_as (some s) u v e h = RowSpec-apply_update s u v e h

  id-write_row_as : (o : Option ℕ) (u : UpdateData) (e : Event) → (write_row_as o u e).id ≡ e.id
  unfolding apply_update
  id-write_row_as none u e = refl
  id-write_row_as (some s) u e = refl

  write_row-RowSpec :
      (u v : UpdateData) (e : Event)
      → same_key v u ≡ true
      → RowSpec u.status u.start_after e (write_row v e)
  unfolding same_key
  write_row-RowSpec u v e h =
      subst (λ o. RowSpec u.status u.start_after e (write_row_as o v e))
        (sym (same_status-eq v.status u.status (ground arith)))
        (RowSpec-write_row_as u.status u v e (ground arith))

  written_row-EntrySpec :
      (m : UpdateMap) (e : Event) → Unique m → EntrySpec (lookup e.id m) e (written_row m e)
  unfolding written_row
  written_row-EntrySpec m e unique = elim (Option-cases (lookup e.id m)) [
    | inl missing ↦
        subst (λ o. EntrySpec o e (written_row m e)) (sym missing)
          (ap (λ us. write_rows us e) (groups_of-none e.id m (rw (has-lookup e.id m) (rw missing))))
    | inr (u, found) ↦
        let (v, only, key) = groups_of-some e.id m u unique found in
        subst (λ o. EntrySpec o e (written_row m e)) (sym found)
          (subst (λ us. RowSpec u.status u.start_after e (write_rows us e)) (sym only)
            (write_row-RowSpec u v e key))
  ]

module _ (db : EventTable) (config : RetryConfig) (now : ℕ) where
  open db use {Table, rows, rows-update, insert_into, rows-insert_into}

  -- One group's statement on a row.
  abbrev write_group_row : Group → Event → Event
  write_group_row g e = if includes e.id g.ids then write_row config now g.data_of e else e

  rows-write_group_as :
      (o : Option ℕ) (g : Group) (w : Written db)
      → rows (write_group_as db config now o g w).table
        ≡ map (where_id_in g.ids (write_row_as config now o g.data_of)) (rows w.table)
  rows-write_group_as none g w =
      sym (map_self (where_id_in g.ids (λ e. e)) (rows w.table) (λ e. ground arith))
  rows-write_group_as (some s) g w =
      rows-update g.ids (apply_update (row_update config now s g.data_of)) w.table

  rows-write_group :
      (g : Group) (w : Written db)
      → rows (write_group db config now g w).table ≡ map (write_group_row g) (rows w.table)
  unfolding write_group
  rows-write_group g w = rows-write_group_as g.data_of.status g w

  id-write_group_row : (g : Group) (e : Event) → (write_group_row g e).id ≡ e.id
  id-write_group_row g e = ground (arith, id-write_row_as config now g.data_of.status g.data_of e)

  write_rows-cons :
      (g : Group) (gs : List Group) (e : Event)
      → write_rows config now (groups_of (write_group_row g e).id gs) (write_group_row g e)
        ≡ write_rows config now (groups_of e.id (g ∷ gs)) e
  unfolding groups_of
  write_rows-cons g gs e =
      rw (id-write_group_row g e)
        (elim (Bool-cases (includes e.id g.ids)) [ inl member ↦ rw member | inr other ↦ rw other ])

  rows-write_groups :
      (gs : List Group) (w : Written db)
      → rows (write_groups db config now gs w).table
        ≡ map (λ e. write_rows config now (groups_of e.id gs) e) (rows w.table)
  unfolding write_groups groups_of
  rows-write_groups [] w = sym (map_self (λ e. e) (rows w.table) (λ e. refl))
  rows-write_groups (g ∷ gs) w =
      rows-write_groups gs (write_group db config now g w)
      ∙ ap (map (λ e. write_rows config now (groups_of e.id gs) e)) (rows-write_group g w)
      ∙ map-map (write_group_row g) (λ e. write_rows config now (groups_of e.id gs) e)
          (rows w.table)
      ∙ map-ext
          (λ e. write_rows config now (groups_of (write_group_row g e).id gs) (write_group_row g e))
          (λ e. write_rows config now (groups_of e.id (g ∷ gs)) e) (rows w.table)
          (write_rows-cons g gs)

  write_groups-next_saga_events :
      (gs : List Group) (w : Written db)
      → (write_groups db config now gs w).next_saga_events ≡ w.next_saga_events
  unfolding write_groups
  write_groups-next_saga_events [] w = refl
  write_groups-next_saga_events (g ∷ gs) w =
      write_groups-next_saga_events gs (write_group db config now g w) ∙ ground arith

  rows-insert_saga_events :
      (es : List Event) (w : Written db)
      → rows (insert_saga_events db config now es w).table ≡ rows w.table ++ es
  rows-insert_saga_events [] w = sym (append-nil (rows w.table))
  rows-insert_saga_events (e ∷ es) w = rows-insert_into (e ∷ es) w.table

  abbrev saga_rows : List Group → Written db → List Event
  saga_rows [] w = []
  saga_rows (g ∷ gs) w = w.next_saga_events

  rows-persist_groups :
      (gs : List Group) (w : Written db)
      → rows (persist_groups db config now gs w).table
        ≡ map (λ e. write_rows config now (groups_of e.id gs) e) (rows w.table) ++ saga_rows gs w
  unfolding groups_of
  rows-persist_groups [] w = sym (append-nil _ ∙ map_self (λ e. e) (rows w.table) (λ e. refl))
  rows-persist_groups (g ∷ gs) w =
      let w' = write_groups db config now (g ∷ gs) w in
      rows-insert_saga_events w'.next_saga_events w'
      ∙ ap₂ ◌++◌ (rows-write_groups (g ∷ gs) w) (write_groups-next_saga_events (g ∷ gs) w)

  abbrev pub new_rows : UpdateMap → Written db → List Event
  new_rows [] w = []
  new_rows (_ ∷ _) w = w.next_saga_events

  saga_rows-group_entries :
      (g : Group) (gs : List Group) (m : UpdateMap) (w : Written db)
      → saga_rows (group_entries (g ∷ gs) m) w ≡ w.next_saga_events
  unfolding group_entries add_to_group
  saga_rows-group_entries g gs [] w = refl
  saga_rows-group_entries g gs ((id, u) ∷ m) w = elim (Bool-cases (same_key g.data_of u)) [
    | inl same ↦
        rw (same, add_to_group)
          (saga_rows-group_entries (record g { ids = g.ids ++ id ∷ [] }) gs m w)
    | inr other ↦ rw (other, add_to_group) (saga_rows-group_entries g (add_to_group id u gs) m w)
  ]

  saga_rows-new_rows :
      (m : UpdateMap) (w : Written db) → saga_rows (group_entries [] m) w ≡ new_rows m w
  unfolding group_entries add_to_group
  saga_rows-new_rows [] w = refl
  saga_rows-new_rows ((id, u) ∷ m) w = saga_rows-group_entries _ [] m w

  -- The rows after `persistEventStatus` of a map with one entry for each id: every row whose id has
  -- an entry has the status of the entry and the time of the call, one attempt less if that is
  -- Open, and without an own start time the configured delay if that is Open or Error; the other
  -- rows are as they were; the saga events are added if the map has an entry.
  pub persist-rows :
      (m : UpdateMap) (w : Written db)
      → Unique m
      → (rows (persist db config now m w).table
          ≡ map (written_row config now m) (rows w.table) ++ new_rows m w)
        × ((e : Event) → EntrySpec config now (lookup e.id m) e (written_row config now m e))
  unfolding persist written_row
  persist-rows m w unique = (
    rows-persist_groups (group_entries [] m) w
        ∙ ap (λ l. map (written_row config now m) (rows w.table) ++ l) (saga_rows-new_rows m w),
    λ e. written_row-EntrySpec config now m e unique,
  )
