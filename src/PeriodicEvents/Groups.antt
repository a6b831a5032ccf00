-- ===== src/PeriodicEvents/Groups.antt =====
-- src/periodicEvents.js: the grouped selection, and the rows that give the groups their dates.
use event_queue.Prelude.{
  ◌≡◌, ◌⊎◌, refl, String, Bool, true, ◌&&◌, List, [], ◌∷◌, str_eq, any, filter, arith, All,
  Bool-cases, inl, inr, eq_iff,
}
use event_queue.Database.{Event}
use event_queue.PeriodicEvents.{
  PeriodicEvent, Group, is_pending, is_in_group, group_of, later_of, add_to_groups, group_by,
  current_periodic_events, has_same_date, is_row_of,
}

-- A pending row that gave the group its date.
abbrev pub represents : Group → Event → Bool
represents g r = is_pending r && (is_in_group r g && has_same_date r g)

-- Some row of the table gave the group its date.
abbrev pub IsBacked : List Event → Group → Type 0
IsBacked rows g = any (represents g) rows ≡ true

-- What holds of a row of the table, that it is one and pending.
abbrev IsPendingIn : List Event → Event → Type 0
IsPendingIn rows r = ((p : Event → Bool) → p r ≡ true → any p rows ≡ true) × (is_pending r ≡ true)

date_cases :
    (g : Group) (r : Event)
    → (later_of g.start_after r.start_after ≡ g.start_after)
      ⊎ (later_of g.start_after r.start_after ≡ r.start_after)
date_cases g r = ground arith

pub same_text : (s : String) → str_eq s s ≡ true
same_text s = (eq_iff s s).1 refl

represents_merged :
    (g : Group) (r : Event)
    → is_pending r ≡ true
    → is_in_group r g ≡ true
    → later_of g.start_after r.start_after ≡ r.start_after
    → represents (record g { start_after = later_of g.start_after r.start_after }) r ≡ true
represents_merged g r pending inside date = rw date (ground (arith, pending, inside))

add_to_groups-IsBacked :
    (rows : List Event) (r : Event) (gs : List Group)
    → IsPendingIn rows r
    → All (IsBacked rows) gs
    → All (IsBacked rows) (add_to_groups r gs)
unfolding add_to_groups
add_to_groups-IsBacked rows r [] (there, pending) bs = (
  there (represents (group_of r))
      (ground (arith, pending, same_text r.type, same_text r.sub_type, same_text r.namespace)),
  tt,
)
add_to_groups-IsBacked rows r (g ∷ gs) (there, pending) (b, bs) =
    elim (Bool-cases (is_in_group r g)) [
      | inl inside ↦
          let merged : Group = record g { start_after = later_of g.start_after r.start_after } in
          let backed : IsBacked rows merged = elim (date_cases g r) [
            | inl old ↦ rw old b
            | inr new ↦ there (represents merged) (represents_merged g r pending inside new)
          ] in
          rw inside (backed, bs)
      | inr outside ↦ rw outside (b, add_to_groups-IsBacked rows r gs (there, pending) bs)
    ]

group_by-IsBacked :
    (rows : List Event) (rs : List Event) (gs : List Group)
    → All (IsPendingIn rows) rs
    → All (IsBacked rows) gs
    → All (IsBacked rows) (group_by rs gs)
unfolding group_by
group_by-IsBacked rows [] gs h bs = bs
group_by-IsBacked rows (r ∷ rs) gs (p, h) bs =
    group_by-IsBacked rows rs (add_to_groups r gs) h (add_to_groups-IsBacked rows r gs p bs)

-- The rows that the selection reads are pending rows of the table.
filter-pending :
    (rows rs : List Event) (q : Event → Bool)
    → ((p : Event → Bool) → any p rs ≡ true → any p rows ≡ true)
    → All (IsPendingIn rows) (filter (λ r. q r && is_pending r) rs)
unfolding filter any
filter-pending rows [] q sub = tt
filter-pending rows (r ∷ rs) q sub =
    let rest = filter-pending rows rs q (λ p h. sub p (ground (arith, h))) in
    elim (Bool-cases (q r && is_pending r)) [
      | inl taken ↦ rw taken ((λ p h. sub p (ground (arith, h)), ground (arith, taken)), rest)
      | inr left ↦ rw left rest
    ]

pub current_periodic_events-IsBacked :
    (es : List PeriodicEvent) (rows : List Event)
    → All (IsBacked rows) (current_periodic_events es rows)
unfolding current_periodic_events
current_periodic_events-IsBacked es rows =
    group_by-IsBacked rows _ [] (filter-pending rows rows (λ r. any (is_row_of r) es) (λ p h. h)) tt
