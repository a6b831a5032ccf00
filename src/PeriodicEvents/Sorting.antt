-- ===== src/PeriodicEvents/Sorting.antt =====
-- src/periodicEvents.js: how the configured events are told apart by the rows that there are.
use event_queue.Prelude.{
  ◌≡◌, refl, sym, subst, String, Bool, true, Option, none, some, List, [], ◌∷◌, str_eq, any, filter,
  arith, All, Bool-cases, Option-cases, inl, inr, eq_iff,
}
use event_queue.Prelude.Dict.{lookup, insert, lookup-insert}
use event_queue.Database.{Event}
use event_queue.PeriodicEvents.{
  PeriodicEvent, Group, key_of_event, key_of_group, existing_event_map, Sorted, add_sorted,
  sort_events,
}
use event_queue.PeriodicEvents.Groups.{IsBacked}

abbrev pub has_event : String → List PeriodicEvent → Bool
has_event key es = any (λ e. str_eq (key_of_event e) key) es

-- The group stands under its own key, and a row of the table backs it.
abbrev pub IsKept : List Event → String → Option Group → Type 0
IsKept rows key none = Unit
IsKept rows key (some g) = (key_of_group g ≡ key) × IsBacked rows g

pub existing_event_map-IsKept :
    (rows : List Event) (key : String) (gs : List Group) (m : List (String × Group))
    → All (IsBacked rows) gs
    → IsKept rows key (lookup key m)
    → IsKept rows key (lookup key (existing_event_map gs m))
unfolding existing_event_map
existing_event_map-IsKept rows key [] m bs kept = kept
existing_event_map-IsKept rows key (g ∷ gs) m (b, bs) kept =
    existing_event_map-IsKept rows key gs (insert (key_of_group g) g m) bs
      (elim (Bool-cases (str_eq (key_of_group g) key)) [
        | inl same ↦
            rw (lookup-insert (key_of_group g) key g m)
              (rw same ((eq_iff (key_of_group g) key).0 same, b))
        | inr other ↦ rw (lookup-insert (key_of_group g) key g m) (rw other kept)
      ])

abbrev pub IsFound : List (String × Group) → PeriodicEvent × Group → Type 0
IsFound m (e, g) = lookup (key_of_event e) m ≡ some g

add_sorted-keeps :
    (key : String) (e : PeriodicEvent) (o : Option Group) (s : Sorted)
    → has_event key s.new_events ≡ true
    → has_event key (add_sorted e o s).new_events ≡ true
unfolding any
add_sorted-keeps key e none s h = ground arith
add_sorted-keeps key e (some g) s h = ground arith

add_sorted-IsFound :
    (m : List (String × Group)) (e : PeriodicEvent) (o : Option Group) (s : Sorted)
    → lookup (key_of_event e) m ≡ o
    → All (IsFound m) s.existing_events_cron × All (IsFound m) s.existing_events_interval
    → All (IsFound m) (add_sorted e o s).existing_events_cron
      × All (IsFound m) (add_sorted e o s).existing_events_interval
add_sorted-IsFound m e none s found h = h
add_sorted-IsFound m e (some g) s found (c, i) = elim (Option-cases e.cron) [
  | inl absent ↦ rw absent (c, (found, i))
  | inr (cron, there) ↦ rw there ((found, c), i)
]

-- An event without a row is new.
pub sort_events-new :
    (key : String) (es : List PeriodicEvent) (m : List (String × Group))
    → lookup key m ≡ none
    → has_event key es ≡ true
    → has_event key (sort_events es m).new_events ≡ true
unfolding sort_events any
sort_events-new key [] m absent h = h
sort_events-new key (e ∷ es) m absent h = elim (Bool-cases (str_eq (key_of_event e) key)) [
  | inl same ↦
      let absent' : lookup (key_of_event e) m ≡ none =
        subst (λ k. lookup k m ≡ none) (sym ((eq_iff (key_of_event e) key).0 same)) absent in
      rw absent' (ground (arith, same))
  | inr other ↦
      add_sorted-keeps key e (lookup (key_of_event e) m) (sort_events es m)
        (sort_events-new key es m absent (ground (arith, h, other)))
]

pub sort_events-IsFound :
    (es : List PeriodicEvent) (m : List (String × Group))
    → All (IsFound m) (sort_events es m).existing_events_cron
      × All (IsFound m) (sort_events es m).existing_events_interval
unfolding sort_events
sort_events-IsFound [] m = (tt, tt)
sort_events-IsFound (e ∷ es) m =
    add_sorted-IsFound m e (lookup (key_of_event e) m) (sort_events es m) refl
      (sort_events-IsFound es m)

pub All-filter :
    {A : Type 0} (P : A → Type 0) (p : A → Bool) (xs : List A) → All P xs → All P (filter p xs)
unfolding filter
All-filter P p [] h = tt
All-filter P p (x ∷ xs) (h, hs) = elim (Bool-cases (p x)) [
  | inl taken ↦ rw taken (h, All-filter P p xs hs)
  | inr left ↦ rw left (All-filter P p xs hs)
]
