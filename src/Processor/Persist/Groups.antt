-- ===== src/Processor/Persist/Groups.antt =====
-- src/EventQueueProcessorBase.js: the groups of `persistEventStatus`.
use event_queue.Prelude.{
  ℕ, ◌≡◌, refl, ◌∙◌, sym, subst, String, true, false, ◌||◌, Option, none, some, List, [], ◌∷◌, ◌++◌,
  if◌then◌else◌, str_eq, eq_iff, arith, inl, inr, Bool-cases,
}
use event_queue.Prelude.Dict.{lookup, has, includes}
use event_queue.Processor.Status.{Value, UpdateData}
use event_queue.Processor.Status.Checks.{UpdateMap}
use event_queue.Processor.Persist.{
  Group, same_key, same_status, same_text, add_to_group, group_entries,
}

-- The data of the groups that name an id, in their order.
unfoldable pub groups_of : String → List Group → List UpdateData
groups_of id [] = []
groups_of id (g ∷ gs) =
    let rest = groups_of id gs in if includes id g.ids then g.data_of ∷ rest else rest

-- Every key stands once.
abbrev pub Unique : UpdateMap → Type 0
Unique [] = Unit
Unique ((id, u) ∷ m) = (has id m ≡ false) × Unique m

includes-append :
    (id : String) (xs ys : List String)
    → includes id (xs ++ ys) ≡ (includes id xs || includes id ys)
unfolding includes
includes-append id [] ys = refl
includes-append id (x ∷ xs) ys = ground (arith, includes-append id xs ys)

same_status_refl : (o : Option ℕ) → same_status o o ≡ true
same_status_refl none = refl
same_status_refl (some a) = ground arith

same_text_refl : (o : Option Value) → same_text o o ≡ true
same_text_refl none = refl
same_text_refl (some v) = ground (arith, eq_iff v.text v.text)

same_key_refl : (u : UpdateData) → same_key u u ≡ true
unfolding same_key
same_key_refl u = ground (
  arith,
  same_status_refl u.status,
  same_text_refl u.start_after,
  same_text_refl u.error,
  same_text_refl u.next_data,
)

-- The group that an entry joins has the key of the entry.
groups_of-add_to_group :
    (id : String) (u : UpdateData) (gs : List Group)
    → groups_of id gs ≡ []
    → (v : UpdateData) × (groups_of id (add_to_group id u gs) ≡ v ∷ []) × (same_key v u ≡ true)
unfolding groups_of add_to_group includes
groups_of-add_to_group id u [] h = (u, ground (arith, eq_iff id id), same_key_refl u)
groups_of-add_to_group id u (g ∷ gs) h = elim (Bool-cases (same_key g.data_of u)) [
  | inl same ↦ (g.data_of, ground (arith, eq_iff id id, includes-append id g.ids (id ∷ [])), same)
  | inr other ↦
      let (v, eq, key) = groups_of-add_to_group id u gs (ground arith) in (v, ground arith, key)
]

includes-other : (id j : String) → str_eq j id ≡ false → includes id (j ∷ []) ≡ false
unfolding includes
includes-other id j h = ground arith

groups_of-add_to_group_other :
    (id j : String) (u : UpdateData) (gs : List Group)
    → str_eq j id ≡ false
    → groups_of id (add_to_group j u gs) ≡ groups_of id gs
unfolding groups_of add_to_group
groups_of-add_to_group_other id j u [] h = ground (arith, includes-other id j h)
groups_of-add_to_group_other id j u (g ∷ gs) h = elim (Bool-cases (same_key g.data_of u)) [
  | inl same ↦ ground (arith, same, h, includes-append id g.ids (j ∷ []), includes-other id j h)
  | inr other ↦ ground (arith, other, groups_of-add_to_group_other id j u gs h)
]

-- In the groups of a map, an id with an entry is named by one group, whose data has the key of the
-- entry; an id without one is named by none.
group_entries-groups_of-none :
    (id : String) (m : UpdateMap) (gs : List Group)
    → has id m ≡ false
    → groups_of id (group_entries gs m) ≡ groups_of id gs
unfolding group_entries has
group_entries-groups_of-none id [] gs h = refl
group_entries-groups_of-none id ((j, u) ∷ m) gs h =
    group_entries-groups_of-none id m (add_to_group j u gs) (ground arith)
    ∙ groups_of-add_to_group_other id j u gs (ground arith)

group_entries-groups_of-some :
    (id : String) (m : UpdateMap) (gs : List Group) (u : UpdateData)
    → Unique m
    → groups_of id gs ≡ []
    → lookup id m ≡ some u
    → (v : UpdateData) × (groups_of id (group_entries gs m) ≡ v ∷ []) × (same_key v u ≡ true)
unfolding group_entries lookup
group_entries-groups_of-some id [] gs u unique fresh h = absurd (ground arith)
group_entries-groups_of-some id ((j, w) ∷ m) gs u (absent, unique) fresh h =
    elim (Bool-cases (str_eq j id)) [
      | inl same ↦
          let here : j ≡ id = (eq_iff j id).0 same in
          let is_u : w ≡ u = ground arith in
          let (v, eq, key) = groups_of-add_to_group id w gs fresh in
          (
            v,
            group_entries-groups_of-none id m (add_to_group j w gs)
                  (subst (λ k. has k m ≡ false) here absent)
                ∙ subst (λ k. groups_of id (add_to_group k w gs) ≡ v ∷ []) (sym here) eq,
            subst (λ x. same_key v x ≡ true) is_u key,
          )
      | inr other ↦
          group_entries-groups_of-some id m (add_to_group j w gs) u unique
            (groups_of-add_to_group_other id j w gs other ∙ fresh) (ground arith)
    ]

pub groups_of-none :
    (id : String) (m : UpdateMap) → has id m ≡ false → groups_of id (group_entries [] m) ≡ []
unfolding groups_of
groups_of-none id m h = group_entries-groups_of-none id m [] h

pub groups_of-some :
    (id : String) (m : UpdateMap) (u : UpdateData)
    → Unique m
    → lookup id m ≡ some u
    → (v : UpdateData) × (groups_of id (group_entries [] m) ≡ v ∷ []) × (same_key v u ≡ true)
unfolding groups_of
groups_of-some id m u unique h = group_entries-groups_of-some id m [] u unique refl h
