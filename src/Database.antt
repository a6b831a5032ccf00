-- ===== src/Database.antt =====
-- db/Event.cds and the statements that the code sends to the event table. The database is not part
-- of the repository: a table is any type with the operations of `EventTable`, which say what the
-- statements of CAP do to its rows.
use mathlib.Core.List.{Mem, mem-cons_self, mem-cons_of_mem}
use event_queue.Prelude.{
  ℕ, zero, suc, ◌≤◌, String, Option, List, [], ◌∷◌, map, ◌++◌, ◌≡◌, if◌then◌else◌, refl, Bool, true,
  false, not, filter, All, All-map, length, arith, Bool-cases, inl, inr,
}
use event_queue.Prelude.Dict.{includes}

pub record Event : Type 0 where
  pub id : String
  pub type : String
  pub sub_type : String
  pub namespace : String
  pub status : ℕ
  pub payload : Option String
  pub attempts : ℕ
  pub last_attempt_timestamp : Option ℕ
  pub created_at : ℕ
  pub start_after : Option ℕ
  pub error : Option String

abbrev pub where_id_in : List String → (Event → Event) → Event → Event
where_id_in ids f e = if includes e.id ids then f e else e

pub record EventTable : Type 1 where
  pub Table : Type 0
  pub rows : Table → List Event
  -- `SELECT.from(…).limit(n).where(…)`: rows that fulfil the condition, at most `n`, in some order.
  pub select : (Event → Bool) → ℕ → Table → List Event
  pub select_where :
      (p : Event → Bool) (n : ℕ) (t : Table)
      → All (λ e. (p e ≡ true) × Mem e (rows t)) (select p n t)
  pub length-select : (p : Event → Bool) (n : ℕ) (t : Table) → length (select p n t) ≤ n
  -- `DELETE.from(…).where(…)`.
  pub delete_where : (Event → Bool) → Table → Table
  pub rows-delete_where :
      (p : Event → Bool) (t : Table) → rows (delete_where p t) ≡ filter (λ e. not (p e)) (rows t)
  -- `UPDATE.entity(…).set(…).where("ID IN", ids)`.
  pub update : List String → (Event → Event) → Table → Table
  pub rows-update :
      (ids : List String) (f : Event → Event) (t : Table)
      → rows (update ids f t) ≡ map (where_id_in ids f) (rows t)
  -- `INSERT.into(…).entries(events)`.
  pub insert_into : List Event → Table → Table
  pub rows-insert_into :
      (events : List Event) (t : Table) → rows (insert_into events t) ≡ rows t ++ events

abbrev pub first_rows_next : Bool → Event → List Event → List Event → List Event
first_rows_next true e taken skipped = e ∷ taken
first_rows_next false e taken skipped = skipped

-- The first rows that fulfil a condition.
abbrev pub first_rows : ℕ → (Event → Bool) → List Event → List Event
first_rows n p [] = []
first_rows zero p (e ∷ es) = []
first_rows (suc n) p (e ∷ es) =
    first_rows_next (p e) e (first_rows n p es) (first_rows (suc n) p es)

pub first_rows_where :
    (p : Event → Bool) (n : ℕ) (t : List Event)
    → All (λ e. (p e ≡ true) × Mem e t) (first_rows n p t)
first_rows_where p n [] = tt
first_rows_where p zero (e ∷ es) = tt
first_rows_where p (suc n) (e ∷ es) = elim (Bool-cases (p e)) [
  | inl holds ↦ rw holds (
    (holds, mem-cons_self),
    All-map (λ x (h, m). (h, mem-cons_of_mem e m)) _ (first_rows_where p n es),
  )
  | inr fails ↦
      rw fails (All-map (λ x (h, m). (h, mem-cons_of_mem e m)) _ (first_rows_where p (suc n) es))
]

pub length-first_rows : (p : Event → Bool) (n : ℕ) (t : List Event) → length (first_rows n p t) ≤ n
length-first_rows p n [] = omega arith
length-first_rows p zero (e ∷ es) = omega arith
length-first_rows p (suc n) (e ∷ es) =
    ground (arith, length-first_rows p n es, length-first_rows p (suc n) es)

-- A table that is the list of its rows.
abbrev pub list_table : EventTable
list_table = record {
  Table = List Event;
  rows = λ t. t;
  select = λ p n t. first_rows n p t;
  select_where = first_rows_where;
  length-select = length-first_rows;
  delete_where = λ p t. filter (λ e. not (p e)) t;
  rows-delete_where = λ p t. refl;
  update = λ ids f t. map (where_id_in ids f) t;
  rows-update = λ ids f t. refl;
  insert_into = λ events t. t ++ events;
  rows-insert_into = λ events t. refl;
}
