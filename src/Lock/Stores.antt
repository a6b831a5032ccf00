-- ===== src/Lock/Stores.antt =====
-- What src/shared/distributedLock.js uses of Redis and of the lock table (db/Lock.cds). Neither is
-- part of the repository: a store is any type with these operations and their documented laws.
use event_queue.Prelude.{
  ℕ, ◌+◌, ◌≤◌, ◌≡◌, String, Bool, true, false, Option, none, some, if◌then◌else◌, ltb, str_eq,
}

-- The commands SET (plain, with NX and with XX), GET and DEL, at a time. SET has the option PX.
pub record Redis : Type 1 where
  pub Store : Type 0
  pub get : (time : ℕ) → String → Store → Option String
  pub set : (time : ℕ) → String → (value : String) → (px : ℕ) → Store → Store
  pub set_nx : (time : ℕ) → String → (value : String) → (px : ℕ) → Store → Bool × Store
  pub set_xx : (time : ℕ) → String → (value : String) → (px : ℕ) → Store → Bool × Store
  pub del : (time : ℕ) → String → Store → Bool × Store
  -- A key that was set holds its value until the time runs out.
  pub get-set :
      (time later px : ℕ) (key other value : String) (s : Store)
      → time ≤ later
      → get later other (set time key value px s) ≡ (
          if str_eq key other
          then (if ltb later (time + px) then some value else none)
          else get later other s)
  pub set_nx_free :
      (time px : ℕ) (key value : String) (s : Store)
      → get time key s ≡ none
      → set_nx time key value px s ≡ (true, set time key value px s)
  pub set_nx_taken :
      (time px : ℕ) (key value : String) (s : Store) {held : String}
      → get time key s ≡ some held
      → set_nx time key value px s ≡ (false, s)
  pub set_xx_free :
      (time px : ℕ) (key value : String) (s : Store)
      → get time key s ≡ none
      → set_xx time key value px s ≡ (false, s)
  pub set_xx_taken :
      (time px : ℕ) (key value : String) (s : Store) {held : String}
      → get time key s ≡ some held
      → set_xx time key value px s ≡ (true, set time key value px s)
  pub get-del :
      (time later : ℕ) (key other : String) (s : Store)
      → get later other (del time key s).1 ≡ (if str_eq key other then none else get later other s)

pub record LockRow : Type 0 where
  pub value : String
  pub created_at : ℕ

-- The table with the unique column `code`: an INSERT of a code that is there fails.
pub record LockTable : Type 1 where
  pub Table : Type 0
  pub find : String → Table → Option LockRow
  pub insert : String → LockRow → Table → Option Table
  pub update : String → LockRow → Table → Table
  pub delete : String → Table → Table
  pub insert_free :
      (code : String) (row : LockRow) (t : Table)
      → find code t ≡ none
      → insert code row t ≡ some (update code row t)
  pub insert_taken :
      (code : String) (row : LockRow) (t : Table) {old : LockRow}
      → find code t ≡ some old
      → insert code row t ≡ none
  pub find-update :
      (code other : String) (row : LockRow) (t : Table)
      → find other (update code row t) ≡ (if str_eq code other then some row else find other t)
  pub find-delete :
      (code other : String) (t : Table)
      → find other (delete code t) ≡ (if str_eq code other then none else find other t)
