-- ===== src/Lock/Memory.antt =====
-- A Redis and a lock table that follow the laws of `Lock.Stores`.
use event_queue.Prelude.{
  ℕ, ◌+◌, ◌≤◌, ◌≡◌, String, Bool, true, false, Option, none, some, List, if◌then◌else◌, ltb, arith,
  str_eq,
}
use event_queue.Prelude.Dict
use event_queue.Prelude.Dict.{lookup-insert, lookup-delete}
use event_queue.Lock.Stores.{Redis, LockRow, LockTable}

abbrev pub Entries : Type 0
Entries = List (String × (String × ℕ))

abbrev pub live : ℕ → Option (String × ℕ) → Option String
live time none = none
live time (some (v, until)) = if ltb time until then some v else none

abbrev pub memory_get : ℕ → String → Entries → Option String
memory_get time key s = live time (Dict.lookup key s)

abbrev pub memory_set : ℕ → String → String → ℕ → Entries → Entries
memory_set time key value px s = Dict.insert key (value, time + px) s

abbrev pub set_if_free : Option String → Entries → Entries → Bool × Entries
set_if_free none s' s = (true, s')
set_if_free (some v) s' s = (false, s)

abbrev pub set_if_taken : Option String → Entries → Entries → Bool × Entries
set_if_taken none s' s = (false, s)
set_if_taken (some v) s' s = (true, s')

pub memory_get-set :
    (time later px : ℕ) (key other value : String) (s : Entries)
    → time ≤ later
    → memory_get later other (memory_set time key value px s) ≡ (
        if str_eq key other
        then (if ltb later (time + px) then some value else none)
        else memory_get later other s)
memory_get-set time later px key other value s h =
    ground (arith, lookup-insert key other (value, time + px) s)

pub memory_get-delete :
    (later : ℕ) (key other : String) (s : Entries)
    → memory_get later other (Dict.delete key s)
      ≡ (if str_eq key other then none else memory_get later other s)
memory_get-delete later key other s = ground (arith, lookup-delete key other s)

abbrev pub memory_redis : Redis
memory_redis = record {
  Store = Entries;
  get = memory_get;
  set = memory_set;
  set_nx =
      λ time key value px s. set_if_free (memory_get time key s) (memory_set time key value px s) s;
  set_xx = λ time key value px s.
      set_if_taken (memory_get time key s) (memory_set time key value px s) s;
  del = λ time key s. (Dict.has key s, Dict.delete key s);
  get-set = memory_get-set;
  set_nx_free = λ time px key value s h. rw h;
  set_nx_taken = λ time px key value s h. rw h;
  set_xx_free = λ time px key value s h. rw h;
  set_xx_taken = λ time px key value s h. rw h;
  get-del = λ time later key other s. memory_get-delete later key other s;
}

abbrev pub insert_row : Option LockRow → List (String × LockRow) → Option (List (String × LockRow))
insert_row none t' = some t'
insert_row (some old) t' = none

abbrev pub memory_table : LockTable
memory_table = record {
  Table = List (String × LockRow);
  find = λ code t. Dict.lookup code t;
  insert = λ code row t. insert_row (Dict.lookup code t) (Dict.insert code row t);
  update = λ code row t. Dict.insert code row t;
  delete = λ code t. Dict.delete code t;
  insert_free = λ code row t h. rw h;
  insert_taken = λ code row t h. rw h;
  find-update = λ code other row t. lookup-insert code other row t;
  find-delete = λ code other t. lookup-delete code other t;
}
