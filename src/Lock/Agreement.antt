-- ===== src/Lock/Agreement.antt =====
-- src/shared/distributedLock.js: the Redis lock and the table lock against one description, for the
-- acquisitions and releases of one key with one expiry time.
use event_queue.Prelude.{
  ℕ, ◌+◌, ◌≤◌, ◌≡◌, refl, ap, String, Bool, true, false, Option, none, some, List, [], ◌∷◌,
  if◌then◌else◌, leb, arith, eq_iff, Option-cases, inl, inr, Bool-cases,
}
use event_queue.Lock.Stores.{Redis, LockRow, LockTable}
use event_queue.Lock.{acquire_lock_redis, release_lock_redis, acquire_lock_db, release_lock_db}

-- Acquisitions (with the value to store) and releases, each with its time.
pub data Command : Type 0 where
  acquire : (time : ℕ) → (value : String) → Command
  release : (time : ℕ) → Command

-- The times do not fall, and none is before the given one.
abbrev pub Ordered : ℕ → List Command → Type 0
Ordered now [] = Unit
Ordered now (acquire time value ∷ cs) = (now ≤ time) × Ordered time cs
Ordered now (release time ∷ cs) = (now ≤ time) × Ordered time cs

-- The description: the time until which the lock is held, and the answers to the acquisitions.
abbrev pub free_at : ℕ → Option ℕ → Bool
free_at time none = true
free_at time (some until) = leb until time

unfoldable pub answers : (expiry : ℕ) → List Command → Option ℕ → List Bool
answers expiry [] held = []
answers expiry (acquire time value ∷ cs) held =
    let taken = answers expiry cs (some (time + expiry)) in
    let refused = answers expiry cs held in
    if free_at time held then true ∷ taken else false ∷ refused
answers expiry (release time ∷ cs) held = answers expiry cs none

module _ (redis : Redis) (key : String) (expiry : ℕ) where
  open redis use {Store, get, set, set_nx, del, get-set, set_nx_free, set_nx_taken, get-del}

  unfoldable pub run_redis : List Command → Store → List Bool
  run_redis [] s = []
  run_redis (acquire time value ∷ cs) s =
      let (taken, s') = acquire_lock_redis redis time key expiry value false s in
      taken ∷ run_redis cs s'
  run_redis (release time ∷ cs) s = run_redis cs (release_lock_redis redis time key s).1

  -- The value that stands under the key is there as long as the lock is held.
  abbrev Represents : ℕ → Option ℕ → Store → Type 0
  Represents now held s =
      (later : ℕ)
      → now ≤ later
      → (elim (get later key s) [ none ↦ true | some _ ↦ false ]) ≡ free_at later held

  run_redis-eq :
      (cs : List Command) (now : ℕ) (held : Option ℕ) (s : Store)
      → Ordered now cs
      → Represents now held s
      → run_redis cs s ≡ answers expiry cs held
  unfolding run_redis answers acquire_lock_redis release_lock_redis
  run_redis-eq [] now held s o r = refl
  run_redis-eq (release time ∷ cs) now held s (le, o) r =
      run_redis-eq cs time none (del time key s).1 o
        (λ later h. ground (arith, get-del time later key key s, eq_iff key key))
  run_redis-eq (acquire time value ∷ cs) now held s (le, o) r =
      elim (Option-cases (get time key s)) [
        | inl free ↦
            let grants = set_nx_free time expiry key value s free in
            let ih =
              run_redis-eq cs time (some (time + expiry)) (set time key value expiry s) o
                (λ later h.
                  ground (arith, get-set time later expiry key key value s h, eq_iff key key)) in
            let is_free : free_at time held ≡ true = ground (arith, r time le, free) in
            rw (grants, is_free) (ap (λ l. true ∷ l) ih)
        | inr (v, held_by) ↦
            let refuses = set_nx_taken time expiry key value s held_by in
            let ih = run_redis-eq cs time held s o (λ later h. r later (omega arith)) in
            let is_held : free_at time held ≡ false = ground (arith, r time le, held_by) in
            rw (refuses, is_held) (ap (λ l. false ∷ l) ih)
      ]

module _ (table : LockTable) (key : String) (expiry : ℕ) where
  open table use {
    Table, find, insert, update, delete, insert_free, insert_taken, find-update, find-delete,
  }

  unfoldable pub run_db : List Command → Table → List Bool
  run_db [] t = []
  run_db (acquire time value ∷ cs) t =
      let (taken, t') = acquire_lock_db table time key expiry value false t in taken ∷ run_db cs t'
  run_db (release time ∷ cs) t = run_db cs (release_lock_db table key t).1

  -- The row says until when the lock is held.
  abbrev held_until : Option LockRow → Option ℕ
  held_until none = none
  held_until (some row) = some (row.created_at + expiry)

  row_at : ℕ → String → LockRow
  row_at time value = record { value = value; created_at = time }

  acquire_lock_db_free :
      (time : ℕ) (value : String) (t : Table)
      → find key t ≡ none
      → acquire_lock_db table time key expiry value false t
        ≡ (true, update key (row_at time value) t)
  unfolding acquire_lock_db row_at
  acquire_lock_db_free time value t h =
      rw (insert_free key (record { value = value; created_at = time }) t h, acquire_lock_db)

  acquire_lock_db_taken :
      (time : ℕ) (value : String) (t : Table) (old : LockRow)
      → find key t ≡ some old
      → acquire_lock_db table time key expiry value false t ≡ (
          if leb (old.created_at + expiry) time
          then (true, update key (row_at time value) t)
          else (false, t))
  unfolding acquire_lock_db row_at
  acquire_lock_db_taken time value t old h =
      rw (insert_taken key (record { value = value; created_at = time }) t h, acquire_lock_db)
        (rw h)

  run_db-eq :
      (cs : List Command) (held : Option ℕ) (t : Table)
      → held_until (find key t) ≡ held
      → run_db cs t ≡ answers expiry cs held
  unfolding run_db answers release_lock_db row_at
  run_db-eq [] held t r = refl
  run_db-eq (release time ∷ cs) held t r =
      run_db-eq cs none (delete key t) (ground (arith, find-delete key key t, eq_iff key key))
  run_db-eq (acquire time value ∷ cs) held t r =
      let row = row_at time value in
      let t' = update key row t in
      let later =
        run_db-eq cs (some (time + expiry)) t'
          (ground (arith, find-update key key row t, eq_iff key key)) in
      elim (Option-cases (find key t)) [
        | inl free ↦
            let is_free : free_at time held ≡ true = ground (arith, r, free) in
            rw (acquire_lock_db_free time value t free, is_free) (ap (λ l. true ∷ l) later)
        | inr (old, there) ↦ elim (Bool-cases (leb (old.created_at + expiry) time)) [
          | inl expired ↦
              let is_free : free_at time held ≡ true = ground (arith, r, there, expired) in
              rw (acquire_lock_db_taken time value t old there, expired, is_free)
                (ap (λ l. true ∷ l) later)
          | inr kept ↦
              let is_held : free_at time held ≡ false = ground (arith, r, there, kept) in
              rw (acquire_lock_db_taken time value t old there, kept, is_held)
                (ap (λ l. false ∷ l) (run_db-eq cs held t r))
        ]
      ]

-- Started without the lock, Redis and the lock table give the same answers to the acquisitions and
-- releases of a key at times that do not fall: an acquisition succeeds exactly when the key was
-- never taken, was released, or was taken at least the expiry time before.
pub lock_agreement :
    (redis : Redis) (table : LockTable) (key : String) (expiry now : ℕ) (cs : List Command)
    (s : redis.Store) (t : table.Table)
    → Ordered now cs
    → ((later : ℕ) → redis.get later key s ≡ none)
    → table.find key t ≡ none
    → (run_redis redis key expiry cs s ≡ answers expiry cs none)
      × (run_db table key expiry cs t ≡ answers expiry cs none)
lock_agreement redis table key expiry now cs s t o free absent = (
  run_redis-eq redis key expiry cs now none s o (λ later h. ground (arith, free later)),
  run_db-eq table key expiry cs none t (ground (arith, absent)),
)
