-- ===== src/Runner/Updates.antt =====
-- src/runner/runner.js: the update of periodic events over several runs.
use event_queue.Prelude.{
  ◌≡◌, refl, ap, ◌⊎◌, String, Bool, true, false, Option, none, some, List, [], ◌∷◌, str_eq, eq_refl,
  eq_iff, All, Bool-cases, inl, inr,
}
use event_queue.Runner.{
  LockAnswer, Tenant, Settings, ids_of, updates_periodic_events, Update, update_by_hash,
  check_periodic_event_update,
}

update_by_hash-hash :
    (hash : Option String) (h : String) (r : Bool × List String)
    → (update_by_hash hash h r).tenant_id_hash ≡ some h
update_by_hash-hash none h r = refl
update_by_hash-hash (some old) h r = elim (Bool-cases (str_eq old h)) [
  | inl same ↦ rw same (ap some ((eq_iff old h).0 same))
  | inr new ↦ rw new refl
]

update_by_hash_same :
    (h : String) (r : Bool × List String)
    → update_by_hash (some h) h r
      ≡ record { tenant_id_hash = some h; checked = []; should_continue = true }
update_by_hash_same h r = rw (eq_refl h) refl

module _ (c : Settings) (hash_of : List String → String) where
  -- The updates of runs one after the other, from a hash on.
  abbrev pub updates : List (LockAnswer × List Tenant) → Option String → List Update
  updates [] hash = []
  updates ((lock, ts) ∷ runs) hash =
      let u = check_periodic_event_update c hash_of lock ts hash in
      u ∷ updates runs u.tenant_id_hash

  -- The hash that belongs to a list of tenants, unless nothing is ever updated.
  abbrev Known : List String → Option String → Type 0
  Known ids hash = (updates_periodic_events c ≡ false) ⊎ (hash ≡ some (hash_of ids))

  check_periodic_event_update-Known :
      (lock : LockAnswer) (ts : List Tenant) (hash : Option String)
      → Known (ids_of ts) (check_periodic_event_update c hash_of lock ts hash).tenant_id_hash
  unfolding check_periodic_event_update
  check_periodic_event_update-Known lock ts hash = elim (Bool-cases (updates_periodic_events c)) [
    | inl active ↦ inr (rw active (update_by_hash-hash hash _ _))
    | inr never ↦ inl never
  ]

  -- A run for the same tenants checks nothing, and leaves the hash.
  repeated_run :
      (lock : LockAnswer) (ts : List Tenant) (ids : List String) (hash : Option String)
      → ids_of ts ≡ ids
      → Known ids hash
      → check_periodic_event_update c hash_of lock ts hash
        ≡ record { tenant_id_hash = hash; checked = []; should_continue = true }
  unfolding check_periodic_event_update
  repeated_run lock ts ids hash same (inl never) = rw never refl
  repeated_run lock ts ids hash same (inr held) = elim (Bool-cases (updates_periodic_events c)) [
    | inl active ↦ rw (active, held, same) (update_by_hash_same _ _)
    | inr never ↦ rw never refl
  ]

  repeated_runs :
      (runs : List (LockAnswer × List Tenant)) (ids : List String) (hash : Option String)
      → All (λ run. ids_of run.1 ≡ ids) runs
      → Known ids hash
      → All (λ u. (u.checked ≡ []) × (u.should_continue ≡ true)) (updates runs hash)
  repeated_runs [] ids hash same known = tt
  repeated_runs ((lock, ts) ∷ runs) ids hash (first, rest) known =
      rw (repeated_run lock ts ids hash first known)
        ((refl, refl), repeated_runs runs ids hash rest known)

  -- After a run for some tenants, however its lock answered, the runs for the same tenants check no
  -- periodic events, and all of them go on to the processing.
  pub check_periodic_event_update_once :
      (lock : LockAnswer) (ts : List Tenant) (hash : Option String)
      (runs : List (LockAnswer × List Tenant))
      → All (λ run. ids_of run.1 ≡ ids_of ts) runs
      → All
          (λ u. (u.checked ≡ []) × (u.should_continue ≡ true))
          (updates runs (check_periodic_event_update c hash_of lock ts hash).tenant_id_hash)
  check_periodic_event_update_once lock ts hash runs same =
      repeated_runs runs (ids_of ts) _ same (check_periodic_event_update-Known lock ts hash)
