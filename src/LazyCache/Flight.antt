-- ===== src/LazyCache/Flight.antt =====
-- src/shared/lazyCache.js: how long `getSetCb` serves what was stored, without its callback.
use event_queue.Prelude.{
  ◌≡◌, refl, ℕ, ◌+◌, ◌-◌, String, Bool, true, false, not, ◌||◌, some, List, [], ◌∷◌, str_eq, eq_iff,
  eq_refl, arith, All, Bool-cases, inl, inr, ◌∙◌, ap, ◌≤◌, ◌<◌,
}
use event_queue.Prelude.Dict.{lookup, insert, delete, lookup-insert, lookup-delete, has-lookup}
use event_queue.LazyCache.{
  Expiry, at, infinity, Content, value, promise, Data, Answer, sync, async, is_valid, set, set_cb,
  fulfilled, get_set_cb, Op, call, fulfil, reject, remove, store, clear, step, run,
}

module _ {V : Type 0} (gap : ℕ) where
  -- An operation that leaves what is stored for a key until `x`: one on another key, or a call at a
  -- time at which it is still valid.
  abbrev pub keeps : String → Expiry → Op V → Bool
  keeps key x (call k answer t) = not (str_eq k key) || is_valid x t
  keeps key x (fulfil k expiration v t) = not (str_eq k key)
  keeps key x (reject k) = not (str_eq k key)
  keeps key x (remove k) = not (str_eq k key)
  keeps key x (store k expiration v t) = not (str_eq k key)
  keeps key x clear = false

  -- A call that finds a valid entry for its key.
  get_set_cb_valid :
      (key : String) (answer : Answer V) (t : ℕ) (d : Data V) (x : Expiry) (c : Content V)
      → lookup key d ≡ some (x, c)
      → is_valid x t ≡ true
      → get_set_cb gap key answer t d ≡ record { result = some c; called_back = false; after = d }
  unfolding get_set_cb
  get_set_cb_valid key answer t d x c found valid = rw (has-lookup key d, found, valid) refl

  get_set_cb_expired :
      (key : String) (answer : Answer V) (t : ℕ) (d : Data V) (x : Expiry) (c : Content V)
      → lookup key d ≡ some (x, c)
      → is_valid x t ≡ false
      → (get_set_cb gap key answer t d).called_back ≡ true
  unfolding get_set_cb
  get_set_cb_expired key answer t d x c found expired = rw (has-lookup key d, found, expired) refl

  set_cb_other :
      (key k : String) (answer : Answer V) (t : ℕ) (d : Data V)
      → str_eq k key ≡ false
      → lookup key (set_cb gap k answer t d) ≡ lookup key d
  unfolding set_cb
  set_cb_other key k (sync expiration v) t d other =
      rw (lookup-insert k key (at (t + expiration - gap), value v) d, other) refl
  set_cb_other key k (async p) t d other =
      rw (lookup-insert k key (infinity, promise p) d, other) refl

  get_set_cb_other :
      (key k : String) (answer : Answer V) (t : ℕ) (d : Data V)
      → str_eq k key ≡ false
      → lookup key (get_set_cb gap k answer t d).after ≡ lookup key d
  unfolding get_set_cb
  get_set_cb_other key k answer t d other = ground (arith, set_cb_other key k answer t d other)

  insert_other :
      (key k : String) (e : Expiry × Content V) (d : Data V)
      → not (str_eq k key) ≡ true
      → lookup key (insert k e d) ≡ lookup key d
  insert_other key k e d other = ground (arith, lookup-insert k key e d)

  delete_other :
      (key k : String) (d : Data V)
      → not (str_eq k key) ≡ true
      → lookup key (delete k d) ≡ lookup key d
  delete_other key k d other = ground (arith, lookup-delete k key d)

  call_keeps :
      (key k : String) (answer : Answer V) (t : ℕ) (d : Data V) (x : Expiry) (c : Content V)
      → keeps key x (call k answer t) ≡ true
      → lookup key d ≡ some (x, c)
      → lookup key (get_set_cb gap k answer t d).after ≡ some (x, c)
  call_keeps key k answer t d x c kept found = elim (Bool-cases (str_eq k key)) [
    | inl same ↦
        let eq = (eq_iff k key).0 same in
        let h =
          get_set_cb_valid k answer t d x c (ap (λ s. lookup s d) eq ∙ found) (ground arith) in
        ap (λ g. lookup key g.after) h ∙ found
    | inr other ↦ cc (get_set_cb_other key k answer t d other, found)
  ]

  step-lookup :
      (key : String) (o : Op V) (d : Data V) (x : Expiry) (c : Content V)
      → keeps key x o ≡ true
      → lookup key d ≡ some (x, c)
      → lookup key (step gap o d) ≡ some (x, c)
  unfolding step
  step-lookup key (call k answer t) d x c kept found = call_keeps key k answer t d x c kept found
  step-lookup key (fulfil k expiration v t) d x c kept found = insert_other key k _ d kept ∙ found
  step-lookup key (reject k) d x c kept found = delete_other key k d kept ∙ found
  step-lookup key (remove k) d x c kept found = delete_other key k d kept ∙ found
  step-lookup key (store k expiration v t) d x c kept found = insert_other key k _ d kept ∙ found
  step-lookup key clear d x c kept found = ground arith

  run-lookup :
      (key : String) (os : List (Op V)) (d : Data V) (x : Expiry) (c : Content V)
      → All (λ o. keeps key x o ≡ true) os
      → lookup key d ≡ some (x, c)
      → lookup key (run gap os d) ≡ some (x, c)
  unfolding run
  run-lookup key [] d x c kept found = found
  run-lookup key (o ∷ os) d x c (first, kept) found =
      run-lookup key os (step gap o d) x c kept (step-lookup key o d x c first found)

  insert_self :
      (key : String) (e : Expiry × Content V) (d : Data V) → lookup key (insert key e d) ≡ some e
  insert_self key e d = rw (lookup-insert key key e d, eq_refl key) refl

  called_back-after :
      (key : String) (answer : Answer V) (t : ℕ) (d : Data V)
      → (get_set_cb gap key answer t d).called_back ≡ true
      → (get_set_cb gap key answer t d).after ≡ set_cb gap key answer t d
  unfolding get_set_cb
  called_back-after key answer t d called = ground arith

  -- While the promise of a callback is pending, every call for the key returns this promise and
  -- calls no callback, whatever else happens to the cache, as long as the key is neither removed,
  -- set nor settled and the cache is not cleared.
  pub single_flight :
      (key : String) (p t₀ : ℕ) (d : Data V) (os : List (Op V))
      → (get_set_cb gap key (async p) t₀ d).called_back ≡ true
      → All (λ o. keeps key infinity o ≡ true) os
      → (answer : Answer V) (t : ℕ)
      → let d' = run gap os (get_set_cb gap key (async p) t₀ d).after in
        get_set_cb gap key answer t d'
        ≡ record { result = some (promise p); called_back = false; after = d' }
  unfolding is_valid set_cb
  single_flight key p t₀ d os called kept answer t =
      get_set_cb_valid key answer t _ infinity (promise p)
        (run-lookup key os _ infinity (promise p) kept (
          ap (lookup key) (called_back-after key (async p) t₀ d called)
          ∙ insert_self key (infinity, promise p) d))
        refl

  -- A fulfilled promise is served until its expiration, less the gap, after the time of the call
  -- that asked for it, not after that of the answer; later calls ask again.
  pub served_until_expiry :
      (key : String) (expiration : ℕ) (v : V) (t₀ : ℕ) (d : Data V) (os : List (Op V))
      → All (λ o. keeps key (at (t₀ + expiration - gap)) o ≡ true) os
      → (answer : Answer V) (t : ℕ)
      → let d' = run gap os (fulfilled gap key expiration v t₀ d) in
        (t + gap ≤ t₀ + expiration
          → gap < t₀ + expiration
          → get_set_cb gap key answer t d'
            ≡ record { result = some (value v); called_back = false; after = d' })
        × (t₀ + expiration < t + gap → (get_set_cb gap key answer t d').called_back ≡ true)
  unfolding is_valid fulfilled set
  served_until_expiry key expiration v t₀ d os kept answer t =
      let n = t₀ + expiration - gap in
      let found = run-lookup key os _ (at n) (value v) kept (insert_self key (at n, value v) d) in
      (
        λ early late. get_set_cb_valid key answer t _ (at n) (value v) found (ground arith),
        λ late. get_set_cb_expired key answer t _ (at n) (value v) found (ground arith),
      )
