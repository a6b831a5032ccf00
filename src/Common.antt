-- ===== src/Common.antt =====
-- src/shared/common.js: the helpers on promises, chunks, tenants and objects.
pub mod Limit
pub mod Chunks
mod Examples
use event_queue.Prelude.{
  ℕ, zero, suc, ◌+◌, ◌-◌, String, Bool, true, false, not, ◌&&◌, ◌||◌, Option, none, some, List, [],
  ◌∷◌, ◌++◌, length, filter, any, if◌then◌else◌, leb, ltb, ◌==◌,
}
use event_queue.Prelude.Dict
use event_queue.Prelude.Results.{Result, ok, err}

-- A payload by its number, and the promises that settle while the loop waits after its start.
pub record Started : Type 0 where
  pub payload : ℕ
  pub settled : List ℕ

abbrev pub is_among : ℕ → List ℕ → Bool
is_among p ps = any (λ q. p == q) ps

-- The handlers of `finally` take settled promises out of `runningPromises`.
unfoldable pub still_running : List ℕ → List ℕ → List ℕ
unfolding filter any
still_running settled running = filter (λ p. not (is_among p settled)) running

abbrev pub waits : (limit total : ℕ) → List ℕ → Bool
waits limit total running = leb limit total && leb limit (length running)

-- The loop of `limiter`: the promises that run when a payload has been started, for each payload.
unfoldable pub limiter : (limit total : ℕ) → List Started → (running : List ℕ) → List (List ℕ)
unfolding still_running
limiter limit total [] running = []
limiter limit total (s ∷ ss) running =
    let now = running ++ s.payload ∷ [] in
    let after = if waits limit total now then still_running s.settled now else now in
    now ∷ limiter limit total ss after

pub data Settled (E A : Type 0) : Type 0 where
  fulfilled : A → Settled E A
  rejected : E → Settled E A

-- A rejection with one reason or with several ones (`VError.MultiError`).
pub data Rejection (E : Type 0) : Type 0 where
  single : E → Rejection E
  multi : List E → Rejection E

module _ {E A : Type 0} where
  abbrev pub reasons : List (Settled E A) → List E
  reasons [] = []
  reasons (fulfilled a ∷ rs) = reasons rs
  reasons (rejected e ∷ rs) = e ∷ reasons rs

  abbrev pub values : List (Settled E A) → List A
  values [] = []
  values (fulfilled a ∷ rs) = a ∷ values rs
  values (rejected e ∷ rs) = values rs

  abbrev pub all_done : List E → List A → Result (Rejection E) (List A)
  all_done [] vs = ok vs
  all_done (e ∷ []) vs = err (single e)
  all_done (e ∷ f ∷ es) vs = err (multi (e ∷ f ∷ es))

  -- `promiseAllDone`, on what the promises have settled to.
  unfoldable pub promise_all_done : List (Settled E A) → Result (Rejection E) (List A)
  promise_all_done rs = all_done (reasons rs) (values rs)

module _ {A : Type 0} where
  abbrev pub drop : ℕ → List A → List A
  drop zero xs = xs
  drop (suc n) [] = []
  drop (suc n) (x ∷ xs) = drop n xs

  abbrev pub take : ℕ → List A → List A
  take zero xs = []
  take (suc n) [] = []
  take (suc n) (x ∷ xs) = x ∷ take n xs

  -- `inputs.slice(start, end)`.
  abbrev pub slice : (start end : ℕ) → List A → List A
  slice start end xs = take (end - start) (drop start xs)

  -- The loop of `processChunkedSync`: the chunks that the handler gets. `none` is a loop that does
  -- not end within the fuel.
  unfoldable pub chunks_from : (fuel chunk_size : ℕ) → List A → (start : ℕ) → Option (List (List A))
  chunks_from zero chunk_size inputs start = none
  chunks_from (suc fuel) chunk_size inputs start =
      let end =
        if ltb (length inputs) (start + chunk_size) then length inputs else start + chunk_size in
      let rest = chunks_from fuel chunk_size inputs end in
      if ltb start (length inputs)
      then elim rest [ none ↦ none | some cs ↦ some (slice start end inputs ∷ cs) ]
      else some []

  -- `processChunkedSync`; each round takes at least one input, so there are at most as many as
  -- inputs, and the test that ends the loop.
  unfoldable pub process_chunked_sync : (chunk_size : ℕ) → List A → Option (List (List A))
  unfolding chunks_from
  process_chunked_sync chunk_size inputs = chunks_from (suc (length inputs)) chunk_size inputs 0

pub data CheckType : Type 0 where
  get_auth_context event_processing other_check : CheckType

pub record TenantFilters : Type 0 where
  pub auth_context : Option (String → Result String Bool)
  pub event_processing_filter : Option (String → Result String Bool)

abbrev pub filter_for : CheckType → TenantFilters → Option (String → Result String Bool)
filter_for get_auth_context c = c.auth_context
filter_for event_processing c = c.event_processing_filter
filter_for other_check c = some (λ tenant. ok true)

-- `isTenantIdValidCb`: a callback that throws lets the tenant through.
unfoldable pub is_tenant_id_valid : TenantFilters → CheckType → String → Bool
is_tenant_id_valid c check tenant = elim (filter_for check c) [
  | none ↦ true
  | some callback ↦ elim (callback tenant) [ ok valid ↦ valid | err thrown ↦ true ]
]

-- `arrayToFlatMap`, by the key of each element.
unfoldable pub array_to_flat_map {ℓ} :
    {A : Type ℓ} → (A → String) → List A → List (String × A) → List (String × A)
unfolding Dict.insert
array_to_flat_map key [] m = m
array_to_flat_map key (x ∷ xs) m = array_to_flat_map key xs (Dict.insert (key x) x m)

-- `cleanUndefined`.
unfoldable pub clean_undefined {ℓ} : {A : Type ℓ} → List (String × Option A) → List (String × A)
clean_undefined [] = []
clean_undefined ((key, none) ∷ fields) = clean_undefined fields
clean_undefined ((key, some value) ∷ fields) = (key, value) ∷ clean_undefined fields
