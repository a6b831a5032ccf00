-- ===== src/LazyCache.antt =====
-- src/shared/lazyCache.js: the cache whose values expire. Times are milliseconds, and each
-- operation runs at one time. A promise is a number. A time of expiry before the start of time is
-- 0 here: neither that nor a negative number is ever valid.
pub mod Flight
mod Examples
use Prim.Native.String
use event_queue.Prelude.{
  ℕ, ◌+◌, ◌-◌, String, Bool, true, false, not, ◌&&◌, ◌||◌, Option, none, some, List, [], ◌∷◌,
  if◌then◌else◌, leb, ◌==◌,
}
use event_queue.Prelude.Dict.{lookup, insert, delete, has}

-- A key, or an array of its parts.
pub data Keys : Type 0 where
  single : String → Keys
  parts : List String → Keys

abbrev pub joined : (separator : String) → List String → String
joined separator [] = ""
joined separator (p ∷ []) = p
joined separator (p ∷ q ∷ ps) =
    let rest = joined separator (q ∷ ps) in String.◌++◌ p (String.◌++◌ separator rest)

-- `_key(keyOrKeys)`.
unfoldable pub key_of : (separator : String) → Keys → String
key_of separator (single key) = key
key_of separator (parts ps) = joined separator ps

-- When a value expires; a promise is stored with `Infinity`.
pub data Expiry : Type 0 where
  at : ℕ → Expiry
  infinity : Expiry

pub data Content (V : Type 0) : Type 0 where
  value : V → Content V
  promise : ℕ → Content V

abbrev pub Data : Type 0 → Type 0
Data V = List (String × (Expiry × Content V))

pub record Got (V : Type 0) : Type 0 where
  pub result : Option (Content V)
  pub called_back : Bool
  pub after : Data V

-- What a callback returns, with its pair of expiration and value extracted, or a promise of it.
pub data Answer (V : Type 0) : Type 0 where
  sync : (expiration : ℕ) → V → Answer V
  async : (promise : ℕ) → Answer V

-- `_isValid`; an expiration time of 0 is falsy.
unfoldable pub is_valid : Expiry → (current_time : ℕ) → Bool
is_valid infinity current_time = true
is_valid (at t) current_time = not (t == 0) && leb current_time t

-- The argument of the operations is `__expirationGap`.
module _ {V : Type 0} (gap : ℕ) where
  abbrev pub valid_entry : Option (Expiry × Content V) → (current_time : ℕ) → Bool
  valid_entry none current_time = false
  valid_entry (some (t, v)) current_time = is_valid t current_time

  -- `has`.
  unfoldable pub has_valid : String → (current_time : ℕ) → Data V → Bool
  unfolding is_valid
  has_valid key current_time d =
      if has key d then valid_entry (lookup key d) current_time else false

  abbrev content_if : Bool → Option (Expiry × Content V) → Option (Content V)
  content_if valid none = none
  content_if valid (some (t, v)) = if valid then some v else none

  -- `get`.
  unfoldable pub get : String → (current_time : ℕ) → Data V → Option (Content V)
  unfolding is_valid
  get key current_time d = content_if (valid_entry (lookup key d) current_time) (lookup key d)

  -- `set`.
  unfoldable pub set : String → (expiration : ℕ) → Content V → (current_time : ℕ) → Data V → Data V
  set key expiration v current_time d = insert key (at (current_time + expiration - gap), v) d

  -- `setCb`, up to the promise.
  unfoldable pub set_cb : String → Answer V → (current_time : ℕ) → Data V → Data V
  unfolding set
  set_cb key (sync expiration v) current_time d = set key expiration (value v) current_time d
  set_cb key (async p) current_time d = insert key (infinity, promise p) d

  -- The handlers that `setCb` adds to the promise; `current_time` is the time of that call.
  unfoldable pub fulfilled : String → (expiration : ℕ) → V → (current_time : ℕ) → Data V → Data V
  unfolding set
  fulfilled key expiration v current_time d = set key expiration (value v) current_time d

  unfoldable pub rejected : String → Data V → Data V
  rejected key d = delete key d

  -- The value of `super.get(key)`, whether it has expired or not.
  abbrev pub stored : Option (Expiry × Content V) → Option (Content V)
  stored none = none
  stored (some (t, v)) = some v

  -- `getSetCb`: what it returns, whether it called the callback, and the cache after it.
  unfoldable pub get_set_cb : String → Answer V → (current_time : ℕ) → Data V → Got V
  unfolding has_valid get set_cb
  get_set_cb key answer current_time d =
      if not (has_valid key current_time d) || not (has key d)
      then record {
        result = stored (lookup key (set_cb key answer current_time d));
        called_back = true;
        after = set_cb key answer current_time d;
      }
      else record { result = get key current_time d; called_back = false; after = d }

-- What happens to a cache over time: `clear` too.
pub data Op (V : Type 0) : Type 0 where
  call : String → Answer V → (current_time : ℕ) → Op V
  fulfil : String → (expiration : ℕ) → V → (current_time : ℕ) → Op V
  reject remove : String → Op V
  store : String → (expiration : ℕ) → V → (current_time : ℕ) → Op V
  clear : Op V

module _ {V : Type 0} (gap : ℕ) where
  unfoldable pub step : Op V → Data V → Data V
  unfolding get_set_cb fulfilled rejected set
  step (call key answer t) d = (get_set_cb gap key answer t d).after
  step (fulfil key expiration v t) d = fulfilled gap key expiration v t d
  step (reject key) d = rejected gap key d
  step (remove key) d = delete key d
  step (store key expiration v t) d = set gap key expiration (value v) t d
  step clear d = []

  unfoldable pub run : List (Op V) → Data V → Data V
  unfolding step
  run [] d = d
  run (o ∷ os) d = let d' = step o d in run os d'
