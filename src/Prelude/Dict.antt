-- ===== src/Prelude/Dict.antt =====
-- JavaScript objects used as maps: string keys, in the order of their first assignment.
use Prim.Native.String.{String}
use mathlib.Core.Path.{◌≡◌, refl}
use mathlib.Core.Bool.{Bool, true, false, ◌||◌}
use mathlib.Core.Option.{Option, none, some}
use mathlib.Core.List.{List, [], ◌∷◌}
use native.Mathlib.Omega.{arith}
use text.Mathlib.Text.{◌==◌}
use text.Mathlib.TextEquality.{eq_iff}
use event_queue.Prelude.Tests.{if◌then◌else◌}

-- `Array.prototype.includes` on strings.
unfoldable pub includes : String → List String → Bool
includes k [] = false
includes k (j ∷ js) = j == k || includes k js

module _ {ℓ} {V : Type ℓ} where
  -- `delete object[key]`.
  unfoldable pub delete : String → List (String × V) → List (String × V)
  delete k [] = []
  delete k ((j, w) ∷ m) = let rest = delete k m in if j == k then rest else (j, w) ∷ rest

  -- `key in object`.
  unfoldable pub has : String → List (String × V) → Bool
  has k [] = false
  has k ((j, w) ∷ m) = j == k || has k m

  -- `object[key] = value`.
  unfoldable pub insert : String → V → List (String × V) → List (String × V)
  insert key value [] = (key, value) ∷ []
  insert key value (field ∷ fields) =
      let behind = insert key value fields in
      if field.0 == key then (field.0, value) ∷ fields else field ∷ behind

  -- `object[key]`; `none` is `undefined`.
  unfoldable pub lookup : String → List (String × V) → Option V
  lookup key [] = none
  lookup key (field ∷ fields) =
      let behind = lookup key fields in if field.0 == key then some field.1 else behind

  pub lookup-delete :
      (k j : String) (m : List (String × V))
      → lookup j (delete k m) ≡ (if k == j then none else lookup j m)
  unfolding lookup delete
  lookup-delete k j [] = ground arith
  lookup-delete k j ((i, w) ∷ m) =
      ground (arith, eq_iff k j, eq_iff i k, eq_iff i j, lookup-delete k j m)

  pub has-insert :
      (k j : String) (v : V) (m : List (String × V)) → has j (insert k v m) ≡ (k == j || has j m)
  unfolding has insert
  has-insert k j v [] = refl
  has-insert k j v ((i, w) ∷ m) =
      ground (arith, eq_iff k j, eq_iff i k, eq_iff i j, has-insert k j v m)

  pub has-lookup :
      (k : String) (m : List (String × V))
      → has k m ≡ elim (lookup k m) [ none ↦ false | some v ↦ true ]
  unfolding has lookup
  has-lookup k [] = refl
  has-lookup k ((i, w) ∷ m) = ground (arith, has-lookup k m)

  pub lookup-insert :
      (key other : String) (value : V) (fields : List (String × V))
      → lookup other (insert key value fields)
        ≡ (if key == other then some value else lookup other fields)
  unfolding lookup insert
  lookup-insert key other value [] = refl
  lookup-insert key other value ((i, w) ∷ fields) =
      ground (
        arith,
        lookup-insert key other value fields,
        eq_iff key other,
        eq_iff i other,
        eq_iff i key,
      )

  -- The entries whose key passes a test.
  unfoldable pub filter_keys : (String → Bool) → List (String × V) → List (String × V)
  filter_keys p [] = []
  filter_keys p ((k, v) ∷ m) = let rest = filter_keys p m in if p k then (k, v) ∷ rest else rest

  pub lookup-filter_keys :
      (p : String → Bool) (j : String) (m : List (String × V))
      → lookup j (filter_keys p m) ≡ (if p j then lookup j m else none)
  unfolding lookup filter_keys
  lookup-filter_keys p j [] = ground arith
  lookup-filter_keys p j ((k, v) ∷ m) = ground (arith, eq_iff k j, lookup-filter_keys p j m)

  -- `for (const [key, value] of Object.entries(object)) if (!p(value)) delete object[key]`.
  unfoldable pub delete_unless : (V → Bool) → List (String × V) → List (String × V)
  unfolding delete
  delete_unless p [] = []
  delete_unless p ((k, v) ∷ m) =
      let rest = delete_unless p m in if p v then (k, v) ∷ rest else delete k rest

  pub lookup-delete_unless :
      (p : V → Bool) (j : String) (m : List (String × V))
      → lookup j (delete_unless p m)
        ≡ elim (lookup j m) [ none ↦ none | some v ↦ if p v then some v else none ]
  unfolding lookup delete_unless
  lookup-delete_unless p j [] = refl
  lookup-delete_unless p j ((k, v) ∷ m) =
      ground (arith, eq_iff k j, lookup-delete_unless p j m, lookup-delete k j (delete_unless p m))
