-- ===== src/Prelude/Results.antt =====
-- Calls that return a value or throw.
use mathlib.Core.Bool.{Bool, true, false}
use mathlib.Core.Path.{◌≡◌, refl}

pub data Result (E A : Type 0) : Type 0 where
  err : (thrown : E) → Result E A
  ok : (returned : A) → Result E A

-- `if (test) throw error`.
abbrev pub throw_if : {E : Type 0} → Bool → E → Result E (Unit {0})
throw_if false error = ok tt
throw_if true error = err error

infixl 5 ◌>>=◌ ◌>>◌
abbrev pub ◌>>=◌ : {E A B : Type 0} → Result E A → (A → Result E B) → Result E B
err error >>= next = err error
ok value >>= next = next value

abbrev pub ◌>>◌ : {E B : Type 0} → Result E (Unit {0}) → Result E B → Result E B
call >> next = call >>= λ _. next

pub throw_if-eq-ok :
    {E : Type 0} (test : Bool) (error : E) {u : Unit {0}}
    → throw_if test error ≡ ok u
    → test ≡ false
throw_if-eq-ok false error h = refl
throw_if-eq-ok true error h = cc

-- A guard that let a call through, and what comes after it.
pub throw_if_passed :
    {E B : Type 0} (test : Bool) (error : E) (next : Result E B) {b : B}
    → (throw_if test error >> next) ≡ ok b
    → (test ≡ false) × (next ≡ ok b)
throw_if_passed false error next h = (refl, h)
throw_if_passed true error next h = cc

-- A call that returned, taken apart.
pub >>=-eq-ok :
    {E A B : Type 0} (call : Result E A) (next : A → Result E B) {result : B}
    → (call >>= next) ≡ ok result
    → (value : A) × (call ≡ ok value) × (next value ≡ ok result)
>>=-eq-ok (err error) next h = cc
>>=-eq-ok (ok value) next h = (value, refl, h)
