-- ===== src/Prelude/Failure.antt =====
-- How a piece of C++ fails: an exception that leaves it, or behaviour that the standard leaves
-- undefined, here an access outside an object or through a null
-- pointer, or flowing off the end of a function that returns a value.
-- `exhausted` is the model's own: the fuel of a loop or the supply of random draws ran out.
use mathlib.Core.Path.{◌≡◌, refl}
use mathlib.Core.Logic.{◌⊎◌, inl, inr}

pub data Fault : Type 0 where
  thrown : Fault
  out_of_bounds : Fault
  null_pointer : Fault
  no_return : Fault
  exhausted : Fault

-- A value, unless the code fails.
pub data Result {ℓ} (Value : Type ℓ) : Type ℓ where
  fault : Fault → Result Value
  ok : Value → Result Value

infixl 5 ◌>>=◌
abbrev pub ◌>>=◌ {ℓ κ} :
    {From : Type ℓ} {To : Type κ} → Result From → (From → Result To) → Result To
fault x >>= next = fault x
ok value >>= next = next value

pub >>=-eq-ok {ℓ κ} :
    {From : Type ℓ} {To : Type κ} (first : Result From) (next : From → Result To) {last : To}
    → (first >>= next) ≡ ok last
    → (value : From) × (first ≡ ok value) × (next value ≡ ok last)
>>=-eq-ok (fault x) next e = cc
>>=-eq-ok (ok value) next e = (value, refl, e)

pub Result-cases {ℓ} :
    {Value : Type ℓ} (r : Result Value)
    → ((x : Fault) × (r ≡ fault x)) ⊎ ((value : Value) × (r ≡ ok value))
Result-cases (fault x) = inl (x, refl)
Result-cases (ok value) = inr (value, refl)

pub >>=-eq-fault {ℓ κ} :
    {From : Type ℓ} {To : Type κ} (first : Result From) (next : From → Result To) {x : Fault}
    → (first >>= next) ≡ fault x
    → (first ≡ fault x) ⊎ ((value : From) × (first ≡ ok value) × (next value ≡ fault x))
>>=-eq-fault (fault y) next e = inl (cc e)
>>=-eq-fault (ok value) next e = inr (value, refl, e)
