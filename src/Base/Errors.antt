-- ===== src/Base/Errors.antt =====
-- What a JavaScript function returns or a promise settles to: a value, or what is thrown.
use mathlib.Core.Path.{◌≡◌, refl}

-- The errors that the modelled code meets.
pub data Error : Type 0 where
  -- thrown by ethers: a division by zero, and a value that it cannot convert
  division_by_zero numeric_fault : Error
  -- thrown by the modelled code itself
  invalid_transaction_hash transaction_failed unqualified_name no_logs : Error
  -- a read of a property of `undefined`
  type_error : Error
  -- a transaction or a call that the chain reverts
  reverted : Error

-- A value, or what is thrown.
pub data Result {ℓ} (A : Type ℓ) : Type ℓ where
  err : Error → Result A
  ok : A → Result A

module _ {ℓ κ} {A : Type ℓ} {B : Type κ} where
  abbrev pub map_result : (A → B) → Result A → Result B
  map_result f (err e) = err e
  map_result f (ok a) = ok (f a)

  -- `await m` followed by the rest of the function.
  infixl 5 ◌>>=◌
  abbrev pub ◌>>=◌ : Result A → (A → Result B) → Result B
  err thrown >>= rest = err thrown
  ok value >>= rest = rest value

  -- A run that returns went through both of its parts.
  pub >>=-eq-ok :
      (m : Result A) (rest : A → Result B) {b : B}
      → (m >>= rest) ≡ ok b
      → (a : A) × (m ≡ ok a) × (rest a ≡ ok b)
  >>=-eq-ok (err thrown) rest returned = cc
  >>=-eq-ok (ok value) rest returned = (value, refl, returned)
