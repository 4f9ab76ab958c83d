-- ===== src/Ethers.antt =====
-- The part of the package `ethers` that the utilities compute with: `BigNumber`, an immutable
-- arbitrary precision integer. The package is not in the repository, so its operations are a
-- parameter of every definition that uses them, with their documented behaviour as laws.
-- A `BigNumber` stands as the integer that it wraps; `div` rounds towards zero and throws at a
-- zero divisor, `mod` is the remainder that is never negative, and
-- `toString` is decimal notation. `from` of a number is `from_number`; the arithmetic operations
-- convert a number that is not written out in the code in the same way.
use set_protocol_v.Base.{
  List, ◌∷◌, ℕ, zero, suc, ◌≡◌, ◌≢◌, refl, Bool, true, false, ltb, if◌then◌else◌, Result, ok, err,
  division_by_zero, numeric_fault,
}
use set_protocol_v.Js.{decimal}
use set_protocol_v.Base.Int.{
  ℤ, pos, negsuc, ◌+ℤ◌, ◌-ℤ◌, ◌*ℤ◌, quot, emod, nat_abs, ltb_ℤ, leb_ℤ, eqb_ℤ,
}

-- What the code hands to `BigNumber` as a JavaScript number: a whole number, or anything else, as a
-- fraction, NaN or the string "auto".
pub data Numeric : Type 0 where
  whole : ℤ → Numeric
  other : Numeric

-- Whole numbers below 2^53 - 1 in size can be converted.
abbrev pub is_safe : Numeric → Bool
is_safe (whole n) = ltb (nat_abs n) 9_007_199_254_740_991
is_safe other = false

pub record BigNumber : Type 0 where
  pub from_number : Numeric → Result ℤ
  pub add : ℤ → ℤ → ℤ
  pub sub : ℤ → ℤ → ℤ
  pub mul : ℤ → ℤ → ℤ
  pub div : ℤ → ℤ → Result ℤ
  pub mod_by : ℤ → ℤ → Result ℤ
  pub abs : ℤ → ℤ
  pub eq : ℤ → ℤ → Bool
  pub lt : ℤ → ℤ → Bool
  pub gt : ℤ → ℤ → Bool
  pub gte : ℤ → ℤ → Bool
  pub to_string : ℤ → List ℕ
  pub from_number_safe : (n : ℤ) → is_safe (whole n) ≡ true → from_number (whole n) ≡ ok n
  pub from_number_refused : (v : Numeric) → is_safe v ≡ false → from_number v ≡ err numeric_fault
  pub add_lem : (a b : ℤ) → add a b ≡ a +ℤ b
  pub sub_lem : (a b : ℤ) → sub a b ≡ a -ℤ b
  pub mul_lem : (a b : ℤ) → mul a b ≡ a *ℤ b
  pub div_by_zero : (a : ℤ) → div a (pos 0) ≡ err division_by_zero
  pub div_lem : (a b : ℤ) → b ≢ pos 0 → div a b ≡ ok (quot a b)
  pub mod_by_lem : (a : ℤ) (n : ℕ) → mod_by a (pos (suc n)) ≡ ok (pos (emod a (suc n)))
  pub abs_lem : (a : ℤ) → abs a ≡ pos (nat_abs a)
  pub eq_lem : (a b : ℤ) → eq a b ≡ eqb_ℤ a b
  pub lt_lem : (a b : ℤ) → lt a b ≡ ltb_ℤ a b
  pub gt_lem : (a b : ℤ) → gt a b ≡ ltb_ℤ b a
  pub gte_lem : (a b : ℤ) → gte a b ≡ leb_ℤ b a
  pub to_string_pos : (n : ℕ) → to_string (pos n) ≡ decimal n
  pub to_string_negsuc : (n : ℕ) → to_string (negsuc n) ≡ b'-' ∷ decimal (suc n)

-- An implementation that meets the documented behaviour, for runs at concrete inputs.
abbrev pub exact_div : ℤ → ℤ → Result ℤ
exact_div a (pos zero) = err division_by_zero
exact_div a (pos (suc n)) = ok (quot a (pos (suc n)))
exact_div a (negsuc n) = ok (quot a (negsuc n))

pub exact_div_lem : (a b : ℤ) → b ≢ pos 0 → exact_div a b ≡ ok (quot a b)
exact_div_lem a (pos zero) h = absurd (h refl)
exact_div_lem a (pos (suc n)) h = refl
exact_div_lem a (negsuc n) h = refl

abbrev pub exact_mod_by : ℤ → ℤ → Result ℤ
exact_mod_by a (pos (suc n)) = ok (pos (emod a (suc n)))
exact_mod_by a _ = err division_by_zero

abbrev pub exact_from_number : Numeric → Result ℤ
exact_from_number (whole n) = if is_safe (whole n) then ok n else err numeric_fault
exact_from_number other = err numeric_fault

pub exact_from_number_safe : (n : ℤ) → is_safe (whole n) ≡ true → exact_from_number (whole n) ≡ ok n
exact_from_number_safe n h = rw h refl

pub exact_from_number_refused :
    (v : Numeric) → is_safe v ≡ false → exact_from_number v ≡ err numeric_fault
exact_from_number_refused (whole n) h = rw h refl
exact_from_number_refused other h = refl

abbrev pub exact_to_string : ℤ → List ℕ
exact_to_string (pos n) = decimal n
exact_to_string (negsuc n) = b'-' ∷ decimal (suc n)

abbrev pub exact : BigNumber
exact = record {
  from_number = exact_from_number;
  add = ◌+ℤ◌;
  sub = ◌-ℤ◌;
  mul = ◌*ℤ◌;
  div = exact_div;
  mod_by = exact_mod_by;
  abs = λ a. pos (nat_abs a);
  eq = eqb_ℤ;
  lt = ltb_ℤ;
  gt = λ a b. ltb_ℤ b a;
  gte = λ a b. leb_ℤ b a;
  to_string = exact_to_string;
  from_number_safe = exact_from_number_safe;
  from_number_refused = exact_from_number_refused;
  add_lem = λ a b. refl;
  sub_lem = λ a b. refl;
  mul_lem = λ a b. refl;
  div_by_zero = λ a. refl;
  div_lem = exact_div_lem;
  mod_by_lem = λ a n. refl;
  abs_lem = λ a. refl;
  eq_lem = λ a b. refl;
  lt_lem = λ a b. refl;
  gt_lem = λ a b. refl;
  gte_lem = λ a b. refl;
  to_string_pos = λ n. refl;
  to_string_negsuc = λ n. refl;
}

-- Each operation as the integer operation that its law names. The division is determined by its
-- laws.
module _ (bn : BigNumber) where
  pub add-exact : (a b : ℤ) → bn.add a b ≡ a +ℤ b
  add-exact = bn.add_lem

  pub sub-exact : (a b : ℤ) → bn.sub a b ≡ a -ℤ b
  sub-exact = bn.sub_lem

  pub mul-exact : (a b : ℤ) → bn.mul a b ≡ a *ℤ b
  mul-exact = bn.mul_lem

  pub eq-exact : (a b : ℤ) → bn.eq a b ≡ eqb_ℤ a b
  eq-exact = bn.eq_lem

  pub lt-exact : (a b : ℤ) → bn.lt a b ≡ ltb_ℤ a b
  lt-exact = bn.lt_lem

  pub gt-exact : (a b : ℤ) → bn.gt a b ≡ ltb_ℤ b a
  gt-exact = bn.gt_lem

  pub gte-exact : (a b : ℤ) → bn.gte a b ≡ leb_ℤ b a
  gte-exact = bn.gte_lem

  pub abs-exact : (a : ℤ) → bn.abs a ≡ pos (nat_abs a)
  abs-exact = bn.abs_lem

  pub mod_by-exact : (a : ℤ) (n : ℕ) → bn.mod_by a (pos (suc n)) ≡ ok (pos (emod a (suc n)))
  mod_by-exact = bn.mod_by_lem

  pub div-exact : (a b : ℤ) → bn.div a b ≡ exact_div a b
  div-exact a (pos zero) = bn.div_by_zero a
  div-exact a (pos (suc n)) = bn.div_lem a (pos (suc n)) (λ e. cc)
  div-exact a (negsuc n) = bn.div_lem a (negsuc n) (λ e. cc)

-- With these `simp` turns code over any implementation into integer arithmetic.
pub ruleset bn_laws = (
  add-exact, sub-exact, mul-exact, abs-exact, eq-exact, lt-exact, gt-exact, gte-exact, mod_by-exact,
  div-exact,
)
