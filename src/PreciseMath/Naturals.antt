-- ===== src/PreciseMath/Naturals.antt =====
-- The routines of utils/common/mathUtils.ts at numbers that are not negative, which is how the
-- expectations on issuance, redemption and fees call them.
use set_protocol_v.Base.{ℕ, ◌+◌, ◌-◌, ◌*◌, ◌/◌, ◌≤◌, ◌<◌, ◌≡◌, ok, arith}
use set_protocol_v.Base.Int.{pos, ◌+ℤ◌, ◌-ℤ◌, ◌*ℤ◌, quot, ceil_quot, ceil_quot_bounds}
use set_protocol_v.Ethers.{BigNumber}
use set_protocol_v.PreciseMath.{precise_mul, precise_mul_ceil, precise_div, precise_div_ceil}
use set_protocol_v.PreciseMath.Rounding.{
  precise_mul-value, precise_mul_ceil-value, precise_div-value, precise_div_ceil-value,
}
use native.Mathlib.Nat.{div-mul-le_self}

-- 10^18
abbrev pub unit : ℕ
unit = 1_000_000_000_000_000_000

module _ (bn : BigNumber) (a b : ℕ) where
  pub precise_mul-pos : precise_mul bn (pos a) (pos b) ≡ ok (pos (a * b / unit))
  unfolding ◌*ℤ◌ quot
  precise_mul-pos = precise_mul-value bn (pos a) (pos b)

  pub precise_mul_ceil-pos : precise_mul_ceil bn (pos a) (pos b) ≡ ok (pos (ceil_quot (a * b) unit))
  unfolding ◌*ℤ◌
  precise_mul_ceil-pos = precise_mul_ceil-value bn (pos a) (pos b) (omega arith) (omega arith)

  pub precise_div-pos : 0 < b → precise_div bn (pos a) (pos b) ≡ ok (pos (a * unit / b))
  unfolding ◌*ℤ◌ quot
  precise_div-pos h = precise_div-value bn (pos a) (pos b) (ground arith)

  pub precise_div_ceil-pos :
      0 < b → precise_div_ceil bn (pos a) (pos b) ≡ ok (pos (ceil_quot (a * unit) b))
  unfolding ◌*ℤ◌
  precise_div_ceil-pos h = precise_div_ceil-value bn (pos a) (pos b) (omega arith) (omega arith)

module _ (bn : BigNumber) (a b : ℕ) where
  pub sub-pos : b ≤ a → bn.sub (pos a) (pos b) ≡ pos (a - b)
  unfolding ◌-ℤ◌
  sub-pos h = ground (arith, bn.sub_lem (pos a) (pos b))

  pub add-pos : bn.add (pos a) (pos b) ≡ pos (a + b)
  unfolding ◌+ℤ◌
  add-pos = ground (arith, bn.add_lem (pos a) (pos b))

  pub mul-pos : bn.mul (pos a) (pos b) ≡ pos (a * b)
  unfolding ◌*ℤ◌
  mul-pos = ground (arith, bn.mul_lem (pos a) (pos b))

-- A proper share of a number is at most the number, also where it is rounded up.
pub mul-div-le : (q s u : ℕ) → s ≤ u → q * s / u ≤ q
mul-div-le q s u h = grind (arith, div-mul-le_self (q * s) u)

pub ceil-le_of_share : (q s u : ℕ) → 0 < u → s ≤ u → ceil_quot (q * s) u ≤ q
ceil-le_of_share q s u p h = grind (arith, ceil_quot_bounds (q * s) u p)
