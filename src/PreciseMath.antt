-- ===== src/PreciseMath.antt =====
-- utils/common/mathUtils.ts: fixed-point arithmetic on integers scaled by 10^18.
pub mod Rounding
pub mod Naturals
mod Tests
use set_protocol_v.Base.{Bool, not, ◌&&◌, ◌||◌, if◌then◌else◌, Result, ok, map_result, ◌>>=◌}
use set_protocol_v.Base.Int.{ℤ, pos, negsuc}
use set_protocol_v.Ethers.{BigNumber}

-- `PRECISE_UNIT`, which is ethers' `WeiPerEther`, and `ZERO` (utils/constants.ts).
abbrev pub precise_unit : ℤ
precise_unit = pos 1_000_000_000_000_000_000

abbrev pub zero_bn : ℤ
zero_bn = pos 0

module _ (bn : BigNumber) where
  open bn use {add, sub, mul, div, mod_by, eq, lt, gt}

  unfoldable pub precise_mul : ℤ → ℤ → Result ℤ
  precise_mul a b = div (mul a b) precise_unit

  unfoldable pub precise_mul_ceil : ℤ → ℤ → Result ℤ
  precise_mul_ceil a b =
      if eq a (pos 0) || eq b (pos 0)
      then ok zero_bn
      else map_result (λ q. add q (pos 1)) (div (sub (mul a b) (pos 1)) precise_unit)

  -- Both factors positive, or both negative.
  unfoldable pub same_sign : ℤ → ℤ → Bool
  same_sign a b = (gt a (pos 0) && gt b (pos 0)) || (lt a (pos 0) && lt b (pos 0))

  unfoldable pub precise_mul_ceil_int : ℤ → ℤ → Result ℤ
  unfolding same_sign
  precise_mul_ceil_int a b =
      if eq a (pos 0) || eq b (pos 0)
      then ok zero_bn
      else if same_sign a b
      then map_result (λ q. add q (pos 1)) (div (sub (mul a b) (pos 1)) precise_unit)
      else map_result (λ q. sub q (pos 1)) (div (add (mul a b) (pos 1)) precise_unit)

  unfoldable pub precise_div : ℤ → ℤ → Result ℤ
  precise_div a b = div (mul a precise_unit) b

  unfoldable pub precise_div_ceil : ℤ → ℤ → Result ℤ
  precise_div_ceil a b =
      if eq a (pos 0) || eq b (pos 0)
      then ok zero_bn
      else map_result (λ q. add q (pos 1)) (div (sub (mul a precise_unit) (pos 1)) b)

  unfoldable pub precise_div_ceil_int : ℤ → ℤ → Result ℤ
  unfolding same_sign
  precise_div_ceil_int a b = do
    result ← div (mul a precise_unit) b
    ok (
        if eq (mul result b) (mul a precise_unit)
        then result
        else if same_sign a b
        then add result (pos 1)
        else sub result (pos 1))

  -- The body of both tests of `div_down`: one less, unless the remainder is zero.
  unfoldable pub adjust_down : ℤ → ℤ → ℤ
  adjust_down result remainder = if not (eq remainder (pos 0)) then sub result (pos 1) else result

  unfoldable pub div_down : ℤ → ℤ → Result ℤ
  unfolding adjust_down
  div_down a b = do
    result ← div a b
    if lt a (pos 0) && gt b (pos 0)
        then map_result (adjust_down result) (mod_by a b)
        else if gt a (pos 0) && lt b (pos 0)
        then map_result (adjust_down result) (mod_by a (mul b (negsuc 0)))
        else ok result

  unfoldable min_bn : ℤ → ℤ → ℤ
  min_bn value_one value_two = if lt value_one value_two then value_one else value_two
