-- ===== src/PreciseMath/Tests.antt =====
-- Runs of utils/common/mathUtils.ts at concrete inputs, and its theorems applied at some.
use set_protocol_v.Base.{◌≡◌, refl, ok, err, division_by_zero}
use set_protocol_v.Base.Int.{
  ℤ, pos, negsuc, ◌+ℤ◌, ◌-ℤ◌, ◌*ℤ◌, quot, emod, Truncates, RoundsAway, IsFloor,
}
use set_protocol_v.Ethers.{exact}
use set_protocol_v.PreciseMath.{
  precise_unit, precise_mul, precise_mul_ceil_int, precise_div, precise_div_ceil,
  precise_div_ceil_int, div_down,
}
use set_protocol_v.PreciseMath.Rounding.{
  precise_mul-Truncates, precise_mul_ceil_int-RoundsAway, precise_div_ceil_int-RoundsAway,
  div_down-IsFloor, division_by_zero_results,
}

-- -1.5 and 0.5
abbrev minus_three_halves : ℤ
minus_three_halves = negsuc 1_499_999_999_999_999_999

abbrev half : ℤ
half = pos 500_000_000_000_000_000

mul_run : precise_mul exact minus_three_halves (pos 3) ≡ ok (negsuc 3)
unfolding precise_mul ◌*ℤ◌ quot
mul_run = refl

mul_ceil_int_run : precise_mul_ceil_int exact minus_three_halves (pos 3) ≡ ok (negsuc 4)
unfolding precise_mul_ceil_int ◌*ℤ◌ ◌+ℤ◌ ◌-ℤ◌ quot
mul_ceil_int_run = refl

div_down_run : div_down exact (pos 7) (negsuc 1) ≡ ok (negsuc 3)
unfolding div_down ◌*ℤ◌ ◌-ℤ◌ quot emod
div_down_run = refl

precise_mul-Truncates_example :
    (q : ℤ) × (precise_mul exact minus_three_halves (pos 3) ≡ ok q)
    × Truncates (minus_three_halves *ℤ pos 3) precise_unit q
precise_mul-Truncates_example = precise_mul-Truncates exact minus_three_halves (pos 3)

precise_mul_ceil_int-RoundsAway_example :
    (q : ℤ) × (precise_mul_ceil_int exact minus_three_halves (pos 3) ≡ ok q)
    × RoundsAway (minus_three_halves *ℤ pos 3) precise_unit q
precise_mul_ceil_int-RoundsAway_example =
    precise_mul_ceil_int-RoundsAway exact minus_three_halves (pos 3)

precise_div_ceil_int-RoundsAway_example :
    (q : ℤ) × (precise_div_ceil_int exact (pos 1) (negsuc 2) ≡ ok q)
    × RoundsAway (pos 1 *ℤ precise_unit) (negsuc 2) q
precise_div_ceil_int-RoundsAway_example =
    precise_div_ceil_int-RoundsAway exact (pos 1) (negsuc 2) (λ e. cc)

div_down-IsFloor_example :
    (q : ℤ) × (div_down exact (pos 7) (negsuc 1) ≡ ok q) × IsFloor (pos 7) (negsuc 1) q
div_down-IsFloor_example = div_down-IsFloor exact (pos 7) (negsuc 1) (λ e. cc)

division_by_zero_results_example :
    (precise_div exact (pos 5) (pos 0) ≡ err division_by_zero)
    × (precise_div_ceil_int exact (pos 5) (pos 0) ≡ err division_by_zero)
    × (div_down exact (pos 5) (pos 0) ≡ err division_by_zero)
    × (precise_div_ceil exact (pos 5) (pos 0) ≡ ok (pos 0))
division_by_zero_results_example = division_by_zero_results exact (pos 5)
