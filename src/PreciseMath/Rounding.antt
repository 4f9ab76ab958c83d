-- ===== src/PreciseMath/Rounding.antt =====
-- How each routine of utils/common/mathUtils.ts rounds, for every sign of its arguments.
use set_protocol_v.Base.{ℕ, zero, suc, ◌≡◌, ◌≢◌, refl, ok, err, division_by_zero, arith}
use set_protocol_v.Base.Int.{ℤ, pos, negsuc, ◌*ℤ◌, ◌≤ℤ◌, ◌<ℤ◌, quot, emod}
use set_protocol_v.Base.Int.{
  Truncates, RoundsAway, quot-Truncates, away_quot, away_quot-RoundsAway, away_of_pos, away_of_neg,
  away_of_quot, same_signs, mul_zero_left, mul_zero_right, mul_pos_pos, mul_neg_neg, mul_pos_neg,
  mul_neg_pos, neg_of_sub_one, IsFloor, floor_quot, floor_quot-IsFloor,
}
use set_protocol_v.Ethers.{BigNumber, bn_laws, exact_div_lem}
use set_protocol_v.PreciseMath.{
  precise_unit, precise_mul, precise_mul_ceil, precise_mul_ceil_int, precise_div, precise_div_ceil,
  precise_div_ceil_int, div_down, adjust_down,
}

unit_nat : ℕ
unit_nat = 1_000_000_000_000_000_000

unit_ne_zero : precise_unit ≢ pos 0
unit_ne_zero e = cc

same_signs_scale : (a b : ℤ) → same_signs (a *ℤ precise_unit) b ≡ same_signs a b
unfolding ◌*ℤ◌
same_signs_scale a b = ground arith

neg_times_minus_one : (n : ℕ) → negsuc n *ℤ negsuc 0 ≡ pos (suc n)
unfolding ◌*ℤ◌
neg_times_minus_one n = ground arith

module _ (bn : BigNumber) where
  pub precise_mul-value : (a b : ℤ) → precise_mul bn a b ≡ ok (quot (a *ℤ b) precise_unit)
  unfolding precise_mul
  precise_mul-value a b = simp bn_laws

  pub precise_mul_ceil_int-value :
      (a b : ℤ) → precise_mul_ceil_int bn a b ≡ ok (away_quot (a *ℤ b) precise_unit)
  unfolding precise_mul_ceil_int
  precise_mul_ceil_int-value a b =
      simp (bn_laws, precise_mul_ceil_int)
        (ground (
          arith,
          mul_zero_left a b,
          mul_zero_right a b,
          mul_pos_pos a b,
          mul_neg_neg a b,
          mul_pos_neg a b,
          mul_neg_pos a b,
          away_of_pos (a *ℤ b) 1_000_000_000_000_000_000,
          away_of_neg (a *ℤ b) 1_000_000_000_000_000_000,
        ))

  pub precise_mul_ceil-value :
      (a b : ℤ)
      → pos 0 ≤ℤ a
      → pos 0 ≤ℤ b
      → precise_mul_ceil bn a b ≡ ok (away_quot (a *ℤ b) precise_unit)
  unfolding precise_mul_ceil
  precise_mul_ceil-value a b h k =
      simp (bn_laws, precise_mul_ceil)
        (ground (
          arith,
          mul_zero_left a b,
          mul_zero_right a b,
          mul_pos_pos a b,
          away_of_pos (a *ℤ b) 1_000_000_000_000_000_000,
        ))

  pub precise_div-value :
      (a b : ℤ) → b ≢ pos 0 → precise_div bn a b ≡ ok (quot (a *ℤ precise_unit) b)
  unfolding precise_div
  precise_div-value a b h = simp bn_laws (exact_div_lem _ b h)

  pub precise_div_ceil-value :
      (a b : ℤ)
      → pos 0 ≤ℤ a
      → pos 0 <ℤ b
      → precise_div_ceil bn a b ≡ ok (away_quot (a *ℤ precise_unit) b)
  unfolding precise_div_ceil
  precise_div_ceil-value a (pos (suc n)) h k =
      simp (bn_laws, precise_div_ceil)
        (ground (
          arith,
          mul_zero_left a precise_unit,
          mul_pos_pos a precise_unit,
          away_of_pos (a *ℤ precise_unit) (suc n),
        ))
  precise_div_ceil-value a (pos zero) h k = absurd (omega arith)
  precise_div_ceil-value a (negsuc n) h k = absurd (omega arith)

  pub precise_div_ceil_int-value :
      (a b : ℤ) → b ≢ pos 0 → precise_div_ceil_int bn a b ≡ ok (away_quot (a *ℤ precise_unit) b)
  unfolding precise_div_ceil_int
  precise_div_ceil_int-value a b h =
      simp (bn_laws, precise_div_ceil_int)
        (rw (exact_div_lem (a *ℤ precise_unit) b h)
          (rw (away_of_quot (a *ℤ precise_unit) b h, same_signs_scale a b) (ground arith)))

  pub div_down-value : (a b : ℤ) → b ≢ pos 0 → div_down bn a b ≡ ok (floor_quot a b)
  unfolding div_down
  div_down-value (pos m) (pos zero) h = absurd (h refl)
  div_down-value (pos m) (pos (suc n)) h = unfold quot in simp (bn_laws, div_down) (ground arith)
  div_down-value (pos m) (negsuc n) h =
      unfold quot emod adjust_down in
      simp (bn_laws, div_down, neg_times_minus_one, adjust_down, neg_of_sub_one) (ground arith)
  div_down-value (negsuc m) (pos zero) h = absurd (h refl)
  div_down-value (negsuc m) (pos (suc n)) h =
      unfold quot emod adjust_down in
      simp (bn_laws, div_down, adjust_down, neg_of_sub_one) (ground arith)
  div_down-value (negsuc m) (negsuc n) h = unfold quot in simp (bn_laws, div_down) (ground arith)

positive_ne_zero : (b : ℤ) → pos 0 <ℤ b → b ≢ pos 0
positive_ne_zero b h = ground arith

module _ (bn : BigNumber) (a b : ℤ) where
  -- For integers of either sign, `preciseMul` returns the product divided by 10^18, rounded
  -- towards zero.
  pub precise_mul-Truncates :
      (q : ℤ) × (precise_mul bn a b ≡ ok q) × Truncates (a *ℤ b) precise_unit q
  precise_mul-Truncates = (_, precise_mul-value bn a b, quot-Truncates _ _ unit_ne_zero)

  -- For factors that are not negative, `preciseMulCeil` returns the product divided by 10^18,
  -- rounded up.
  pub precise_mul_ceil-RoundsAway :
      pos 0 ≤ℤ a
      → pos 0 ≤ℤ b
      → (q : ℤ) × (precise_mul_ceil bn a b ≡ ok q) × RoundsAway (a *ℤ b) precise_unit q
  precise_mul_ceil-RoundsAway h k =
      (_, precise_mul_ceil-value bn a b h k, away_quot-RoundsAway _ _ unit_ne_zero)

  -- For integers of either sign, `preciseMulCeilInt` returns the product divided by 10^18, rounded
  -- away from zero.
  pub precise_mul_ceil_int-RoundsAway :
      (q : ℤ) × (precise_mul_ceil_int bn a b ≡ ok q) × RoundsAway (a *ℤ b) precise_unit q
  precise_mul_ceil_int-RoundsAway =
      (_, precise_mul_ceil_int-value bn a b, away_quot-RoundsAway _ _ unit_ne_zero)

  -- For a divisor that is not zero, `preciseDiv` returns `a` times 10^18 divided by it, rounded
  -- towards zero.
  pub precise_div-Truncates :
      b ≢ pos 0 → (q : ℤ) × (precise_div bn a b ≡ ok q) × Truncates (a *ℤ precise_unit) b q
  precise_div-Truncates h = (_, precise_div-value bn a b h, quot-Truncates _ _ h)

  -- For a dividend that is not negative and a positive divisor, `preciseDivCeil` returns the
  -- quotient in units of 10^-18, rounded up.
  pub precise_div_ceil-RoundsAway :
      pos 0 ≤ℤ a
      → pos 0 <ℤ b
      → (q : ℤ) × (precise_div_ceil bn a b ≡ ok q) × RoundsAway (a *ℤ precise_unit) b q
  precise_div_ceil-RoundsAway h k =
      (_, precise_div_ceil-value bn a b h k, away_quot-RoundsAway _ _ (positive_ne_zero b k))

  -- For a divisor that is not zero, `preciseDivCeilInt` returns the quotient in units of 10^-18,
  -- rounded away from zero, whatever the signs.
  pub precise_div_ceil_int-RoundsAway :
      b ≢ pos 0
      → (q : ℤ) × (precise_div_ceil_int bn a b ≡ ok q) × RoundsAway (a *ℤ precise_unit) b q
  precise_div_ceil_int-RoundsAway h =
      (_, precise_div_ceil_int-value bn a b h, away_quot-RoundsAway _ _ h)

  -- For a divisor that is not zero, `divDown` returns the quotient rounded down, whatever the
  -- signs.
  pub div_down-IsFloor : b ≢ pos 0 → (q : ℤ) × (div_down bn a b ≡ ok q) × IsFloor a b q
  div_down-IsFloor h = (_, div_down-value bn a b h, floor_quot-IsFloor a b h)

-- With a zero divisor the divisions throw ethers' error, except `preciseDivCeil`, which returns
-- zero.
pub division_by_zero_results :
    (bn : BigNumber) (a : ℤ)
    → (precise_div bn a (pos 0) ≡ err division_by_zero)
      × (precise_div_ceil_int bn a (pos 0) ≡ err division_by_zero)
      × (div_down bn a (pos 0) ≡ err division_by_zero)
      × (precise_div_ceil bn a (pos 0) ≡ ok (pos 0))
unfolding precise_div precise_div_ceil_int div_down precise_div_ceil
division_by_zero_results bn a =
    (simp bn_laws, simp bn_laws, simp bn_laws, simp (bn_laws, precise_div_ceil) (ground arith))
