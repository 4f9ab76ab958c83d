-- ===== src/StreamingFee/Units.antt =====
-- What the fee leaves of each position.
use set_protocol_v.Base.{
  ℕ, zero, suc, ◌*◌, ◌-◌, ◌≤◌, ◌≡◌, refl, ok, List, [], ◌∷◌, ◌++◌, append-nil, append_assoc, map,
  arith,
}
use set_protocol_v.Base.Int.{
  ℤ, pos, negsuc, ◌*ℤ◌, quot, IsFloor, floor_quot, floor_quot-IsFloor, away_quot, neg_of,
}
use set_protocol_v.Ethers.{BigNumber}
use set_protocol_v.PreciseMath.{precise_unit}
use set_protocol_v.PreciseMath.Naturals.{unit, sub-pos}
use set_protocol_v.PreciseMath.Rounding.{precise_mul-value, precise_mul_ceil_int-value}
use set_protocol_v.StreamingFee.{
  post_fee_position_unit, post_fee_units_from, get_post_fee_position_units,
}

-- Two lists of one length, related entry by entry.
abbrev pub Pointwise : (ℤ → ℤ → Type 0) → List ℤ → List ℤ → Type 0
Pointwise R [] [] = Unit
Pointwise R [] (_ ∷ _) = ⊥
Pointwise R (_ ∷ _) [] = ⊥
Pointwise R (x ∷ xs) (y ∷ ys) = R x y × Pointwise R xs ys

abbrev after_fee : ℕ → ℤ → ℤ
after_fee i u = floor_quot (u *ℤ pos (unit - i)) precise_unit

away_of_neg_of : (k : ℕ) → away_quot (neg_of k) precise_unit ≡ floor_quot (neg_of k) precise_unit
away_of_neg_of zero = ground arith
away_of_neg_of (suc k) = refl

after_fee-Pointwise :
    (i : ℕ) (units : List ℤ)
    → Pointwise
        (λ u r. IsFloor (u *ℤ pos (unit - i)) precise_unit r)
        units
        (map (after_fee i) units)
after_fee-Pointwise i [] = tt
after_fee-Pointwise i (u ∷ us) =
    (floor_quot-IsFloor (u *ℤ pos (unit - i)) precise_unit (λ e. cc), after_fee-Pointwise i us)

module _ (bn : BigNumber) (i : ℕ) (h : i ≤ unit) where
  unit-value : (u : ℤ) → post_fee_position_unit bn (pos i) u ≡ ok (after_fee i u)
  unfolding post_fee_position_unit ◌*ℤ◌ quot
  unit-value (pos m) =
      rw (bn.gte_lem (pos m) (pos 0), sub-pos bn unit i h)
        (ground (arith, precise_mul-value bn (pos m) (pos (unit - i))))
  unit-value (negsuc m) =
      rw (bn.gte_lem (negsuc m) (pos 0), sub-pos bn unit i h)
        (ground (
          arith,
          precise_mul_ceil_int-value bn (negsuc m) (pos (unit - i)),
          away_of_neg_of (suc m * (unit - i)),
        ))

  units_from-value :
      (done units : List ℤ)
      → post_fee_units_from bn done units (pos i) ≡ ok (done ++ map (after_fee i) units)
  unfolding post_fee_units_from
  units_from-value done [] = rw append-nil
  units_from-value done (u ∷ us) =
      rw (unit-value u, units_from-value (done ++ after_fee i u ∷ []) us, append_assoc)

  -- For an inflation of at most 100%, the new units are as many as the old ones, and each is the old
  -- unit times what the fee leaves, rounded down: a holding is never too large, and a debt never too
  -- small.
  pub post_fee_units-IsFloor :
      (units : List ℤ)
      → (new_units : List ℤ) × (get_post_fee_position_units bn units (pos i) ≡ ok new_units)
        × Pointwise (λ u r. IsFloor (u *ℤ pos (unit - i)) precise_unit r) units new_units
  unfolding get_post_fee_position_units
  post_fee_units-IsFloor units =
      (map (after_fee i) units, units_from-value [] units, after_fee-Pointwise i units)
