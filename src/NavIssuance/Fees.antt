-- ===== src/NavIssuance/Fees.antt =====
-- What is left of a quantity after the manager's and the protocol's fees.
use set_protocol_v.Base.{ℕ, ◌+◌, ◌-◌, ◌*◌, ◌/◌, ◌≤◌, ◌<◌, ◌≡◌, ok, arith}
use set_protocol_v.Base.Int.{pos}
use set_protocol_v.Ethers.{BigNumber}
use set_protocol_v.PreciseMath.Naturals.{unit, precise_mul-pos, sub-pos}
use set_protocol_v.NavIssuance.{get_expected_post_fee_quantity}
use native.Mathlib.Nat.{div-mul-le_self, mul-le-mul_left, mul-sub}

abbrev pub post_fee : ℕ → ℕ → ℕ → ℕ
post_fee q mf pf = q - q * mf / unit - q * pf / unit

fees_le : (q mf pf : ℕ) → mf + pf ≤ unit → q * mf / unit + q * pf / unit ≤ q
fees_le q mf pf h = omega (arith, mul-le-mul_left q h)

pub post_fee_range :
    (q mf pf : ℕ)
    → mf + pf ≤ unit
    → (post_fee q mf pf ≤ q)
      × (q * (unit - mf - pf) ≤ post_fee q mf pf * unit)
      × (post_fee q mf pf * unit < q * (unit - mf - pf) + 2 * unit)
post_fee_range q mf pf h =
    let f = fees_le q mf pf h in
    let l = div-mul-le_self (q * mf) unit in
    let m = div-mul-le_self (q * pf) unit in
    let b = mul-le-mul_left q h in
    (
      omega arith,
      rw (mul-sub q (unit - mf) pf, mul-sub q unit mf) (omega arith),
      rw (mul-sub q (unit - mf) pf, mul-sub q unit mf) (omega arith),
    )

module _ (bn : BigNumber) (q mf pf : ℕ) where
  pub post_fee-value :
      mf + pf ≤ unit
      → get_expected_post_fee_quantity bn (pos q) (pos mf) (pos pf) ≡ ok (pos (post_fee q mf pf))
  unfolding get_expected_post_fee_quantity
  post_fee-value h =
      let f = fees_le q mf pf h in
      rw (precise_mul-pos bn q mf, precise_mul-pos bn q pf)
        (rw (sub-pos bn q (q * mf / unit) (omega arith))
          (rw (sub-pos bn (q - q * mf / unit) (q * pf / unit) (omega arith))))

  -- With fees of at most 100% in all, the quantity after fees is between zero and the quantity. Each
  -- fee is rounded down, so the payer keeps at least the exact share, and less than two base units
  -- more.
  pub post_fee_bounds :
      mf + pf ≤ unit
      → (r : ℕ) × (get_expected_post_fee_quantity bn (pos q) (pos mf) (pos pf) ≡ ok (pos r))
        × (r ≤ q)
        × (q * (unit - mf - pf) ≤ r * unit)
        × (r * unit < q * (unit - mf - pf) + 2 * unit)
  post_fee_bounds h =
      let (le, lower, upper) = post_fee_range q mf pf h in
      (post_fee q mf pf, post_fee-value h, le, lower, upper)
