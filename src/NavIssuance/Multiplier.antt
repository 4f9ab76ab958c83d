-- ===== src/NavIssuance/Multiplier.antt =====
-- The position multiplier under issuance and redemption.
use set_protocol_v.Base.{ℕ, ◌+◌, ◌-◌, ◌*◌, ◌/◌, ◌≤◌, ◌<◌, ◌≡◌, ok, arith}
use set_protocol_v.Base.Int.{pos, ceil_quot, ceil_quot_bounds}
use set_protocol_v.Ethers.{BigNumber}
use set_protocol_v.PreciseMath.Naturals.{
  unit, precise_mul-pos, precise_div-pos, precise_div_ceil-pos, sub-pos, add-pos, mul-div-le,
  ceil-le_of_share,
}
use set_protocol_v.NavIssuance.{
  get_expected_issue_position_multiplier, get_expected_redeem_position_multiplier,
}
use native.Mathlib.Nat.{
  div-mul-le_self, mul_comm, mul-sub, le_of_mul-le-mul_right, le_trans, le-add_right,
  mul-le-mul_left, mul-le-mul_right,
}

-- The share of the old supply in the new one, rounded down as the source does.
abbrev issue_share : ℕ → ℕ → ℕ
issue_share p c = unit - ceil_quot ((c - p) * unit) c

issue_inflation_le : (p c : ℕ) → 0 < c → ceil_quot ((c - p) * unit) c ≤ unit
issue_inflation_le p c h =
    rw (mul_comm (c - p) unit) (ceil-le_of_share unit (c - p) c h (omega arith))

issue_share_bound : (p c : ℕ) → 0 < c → p ≤ c → issue_share p c * c ≤ p * unit
issue_share_bound p c h k =
    let b = ceil_quot_bounds ((c - p) * unit) c h in
    rw (mul_comm (issue_share p c) c, mul-sub c unit) (omega (arith, b.0))

scale_down : (m s p c r : ℕ) → r * unit ≤ m * s → s * c ≤ p * unit → r * c ≤ m * p
scale_down m s p c r h k = omega (arith, mul-le-mul_left m k, mul-le-mul_right c h)

le_mul_div : (m s : ℕ) → unit ≤ s → m ≤ m * s / unit
le_mul_div m s h = omega (arith, mul-le-mul_left m h)

redeem_share_bound : (p c : ℕ) → c ≤ p → (unit + (p - c) * unit / c) * c ≤ p * unit
redeem_share_bound p c h = omega (arith, div-mul-le_self ((p - c) * unit) c)

module _ (bn : BigNumber) (m p c : ℕ) (some_supply : 0 < c) where
  issue-value :
      p ≤ c
      → get_expected_issue_position_multiplier bn (pos m) (pos p) (pos c)
        ≡ ok (pos (m * issue_share p c / unit))
  unfolding get_expected_issue_position_multiplier
  issue-value k =
      rw (sub-pos bn c p k, precise_div_ceil-pos bn (c - p) c some_supply)
        (rw (sub-pos bn unit (ceil_quot ((c - p) * unit) c) (issue_inflation_le p c some_supply))
          (precise_mul-pos bn _ _))

  redeem-value :
      c ≤ p
      → get_expected_redeem_position_multiplier bn (pos m) (pos p) (pos c)
        ≡ ok (pos (m * (unit + (p - c) * unit / c) / unit))
  unfolding get_expected_redeem_position_multiplier
  redeem-value k =
      rw (sub-pos bn p c k, precise_div-pos bn (p - c) c some_supply)
        (rw (add-pos bn unit ((p - c) * unit / c)) (precise_mul-pos bn _ _))

module _ (bn : BigNumber) (m p c : ℕ) where
  -- When the supply grows from `p` to a positive `c`, the expected multiplier is at most the old
  -- one, and times the new supply at most the old one times the old supply: the rounding never
  -- credits the old holders with more than they had.
  pub issue_multiplier_bounds :
      0 < c
      → p ≤ c
      → (r : ℕ) × (get_expected_issue_position_multiplier bn (pos m) (pos p) (pos c) ≡ ok (pos r))
        × (r ≤ m)
        × (r * c ≤ m * p)
  issue_multiplier_bounds h k = (
    m * issue_share p c / unit,
    issue-value bn m p c h k,
    mul-div-le m (issue_share p c) unit (omega arith),
    scale_down m (issue_share p c) p c _ (div-mul-le_self _ unit) (issue_share_bound p c h k),
  )

  -- When the supply falls from `p` to a positive `c`, the expected multiplier is at least the old
  -- one, and times the new supply at most the old one times the old supply.
  pub redeem_multiplier_bounds :
      0 < c
      → c ≤ p
      → (r : ℕ) × (get_expected_redeem_position_multiplier bn (pos m) (pos p) (pos c) ≡ ok (pos r))
        × (m ≤ r)
        × (r * c ≤ m * p)
  redeem_multiplier_bounds h k = (
    m * (unit + (p - c) * unit / c) / unit,
    redeem-value bn m p c h k,
    le_mul_div m _ (le-add_right unit _),
    scale_down m (unit + (p - c) * unit / c) p c _ (div-mul-le_self _ unit)
        (redeem_share_bound p c k),
  )

module _ (bn : BigNumber) (m p c : ℕ) where
  -- An issuance that raises the supply from a positive `p` to `c`, and a redemption that brings it
  -- back, leave the expected multiplier at most where it was.
  pub issue_redeem_multiplier_le :
      0 < p
      → p ≤ c
      → (r s : ℕ) × (get_expected_issue_position_multiplier bn (pos m) (pos p) (pos c) ≡ ok (pos r))
        × (get_expected_redeem_position_multiplier bn (pos r) (pos c) (pos p) ≡ ok (pos s))
        × (r ≤ s)
        × (s ≤ m)
  issue_redeem_multiplier_le h k =
      let (r, e, _, below) = issue_multiplier_bounds bn m p c (omega arith) k in
      let (s, f, above, back) = redeem_multiplier_bounds bn r c p h k in
      (r, s, e, f, above, le_of_mul-le-mul_right (le_trans back below) h)
