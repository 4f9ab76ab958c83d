-- ===== src/NavIssuance/Quantity.antt =====
-- What a redemption pays out and what an issuance mints.
use set_protocol_v.Base.{ℕ, ◌+◌, ◌-◌, ◌*◌, ◌/◌, ◌≤◌, ◌<◌, ◌≡◌, ok, arith}
use set_protocol_v.Base.Int.{pos, ceil_quot, ceil_quot_bounds, div_upper}
use set_protocol_v.Ethers.{BigNumber}
use set_protocol_v.Contracts.{Address, SetToken, SetValuer}
use set_protocol_v.PreciseMath.Naturals.{
  unit, precise_mul-pos, precise_mul_ceil-pos, precise_div-pos, sub-pos, add-pos, mul-div-le,
  ceil-le_of_share,
}
use set_protocol_v.NavIssuance.{
  get_expected_set_token_issue_quantity, get_expected_issue_position_unit,
  get_expected_reserve_redeem_quantity, get_expected_redeem_position_unit,
}
use set_protocol_v.NavIssuance.Fees.{post_fee, post_fee-value, post_fee_range}
use native.Mathlib.Nat.{div-mul-le_self, mul-le-mul_left, mul-le-mul_right, mul-sub, le_trans}

-- The reserve value of the redeemed quantity less the premium, which is rounded up.
abbrev net_of_premium : ℕ → ℕ → ℕ
net_of_premium t premium = t - ceil_quot (t * premium) unit

lt-le : {m n : ℕ} → m < n → m ≤ n
lt-le h = omega arith

net_of_premium_bounds :
    (t premium : ℕ)
    → premium ≤ unit
    → (net_of_premium t premium * unit ≤ t * (unit - premium))
      × (t * (unit - premium) ≤ (net_of_premium t premium + 1) * unit)
net_of_premium_bounds t premium h =
    let (l, u) = ceil_quot_bounds (t * premium) unit (omega arith) in
    let c = ceil-le_of_share t premium unit (omega arith) h in
    (rw mul-sub (omega arith), rw mul-sub (omega arith))

module _ (w v s f base t x y r : ℕ) where
  payout_upper :
      t * w ≤ v
      → x * w ≤ t * s
      → y * w ≤ x * f + 2 * w
      → r * w ≤ y * base
      → r * w * w * w * w ≤ (v * s * f + 2 * w * w * w) * base
  payout_upper h k l m =
      let valued : t * w * (s * f * base) ≤ v * (s * f * base) =
        mul-le-mul_right (s * f * base) h in
      let net : x * w * (f * w * base) ≤ t * s * (f * w * base) =
        mul-le-mul_right (f * w * base) k in
      let taken : y * w * (w * w * base) ≤ (x * f + 2 * w) * (w * w * base) =
        mul-le-mul_right (w * w * base) l in
      let paid : r * w * (w * w * w) ≤ y * base * (w * w * w) = mul-le-mul_right (w * w * w) m in
      omega arith

  payout_lower :
      v ≤ (t + 1) * w
      → t * s ≤ (x + 1) * w
      → x * f ≤ y * w
      → y * base ≤ (r + 1) * w
      → s ≤ w
      → f ≤ w
      → v * s * f * base ≤ ((r + 1) * w + 2 * base) * (w * w * w)
  payout_lower h k l m sw fw =
      let valued : v * (s * f * base) ≤ (t + 1) * w * (s * f * base) =
        mul-le-mul_right (s * f * base) h in
      let net : t * s * (f * w * base) ≤ (x + 1) * w * (f * w * base) =
        mul-le-mul_right (f * w * base) k in
      let taken : x * f * (w * w * base) ≤ y * w * (w * w * base) =
        mul-le-mul_right (w * w * base) l in
      let paid : y * base * (w * w * w) ≤ (r + 1) * w * (w * w * w) =
        mul-le-mul_right (w * w * w) m in
      let share : s * (w * f * base) ≤ w * (w * f * base) = mul-le-mul_right (w * f * base) sw in
      let fees : f * (w * w * base) ≤ w * (w * w * base) = mul-le-mul_right (w * w * base) fw in
      omega arith

module _ (bn : BigNumber) (q v base mf pf premium : ℕ) where
  -- With a premium of at most 100%, and fees of at most 100% in all, a redemption pays, in base units
  -- of the reserve asset, the value of the redeemed quantity less the premium and less the fees. It
  -- pays at most what 2 of the 10^18 parts of a unit of value are worth more, since each fee is
  -- rounded down, and at most as much and one base unit less.
  pub redeem_quantity_bound :
      premium ≤ unit
      → mf + pf ≤ unit
      → (r : ℕ) × (get_expected_reserve_redeem_quantity bn
            (pos q)
            (pos v)
            (pos base)
            (pos mf)
            (pos pf)
            (pos premium)
          ≡ ok (pos r))
        × (r * unit * unit * unit * unit
            ≤ (v * q * (unit - premium) * (unit - mf - pf) + 2 * unit * unit * unit) * base)
        × (v * q * (unit - premium) * (unit - mf - pf) * base
            ≤ ((r + 1) * unit + 2 * base) * (unit * unit * unit))
  unfolding get_expected_reserve_redeem_quantity
  redeem_quantity_bound h k =
      let t : ℕ = v * q / unit in
      let x : ℕ = net_of_premium t premium in
      let y : ℕ = post_fee x mf pf in
      let r : ℕ = y * base / unit in
      let (net_upper, net_lower) = net_of_premium_bounds t premium h in
      let (_, fee_lower, fee_upper) = post_fee_range x mf pf k in
      (
        r,
        rw (precise_mul-pos bn v q, precise_mul_ceil-pos bn t premium)
            (rw
              (sub-pos bn t (ceil_quot (t * premium) unit)
                (ceil-le_of_share t premium unit (omega arith) h))
              (rw (post_fee-value bn x mf pf k) (precise_mul-pos bn y base))),
        payout_upper unit (v * q) (unit - premium) (unit - mf - pf) base t x y r
            (div-mul-le_self (v * q) unit) net_upper (lt-le fee_upper)
            (div-mul-le_self (y * base) unit),
        payout_lower unit (v * q) (unit - premium) (unit - mf - pf) base t x y r
            (lt-le (div_upper (v * q) unit (omega arith))) net_lower fee_lower
            (lt-le (div_upper (y * base) unit (omega arith))) (omega arith) (omega arith),
      )

-- Rounding a unit to a virtual one and back never raises it.
round_trip_le : (x m : ℕ) → 0 < m → x * m / unit * unit / m ≤ x
round_trip_le x m h =
    grind (arith, div-mul-le_self (x * m) unit, div-mul-le_self (x * m / unit * unit) m)

unit_bound :
    (ps u q y n x r c : ℕ)
    → x * c ≤ n * unit
    → r ≤ x
    → n * unit ≤ ps * u + q * unit
    → r * c ≤ ps * u + q * unit
unit_bound ps u q y n x r c h k l = le_trans (mul-le-mul_right c k) (le_trans h l)

module _ (bn : BigNumber) (u q ps c m mf pf : ℕ) where
  -- With fees of at most 100% in all, a positive new supply and a positive multiplier, the unit
  -- expected after an issuance, over the new supply, is at most what was held and what is put in.
  pub issue_unit_bound :
      mf + pf ≤ unit
      → 0 < c
      → 0 < m
      → (r : ℕ) × (get_expected_issue_position_unit bn
            (pos u)
            (pos q)
            (pos ps)
            (pos c)
            (pos m)
            (pos mf)
            (pos pf)
          ≡ ok (pos r))
        × (r * c ≤ ps * u + q * unit)
  unfolding get_expected_issue_position_unit
  issue_unit_bound h k l =
      let y : ℕ = post_fee q mf pf in
      let n : ℕ = ps * u / unit + y in
      let x : ℕ = n * unit / c in
      let r : ℕ = x * m / unit * unit / m in
      (
        r,
        rw (post_fee-value bn q mf pf h, precise_mul-pos bn ps u)
            (rw (add-pos bn (ps * u / unit) y) (
              rw (precise_div-pos bn n c k)
                (rw (precise_mul-pos bn x m) (precise_div-pos bn (x * m / unit) m l)))),
        unit_bound ps u q y n x r c (div-mul-le_self (n * unit) c) (round_trip_le x m l)
            (omega (arith, div-mul-le_self (ps * u) unit)),
      )

div_mono : (a b d : ℕ) → 0 < d → a ≤ b → a / d ≤ b / d
div_mono a b d p h = grind (arith, div-mul-le_self a d, div_upper b d p)

mint_bound :
    (v d x s base q r : ℕ)
    → v ≤ d
    → r * d ≤ x * s / unit * unit
    → x * s / unit * unit ≤ x * s
    → x * base ≤ q * unit
    → r * v * base ≤ s * (q * unit)
mint_bound v d x s base q r h k l m = omega (
  arith,
  mul-le-mul_right base (le_trans (mul-le-mul_left r h) (le_trans k l)),
  mul-le-mul_left s m,
)

module _ (bn : BigNumber) (token : SetToken) (valuer : SetValuer) (asset : Address)
    (q base mf pf premium : ℕ) {v s : ℕ} where
  -- Where the valuation `v` and the supply `s` can be read and the SetToken's value is not zero,
  -- with percentages of at most 100%, the expected quantity is no larger than the reserve put in
  -- buys at that valuation.
  pub issue_quantity_bound :
      valuer.calculate_set_token_valuation token.address asset ≡ ok (pos v)
      → token.total_supply ≡ ok (pos s)
      → mf + pf ≤ unit
      → premium ≤ unit
      → 0 < base
      → 0 < s * v / unit
      → (r : ℕ) × (get_expected_set_token_issue_quantity bn token valuer asset
            (pos base)
            (pos q)
            (pos mf)
            (pos pf)
            (pos premium)
          ≡ ok (pos r))
        × (r * (s * v / unit) * base ≤ s * (q * unit))
  unfolding get_expected_set_token_issue_quantity
  issue_quantity_bound ev es h k l p =
      let f : ℕ = post_fee q mf pf in
      let w : ℕ = f - f * premium / unit in
      let n : ℕ = f * unit / base in
      let x : ℕ = w * unit / base in
      let d : ℕ = s * v / unit + n - x in
      let x_le : x ≤ n = div_mono _ _ base l (mul-le-mul_right unit (omega arith)) in
      let d_ge : s * v / unit ≤ d = omega arith in
      (
        x * s / unit * unit / d,
        rw (ev, es)
            (rw (post_fee-value bn q mf pf h, precise_mul-pos bn f premium)
              (rw (sub-pos bn f (f * premium / unit) (mul-div-le f premium unit k)) (
                rw
                  (precise_div-pos bn f base l, precise_div-pos bn w base l, precise_mul-pos bn s v)
                  (rw (add-pos bn (s * v / unit) n) (
                    rw (sub-pos bn (s * v / unit + n) x (omega arith), precise_mul-pos bn x s)
                      (precise_div-pos bn (x * s / unit) d (omega arith))))))),
        mint_bound (s * v / unit) d x s base q _ d_ge (div-mul-le_self (x * s / unit * unit) d)
            (div-mul-le_self (x * s) unit)
            (le_trans (div-mul-le_self (w * unit) base) (mul-le-mul_right unit (omega arith))),
      )

covered :
    (v q base ps u t z : ℕ)
    → t * unit ≤ v * q
    → z ≤ t
    → v * q * base ≤ ps * u * unit
    → z * base / unit ≤ ps * u / unit
covered v q base ps u t z h k l =
    div_mono _ _ unit (omega arith)
      (omega (arith, mul-le-mul_right base h, mul-le-mul_right base k))

module _ (bn : BigNumber) (u q v base ps c m mf pf premium : ℕ) where
  -- Where the redeemed value is covered by the reserve that is held, with a premium of at most 100%,
  -- a positive new supply and a positive multiplier, the unit expected after a redemption, over the
  -- new supply, is at most what was held; the fees do not enter.
  pub redeem_unit_bound :
      premium ≤ unit
      → v * q * base ≤ ps * u * unit
      → 0 < c
      → 0 < m
      → (r : ℕ) × (get_expected_redeem_position_unit bn
            (pos u)
            (pos q)
            (pos v)
            (pos base)
            (pos ps)
            (pos c)
            (pos m)
            (pos mf)
            (pos pf)
            (pos premium)
          ≡ ok (pos r))
        × (r * c ≤ ps * u)
  unfolding get_expected_redeem_position_unit
  redeem_unit_bound h cover k l =
      let t : ℕ = v * q / unit in
      let z : ℕ = net_of_premium t premium in
      let y : ℕ = z * base / unit in
      let n : ℕ = ps * u / unit - y in
      let x : ℕ = n * unit / c in
      (
        x * m / unit * unit / m,
        rw (precise_mul-pos bn v q, precise_mul_ceil-pos bn t premium)
            (rw
              (sub-pos bn t (ceil_quot (t * premium) unit)
                (ceil-le_of_share t premium unit (omega arith) h))
              (rw (precise_mul-pos bn z base, precise_mul-pos bn ps u)
                (rw
                  (sub-pos bn (ps * u / unit) y
                    (covered v q base ps u t z (div-mul-le_self (v * q) unit) (omega arith) cover))
                  (rw (precise_div-pos bn n c k)
                    (rw (precise_mul-pos bn x m) (precise_div-pos bn (x * m / unit) m l)))))),
        le_trans (mul-le-mul_right c (round_trip_le x m l)) (
            le_trans (div-mul-le_self (n * unit) c) (omega (arith, div-mul-le_self (ps * u) unit))),
      )
