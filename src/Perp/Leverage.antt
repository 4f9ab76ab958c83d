-- ===== src/Perp/Leverage.antt =====
-- utils/common/perpV2Utils.ts: the trade that takes leverage on, and the margin that limits issuance.
use set_protocol_v.Base.{
  ℕ, ◌+◌, ◌-◌, ◌*◌, ◌/◌, ◌≤◌, ◌<◌, ◌≡◌, ap, Bool, true, false, Result, map_result, ok, arith,
}
use set_protocol_v.Base.Int.{ℤ, pos, negsuc, ◌*ℤ◌, neg_of, div_upper}
use set_protocol_v.Ethers.{BigNumber, whole}
use set_protocol_v.Contracts.{Address, SetToken}
use set_protocol_v.PreciseMath.Naturals.{
  unit, precise_mul-pos, precise_div-pos, sub-pos, add-pos, mul-pos, mul-div-le,
}
use set_protocol_v.Perp.Views.{PerpModule, Deployment, Jsbi, AccountInfo}
use set_protocol_v.Perp.Fixture.{get_spot_price}
use set_protocol_v.Perp.Expected.{
  TradeCall, trade, trade_and_track_funding, lever_up, calculate_max_issue_quantity,
}
use native.Mathlib.Nat.{div-mul-le_self, mul-le-mul_right}

-- The transaction that a flag chooses.
abbrev pub trade_call : Bool → Address → Address → ℤ → ℤ → TradeCall
trade_call true = trade_and_track_funding
trade_call false = trade

opposite : (n : ℕ) → pos n *ℤ negsuc 0 ≡ neg_of n
unfolding ◌*ℤ◌
opposite n = ap neg_of (omega arith)

value_bound :
    (n u supply price money : ℕ)
    → u * supply ≤ n * unit
    → n * price ≤ money * unit
    → u * supply * price ≤ money * unit * unit
value_bound n u supply price money h k =
    omega (arith, mul-le-mul_right price h, mul-le-mul_right unit k)

div_mono : (a b d : ℕ) → 0 < d → a ≤ b → a / d ≤ b / d
div_mono a b d p h = grind (arith, div-mul-le_self a d, div_upper b d p)

-- What a long pays at most and a short gets at least per unit of the supply, with 2% of slippage.
abbrev long_quote : ℕ → ℕ → ℕ
long_quote estimate supply = (estimate + estimate * 20_000_000_000_000_000 / unit) * unit / supply

abbrev short_quote : ℕ → ℕ → ℕ
short_quote estimate supply = (estimate - estimate * 20_000_000_000_000_000 / unit) * unit / supply

module _ (bn : BigNumber) (js : Jsbi) (set_token : SetToken) (perp : PerpModule) (d : Deployment)
    (send : TradeCall → Result (Unit {0})) (token : Address) (c l price supply : ℕ)
    {account : AccountInfo} (priced : get_spot_price js d token ≡ ok (pos price))
    (supplied : set_token.total_supply ≡ ok (pos supply))
    (told : perp.get_account_info set_token.address ≡ ok account)
    (collateral : account.collateral_balance ≡ pos c) (price_positive : 0 < price)
    (supply_positive : 0 < supply) (safe : l < 9_007_199_254_740_991) (track_funding : Bool) where
  lever_up_long :
      let n : ℕ = c * l * unit / price in
      let u : ℕ = n * unit / supply in
      lever_up bn js set_token perp d send token (whole (pos l)) true track_funding
      ≡ map_result
          (λ _. pos u)
          (send (
            trade_call track_funding set_token.address token
              (pos u)
              (pos (long_quote (n * price / unit) supply))))
  unfolding lever_up
  lever_up_long =
      let n : ℕ = c * l * unit / price in
      let estimate : ℕ = n * price / unit in
      let slip : ℕ = estimate * 20_000_000_000_000_000 / unit in
      rw (priced, supplied, told, collateral, bn.from_number_safe (pos l) (ground arith))
        (rw (mul-pos bn c l) (
          rw (precise_div-pos bn (c * l) price price_positive) (
            rw (precise_div-pos bn n supply supply_positive, precise_mul-pos bn n price)
              (rw (bn.abs_lem (pos estimate)) (
                rw (precise_mul-pos bn estimate 20_000_000_000_000_000) (
                  rw (add-pos bn estimate slip) (
                    rw (precise_div-pos bn (estimate + slip) supply supply_positive)
                      (ground arith))))))))

  lever_up_short :
      let n : ℕ = c * l * unit / price in
      let u : ℕ = n * unit / supply in
      lever_up bn js set_token perp d send token (whole (pos l)) false track_funding
      ≡ map_result
          (λ _. neg_of u)
          (send (
            trade_call track_funding set_token.address token
              (neg_of u)
              (pos (short_quote (n * price / unit) supply))))
  unfolding lever_up
  lever_up_short =
      let n : ℕ = c * l * unit / price in
      let u : ℕ = n * unit / supply in
      let estimate : ℕ = n * price / unit in
      let slip : ℕ = estimate * 20_000_000_000_000_000 / unit in
      let slip_le : slip ≤ estimate =
        mul-div-le estimate 20_000_000_000_000_000 unit (omega arith) in
      rw (priced, supplied, told, collateral, bn.from_number_safe (pos l) (ground arith))
        (rw (mul-pos bn c l) (
          rw (precise_div-pos bn (c * l) price price_positive) (
            rw (precise_div-pos bn n supply supply_positive, precise_mul-pos bn n price)
              (rw (bn.abs_lem (pos estimate)) (
                rw (precise_mul-pos bn estimate 20_000_000_000_000_000) (
                  rw (sub-pos bn estimate slip slip_le) (
                    rw
                      (
                        precise_div-pos bn (estimate - slip) supply supply_positive,
                        bn.mul_lem (pos u) (negsuc 0),
                        opposite u,
                      )
                      (ground arith))))))))

  -- Where a positive price and supply and the collateral `c` can be read, and the ratio `l` is a whole
  -- number below 2^53 - 1, levering up sends the transaction that the flag chooses, with the same
  -- quantity of the base token whether long or short, with opposite sign; its value is at most `c`
  -- times `l`, and the quote limit of a long is at least that of a short. The quantity is returned
  -- if the transaction goes through, and if it rejects, so does the call.
  pub lever_up_opposite :
      (u hi lo : ℕ) × (lever_up bn js set_token perp d send token (whole (pos l)) true track_funding
        ≡ map_result
            (λ _. pos u)
            (send (trade_call track_funding set_token.address token (pos u) (pos hi))))
      × (lever_up bn js set_token perp d send token (whole (pos l)) false track_funding
          ≡ map_result
              (λ _. neg_of u)
              (send (trade_call track_funding set_token.address token (neg_of u) (pos lo))))
      × (lo ≤ hi)
      × (u * supply * price ≤ c * l * unit * unit)
  lever_up_opposite =
      let n : ℕ = c * l * unit / price in
      let u : ℕ = n * unit / supply in
      (
        u,
        long_quote (n * price / unit) supply,
        short_quote (n * price / unit) supply,
        lever_up_long,
        lever_up_short,
        div_mono _ _ supply supply_positive (mul-le-mul_right unit (omega arith)),
        value_bound n u supply price (c * l) (div-mul-le_self (n * unit) supply)
            (div-mul-le_self (c * l * unit) price),
      )

module _ (bn : BigNumber) (set_token : SetToken) (slippage : ℤ) (perp : PerpModule) (d : Deployment)
    {fee : ℤ} (profit : ℕ) where
  -- An unrealised profit leaves the largest quantity that can be issued where it would be with none.
  pub max_issue_ignores_profit :
      d.get_pnl_and_pending_fee set_token.address ≡ ok (fee, pos profit)
      → calculate_max_issue_quantity bn set_token slippage perp d
        ≡ calculate_max_issue_quantity bn set_token slippage perp
            (record d { get_pnl_and_pending_fee = λ a. ok (fee, pos 0) })
  unfolding calculate_max_issue_quantity
  max_issue_ignores_profit e =
      rw e (rw (bn.gte_lem (pos profit) (pos 0), bn.gte_lem (pos 0) (pos 0)) (ground arith))
