-- ===== src/Perp/Tests.antt =====
-- Runs of utils/common/perpV2Utils.ts and of the fixture's pricing, and their theorems applied at
-- concrete inputs.
use set_protocol_v.Base.{
  ◌+◌, ◌^◌, ◌<◌, ◌⊎◌, Result, err, reverted, ℕ, ◌*◌, ◌≤◌, ◌≡◌, refl, true, false, List, [], ◌∷◌, ok,
  some, map_result, arith,
}
use set_protocol_v.Base.Int.{nat_abs, ℤ, pos, negsuc, ◌+ℤ◌, ◌-ℤ◌, ◌*ℤ◌, quot, neg_of}
use set_protocol_v.Ethers.{whole, exact}
use set_protocol_v.Contracts.{SetToken, Address}
use set_protocol_v.PreciseMath.{precise_mul, precise_div}
use set_protocol_v.PreciseMath.Naturals.{unit}
use set_protocol_v.Perp.Views.{AccountInfo, PositionUnitInfo, PerpModule, Deployment, exact_js}
use set_protocol_v.Perp.Fixture.{get_price_from_sqrt_price_x96, get_spot_price}
use set_protocol_v.Perp.Expected.{
  TradeCall, trade, trade_and_track_funding, lever_up, transfer_in_from, calculate_usdc_transfer_in,
  get_net_funding_growth, calculate_leverage_ratios, calculate_max_issue_quantity,
}
use set_protocol_v.Perp.TransferIn.{quote_flows, transfer_in-quote_flows}
use set_protocol_v.Perp.Funding.{price_bounds, Gains, Loses, funding_growth_sign, funding_zero_sum}
use set_protocol_v.Perp.Fixture.{get_price_from_sqrt_price_x96}
use set_protocol_v.Perp.Ratios.{EachLeverage, total_collateral, leverage_ratios_order}
use set_protocol_v.Perp.Leverage.{trade_call, lever_up_opposite, max_issue_ignores_profit}

-- The root of a price of four, and a quote of three for each unit of the base token.
abbrev market : Deployment
market = record {
  pools = λ token. some token;
  slot0_sqrt_price_x96 = λ pool. ok (pos 158_456_325_028_528_675_187_087_900_672);
  open_position = λ order. ok (order.amount, order.amount *ℤ pos 3);
  get_index_price = λ token. ok (pos unit);
  get_funding_growth_global_and_twaps =
      λ token. ok (pos 6_845_471_433_603_153_628_817_396_301_030_400, pos 5, pos 7);
  get_im_ratio = ok (pos 100_000);
  get_pnl_and_pending_fee = λ a. ok (pos 0, pos 9);
  get_total_debt_value = λ a. ok (pos 0);
  get_total_abs_position_value = λ a. ok (pos unit);
}

abbrev account : AccountInfo
account = record {
  collateral_balance = pos (10 * unit);
  owed_realized_pnl = pos 0;
  pending_funding_payments = pos 0;
  net_quote_balance = pos 0;
}

abbrev base : Address
base = b'b' ∷ []

abbrev perp : PerpModule
perp = record {
  get_account_info = λ s. ok account;
  get_position_unit_info = λ s. ok (
      record { base_token = base; base_unit = pos unit }
      ∷ record { base_token = base; base_unit = negsuc 4 }
      ∷ []);
  get_position_notional_info =
      λ s. ok (record { base_token = base; base_balance = pos unit; quote_balance = pos 0 } ∷ []);
}

abbrev set_token : SetToken
set_token = record { address = []; total_supply = ok (pos unit) }

abbrev units : List PositionUnitInfo
units =
    record { base_token = base; base_unit = pos unit }
    ∷ record { base_token = base; base_unit = negsuc 4 }
    ∷ []

price_run : get_spot_price exact_js market base ≡ ok (pos (4 * unit))
unfolding get_spot_price ◌*ℤ◌ quot
price_run = refl

-- Ten of collateral, three for the long, and nothing that USDC can show for the short.
transfer_in_run :
    calculate_usdc_transfer_in exact exact_js set_token (pos unit) perp market ≡ ok (pos 12_999_999)
unfolding calculate_usdc_transfer_in get_spot_price precise_mul precise_div ◌+ℤ◌ ◌-ℤ◌ ◌*ℤ◌ quot
    set_protocol_v.Perp.Fixture.get_swap_quote
transfer_in_run = refl

transfer_in-quote_flows_example :
    transfer_in_from exact exact_js market (pos unit) (pos 7) units
    ≡ map_result (λ flow. pos 7 +ℤ flow) (quote_flows market (pos unit) units)
unfolding get_spot_price ◌*ℤ◌ quot
transfer_in-quote_flows_example =
    transfer_in-quote_flows exact exact_js market (pos unit) (pos 7) units
      ((4 * unit, refl), ((4 * unit, refl), tt))

funding_growth_sign_example :
    (g : ℤ) × (premium k : ℕ) × (get_net_funding_growth exact base (negsuc 4) market ≡ ok g)
    × (premium * 86_400 * 2 ^ 96
        ≤ nat_abs (pos 6_845_471_433_603_153_628_817_396_301_030_400) * unit)
    × (nat_abs (pos 6_845_471_433_603_153_628_817_396_301_030_400) * unit
        < (premium + 1) * 86_400 * 2 ^ 96)
    × (k * unit ≤ nat_abs (negsuc 4) * premium)
    × (nat_abs (negsuc 4) * premium < (k + 1) * unit)
    × ((Gains (pos 5) (pos 7) (negsuc 4) × (g ≡ pos k))
        ⊎ (Loses (pos 5) (pos 7) (negsuc 4) × (g ≡ neg_of k)))
funding_growth_sign_example = funding_growth_sign exact base (negsuc 4) market refl

funding_zero_sum_example :
    (g h : ℤ) × (get_net_funding_growth exact base (pos 5) market ≡ ok g)
    × (get_net_funding_growth exact base (pos 0 -ℤ pos 5) market ≡ ok h)
    × (g +ℤ h ≡ pos 0)
funding_zero_sum_example = funding_zero_sum exact base (pos 5) market refl (λ e. ground arith)

leverage_ratios_run :
    calculate_leverage_ratios exact [] perp market ≡ ok (base ∷ [], pos 90_909_090_909_090_909 ∷ [])
unfolding calculate_leverage_ratios precise_mul precise_div ◌+ℤ◌ ◌*ℤ◌ quot
leverage_ratios_run = refl

leverage_ratios_order_example :
    (rs : List ℤ) × (calculate_leverage_ratios exact [] perp market ≡ ok (base ∷ [], rs))
    × EachLeverage market
        (total_collateral account)
        (record { base_token = base; base_balance = pos unit; quote_balance = pos 0 } ∷ [])
        rs
unfolding quot ◌+ℤ◌ ◌*ℤ◌
leverage_ratios_order_example =
    leverage_ratios_order exact [] perp market refl refl ((pos unit, refl, λ e. cc), tt)

-- A transaction of a long goes through, and one of a short reverts.
abbrev answers : TradeCall → Result (Unit {0})
answers (trade_and_track_funding a b (pos n) q) = ok tt
answers (trade a b (pos n) q) = ok tt
answers _ = err reverted

lever_up_opposite_example :
    (u hi lo : ℕ) × (lever_up exact exact_js set_token perp market answers base
        (whole (pos 2))
        true
        false
      ≡ map_result (λ _. pos u) (answers (trade_call false [] base (pos u) (pos hi))))
    × (lever_up exact exact_js set_token perp market answers base (whole (pos 2)) false false
        ≡ map_result (λ _. neg_of u) (answers (trade_call false [] base (neg_of u) (pos lo))))
    × (lo ≤ hi)
    × (u * unit * (4 * unit) ≤ 10 * unit * 2 * unit * unit)
lever_up_opposite_example =
    lever_up_opposite exact exact_js set_token perp market answers base (10 * unit) 2 (4 * unit)
      unit price_run refl refl refl (omega arith) (omega arith) (omega arith) false

max_issue_ignores_profit_example :
    calculate_max_issue_quantity exact set_token (pos 5) perp market
    ≡ calculate_max_issue_quantity exact set_token
        (pos 5)
        perp
        (record market { get_pnl_and_pending_fee = λ a. ok (pos 0, pos 0) })
max_issue_ignores_profit_example =
    max_issue_ignores_profit exact set_token (pos 5) perp market 9 refl

price_bounds_example :
    (p : ℕ) × (get_price_from_sqrt_price_x96 exact_js (pos (3 * 2 ^ 96)) ≡ ok (pos p))
    × (p * 2 ^ 192 ≤ 3 * 2 ^ 96 * (3 * 2 ^ 96) * unit)
    × (3 * 2 ^ 96 * (3 * 2 ^ 96) * unit < (p + 1) * 2 ^ 192)
price_bounds_example = price_bounds exact_js (3 * 2 ^ 96)
