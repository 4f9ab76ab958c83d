-- ===== src/Perp/Expected.antt =====
-- utils/common/perpV2Utils.ts: what issuance, redemption, funding and leverage are expected to be.
use set_protocol_v.Base.{Bool, true, not, if◌then◌else◌, Result, ok, ◌>>=◌, List, [], ◌∷◌, ◌++◌}
use set_protocol_v.Base.Int.{ℤ, pos, negsuc}
use set_protocol_v.Ethers.{BigNumber, Numeric}
use set_protocol_v.Contracts.{Address, SetToken}
use set_protocol_v.PreciseMath.{precise_unit, precise_mul, precise_div}
use set_protocol_v.Perp.Views.{PositionUnitInfo, PositionInfo, PerpModule, Deployment, Jsbi}
use set_protocol_v.Perp.Fixture.{get_spot_price, get_swap_quote}

-- The transaction that `leverUp` sends: `tradeAndTrackFunding` or `trade`, on a SetToken and a base
-- token, with the base quantity and the quote quantity per unit.
pub data TradeCall : Type 0 where
  trade_and_track_funding trade : Address → Address → ℤ → ℤ → TradeCall

module _ (bn : BigNumber) where
  open bn use {from_number, add, sub, mul, div, abs, lt, gt, gte}

  -- `BigNumber.from(10).pow(12)` is 10^12.
  unfoldable pub to_usdc_decimals : ℤ → Result ℤ
  to_usdc_decimals quantity = div quantity (pos 1_000_000_000_000)

  -- `send` is what the awaited transaction answers: it goes through, or it rejects.
  unfoldable pub lever_up :
      Jsbi
      → SetToken
      → PerpModule
      → Deployment
      → (TradeCall → Result (Unit {0}))
      → Address
      → Numeric
      → Bool
      → Bool
      → Result ℤ
  lever_up js set_token perp d send base_token leverage_ratio is_long track_funding = do
    spot_price ← get_spot_price js d base_token
    total_supply ← set_token.total_supply
    account ← perp.get_account_info set_token.address
    leverage ← from_number leverage_ratio
    base_trade_quantity_notional ←
        precise_div bn (mul account.collateral_balance leverage) spot_price
    per_unit ← precise_div bn base_trade_quantity_notional total_supply
    let base_trade_quantity_unit = if is_long then per_unit else mul per_unit (negsuc 0)
    estimate ← precise_mul bn base_trade_quantity_notional spot_price
    let estimated_quote_quantity_notional = abs estimate
    allowed_slippage ← precise_mul bn estimated_quote_quantity_notional (pos 20_000_000_000_000_000)
    let adjusted =
        (if is_long
          then add estimated_quote_quantity_notional allowed_slippage
          else sub estimated_quote_quantity_notional allowed_slippage)
    receive_quote_quantity_unit ← precise_div bn adjusted total_supply
    _ ← send (
        if track_funding
        then trade_and_track_funding set_token.address base_token base_trade_quantity_unit
            receive_quote_quantity_unit
        else trade set_token.address base_token base_trade_quantity_unit
            receive_quote_quantity_unit)
    ok base_trade_quantity_unit

  -- One round of the loop of `calculateUSDCTransferInPreciseUnits`.
  unfoldable pub transfer_in_round : Jsbi → Deployment → ℤ → ℤ → PositionUnitInfo → Result ℤ
  transfer_in_round js d set_quantity usdc_amount_in position_info = do
    base_trade_quantity_notional ← precise_mul bn position_info.base_unit set_quantity
    let is_long = gte base_trade_quantity_notional (pos 0)
    (_, delta_quote) ←
        get_swap_quote d position_info.base_token (abs base_trade_quantity_notional) is_long
    spot_price ← get_spot_price js d position_info.base_token
    ideal_quote ← precise_mul bn base_trade_quantity_notional spot_price
    let expected_slippage =
        if is_long then sub delta_quote ideal_quote else sub (abs ideal_quote) delta_quote
    ok (add (add usdc_amount_in ideal_quote) expected_slippage)

  unfoldable pub transfer_in_from : Jsbi → Deployment → ℤ → ℤ → List PositionUnitInfo → Result ℤ
  transfer_in_from js d set_quantity usdc_amount_in [] = ok usdc_amount_in
  transfer_in_from js d set_quantity usdc_amount_in (position_info ∷ rest) = do
    next ← transfer_in_round js d set_quantity usdc_amount_in position_info
    transfer_in_from js d set_quantity next rest

  unfoldable pub calculate_usdc_transfer_in_precise_units :
      Jsbi → SetToken → ℤ → PerpModule → Deployment → Bool → Result ℤ
  unfolding transfer_in_from transfer_in_round
  calculate_usdc_transfer_in_precise_units js set_token set_quantity perp d include_funding = do
    account ← perp.get_account_info set_token.address
    let collateral =
        add (add account.collateral_balance account.owed_realized_pnl) account.net_quote_balance
    let total_collateral_value =
        if include_funding then add collateral account.pending_funding_payments else collateral
    total_supply ← set_token.total_supply
    per_unit ← precise_div bn total_collateral_value total_supply
    usdc_amount_in ← precise_mul bn per_unit set_quantity
    positions ← perp.get_position_unit_info set_token.address
    transfer_in_from js d set_quantity usdc_amount_in positions

  unfoldable pub calculate_usdc_transfer_in :
      Jsbi → SetToken → ℤ → PerpModule → Deployment → Result ℤ
  unfolding calculate_usdc_transfer_in_precise_units to_usdc_decimals
  calculate_usdc_transfer_in js set_token set_quantity perp d = do
    amount ← calculate_usdc_transfer_in_precise_units js set_token set_quantity perp d true
    to_usdc_decimals amount

  -- One round of the loop of `calculateUSDCTransferOutPreciseUnits`.
  unfoldable pub transfer_out_round : Deployment → SetToken → ℤ → ℤ → PositionInfo → Result ℤ
  transfer_out_round d set_token set_quantity total_realized_pnl position_info = do
    total_supply ← set_token.total_supply
    base_position_unit ← precise_div bn position_info.base_balance total_supply
    base_trade_quantity_notional ← precise_mul bn base_position_unit set_quantity
    let is_long = gte base_position_unit (pos 0)
    close_ratio ← precise_div bn (abs base_trade_quantity_notional) (abs position_info.base_balance)
    reduced_open_notional ← precise_mul bn position_info.quote_balance close_ratio
    (_, delta_quote) ←
        get_swap_quote d position_info.base_token (abs base_trade_quantity_notional) (not is_long)
    let realized_pnl =
        if is_long
        then add reduced_open_notional delta_quote
        else sub reduced_open_notional delta_quote
    ok (add total_realized_pnl realized_pnl)

  unfoldable pub transfer_out_from : Deployment → SetToken → ℤ → ℤ → List PositionInfo → Result ℤ
  transfer_out_from d set_token set_quantity total_realized_pnl [] = ok total_realized_pnl
  transfer_out_from d set_token set_quantity total_realized_pnl (position_info ∷ rest) = do
    next ← transfer_out_round d set_token set_quantity total_realized_pnl position_info
    transfer_out_from d set_token set_quantity next rest

  unfoldable pub calculate_usdc_transfer_out_precise_units :
      SetToken → ℤ → PerpModule → Deployment → Bool → Result ℤ
  unfolding transfer_out_from transfer_out_round
  calculate_usdc_transfer_out_precise_units set_token set_quantity perp d include_funding = do
    positions ← perp.get_position_notional_info set_token.address
    account ← perp.get_account_info set_token.address
    let collateral = add account.collateral_balance account.owed_realized_pnl
    let total_collateral_balance =
        if include_funding then add collateral account.pending_funding_payments else collateral
    total_supply ← set_token.total_supply
    collateral_position_unit ← precise_div bn total_collateral_balance total_supply
    collateral_quantity_notional ← precise_mul bn collateral_position_unit set_quantity
    total_realized_pnl ← transfer_out_from d set_token set_quantity (pos 0) positions
    ok (abs (add collateral_quantity_notional total_realized_pnl))

  unfoldable pub calculate_usdc_transfer_out : SetToken → ℤ → PerpModule → Deployment → Result ℤ
  unfolding calculate_usdc_transfer_out_precise_units to_usdc_decimals
  calculate_usdc_transfer_out set_token set_quantity perp d = do
    amount ← calculate_usdc_transfer_out_precise_units set_token set_quantity perp d true
    to_usdc_decimals amount

  unfoldable pub calculate_external_position_unit : SetToken → PerpModule → Result ℤ
  unfolding to_usdc_decimals
  calculate_external_position_unit set_token perp = do
    account ← perp.get_account_info set_token.address
    total_supply ← set_token.total_supply
    per_unit ← precise_div bn account.collateral_balance total_supply
    to_usdc_decimals per_unit

  -- The sign of the funding growth: the last part of `getNetFundingGrowth`.
  unfoldable pub signed_growth : ℤ → ℤ → Bool → ℤ → ℤ
  signed_growth mark_twap index_twap is_long funding_growth =
      if lt mark_twap index_twap
      then if is_long then funding_growth else mul funding_growth (negsuc 0)
      else if is_long
      then mul funding_growth (negsuc 0)
      else funding_growth

  -- 2^96, and `ONE_DAY_IN_SECONDS` of utils/constants.ts.
  unfoldable pub get_net_funding_growth : Address → ℤ → Deployment → Result ℤ
  unfolding signed_growth
  get_net_funding_growth base_token base_balance d = do
    (funding_growth_global, mark_twap, index_twap) ←
        d.get_funding_growth_global_and_twaps base_token
    tw_premium ←
        div (mul funding_growth_global precise_unit) (pos 79_228_162_514_264_337_593_543_950_336)
    daily ← div tw_premium (pos 86_400)
    growth ← precise_mul bn base_balance daily
    ok (signed_growth mark_twap index_twap (gt base_balance (pos 0)) (abs growth))

  unfoldable pub get_usdc_delta_due_to_funding_growth :
      SetToken → ℤ → Address → ℤ → Deployment → Result ℤ
  unfolding get_net_funding_growth
  get_usdc_delta_due_to_funding_growth set_token set_quantity base_token base_balance d = do
    net_funding_growth ← get_net_funding_growth base_token base_balance d
    total_supply ← set_token.total_supply
    per_unit ← precise_div bn net_funding_growth total_supply
    precise_mul bn per_unit set_quantity

  -- The loop of `calculateLeverageRatios`, from what is pushed already. The instance that
  -- `getVTokenInstance` attaches at an address has that address.
  unfoldable pub leverage_ratios_from :
      Deployment → ℤ → List Address → List ℤ → List PositionInfo → Result (List Address × List ℤ)
  leverage_ratios_from d total_collateral_value v_tokens leverage_ratios [] =
      ok (v_tokens, leverage_ratios)
  leverage_ratios_from d total_collateral_value v_tokens leverage_ratios (position_info ∷ rest) = do
    token_price ← d.get_index_price position_info.base_token
    position_value ← precise_mul bn token_price position_info.base_balance
    let account_value = add (add position_value total_collateral_value) position_info.quote_balance
    ratio ← precise_div bn position_value account_value
    leverage_ratios_from d total_collateral_value (v_tokens ++ position_info.base_token ∷ [])
        (leverage_ratios ++ ratio ∷ []) rest

  unfoldable pub calculate_leverage_ratios :
      Address → PerpModule → Deployment → Result (List Address × List ℤ)
  unfolding leverage_ratios_from
  calculate_leverage_ratios set_token perp d = do
    account ← perp.get_account_info set_token
    positions ← perp.get_position_notional_info set_token
    let total_collateral_value =
        add (add account.collateral_balance account.owed_realized_pnl)
          account.pending_funding_payments
    leverage_ratios_from d total_collateral_value [] [] positions

  unfoldable pub calculate_max_issue_quantity : SetToken → ℤ → PerpModule → Deployment → Result ℤ
  calculate_max_issue_quantity set_token slippage perp d = do
    total_supply ← set_token.total_supply
    im_ratio ← d.get_im_ratio
    account ← perp.get_account_info set_token.address
    (_, unrealized_pnl) ← d.get_pnl_and_pending_fee set_token.address
    total_debt_value ← d.get_total_debt_value set_token.address
    let total_collateral_value =
        add (add account.collateral_balance account.owed_realized_pnl)
          account.pending_funding_payments
    let margin =
        if gte unrealized_pnl (pos 0)
        then total_collateral_value
        else add total_collateral_value unrealized_pnl
    buying_power ← div (mul margin (pos 1_000_000)) im_ratio
    let available_debt = sub buying_power total_debt_value
    slipped ← precise_mul bn available_debt slippage
    slippage_debt ← div (mul slipped (pos 1_000_000)) im_ratio
    let available_debt_with_slippage = sub available_debt slippage_debt
    total_abs_position_value ← d.get_total_abs_position_value set_token.address
    ratio ← precise_div bn available_debt_with_slippage total_abs_position_value
    precise_mul bn ratio total_supply
