-- ===== src/NavIssuance.antt =====
-- utils/common/navIssuanceModuleUtils.ts: what issuance and redemption at net asset value are
-- expected to yield.
pub mod Multiplier
pub mod Fees
pub mod Quantity
mod Tests
use set_protocol_v.Base.{Result, ok, ◌>>=◌}
use set_protocol_v.Base.Int.{ℤ}
use set_protocol_v.Ethers.{BigNumber}
use set_protocol_v.Contracts.{Address, SetToken, SetValuer}
use set_protocol_v.PreciseMath.{
  precise_unit, precise_mul, precise_mul_ceil, precise_div, precise_div_ceil,
}

module _ (bn : BigNumber) where
  open bn use {add, sub}

  unfoldable pub get_expected_issue_position_multiplier : ℤ → ℤ → ℤ → Result ℤ
  get_expected_issue_position_multiplier previous_position_multiplier previous_supply
        current_supply =
      do
        inflation ← precise_div_ceil bn (sub current_supply previous_supply) current_supply
        precise_mul bn previous_position_multiplier (sub precise_unit inflation)

  unfoldable pub get_expected_post_fee_quantity : ℤ → ℤ → ℤ → Result ℤ
  get_expected_post_fee_quantity quantity manager_fee_percentage protocol_direct_fee_percentage = do
    manager_fees ← precise_mul bn quantity manager_fee_percentage
    protocol_direct_fees ← precise_mul bn quantity protocol_direct_fee_percentage
    ok (sub (sub quantity manager_fees) protocol_direct_fees)

  unfoldable pub get_expected_set_token_issue_quantity :
      SetToken → SetValuer → Address → ℤ → ℤ → ℤ → ℤ → ℤ → Result ℤ
  unfolding get_expected_post_fee_quantity
  get_expected_set_token_issue_quantity set_token set_valuer reserve_asset reserve_asset_base_units
        reserve_asset_quantity manager_fee_percentage protocol_direct_fee_percentage
        premium_percentage =
      do
        set_token_valuation ←
            set_valuer.calculate_set_token_valuation set_token.address reserve_asset
        set_token_supply ← set_token.total_supply
        reserve_quantity_sub_fees ←
            get_expected_post_fee_quantity reserve_asset_quantity manager_fee_percentage
              protocol_direct_fee_percentage
        premium ← precise_mul bn reserve_quantity_sub_fees premium_percentage
        let reserve_quantity_sub_fees_and_premium = sub reserve_quantity_sub_fees premium
        normalized_sub_fees ← precise_div bn reserve_quantity_sub_fees reserve_asset_base_units
        normalized_sub_fees_and_premium ←
            precise_div bn reserve_quantity_sub_fees_and_premium reserve_asset_base_units
        set_value ← precise_mul bn set_token_supply set_token_valuation
        let denominator = sub (add set_value normalized_sub_fees) normalized_sub_fees_and_premium
        numerator ← precise_mul bn normalized_sub_fees_and_premium set_token_supply
        precise_div bn numerator denominator

  unfoldable pub get_expected_issue_position_unit : ℤ → ℤ → ℤ → ℤ → ℤ → ℤ → ℤ → Result ℤ
  unfolding get_expected_post_fee_quantity
  get_expected_issue_position_unit previous_units issue_quantity previous_supply current_supply
        new_position_multiplier manager_fee_percentage protocol_direct_fee_percentage =
      do
        issue_quantity_sub_fees ←
            get_expected_post_fee_quantity issue_quantity manager_fee_percentage
              protocol_direct_fee_percentage
        previous_total ← precise_mul bn previous_supply previous_units
        let numerator = add previous_total issue_quantity_sub_fees
        new_position_unit ← precise_div bn numerator current_supply
        round_down_position_unit ← precise_mul bn new_position_unit new_position_multiplier
        precise_div bn round_down_position_unit new_position_multiplier

  unfoldable pub get_expected_reserve_redeem_quantity : ℤ → ℤ → ℤ → ℤ → ℤ → ℤ → Result ℤ
  unfolding get_expected_post_fee_quantity
  get_expected_reserve_redeem_quantity set_token_quantity_to_redeem set_token_valuation
        reserve_asset_base_units manager_fee_percentage protocol_direct_fee_percentage
        premium_percentage =
      do
        total_notional_reserve_quantity ←
            precise_mul bn set_token_valuation set_token_quantity_to_redeem
        total_premium ← precise_mul_ceil bn total_notional_reserve_quantity premium_percentage
        total_notional_reserve_quantity_sub_fees ←
            get_expected_post_fee_quantity (sub total_notional_reserve_quantity total_premium)
              manager_fee_percentage protocol_direct_fee_percentage
        precise_mul bn total_notional_reserve_quantity_sub_fees reserve_asset_base_units

  unfoldable pub get_expected_redeem_position_multiplier : ℤ → ℤ → ℤ → Result ℤ
  get_expected_redeem_position_multiplier previous_position_multiplier previous_supply
        current_supply =
      do
        deflation ← precise_div bn (sub previous_supply current_supply) current_supply
        precise_mul bn previous_position_multiplier (add precise_unit deflation)

  -- The two fee percentages are parameters that the source does not read.
  unfoldable pub get_expected_redeem_position_unit :
      ℤ → ℤ → ℤ → ℤ → ℤ → ℤ → ℤ → ℤ → ℤ → ℤ → Result ℤ
  get_expected_redeem_position_unit previous_units set_token_quantity_to_redeem set_token_valuation
        reserve_asset_base_units previous_supply current_supply new_position_multiplier
        manager_fee_percentage protocol_direct_fee_percentage premium_percentage =
      do
        total_notional_reserve_quantity ←
            precise_mul bn set_token_valuation set_token_quantity_to_redeem
        total_premium ← precise_mul_ceil bn total_notional_reserve_quantity premium_percentage
        total_reserve_balance ←
            precise_mul bn (sub total_notional_reserve_quantity total_premium)
              reserve_asset_base_units
        previous_total ← precise_mul bn previous_supply previous_units
        let numerator = sub previous_total total_reserve_balance
        new_position_unit ← precise_div bn numerator current_supply
        round_down_position_unit ← precise_mul bn new_position_unit new_position_multiplier
        precise_div bn round_down_position_unit new_position_multiplier
