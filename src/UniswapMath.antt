-- ===== src/UniswapMath.antt =====
-- utils/common/uniswapUtils.ts: what the Uniswap module is expected to trade and to hold. The
-- operators `<`, `>`, `==` and `!=` are applied to BigNumber objects there: the first two compare
-- the decimal notations, and the others compare identities.
pub mod Compare
pub mod Sqrt
pub mod Rebalance
pub mod Reserves
mod Tests
use set_protocol_v.Base.{
  ℕ, zero, suc, Bool, not, ◌==◌, if◌then◌else◌, Result, ok, err, ◌>>=◌, List, [], ◌∷◌, Option, none,
  some, map_result,
}
use set_protocol_v.Base.Int.{ℤ, pos}
use set_protocol_v.Js.{str_lt, str_eq}
use set_protocol_v.Ethers.{BigNumber}
use set_protocol_v.Contracts.{
  Address, BigNumberObject, SetToken, Token, UniswapPair, UniswapRouter, StakingRewards,
}
use set_protocol_v.PreciseMath.{precise_unit, precise_mul, precise_div}

-- The object `ZERO` of utils/constants.ts.
abbrev pub zero_object : BigNumberObject
zero_object = record { identity = 0; value = pos 0 }

-- `a == b` on objects.
abbrev pub same_object : BigNumberObject → BigNumberObject → Bool
same_object a b = a.identity == b.identity

abbrev pub minimum_liquidity : ℤ
minimum_liquidity = pos 1000

module _ (bn : BigNumber) where
  open bn use {add, sub, mul, div, gt, to_string}

  -- `a < b` on objects.
  unfoldable pub object_lt : ℤ → ℤ → Bool
  object_lt a b = str_lt (to_string a) (to_string b)

  unfoldable pub min : ℤ → ℤ → ℤ
  unfolding object_lt
  min value_one value_two = if object_lt value_one value_two then value_one else value_two

  -- `while (x < z) { z = x; x = value.div(x).add(x).div(2); }`; `none` is fuel that ran out.
  unfoldable pub sqrt_loop : ℕ → ℤ → ℤ → ℤ → Result (Option ℤ)
  unfolding object_lt
  sqrt_loop zero value x z = ok none
  sqrt_loop (suc fuel) value x z =
      let rest = (do
        quotient ← div value x
        next ← div (add quotient x) (pos 2)
        sqrt_loop fuel value next x) in
      if object_lt x z then rest else ok (some z)

  -- `value != ZERO` holds, since the argument is the fresh result of a product.
  unfoldable pub sqrt : ℕ → ℤ → Result (Option ℤ)
  unfolding sqrt_loop object_lt
  sqrt fuel value =
      let loop = (do half ← div value (pos 2); sqrt_loop fuel value (add half (pos 1)) value) in
      if object_lt (pos 3) value then loop else ok (some (pos 1))

  unfoldable pub calculate_lp_tokens_issued : ℕ → UniswapPair → ℤ → ℤ → Result (Option ℤ)
  unfolding min sqrt
  calculate_lp_tokens_issued fuel pool amount_one amount_two = do
    reserves ← pool.get_reserves
    total_supply ← pool.total_supply
    let first =
        map_result (λ root. elim root [ none ↦ none | some z ↦ some (sub z minimum_liquidity) ])
          (sqrt fuel (mul amount_one amount_two))
    let later = (do
      one ← div (mul amount_one total_supply.value) reserves.0
      two ← div (mul amount_two total_supply.value) reserves.1
      ok (some (min one two)))
    if same_object total_supply zero_object then first else later

  unfoldable pub get_reserves_safe : Address → Address → UniswapPair → Result (ℤ × ℤ)
  get_reserves_safe asset_one asset_two lp_token = do
    let first_asset = if str_lt asset_one asset_two then asset_one else asset_two
    reserves ← lp_token.get_reserves
    ok (if str_eq asset_one first_asset then reserves else (reserves.1, reserves.0))

  unfoldable pub calculate_tokens_in_reserve :
      SetToken → Token → Token → UniswapPair → StakingRewards → Result (ℤ × ℤ)
  unfolding get_reserves_safe
  calculate_tokens_in_reserve set_token asset_one asset_two lp_token staking_rewards = do
    (reserve_one, reserve_two) ← get_reserves_safe asset_one.address asset_two.address lp_token
    total_supply ← lp_token.total_supply
    lp_token_balance ← staking_rewards.balance_of set_token.address
    share_one ← precise_div bn reserve_one total_supply.value
    tokens_one ← precise_mul bn share_one lp_token_balance
    share_two ← precise_div bn reserve_two total_supply.value
    tokens_two ← precise_mul bn share_two lp_token_balance
    ok (tokens_one, tokens_two)

  unfoldable pub calculate_engage_quantities :
      SetToken → Token → Token → UniswapPair → StakingRewards → ℤ → ℤ → ℤ → Result (ℤ × ℤ)
  unfolding calculate_tokens_in_reserve
  calculate_engage_quantities set_token asset_one asset_two lp_token staking_rewards
        reserve_percentage extra_asset_one extra_asset_two =
      do
        (reserve_one, reserve_two) ←
            calculate_tokens_in_reserve set_token asset_one asset_two lp_token staking_rewards
        held_one ← asset_one.balance_of set_token.address
        held_two ← asset_two.balance_of set_token.address
        let balance_one = add held_one extra_asset_one
        let balance_two = add held_two extra_asset_two
        target_one ← precise_mul bn reserve_one reserve_percentage
        kept_one ← precise_mul bn balance_one (sub precise_unit reserve_percentage)
        target_two ← precise_mul bn reserve_two reserve_percentage
        kept_two ← precise_mul bn balance_two (sub precise_unit reserve_percentage)
        ok (sub target_one kept_one, sub target_two kept_two)

  -- The quantity before `sellTokenQuantity` is looked at, with the asset to sell and to buy.
  unfoldable pub rebalance_choice : Address → Address → ℤ → ℤ → ℤ → Result (ℤ × Address × Address)
  rebalance_choice address_one address_two balance_one value_two price =
      if gt balance_one value_two
      then map_result (λ q. (q, address_one, address_two)) (div (sub balance_one value_two) (pos 2))
      else (do
        half ← div (sub value_two balance_one) (pos 2)
        quantity ← precise_mul bn half price
        ok (quantity, address_two, address_one))

  unfoldable pub calculate_rebalance_quantity :
      ℤ → SetToken → Token → Token → ℤ → ℤ → ℤ → Result (ℤ × Address × Address)
  unfolding rebalance_choice object_lt
  calculate_rebalance_quantity sell_token_quantity set_token asset_one asset_two
        asset_one_to_two_price extra_asset_one extra_asset_two =
      do
        held_one ← asset_one.balance_of set_token.address
        held_two ← asset_two.balance_of set_token.address
        let balance_one = add held_one extra_asset_one
        let balance_two = add held_two extra_asset_two
        value_two ← precise_div bn balance_two asset_one_to_two_price
        (quantity, asset_to_sell, asset_to_buy) ←
            rebalance_choice asset_one.address asset_two.address balance_one value_two
              asset_one_to_two_price
        ok (
          (if object_lt (pos 0) sell_token_quantity then sell_token_quantity else quantity),
          asset_to_sell,
          asset_to_buy,
        )

  unfoldable pub calculate_rebalance_flows :
      SetToken → UniswapRouter → ℤ → Token → Token → ℤ → ℤ → ℤ → Result (List ℤ)
  unfolding calculate_rebalance_quantity
  calculate_rebalance_flows set_token router sell_token_quantity asset_one asset_two
        asset_one_to_two_price extra_asset_one extra_asset_two =
      do
        (quantity_to_sell, asset_to_sell, asset_to_buy) ←
            calculate_rebalance_quantity sell_token_quantity set_token asset_one asset_two
              asset_one_to_two_price extra_asset_one extra_asset_two
        router.get_amounts_out quantity_to_sell (asset_to_sell ∷ asset_to_buy ∷ [])
