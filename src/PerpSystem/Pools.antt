-- ===== src/PerpSystem/Pools.antt =====
-- utils/fixtures/perpV2Fixture.ts: liquidity of the makers, and the prices of the mock oracles.
use set_protocol_v.Base.{
  ◌^◌, ◌-◌, false, [], ◌∷◌, if◌then◌else◌, Option, none, some, err, type_error,
}
use set_protocol_v.Base.Int.{ℤ, pos}
use set_protocol_v.Js.{str_eq}
use set_protocol_v.Contracts.{Address}
use set_protocol_v.Deploy.Chain.{
  Network, Instance, Action, address, number, flag, ◌>>=◌, ◌>>◌, invoke, invoke_as, ask_number,
}
use set_protocol_v.PerpSystem.Ticks.{get_min_tick, get_max_tick}
use set_protocol_v.PerpSystem.Deployment.{PerpFixture, fee_tier}

-- `this._pools[token]` and `this._priceFeeds[token]`: the second assignment wins where both base
-- tokens had one address.
unfoldable pool_of : PerpFixture → Address → Option Instance
pool_of f token =
    if str_eq token f.second.base_token.address
    then some f.v_btc_pool
    else if str_eq token f.tokens.token_zero.address
    then some f.v_eth_pool
    else none

unfoldable price_feed_of : PerpFixture → Address → Option Instance
price_feed_of f token =
    if str_eq token f.second.base_token.address
    then some f.second.mock_aggregator
    else if str_eq token f.tokens.token_zero.address
    then some f.tokens.mock_aggregator_zero
    else none

-- `(2 ^ 16) - 1`, which is an exclusive or in JavaScript: 18 less one.
abbrev observation_cardinality : ℤ
observation_cardinality = pos 17

module _ (net : Network) (owner_address : Address) where
  -- `addPool`, `setFeeRatio`, and `addLiquidity` by the maker; the fields of its argument in order.
  unfoldable pub add_liquidity :
      PerpFixture → Address → Instance → ℤ → ℤ → ℤ → ℤ → Action (Unit {0})
  add_liquidity f maker base_token base_amount quote_amount lower_tick upper_tick = do
    invoke net owner_address f.contracts.market_registry "addPool"
        (address base_token.address ∷ number fee_tier ∷ []) (pos 0)
    invoke net owner_address f.contracts.market_registry "setFeeRatio"
        (address base_token.address ∷ number fee_tier ∷ []) (pos 0)
    invoke_as net owner_address maker f.clearing_house "addLiquidity" (
        address base_token.address
        ∷ number base_amount
        ∷ number quote_amount
        ∷ number lower_tick
        ∷ number upper_tick
        ∷ number (pos 0)
        ∷ number (pos 0)
        ∷ flag false
        ∷ number (pos (2 ^ 256 - 1))
        ∷ [])

  -- `initializePoolWithLiquidityWide`; `encode_price_sqrt` is the package's `encodeSqrtRatioX96` on
  -- the decimal notations. Reading a method of an unknown pool throws.
  unfoldable initialize_pool_with_liquidity_wide :
      (ℤ → ℤ → ℤ) → PerpFixture → Address → Instance → ℤ → ℤ → Action (Unit {0})
  unfolding pool_of add_liquidity
  initialize_pool_with_liquidity_wide encode_price_sqrt f maker base_token base_amount quote_amount
        w =
      elim (pool_of f base_token.address) [
        | none ↦ err type_error
        | some pool ↦
            (do
              invoke net owner_address pool "initialize"
                  (number (encode_price_sqrt quote_amount base_amount) ∷ []) (pos 0)
              invoke net owner_address pool "increaseObservationCardinalityNext"
                  (number observation_cardinality ∷ []) (pos 0)
              tick_spacing ← ask_number net owner_address pool "tickSpacing" []
              add_liquidity f maker base_token base_amount quote_amount (get_min_tick tick_spacing)
                  (get_max_tick tick_spacing))
              w
      ]

  -- `initializePoolWithLiquidityWithinTicks`
  unfoldable initialize_pool_with_liquidity_within_ticks :
      (ℤ → ℤ → ℤ) → PerpFixture → Address → Instance → ℤ → ℤ → ℤ → ℤ → Action (Unit {0})
  unfolding pool_of add_liquidity
  initialize_pool_with_liquidity_within_ticks encode_price_sqrt f maker base_token base_amount
        quote_amount lower_tick upper_tick w =
      elim (pool_of f base_token.address) [
        | none ↦ err type_error
        | some pool ↦
            (do
              invoke net owner_address pool "initialize"
                  (number (encode_price_sqrt quote_amount base_amount) ∷ []) (pos 0)
              invoke net owner_address pool "increaseObservationCardinalityNext"
                  (number observation_cardinality ∷ []) (pos 0)
              add_liquidity f maker base_token base_amount quote_amount lower_tick upper_tick)
              w
      ]

  unfoldable set_base_token_oracle_price : PerpFixture → Instance → ℤ → Action (Unit {0})
  unfolding price_feed_of
  set_base_token_oracle_price f base_token price w = elim (price_feed_of f base_token.address) [
    | none ↦ err type_error
    | some feed ↦
        invoke net owner_address feed "setRoundData"
          (number (pos 0) ∷ number price ∷ number (pos 0) ∷ number (pos 0) ∷ number (pos 0) ∷ [])
          (pos 0) w
  ]
