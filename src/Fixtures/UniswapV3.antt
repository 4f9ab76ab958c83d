-- ===== src/Fixtures/UniswapV3.antt =====
-- utils/fixtures/uniswapV3Fixture.ts: Uniswap V3, and liquidity over the widest range of ticks.
pub mod Liquidity
use set_protocol_v.Base.{ℕ, ◌/◌, ◌-◌, ◌^◌, Bool, if◌then◌else◌, [], ◌∷◌}
use set_protocol_v.Base.Int.{ℤ, pos}
use set_protocol_v.Js.{str_lt, to_lower_case}
use set_protocol_v.Contracts.{Address}
use set_protocol_v.Deploy.Chain.{
  Network, Instance, Action, address, number, pure, attach, ◌>>=◌, ◌>>◌, invoke, ask, ask_number,
}
use set_protocol_v.Deploy.External.Exchange.{
  deploy_uniswap_v3_factory, deploy_swap_router, deploy_nft_descriptor, deploy_nft_position_manager,
  deploy_quoter,
}
use set_protocol_v.PerpSystem.Ticks.{get_min_tick, get_max_tick}

-- `getTokenOrder`
unfoldable pub order_instances : Instance → Instance → Instance × Instance
order_instances token_zero token_one =
    if str_lt (to_lower_case token_zero.address) (to_lower_case token_one.address)
    then (token_zero, token_one)
    else (token_one, token_zero)

-- "the fee tier of either 500, 3000, or 10000"
pub data FeeTier : Type 0 where
  fee_500 fee_3000 fee_10000 : FeeTier

abbrev pub fee_of : FeeTier → ℕ
fee_of fee_500 = 500
fee_of fee_3000 = 3000
fee_of fee_10000 = 10_000

-- The contracts that `initialize` deploys first.
pub record UniswapV3Contracts : Type 0 where
  pub factory : Instance
  pub swap_router : Instance
  pub nft_position_manager : Instance
  pub nft_descriptor : Instance
  pub quoter : Instance

-- The fields that `initialize` sets.
pub record UniswapV3Fixture : Type 0 where
  pub contracts : UniswapV3Contracts
  pub weth_dai_pool : Instance
  pub weth_wbtc_pool : Instance

-- The price ratios are JavaScript numbers, whose arithmetic is not in the repository: their type, `/`,
-- `_ratio * (10 ** (one - zero))` and `_getSqrtPriceX96` are parameters.
pub record Ratios (Ratio : Type 0) : Type 0 where
  pub one : Ratio
  pub divide : Ratio → Ratio → Ratio
  pub scale : Ratio → ℕ → ℕ → Ratio
  pub get_sqrt_price_x96 : Ratio → ℤ

module _ (net : Network) (owner_address : Address) where
  unfoldable pub get_pool : UniswapV3Contracts → Instance → Instance → ℤ → Action Instance
  unfolding order_instances
  get_pool c token_zero token_one fee = do
    let ordered = order_instances token_zero token_one
    pool_address ←
        ask net owner_address c.factory "getPool"
          (address ordered.0.address ∷ address ordered.1.address ∷ number fee ∷ [])
    pure (attach "UniswapV3Pool" pool_address)

  unfoldable create_new_v3_pair :
      {Ratio : Type 0}
      → Ratios Ratio
      → UniswapV3Contracts
      → Instance
      → Instance
      → ℤ
      → Ratio
      → Action Instance
  unfolding get_pool order_instances
  create_new_v3_pair js c token_zero token_one fee given = do
    decimals_one ← ask_number net owner_address token_one "decimals" []
    decimals_zero ← ask_number net owner_address token_zero "decimals" []
    let scaled = js.scale given decimals_one decimals_zero
    let ratio =
        if str_lt (to_lower_case token_one.address) (to_lower_case token_zero.address)
        then js.divide js.one scaled
        else scaled
    let ordered = order_instances token_zero token_one
    invoke net owner_address c.nft_position_manager "createAndInitializePoolIfNecessary"
        (address ordered.0.address
          ∷ address ordered.1.address
          ∷ number fee
          ∷ number (js.get_sqrt_price_x96 ratio)
          ∷ [])
        (pos 0)
    get_pool c token_zero token_one fee

  -- `initialize`
  unfoldable initialize_uniswap_v3 :
      {Ratio : Type 0}
      → Ratios Ratio
      → Instance
      → Ratio
      → Instance
      → Ratio
      → Instance
      → Action UniswapV3Fixture
  unfolding create_new_v3_pair
  initialize_uniswap_v3 js weth weth_price wbtc wbtc_price dai = do
    factory ← deploy_uniswap_v3_factory net owner_address
    swap_router ← deploy_swap_router net owner_address factory.address weth.address
    nft_descriptor ← deploy_nft_descriptor net owner_address
    nft_position_manager ←
        deploy_nft_position_manager net owner_address factory.address weth.address
          nft_descriptor.address
    quoter ← deploy_quoter net owner_address factory.address weth.address
    let contracts : UniswapV3Contracts = record {
      factory = factory;
      swap_router = swap_router;
      nft_position_manager = nft_position_manager;
      nft_descriptor = nft_descriptor;
      quoter = quoter;
    }
    weth_dai_pool ← create_new_v3_pair js contracts weth dai (pos 3000) weth_price
    weth_wbtc_pool ←
        create_new_v3_pair js contracts weth wbtc (pos 3000) (js.divide weth_price wbtc_price)
    pure (record {
      contracts = contracts;
      weth_dai_pool = weth_dai_pool;
      weth_wbtc_pool = weth_wbtc_pool;
    })

  -- `addLiquidityWide`; the fields of the argument of `mint` in order. Each fee tier is a multiple of
  -- 50, so `_fee / 50` is a whole number.
  unfoldable pub add_liquidity_wide :
      UniswapV3Contracts → Instance → Instance → FeeTier → ℤ → ℤ → Address → Action (Unit {0})
  add_liquidity_wide c token_zero token_one fee amount_zero amount_one recipient =
      let swapped = str_lt (to_lower_case token_one.address) (to_lower_case token_zero.address) in
      let amounts : ℤ × ℤ =
        if swapped then (amount_one, amount_zero) else (amount_zero, amount_one) in
      let ordered : Instance × Instance =
        if swapped then (token_one, token_zero) else (token_zero, token_one) in
      let tick_spacing = fee_of fee / 50 in
      invoke net owner_address c.nft_position_manager "mint"
        (number (pos (fee_of fee))
          ∷ address ordered.0.address
          ∷ address ordered.1.address
          ∷ number (get_min_tick tick_spacing)
          ∷ number (get_max_tick tick_spacing)
          ∷ number amounts.0
          ∷ number amounts.1
          ∷ number (pos 0)
          ∷ number (pos 0)
          ∷ number (pos (2 ^ 256 - 1))
          ∷ address recipient
          ∷ [])
        (pos 0)
