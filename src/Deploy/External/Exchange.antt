-- ===== src/Deploy/External/Exchange.antt =====
-- utils/deploys/deployExternal.ts: exchanges, vaults, Perpetual Protocol and Notional.
use set_protocol_v.Base.{String, List, [], ◌∷◌, Option}
use set_protocol_v.Base.Int.{ℤ, pos}
use set_protocol_v.Contracts.{Address}
use set_protocol_v.Deploy.Chain.{
  Network, Instance, Action, address, addresses, number, text, or_default, deploy, attach,
}

unfoldable pub get_vault : Address → Instance
get_vault vault_address = attach "Vault" vault_address

unfoldable pub get_uniswap_v3_pool_instance : Address → Instance
get_uniswap_v3_pool_instance pool = attach "UniswapV3Pool" pool

unfoldable pub get_v_token : Address → Instance
get_v_token token = attach "PerpV2BaseToken" token

module _ (net : Network) (signer : Address) where
  unfoldable pub deploy_curve_deposit :
      List Address → List Address → Address → Address → Action Instance
  deploy_curve_deposit coins underlying_coins curve token =
      deploy net signer "CurveDeposit" []
        (addresses coins ∷ addresses underlying_coins ∷ address curve ∷ address token ∷ [])

  unfoldable pub deploy_stableswap :
      List Address → List Address → Address → Option ℤ → Option ℤ → Action Instance
  deploy_stableswap coins underlying_coins pool_token a_coefficient fee =
      deploy net signer "Stableswap" [] (
        addresses coins
        ∷ addresses underlying_coins
        ∷ address pool_token
        ∷ number (or_default a_coefficient (pos 1))
        ∷ number (or_default fee (pos 0))
        ∷ [])

  unfoldable pub deploy_curve_pool_erc20 : String → String → Option ℤ → ℤ → Action Instance
  deploy_curve_pool_erc20 name symbol decimals supply =
      deploy net signer "CurvePoolERC20" []
        (text name ∷ text symbol ∷ number (or_default decimals (pos 18)) ∷ number supply ∷ [])

  unfoldable pub deploy_crv_token : String → String → Option ℤ → Action Instance
  deploy_crv_token name symbol decimals =
      deploy net signer "CRVToken" []
        (text name ∷ text symbol ∷ number (or_default decimals (pos 18)) ∷ [])

  unfoldable pub deploy_gauge_controller : Address → Address → Action Instance
  deploy_gauge_controller token voting_escrow =
      deploy net signer "GaugeController" [] (address token ∷ address voting_escrow ∷ [])

  unfoldable pub deploy_liquidity_gauge_reward :
      Address → Address → Address → Address → Action Instance
  deploy_liquidity_gauge_reward lp_addr minter reward_contract rewarded_token =
      deploy net signer "LiquidityGaugeReward" []
        (address lp_addr ∷ address minter ∷ address reward_contract ∷ address rewarded_token ∷ [])

  unfoldable pub deploy_liquidity_gauge : Address → Address → Action Instance
  deploy_liquidity_gauge lp_addr minter =
      deploy net signer "LiquidityGauge" [] (address lp_addr ∷ address minter ∷ [])

  unfoldable pub deploy_minter : Address → Address → Action Instance
  deploy_minter token controller =
      deploy net signer "Minter" [] (address token ∷ address controller ∷ [])

  unfoldable pub deploy_uni : Address → Address → ℤ → Action Instance
  deploy_uni account minter minting_allowed_after =
      deploy net signer "Uni" []
        (address account ∷ address minter ∷ number minting_allowed_after ∷ [])

  unfoldable pub deploy_uniswap_timelock : Address → ℤ → Action Instance
  deploy_uniswap_timelock admin delay =
      deploy net signer "UniswapTimelock" [] (address admin ∷ number delay ∷ [])

  unfoldable pub deploy_uniswap_governor_alpha : Address → Address → Action Instance
  deploy_uniswap_governor_alpha timelock uni =
      deploy net signer "UniswapGovernorAlpha" [] (address timelock ∷ address uni ∷ [])

  unfoldable pub deploy_uniswap_v2_factory : Address → Action Instance
  deploy_uniswap_v2_factory fee_to_setter =
      deploy net signer "UniswapV2Factory" [] (address fee_to_setter ∷ [])

  unfoldable pub deploy_uniswap_v2_router02 : Address → Address → Action Instance
  deploy_uniswap_v2_router02 factory weth =
      deploy net signer "UniswapV2Router02" [] (address factory ∷ address weth ∷ [])

  unfoldable deploy_uniswap_v2_pair : Action Instance
  deploy_uniswap_v2_pair = deploy net signer "UniswapV2Pair" [] []

  unfoldable pub deploy_staking_rewards : Address → Address → Address → Action Instance
  deploy_staking_rewards rewards_distribution rewards_token staking_token =
      deploy net signer "StakingRewards" []
        (address rewards_distribution ∷ address rewards_token ∷ address staking_token ∷ [])

  unfoldable pub deploy_b__factory : Action Instance
  deploy_b__factory = deploy net signer "BFactory" [] []

  unfoldable pub deploy_exchange_proxy : Address → Action Instance
  deploy_exchange_proxy weth = deploy net signer "ExchangeProxy" [] (address weth ∷ [])

  unfoldable pub deploy_b_registry : Address → Action Instance
  deploy_b_registry factory = deploy net signer "BRegistry" [] (address factory ∷ [])

  unfoldable deploy_delegate_registry : Action Instance
  deploy_delegate_registry = deploy net signer "DelegateRegistry" [] []

  unfoldable pub deploy_vault : Action Instance
  deploy_vault = deploy net signer "Vault" [] []

  unfoldable pub deploy_registry : Action Instance
  deploy_registry = deploy net signer "Registry" [] []

  unfoldable deploy_kyber_network_token_v2 : Action Instance
  deploy_kyber_network_token_v2 = deploy net signer "KyberNetworkTokenV2" [] []

  unfoldable pub deploy_dmm_factory : Address → Action Instance
  deploy_dmm_factory fee_to_setter = deploy net signer "DMMFactory" [] (address fee_to_setter ∷ [])

  unfoldable pub deploy_dmm_router02 : Address → Address → Action Instance
  deploy_dmm_router02 factory weth =
      deploy net signer "DMMRouter02" [] (address factory ∷ address weth ∷ [])

  unfoldable deploy_dmm_pool : Action Instance
  deploy_dmm_pool = deploy net signer "DMMPool" [] []

  unfoldable pub deploy_uniswap_v3_factory : Action Instance
  deploy_uniswap_v3_factory = deploy net signer "UniswapV3Factory" [] []

  unfoldable pub deploy_swap_router : Address → Address → Action Instance
  deploy_swap_router factory weth =
      deploy net signer "SwapRouter" [] (address factory ∷ address weth ∷ [])

  unfoldable pub deploy_nft_position_manager : Address → Address → Address → Action Instance
  deploy_nft_position_manager factory weth nft_desc =
      deploy net signer "NonfungiblePositionManager" []
        (address factory ∷ address weth ∷ address nft_desc ∷ [])

  unfoldable pub deploy_quoter : Address → Address → Action Instance
  deploy_quoter factory weth = deploy net signer "Quoter" [] (address factory ∷ address weth ∷ [])

  unfoldable pub deploy_nft_descriptor : Action Instance
  deploy_nft_descriptor = deploy net signer "NFTDescriptor" [] []

  unfoldable pub deploy_perp_v2_order_book : Action Instance
  deploy_perp_v2_order_book = deploy net signer "PerpV2OrderBook" [] []

  unfoldable pub deploy_perp_v2_market_registry : Action Instance
  deploy_perp_v2_market_registry = deploy net signer "PerpV2MarketRegistry" [] []

  unfoldable pub deploy_perp_v2_quoter : Address → Action Instance
  deploy_perp_v2_quoter market_registry =
      deploy net signer "PerpV2Quoter" [] (address market_registry ∷ [])

  unfoldable pub deploy_perp_v2_quote_token : Action Instance
  deploy_perp_v2_quote_token = deploy net signer "PerpV2QuoteToken" [] []

  unfoldable pub deploy_perp_v2_vault : Action Instance
  deploy_perp_v2_vault = deploy net signer "PerpV2Vault" [] []

  unfoldable pub deploy_perp_v2_test_aggregator_v3 : Action Instance
  deploy_perp_v2_test_aggregator_v3 = deploy net signer "PerpV2TestAggregatorV3" [] []

  unfoldable pub deploy_perp_v2_chainlink_price_feed : Action Instance
  deploy_perp_v2_chainlink_price_feed = deploy net signer "PerpV2ChainlinkPriceFeed" [] []

  unfoldable pub deploy_perp_v2_base_token : Action Instance
  deploy_perp_v2_base_token = deploy net signer "PerpV2BaseToken" [] []

  unfoldable pub deploy_perp_v2_clearing_house_config : Action Instance
  deploy_perp_v2_clearing_house_config = deploy net signer "PerpV2ClearingHouseConfig" [] []

  unfoldable pub deploy_perp_v2_insurance_fund : Action Instance
  deploy_perp_v2_insurance_fund = deploy net signer "PerpV2InsuranceFund" [] []

  unfoldable pub deploy_perp_v2_account_balance : Action Instance
  deploy_perp_v2_account_balance = deploy net signer "PerpV2AccountBalance" [] []

  unfoldable pub deploy_perp_v2_exchange : Action Instance
  deploy_perp_v2_exchange = deploy net signer "PerpV2Exchange" [] []

  unfoldable pub deploy_perp_v2_clearing_house : Action Instance
  deploy_perp_v2_clearing_house = deploy net signer "PerpV2ClearingHouse" [] []

  unfoldable deploy_wrappedf_cash : Address → Address → Action Instance
  deploy_wrappedf_cash notional_proxy weth =
      deploy net signer "WrappedfCash" [] (address notional_proxy ∷ address weth ∷ [])

  unfoldable deploy_wrappedf_cash_factory : Address → Action Instance
  deploy_wrappedf_cash_factory beacon =
      deploy net signer "WrappedfCashFactory" [] (address beacon ∷ [])
