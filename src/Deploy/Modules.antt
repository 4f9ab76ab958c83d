-- ===== src/Deploy/Modules.antt =====
-- utils/deploys/deployModules.ts: the modules.
use set_protocol_v.Base.{String, [], ◌∷◌}
use set_protocol_v.Base.Int.{ℤ}
use set_protocol_v.Contracts.{Address}
use set_protocol_v.Deploy.Chain.{Network, Instance, Action, address, number, deploy, attach}

unfoldable get_basic_issuance_module : Address → Instance
get_basic_issuance_module basic_issuance_module = attach "BasicIssuanceModule" basic_issuance_module

unfoldable get_streaming_fee_module : Address → Instance
get_streaming_fee_module streaming_fee_module = attach "StreamingFeeModule" streaming_fee_module

module _ (net : Network) (signer : Address) where
  unfoldable pub deploy_basic_issuance_module : Address → Action Instance
  deploy_basic_issuance_module controller =
      deploy net signer "BasicIssuanceModule" [] (address controller ∷ [])

  unfoldable deploy_issuance_module : Address → Action Instance
  deploy_issuance_module controller =
      deploy net signer "IssuanceModule" [] (address controller ∷ [])

  unfoldable deploy_debt_issuance_module : Address → Action Instance
  deploy_debt_issuance_module controller =
      deploy net signer "DebtIssuanceModule" [] (address controller ∷ [])

  unfoldable deploy_debt_issuance_module_v2 : Address → Action Instance
  deploy_debt_issuance_module_v2 controller =
      deploy net signer "DebtIssuanceModuleV2" [] (address controller ∷ [])

  unfoldable deploy_slippage_issuance_module : Address → Action Instance
  deploy_slippage_issuance_module controller =
      deploy net signer "SlippageIssuanceModule" [] (address controller ∷ [])

  unfoldable deploy_amm_module : Address → Action Instance
  deploy_amm_module controller = deploy net signer "AmmModule" [] (address controller ∷ [])

  unfoldable pub deploy_streaming_fee_module : Address → Action Instance
  deploy_streaming_fee_module controller =
      deploy net signer "StreamingFeeModule" [] (address controller ∷ [])

  unfoldable deploy_airdrop_module : Address → Action Instance
  deploy_airdrop_module controller = deploy net signer "AirdropModule" [] (address controller ∷ [])

  unfoldable deploy_trade_module : Address → Action Instance
  deploy_trade_module controller = deploy net signer "TradeModule" [] (address controller ∷ [])

  unfoldable pub deploy_wrap_module : Address → Address → Action Instance
  deploy_wrap_module controller weth =
      deploy net signer "WrapModule" [] (address controller ∷ address weth ∷ [])

  unfoldable deploy_claim_module : Address → Action Instance
  deploy_claim_module controller = deploy net signer "ClaimModule" [] (address controller ∷ [])

  unfoldable deploy_staking_module : Address → Action Instance
  deploy_staking_module controller = deploy net signer "StakingModule" [] (address controller ∷ [])

  unfoldable pub deploy_custom_oracle_nav_issuance_module : Address → Address → Action Instance
  deploy_custom_oracle_nav_issuance_module controller weth =
      deploy net signer "CustomOracleNavIssuanceModule" [] (address controller ∷ address weth ∷ [])

  unfoldable deploy_single_index_module :
      Address → Address → Address → Address → Address → Action Instance
  deploy_single_index_module controller weth uniswap_router sushiswap_router balancer_proxy =
      deploy net signer "SingleIndexModule" [] (
        address controller
        ∷ address weth
        ∷ address uniswap_router
        ∷ address sushiswap_router
        ∷ address balancer_proxy
        ∷ [])

  unfoldable deploy_general_index_module : Address → Address → Action Instance
  deploy_general_index_module controller weth =
      deploy net signer "GeneralIndexModule" [] (address controller ∷ address weth ∷ [])

  unfoldable deploy_governance_module : Address → Action Instance
  deploy_governance_module controller =
      deploy net signer "GovernanceModule" [] (address controller ∷ [])

  unfoldable deploy_compound_leverage_module :
      Address → Address → Address → Address → Address → String → Address → Action Instance
  deploy_compound_leverage_module controller comp_token comptroller c_eth weth library_name
        library_address =
      deploy net signer "CompoundLeverageModule" ((library_name, library_address) ∷ []) (
        address controller
        ∷ address comp_token
        ∷ address comptroller
        ∷ address c_eth
        ∷ address weth
        ∷ [])

  unfoldable deploy_aave_leverage_module : Address → Address → String → Address → Action Instance
  deploy_aave_leverage_module controller lending_pool_addresses_provider library_name
        library_address =
      deploy net signer "AaveLeverageModule" ((library_name, library_address) ∷ [])
        (address controller ∷ address lending_pool_addresses_provider ∷ [])

  unfoldable deploy_notional_trade_module : Address → Address → Address → Action Instance
  deploy_notional_trade_module controller wrappedf_cash_factory weth =
      deploy net signer "NotionalTradeModule" []
        (address controller ∷ address wrappedf_cash_factory ∷ address weth ∷ [])

  unfoldable deploy_wrap_module_v2 : Address → Address → Action Instance
  deploy_wrap_module_v2 controller weth =
      deploy net signer "WrapModuleV2" [] (address controller ∷ address weth ∷ [])

  unfoldable deploy_perp_v2_leverage_module_v2 :
      Address
      → Address
      → Address
      → Address
      → ℤ
      → String
      → Address
      → String
      → Address
      → String
      → Address
      → Action Instance
  deploy_perp_v2_leverage_module_v2 controller perp_vault perp_quoter perp_market_registry
        max_perp_positions_per_set position_v2_library_name position_v2_library_address
        perp_v2_library_name perp_v2_library_address perp_v2_positions_library_name
        perp_v2_positions_library_address =
      deploy net signer "PerpV2LeverageModuleV2"
        ((position_v2_library_name, position_v2_library_address)
          ∷ (perp_v2_library_name, perp_v2_library_address)
          ∷ (perp_v2_positions_library_name, perp_v2_positions_library_address)
          ∷ [])
        (address controller
          ∷ address perp_vault
          ∷ address perp_quoter
          ∷ address perp_market_registry
          ∷ number max_perp_positions_per_set
          ∷ [])

  unfoldable deploy_perp_v2_basis_trading_module :
      Address
      → Address
      → Address
      → Address
      → ℤ
      → String
      → Address
      → String
      → Address
      → String
      → Address
      → Action Instance
  deploy_perp_v2_basis_trading_module controller perp_vault perp_quoter perp_market_registry
        max_perp_positions_per_set position_v2_library_name position_v2_library_address
        perp_v2_library_name perp_v2_library_address perp_v2_positions_library_name
        perp_v2_positions_library_address =
      deploy net signer "PerpV2BasisTradingModule"
        ((position_v2_library_name, position_v2_library_address)
          ∷ (perp_v2_library_name, perp_v2_library_address)
          ∷ (perp_v2_positions_library_name, perp_v2_positions_library_address)
          ∷ [])
        (address controller
          ∷ address perp_vault
          ∷ address perp_quoter
          ∷ address perp_market_registry
          ∷ number max_perp_positions_per_set
          ∷ [])
