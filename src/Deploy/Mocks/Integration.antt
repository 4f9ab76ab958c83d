-- ===== src/Deploy/Mocks/Integration.antt =====
-- utils/deploys/deployMocks.ts: the token mocks and the mocks of other protocols.
use set_protocol_v.Base.{String, List, [], ◌∷◌, Option}
use set_protocol_v.Base.Int.{ℤ, pos}
use set_protocol_v.Units.{ether}
use set_protocol_v.Contracts.{Address}
use set_protocol_v.Deploy.Chain.{
  Network, Instance, Action, address, addresses, number, text, or_default, deploy, attach,
}

unfoldable pub get_token_mock : Address → Instance
get_token_mock token = attach "StandardTokenMock" token

module _ (net : Network) (signer : Address) where
  unfoldable pub deploy_token_mock :
      Address → Option ℤ → Option ℤ → Option String → Option String → Action Instance
  deploy_token_mock initial_account initial_balance decimals name symbol =
      deploy net signer "StandardTokenMock" [] (
        address initial_account
        ∷ number (or_default initial_balance (ether 1000000000))
        ∷ text (or_default name "Token")
        ∷ text (or_default symbol "Symbol")
        ∷ number (or_default decimals (pos 18))
        ∷ [])

  unfoldable deploy_token_with_error_mock :
      Address → ℤ → ℤ → Option String → Option String → Option ℤ → Action Instance
  deploy_token_with_error_mock initial_account initial_balance error name symbol decimals =
      deploy net signer "StandardTokenWithRoundingErrorMock" [] (
        address initial_account
        ∷ number initial_balance
        ∷ number error
        ∷ text (or_default name "Token")
        ∷ text (or_default symbol "Symbol")
        ∷ number (or_default decimals (pos 18))
        ∷ [])

  unfoldable deploy_trade_adapter_mock : Action Instance
  deploy_trade_adapter_mock = deploy net signer "TradeAdapterMock" [] []

  unfoldable deploy_amm_adapter_mock : List Address → Action Instance
  deploy_amm_adapter_mock underlying_tokens =
      deploy net signer "AmmAdapterMock" [] (addresses underlying_tokens ∷ [])

  unfoldable deploy_wrap_adapter_mock : Action Instance
  deploy_wrap_adapter_mock = deploy net signer "WrapAdapterMock" [] []

  unfoldable deploy_aave_lending_pool_core_mock : Action Instance
  deploy_aave_lending_pool_core_mock = deploy net signer "AaveLendingPoolCoreMock" [] []

  unfoldable deploy_aave_lending_pool_mock : Address → Action Instance
  deploy_aave_lending_pool_mock aave_lending_pool_core =
      deploy net signer "AaveLendingPoolMock" [] (address aave_lending_pool_core ∷ [])

  unfoldable deploy_aave_v2_mock : String → Address → Action Instance
  deploy_aave_v2_mock library_name library_address =
      deploy net signer "AaveV2Mock" ((library_name, library_address) ∷ []) []

  unfoldable deploy_perp_v2_mock : String → Address → Action Instance
  deploy_perp_v2_mock library_name library_address =
      deploy net signer "PerpV2Mock" ((library_name, library_address) ∷ []) []

  unfoldable deploy_perp_v2_library_v2_mock : String → Address → Action Instance
  deploy_perp_v2_library_v2_mock library_name library_address =
      deploy net signer "PerpV2LibraryV2Mock" ((library_name, library_address) ∷ []) []

  unfoldable deploy_perp_v2_positions_mock : String → Address → Action Instance
  deploy_perp_v2_positions_mock library_name library_address =
      deploy net signer "PerpV2PositionsMock" ((library_name, library_address) ∷ []) []

  unfoldable deploy_uniswap_v3_math_mock : Action Instance
  deploy_uniswap_v3_math_mock = deploy net signer "UniswapV3MathMock" [] []

  unfoldable deploy_unit_conversion_utils_mock : Action Instance
  deploy_unit_conversion_utils_mock = deploy net signer "UnitConversionUtilsMock" [] []

  unfoldable deploy_set_token_accessible_mock : Address → Action Instance
  deploy_set_token_accessible_mock controller =
      deploy net signer "SetTokenAccessibleMock" [] (address controller ∷ [])

  unfoldable deploy_claim_adapter_mock : Action Instance
  deploy_claim_adapter_mock = deploy net signer "ClaimAdapterMock" [] []

  unfoldable deploy_gauge_controller_mock : Action Instance
  deploy_gauge_controller_mock = deploy net signer "GaugeControllerMock" [] []

  unfoldable deploy_contract_caller_mock : Action Instance
  deploy_contract_caller_mock = deploy net signer "ContractCallerMock" [] []

  unfoldable deploy_debt_issuance_mock : Action Instance
  deploy_debt_issuance_mock = deploy net signer "DebtIssuanceMock" [] []

  unfoldable deploy_comptroller_mock : Address → ℤ → Address → Action Instance
  deploy_comptroller_mock comp comp_amount c_token =
      deploy net signer "ComptrollerMock" []
        (address comp ∷ number comp_amount ∷ address c_token ∷ [])

  unfoldable deploy_compound_mock : String → Address → Action Instance
  deploy_compound_mock library_name library_address =
      deploy net signer "CompoundMock" ((library_name, library_address) ∷ []) []

  unfoldable deploy_synth_mock :
      Address → String → Option ℤ → Option String → Option String → Action Instance
  deploy_synth_mock initial_account currency_key initial_balance name symbol =
      deploy net signer "SynthMock" [] (
        address initial_account
        ∷ number (or_default initial_balance (ether 1000000000))
        ∷ text (or_default name "Token")
        ∷ text (or_default symbol "Symbol")
        ∷ number (pos 18)
        ∷ text currency_key
        ∷ [])

  unfoldable deploy_custom_set_valuer_mock : Action Instance
  deploy_custom_set_valuer_mock = deploy net signer "CustomSetValuerMock" [] []

  unfoldable pub deploy_yearn_strategy_mock : Address → Action Instance
  deploy_yearn_strategy_mock vault = deploy net signer "YearnStrategyMock" [] (address vault ∷ [])

  unfoldable deploy_force_funder_mock : Action Instance
  deploy_force_funder_mock = deploy net signer "ForceFunderMock" [] []

  unfoldable deploy_wrap_v2_adapter_mock : Action Instance
  deploy_wrap_v2_adapter_mock = deploy net signer "WrapV2AdapterMock" [] []

  unfoldable pub deploy_chainlink_aggregator_mock : ℤ → Action Instance
  deploy_chainlink_aggregator_mock decimals =
      deploy net signer "ChainlinkAggregatorMock" [] (number decimals ∷ [])

  unfoldable deploy_tribe_peg_exchanger_mock : Address → Address → Action Instance
  deploy_tribe_peg_exchanger_mock rgt tribe =
      deploy net signer "TribePegExchangerMock" [] (address rgt ∷ address tribe ∷ [])

  unfoldable deploy_string_array_utils_mock : Action Instance
  deploy_string_array_utils_mock = deploy net signer "StringArrayUtilsMock" [] []

  unfoldable deploy_bytes_array_utils_mock : Action Instance
  deploy_bytes_array_utils_mock = deploy net signer "BytesArrayUtilsMock" [] []

  unfoldable deploy_wrappedf_cash_mock : Address → Address → Address → Action Instance
  deploy_wrappedf_cash_mock asset_token underlying_token weth =
      deploy net signer "WrappedfCashMock" []
        (address asset_token ∷ address underlying_token ∷ address weth ∷ [])

  unfoldable deploy_wrappedf_cash_factory_mock : Action Instance
  deploy_wrappedf_cash_factory_mock = deploy net signer "WrappedfCashFactoryMock" [] []
