-- ===== src/Deploy/Mocks/Protocol.antt =====
-- utils/deploys/deployMocks.ts: the mocks up to the linked ones.
use set_protocol_v.Base.{String, List, [], ◌∷◌}
use set_protocol_v.Base.Int.{ℤ}
use set_protocol_v.Contracts.{Address}
use set_protocol_v.Deploy.Chain.{Network, Instance, Action, address, addresses, number, deploy}

module _ (net : Network) (signer : Address) where
  unfoldable deploy_explicit_erc20_mock : Action Instance
  deploy_explicit_erc20_mock = deploy net signer "ExplicitERC20Mock" [] []

  unfoldable deploy_invoke_mock : Action Instance
  deploy_invoke_mock = deploy net signer "InvokeMock" [] []

  unfoldable deploy_manager_issuance_hook_mock : Action Instance
  deploy_manager_issuance_hook_mock = deploy net signer "ManagerIssuanceHookMock" [] []

  unfoldable deploy_module_issuance_hook_mock : Action Instance
  deploy_module_issuance_hook_mock = deploy net signer "ModuleIssuanceHookMock" [] []

  unfoldable deploy_nav_issuance_hook_mock : Action Instance
  deploy_nav_issuance_hook_mock = deploy net signer "NAVIssuanceHookMock" [] []

  unfoldable deploy_nav_issuance_caller : Address → Action Instance
  deploy_nav_issuance_caller nav_issuance_module =
      deploy net signer "NAVIssuanceCaller" [] (address nav_issuance_module ∷ [])

  unfoldable deploy_address_array_utils_mock : Action Instance
  deploy_address_array_utils_mock = deploy net signer "AddressArrayUtilsMock" [] []

  unfoldable deploy_uint256_array_utils_mock : Action Instance
  deploy_uint256_array_utils_mock = deploy net signer "Uint256ArrayUtilsMock" [] []

  unfoldable deploy_kyber_network_proxy_mock : Address → Action Instance
  deploy_kyber_network_proxy_mock mock_weth_address =
      deploy net signer "KyberNetworkProxyMock" [] (address mock_weth_address ∷ [])

  unfoldable deploy_module_base_mock : Address → Action Instance
  deploy_module_base_mock controller_address =
      deploy net signer "ModuleBaseMock" [] (address controller_address ∷ [])

  unfoldable deploy_module_base_v2_mock : Address → Action Instance
  deploy_module_base_v2_mock controller_address =
      deploy net signer "ModuleBaseV2Mock" [] (address controller_address ∷ [])

  unfoldable deploy_god_mode_mock : Address → Action Instance
  deploy_god_mode_mock controller_address =
      deploy net signer "GodModeMock" [] (address controller_address ∷ [])

  unfoldable deploy_debt_module_mock : Address → Action Instance
  deploy_debt_module_mock controller_address =
      deploy net signer "DebtModuleMock" [] (address controller_address ∷ [])

  unfoldable deploy_governance_adapter_mock : ℤ → Action Instance
  deploy_governance_adapter_mock initial_proposal_id =
      deploy net signer "GovernanceAdapterMock" [] (number initial_proposal_id ∷ [])

  unfoldable deploy_curve_stableswap_mock : List Address → Action Instance
  deploy_curve_stableswap_mock coins =
      deploy net signer "CurveStableswapMock" [] (addresses coins ∷ [])

  unfoldable deploy_one_inch_exchange_mock : Address → Address → ℤ → ℤ → Action Instance
  deploy_one_inch_exchange_mock send_token receive_token send_quantity receive_quantity =
      deploy net signer "OneInchExchangeMock" [] (
        address send_token
        ∷ address receive_token
        ∷ number send_quantity
        ∷ number receive_quantity
        ∷ [])

  unfoldable deploy_zero_ex_mock : Address → Address → ℤ → ℤ → Action Instance
  deploy_zero_ex_mock send_token receive_token send_quantity receive_quantity =
      deploy net signer "ZeroExMock" [] (
        address send_token
        ∷ address receive_token
        ∷ number send_quantity
        ∷ number receive_quantity
        ∷ [])

  unfoldable pub deploy_oracle_mock : ℤ → Action Instance
  deploy_oracle_mock initial_value = deploy net signer "OracleMock" [] (number initial_value ∷ [])

  unfoldable deploy_yearn_vault_mock : ℤ → Action Instance
  deploy_yearn_vault_mock price_per_share =
      deploy net signer "YearnVaultMock" [] (number price_per_share ∷ [])

  unfoldable deploy_oracle_adapter_mock : Address → ℤ → Action Instance
  deploy_oracle_adapter_mock asset dummy_price =
      deploy net signer "OracleAdapterMock" [] (address asset ∷ number dummy_price ∷ [])

  unfoldable deploy_position_mock : Action Instance
  deploy_position_mock = deploy net signer "PositionMock" [] []

  unfoldable deploy_position_v2_mock : String → Address → Action Instance
  deploy_position_v2_mock library_name library_address =
      deploy net signer "PositionV2Mock" ((library_name, library_address) ∷ []) []

  unfoldable deploy_precise_unit_math_mock : Action Instance
  deploy_precise_unit_math_mock = deploy net signer "PreciseUnitMathMock" [] []

  unfoldable deploy_resource_identifier_mock : Action Instance
  deploy_resource_identifier_mock = deploy net signer "ResourceIdentifierMock" [] []

  unfoldable deploy_staking_adapter_mock : Address → Action Instance
  deploy_staking_adapter_mock staking_asset =
      deploy net signer "StakingAdapterMock" [] (address staking_asset ∷ [])
