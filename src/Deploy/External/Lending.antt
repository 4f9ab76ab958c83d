-- ===== src/Deploy/External/Lending.antt =====
-- utils/deploys/deployExternal.ts: Compound, WETH and Aave.
use set_protocol_v.Base.{String, List, [], ◌∷◌, Option}
use set_protocol_v.Base.Int.{ℤ}
use set_protocol_v.Units.{ether}
use set_protocol_v.Contracts.{Address}
use set_protocol_v.Deploy.Chain.{
  Network, Instance, Action, address, addresses, number, text, or_default, deploy, attach,
}

unfoldable get_weth : Address → Instance
get_weth weth = attach "WETH9" weth

module _ (net : Network) (signer : Address) where
  unfoldable pub deploy_comp : Address → Action Instance
  deploy_comp account = deploy net signer "Comp" [] (address account ∷ [])

  unfoldable pub deploy_compound_timelock : Address → ℤ → Action Instance
  deploy_compound_timelock admin delay =
      deploy net signer "CompoundTimelock" [] (address admin ∷ number delay ∷ [])

  unfoldable pub deploy_compound_governor_alpha : Address → Address → Address → Action Instance
  deploy_compound_governor_alpha timelock comp guardian =
      deploy net signer "CompoundGovernorAlpha" []
        (address timelock ∷ address comp ∷ address guardian ∷ [])

  unfoldable pub deploy_compound_governor_bravo_delegate : Action Instance
  deploy_compound_governor_bravo_delegate = deploy net signer "CompoundGovernorBravoDelegate" [] []

  unfoldable pub deploy_compound_governor_bravo_delegator :
      Address → Address → Address → Address → ℤ → ℤ → ℤ → Action Instance
  deploy_compound_governor_bravo_delegator timelock comp admin implementation voting_period
        voting_delay proposal_threshold =
      deploy net signer "CompoundGovernorBravoDelegator" [] (
        address timelock
        ∷ address comp
        ∷ address admin
        ∷ address implementation
        ∷ number voting_period
        ∷ number voting_delay
        ∷ number proposal_threshold
        ∷ [])

  unfoldable pub deploy_ce_rc20 :
      Address → Address → Address → ℤ → String → String → ℤ → Action Instance
  deploy_ce_rc20 underlying comptroller interest_rate_model initial_exchange_rate_mantissa name
        symbol decimals =
      deploy net signer "CERc20" [] (
        address underlying
        ∷ address comptroller
        ∷ address interest_rate_model
        ∷ number initial_exchange_rate_mantissa
        ∷ text name
        ∷ text symbol
        ∷ number decimals
        ∷ [])

  unfoldable pub deploy_c_ether : Address → Address → ℤ → String → String → ℤ → Action Instance
  deploy_c_ether comptroller interest_rate_model initial_exchange_rate_mantissa name symbol
        decimals =
      deploy net signer "CEther" [] (
        address comptroller
        ∷ address interest_rate_model
        ∷ number initial_exchange_rate_mantissa
        ∷ text name
        ∷ text symbol
        ∷ number decimals
        ∷ [])

  unfoldable pub deploy_compound_price_oracle_mock : Action Instance
  deploy_compound_price_oracle_mock = deploy net signer "CompoundPriceOracleMock" [] []

  unfoldable pub deploy_price_oracle_proxy :
      Address → Address → Address → Address → Address → Address → Address → Action Instance
  deploy_price_oracle_proxy guardian v1_price_oracle c_eth_address c_usdc_address c_sai_address
        c_dai_address c_usdt_address =
      deploy net signer "PriceOracleProxy" [] (
        address guardian
        ∷ address v1_price_oracle
        ∷ address c_eth_address
        ∷ address c_usdc_address
        ∷ address c_sai_address
        ∷ address c_dai_address
        ∷ address c_usdt_address
        ∷ [])

  unfoldable pub deploy_comptroller : Action Instance
  deploy_comptroller = deploy net signer "Comptroller" [] []

  unfoldable pub deploy_unitroller : Action Instance
  deploy_unitroller = deploy net signer "Unitroller" [] []

  unfoldable pub deploy_white_paper_interest_rate_model : ℤ → ℤ → Action Instance
  deploy_white_paper_interest_rate_model base_rate multiplier =
      deploy net signer "WhitePaperInterestRateModel" [] (number base_rate ∷ number multiplier ∷ [])

  unfoldable pub deploy_weth : Action Instance
  deploy_weth = deploy net signer "WETH9" [] []

  unfoldable pub deploy_aave_v2_lending_pool_addresses_provider : String → Action Instance
  deploy_aave_v2_lending_pool_addresses_provider market_id =
      deploy net signer "AaveV2LendingPoolAddressesProvider" [] (text market_id ∷ [])

  unfoldable pub deploy_aave_v2_lending_pool : Address → Address → Action Instance
  deploy_aave_v2_lending_pool validation_logic_address reserve_logic_address =
      deploy net signer "AaveV2LendingPool"
        (("__$de8c0cf1a7d7c36c802af9a64fb9d86036$__", validation_logic_address)
          ∷ ("__$22cd43a9dda9ce44e9b92ba393b88fb9ac$__", reserve_logic_address)
          ∷ [])
        []

  unfoldable pub deploy_aave_v2_lending_pool_configurator : Action Instance
  deploy_aave_v2_lending_pool_configurator = deploy net signer "AaveV2LendingPoolConfigurator" [] []

  unfoldable pub deploy_aave_v2_lending_pool_collateral_manager : Action Instance
  deploy_aave_v2_lending_pool_collateral_manager =
      deploy net signer "AaveV2LendingPoolCollateralManager" [] []

  unfoldable pub deploy_aave_v2_lending_rate_oracle : Action Instance
  deploy_aave_v2_lending_rate_oracle = deploy net signer "AaveV2LendingRateOracle" [] []

  -- `sources` has the empty tuple as its type.
  unfoldable pub deploy_aave_v2_oracle : List Address → Address → Address → Action Instance
  deploy_aave_v2_oracle assets fall_back_oracle weth =
      deploy net signer "AaveV2Oracle" []
        (addresses assets ∷ addresses [] ∷ address fall_back_oracle ∷ address weth ∷ [])

  unfoldable pub deploy_aave_v2_price_oracle : Action Instance
  deploy_aave_v2_price_oracle = deploy net signer "AaveV2PriceOracle" [] []

  unfoldable pub deploy_aave_v2_default_reserve_interest_rate_strategy :
      Address → Option ℤ → Option ℤ → Option ℤ → Option ℤ → Option ℤ → Option ℤ → Action Instance
  deploy_aave_v2_default_reserve_interest_rate_strategy addresses_provider optimal_utilization_rate
        base_variable_borrow_rate variable_rate_slope1 variable_rate_slope2 stable_rate_slope1
        stable_rate_slope2 =
      deploy net signer "AaveV2DefaultReserveInterestRateStrategy" [] (
        address addresses_provider
        ∷ number (or_default optimal_utilization_rate (ether 1))
        ∷ number (or_default base_variable_borrow_rate (ether 1))
        ∷ number (or_default variable_rate_slope1 (ether 1))
        ∷ number (or_default variable_rate_slope2 (ether 1))
        ∷ number (or_default stable_rate_slope1 (ether 1))
        ∷ number (or_default stable_rate_slope2 (ether 1))
        ∷ [])

  unfoldable pub deploy_aave_v2_protocol_data_provider : Address → Action Instance
  deploy_aave_v2_protocol_data_provider address_provider =
      deploy net signer "AaveV2ProtocolDataProvider" [] (address address_provider ∷ [])

  unfoldable pub deploy_aave_v2_a_token : Action Instance
  deploy_aave_v2_a_token = deploy net signer "AaveV2AToken" [] []

  unfoldable pub deploy_aave_v2_stable_debt_token : Action Instance
  deploy_aave_v2_stable_debt_token = deploy net signer "AaveV2StableDebtToken" [] []

  unfoldable pub deploy_aave_v2_variable_debt_token : Action Instance
  deploy_aave_v2_variable_debt_token = deploy net signer "AaveV2VariableDebtToken" [] []

  unfoldable pub deploy_aave_v2_staked_token_incentives_controller :
      Address → Address → Action Instance
  deploy_aave_v2_staked_token_incentives_controller stake_token emission_manager =
      deploy net signer "AaveV2StakedTokenIncentivesController" []
        (address stake_token ∷ address emission_manager ∷ [])

  unfoldable pub deploy_general_logic : Action Instance
  deploy_general_logic = deploy net signer "GenericLogic" [] []

  unfoldable pub deploy_validation_logic : Address → Action Instance
  deploy_validation_logic generic_logic_library_address =
      deploy net signer "ValidationLogic"
        (("__$52a8a86ab43135662ff256bbc95497e8e3$__", generic_logic_library_address) ∷ []) []

  unfoldable pub deploy_reserve_logic : Action Instance
  deploy_reserve_logic = deploy net signer "ReserveLogic" [] []

  unfoldable pub deploy_aave_governance_v2 : Address → ℤ → Address → List Address → Action Instance
  deploy_aave_governance_v2 governance_strategy voting_delay guardian executors =
      deploy net signer "AaveGovernanceV2" [] (
        address governance_strategy
        ∷ number voting_delay
        ∷ address guardian
        ∷ addresses executors
        ∷ [])

  unfoldable pub deploy_executor : Address → ℤ → ℤ → ℤ → ℤ → ℤ → ℤ → ℤ → ℤ → Action Instance
  deploy_executor admin delay grace_period minimum_delay maximum_delay proposition_threshold
        vote_duration vote_differential minmum_quorum =
      deploy net signer "Executor" [] (
        address admin
        ∷ number delay
        ∷ number grace_period
        ∷ number minimum_delay
        ∷ number maximum_delay
        ∷ number proposition_threshold
        ∷ number vote_duration
        ∷ number vote_differential
        ∷ number minmum_quorum
        ∷ [])

  unfoldable pub deploy_governance_strategy : Address → Address → Action Instance
  deploy_governance_strategy aave stkaave =
      deploy net signer "GovernanceStrategy" [] (address aave ∷ address stkaave ∷ [])

  unfoldable pub deploy_aave_token_v2_mintable : Action Instance
  deploy_aave_token_v2_mintable = deploy net signer "AaveTokenV2Mintable" [] []
