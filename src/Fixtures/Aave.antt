-- ===== src/Fixtures/Aave.antt =====
-- utils/fixtures/aaveV2Fixture.ts: Aave V2, its reserves and its governance.
use Prim.Native.String.{◌++◌}
use set_protocol_v.Base.{String, Bool, if◌then◌else◌, [], ◌∷◌, Option, none}
use set_protocol_v.Base.Int.{ℤ, pos}
use set_protocol_v.Contracts.{Address}
use set_protocol_v.Deploy.Chain.{
  Network, Instance, Action, address, number, text, flag, pure, attach, or_default, ◌>>=◌, ◌>>◌,
  invoke, ask, ask_three,
}
use set_protocol_v.Deploy.External.Lending.{
  deploy_general_logic, deploy_reserve_logic, deploy_validation_logic,
  deploy_aave_v2_lending_pool_configurator, deploy_aave_v2_lending_pool_collateral_manager,
  deploy_aave_v2_lending_pool, deploy_aave_v2_lending_pool_addresses_provider,
  deploy_aave_v2_protocol_data_provider, deploy_aave_v2_default_reserve_interest_rate_strategy,
  deploy_aave_v2_lending_rate_oracle, deploy_aave_v2_price_oracle, deploy_aave_v2_oracle,
  deploy_aave_v2_a_token, deploy_aave_v2_stable_debt_token, deploy_aave_v2_variable_debt_token,
}

pub record ReserveTokens : Type 0 where
  pub a_token : Instance
  pub stable_debt_token : Instance
  pub variable_debt_token : Instance

-- The contracts that `initialize` deploys before the reserves; the two addresses are fields of the
-- fixture too.
pub record AaveContracts : Type 0 where
  pub lending_pool : Instance
  pub lending_pool_configurator : Instance
  pub lending_pool_collateral_manager : Instance
  pub lending_pool_addresses_provider : Instance
  pub protocol_data_provider : Instance
  pub reserve_interest_rate_strategy : Instance
  pub lending_rate_oracle : Instance
  pub fallback_oracle : Instance
  pub price_oracle : Instance
  pub treasury_address : Address
  pub incentives_controller_address : Address

module _ (net : Network) (owner_address : Address) where
  unfoldable pub set_asset_price_in_oracle : AaveContracts → Address → ℤ → Action (Unit {0})
  set_asset_price_in_oracle c asset price_in_eth =
      invoke net owner_address c.fallback_oracle "setAssetPrice"
        (address asset ∷ number price_in_eth ∷ []) (pos 0)

  unfoldable pub set_market_borrow_rate : AaveContracts → Address → ℤ → Action (Unit {0})
  set_market_borrow_rate c asset rate =
      invoke net owner_address c.lending_rate_oracle "setMarketBorrowRate"
        (address asset ∷ number rate ∷ []) (pos 0)

  -- Lines 80 to 125 of `initialize`: the libraries, the contracts and the oracles, and the proxies
  -- that the provider creates. `treasury_address` is the random address.
  unfoldable pub deploy_aave_contracts : Address → Address → String → Address → Action AaveContracts
  deploy_aave_contracts address_zero treasury_address market_id weth = do
    generic_logic ← deploy_general_logic net owner_address
    reserve_logic ← deploy_reserve_logic net owner_address
    validation_logic ← deploy_validation_logic net owner_address generic_logic.address
    configurator ← deploy_aave_v2_lending_pool_configurator net owner_address
    collateral_manager ← deploy_aave_v2_lending_pool_collateral_manager net owner_address
    lending_pool ←
        deploy_aave_v2_lending_pool net owner_address validation_logic.address reserve_logic.address
    provider ← deploy_aave_v2_lending_pool_addresses_provider net owner_address market_id
    data_provider ← deploy_aave_v2_protocol_data_provider net owner_address provider.address
    strategy ←
        deploy_aave_v2_default_reserve_interest_rate_strategy net owner_address provider.address
          none none none none none none
    lending_rate_oracle ← deploy_aave_v2_lending_rate_oracle net owner_address
    fallback_oracle ← deploy_aave_v2_price_oracle net owner_address
    price_oracle ← deploy_aave_v2_oracle net owner_address [] fallback_oracle.address weth
    invoke net owner_address provider "setPriceOracle" (address price_oracle.address ∷ []) (pos 0)
    invoke net owner_address provider "setLendingRateOracle"
        (address lending_rate_oracle.address ∷ []) (pos 0)
    invoke net owner_address provider "setPoolAdmin" (address owner_address ∷ []) (pos 0)
    invoke net owner_address provider "setLendingPoolCollateralManager"
        (address collateral_manager.address ∷ []) (pos 0)
    invoke net owner_address provider "setAddress"
        (text "0x0100000000000000000000000000000000000000000000000000000000000000"
          ∷ address data_provider.address
          ∷ [])
        (pos 0)
    invoke net owner_address provider "setLendingPoolImpl" (address lending_pool.address ∷ [])
        (pos 0)
    proxy_pool ← ask net owner_address provider "getLendingPool" []
    invoke net owner_address provider "setLendingPoolConfiguratorImpl"
        (address configurator.address ∷ []) (pos 0)
    proxy_configurator ← ask net owner_address provider "getLendingPoolConfigurator" []
    pure (record {
      lending_pool = attach lending_pool.contract proxy_pool;
      lending_pool_configurator = attach configurator.contract proxy_configurator;
      lending_pool_collateral_manager = collateral_manager;
      lending_pool_addresses_provider = provider;
      protocol_data_provider = data_provider;
      reserve_interest_rate_strategy = strategy;
      lending_rate_oracle = lending_rate_oracle;
      fallback_oracle = fallback_oracle;
      price_oracle = price_oracle;
      treasury_address = treasury_address;
      incentives_controller_address = address_zero;
    })

  -- `createAndEnableReserve`; the fields of the argument of `batchInitReserve` in order.
  unfoldable pub create_and_enable_reserve :
      AaveContracts
      → Address
      → String
      → ℤ
      → ℤ
      → ℤ
      → ℤ
      → ℤ
      → Bool
      → Bool
      → Option Address
      → Option Address
      → Option Address
      → Action ReserveTokens
  create_and_enable_reserve c underlying_asset symbol decimals base_ltv liquidation_threshold
        liquidation_bonus reserve_factor borrowing_enabled stable_borrowing_enabled treasury_address
        incentives_controller_address interest_rate_strategy_address =
      do
        a_token ← deploy_aave_v2_a_token net owner_address
        stable_debt_token ← deploy_aave_v2_stable_debt_token net owner_address
        variable_debt_token ← deploy_aave_v2_variable_debt_token net owner_address
        invoke net owner_address c.lending_pool_configurator "batchInitReserve"
            (address a_token.address
              ∷ address stable_debt_token.address
              ∷ address variable_debt_token.address
              ∷ number decimals
              ∷ address (
                  or_default interest_rate_strategy_address
                    c.reserve_interest_rate_strategy.address)
              ∷ address underlying_asset
              ∷ address (or_default treasury_address c.treasury_address)
              ∷ address (or_default incentives_controller_address c.incentives_controller_address)
              ∷ text symbol
              ∷ text ("Aave interest bearing " ++ symbol)
              ∷ text ("a" ++ symbol)
              ∷ text ("Aave variable debt bearing " ++ symbol)
              ∷ text ("variableDebt" ++ symbol)
              ∷ text ("Aave stable debt bearing " ++ symbol)
              ∷ text ("stableDebt" ++ symbol)
              ∷ text "0x"
              ∷ [])
            (pos 0)
        invoke net owner_address c.lending_pool_configurator "configureReserveAsCollateral"
            (address underlying_asset
              ∷ number base_ltv
              ∷ number liquidation_threshold
              ∷ number liquidation_bonus
              ∷ [])
            (pos 0)
        if borrowing_enabled
            then invoke net owner_address c.lending_pool_configurator "enableBorrowingOnReserve"
                (address underlying_asset ∷ flag stable_borrowing_enabled ∷ []) (pos 0)
            else pure tt
        invoke net owner_address c.lending_pool_configurator "setReserveFactor"
            (address underlying_asset ∷ number reserve_factor ∷ []) (pos 0)
        proxies ←
            ask_three net owner_address c.protocol_data_provider "getReserveTokensAddresses"
              (address underlying_asset ∷ [])
        pure (record {
          a_token = attach a_token.contract proxies.0;
          stable_debt_token = attach stable_debt_token.contract proxies.1;
          variable_debt_token = attach variable_debt_token.contract proxies.2;
        })
