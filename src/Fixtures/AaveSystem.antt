-- ===== src/Fixtures/AaveSystem.antt =====
-- utils/fixtures/aaveV2Fixture.ts: `initialize` as a whole, and the governance.
use set_protocol_v.Base.{String, ◌*◌, ◌^◌, ◌-◌, ◌/◌, true, [], ◌∷◌, Option, none}
use set_protocol_v.Base.Int.{ℤ, pos}
use set_protocol_v.Units.{ether}
use set_protocol_v.Contracts.{Address}
use set_protocol_v.Deploy.Chain.{
  Network, Instance, Action, address, number, pure, or_default, ◌>>=◌, ◌>>◌, invoke,
  invoke_detached,
}
use set_protocol_v.Deploy.External.Lending.{
  deploy_executor, deploy_aave_token_v2_mintable, deploy_governance_strategy,
  deploy_aave_governance_v2, deploy_aave_v2_staked_token_incentives_controller,
}
use set_protocol_v.Fixtures.Aave.{
  ReserveTokens, AaveContracts, deploy_aave_contracts, set_asset_price_in_oracle,
  set_market_borrow_rate, create_and_enable_reserve,
}

-- What `initializeGovernance` sets.
pub record AaveGovernance : Type 0 where
  pub executor : Instance
  pub aave_token : Instance
  pub stk_aave_token : Instance
  pub governance_strategy : Instance
  pub aave_governance_v2 : Instance
  pub incentives_controller : Instance

-- The fixture; `incentivesControllerAddress` is the address of the governance's controller from then
-- on.
pub record AaveFixture : Type 0 where
  pub market_id : String
  pub contracts : AaveContracts
  pub weth_reserve_tokens : ReserveTokens
  pub dai_reserve_tokens : ReserveTokens
  pub governance : AaveGovernance

module _ (net : Network) (owner_address : Address) where
  -- `initializeGovernance`; the random addresses of the two transfers, which are not awaited.
  unfoldable initialize_governance : Address → Address → Action AaveGovernance
  initialize_governance first_random second_random = do
    executor ←
        deploy_executor net owner_address owner_address (pos 0) (pos 0) (pos 0) (pos (2 ^ 256 - 1))
          (pos 50) (pos 100) (pos 50) (ether 100)
    aave_token ← deploy_aave_token_v2_mintable net owner_address
    invoke net owner_address aave_token "mint" (address owner_address ∷ number (ether 100_000) ∷ [])
        (pos 0)
    stk_aave_token ← deploy_aave_token_v2_mintable net owner_address
    invoke net owner_address stk_aave_token "mint"
        (address owner_address ∷ number (ether 100_000) ∷ []) (pos 0)
    strategy ←
        deploy_governance_strategy net owner_address aave_token.address stk_aave_token.address
    governance ←
        deploy_aave_governance_v2 net owner_address strategy.address (pos 0) owner_address
          (executor.address ∷ [])
    invoke_detached net owner_address aave_token "transfer"
        (address first_random ∷ number (pos 100) ∷ [])
    invoke_detached net owner_address stk_aave_token "transfer"
        (address second_random ∷ number (pos 100) ∷ [])
    first_controller ←
        deploy_aave_v2_staked_token_incentives_controller net owner_address stk_aave_token.address
          executor.address
    controller ←
        deploy_aave_v2_staked_token_incentives_controller net owner_address stk_aave_token.address
          executor.address
    pure (record {
      executor = executor;
      aave_token = aave_token;
      stk_aave_token = stk_aave_token;
      governance_strategy = strategy;
      aave_governance_v2 = governance;
      incentives_controller = controller;
    })

  -- `initialize`: `oneRay` is 10^27, and its products and quotients are at numbers; the default price
  -- of DAI is `ether(0.001)`. The last three addresses are the random ones.
  unfoldable initialize_aave :
      Address
      → Address
      → Address
      → Option String
      → Option ℤ
      → Address
      → Address
      → Address
      → Action AaveFixture
  unfolding initialize_governance
  initialize_aave address_zero weth dai market_id dai_price_in_eth treasury first_random
        second_random =
      do
        contracts ←
            deploy_aave_contracts net owner_address address_zero treasury
              (or_default market_id "Commons") weth
        set_asset_price_in_oracle net owner_address contracts dai
            (or_default dai_price_in_eth (pos (10 ^ 15)))
        set_market_borrow_rate net owner_address contracts weth (pos (10 ^ 27 * 3 / 100))
        set_market_borrow_rate net owner_address contracts dai (pos (10 ^ 27 * 39 / 1000))
        weth_reserve_tokens ←
            create_and_enable_reserve net owner_address contracts weth "WETH" (pos 18) (pos 8000)
              (pos 8250) (pos 10_500) (pos 1000) true true none none none
        dai_reserve_tokens ←
            create_and_enable_reserve net owner_address contracts dai "DAI" (pos 18) (pos 7500)
              (pos 8000) (pos 10_500) (pos 1000) true true none none none
        governance ← initialize_governance first_random second_random
        pure (record {
          market_id = or_default market_id "Commons";
          contracts = contracts;
          weth_reserve_tokens = weth_reserve_tokens;
          dai_reserve_tokens = dai_reserve_tokens;
          governance = governance;
        })
