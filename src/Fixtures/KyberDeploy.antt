-- ===== src/Fixtures/KyberDeploy.antt =====
-- utils/fixtures/kyberV3DMMFixtureDeploy.ts: a Kyber DMM pool for each component of a deployment, with
-- liquidity at the oracle's price.
use set_protocol_v.Base.{◌^◌, ◌-◌, List, [], ◌∷◌, err, type_error}
use set_protocol_v.Base.Int.{ℤ, pos}
use set_protocol_v.Ethers.{BigNumber}
use set_protocol_v.Units.{ether}
use set_protocol_v.Contracts.{Address}
use set_protocol_v.Deploy.Chain.{
  Network, Instance, Action, address, number, numbers, pure, lift, ◌>>=◌, ◌>>◌, invoke_as,
  ask_number,
}
use set_protocol_v.Deploy.External.Exchange.{deploy_dmm_factory, deploy_dmm_router02}
use set_protocol_v.Fixtures.Pools.{create_new_dmm_pool}

-- The fields that `initialize` sets; a later pool of a component replaces an earlier one in the map.
pub record KyberDeployFixture : Type 0 where
  pub dmm_factory : Instance
  pub dmm_router : Instance
  pub component_pools : List (Address × Instance)

module _ (bn : BigNumber) (net : Network) (owner_address : Address) where
  -- `addLiquidityToPool`
  unfoldable add_liquidity_to_pool :
      Instance → Instance → Address → Instance → Instance → Instance → ℤ → Action (Unit {0})
  add_liquidity_to_pool dmm_router pool manager weth component oracle weth_amt = do
    oracle_price ← ask_number net owner_address oracle "read" []
    weth_amount ← lift (bn.div weth_amt (pos 10))
    component_amount ← lift (bn.div (bn.mul weth_amount (pos oracle_price)) (ether 1))
    invoke_as net owner_address manager weth "approve"
        (address dmm_router.address ∷ number weth_amount ∷ [])
    invoke_as net owner_address manager component "approve"
        (address dmm_router.address ∷ number component_amount ∷ [])
    weth_least ← lift (bn.div (bn.mul weth_amount (pos 75)) (pos 100))
    component_least ← lift (bn.div (bn.mul component_amount (pos 75)) (pos 100))
    invoke_as net owner_address manager dmm_router "addLiquidity" (
        address weth.address
        ∷ address component.address
        ∷ address pool.address
        ∷ number weth_amount
        ∷ number component_amount
        ∷ number weth_least
        ∷ number component_least
        ∷ numbers (pos 0 ∷ pos (2 ^ 256 - 1) ∷ [])
        ∷ address manager
        ∷ number (pos (2 ^ 256 - 1))
        ∷ [])

  -- The loop of `initialize`; an oracle that is missing is undefined, which has no `read`.
  unfoldable create_component_pools :
      Instance
      → Instance
      → Address
      → Instance
      → ℤ
      → List Instance
      → List Instance
      → Action (List (Address × Instance))
  unfolding add_liquidity_to_pool create_new_dmm_pool
  create_component_pools dmm_factory dmm_router owner weth weth_amount [] oracles = pure []
  create_component_pools dmm_factory dmm_router owner weth weth_amount (component ∷ components) [] =
      create_new_dmm_pool net owner_address dmm_factory weth.address component.address (pos 19_000)
      >>= λ pool. lift (err type_error)
  create_component_pools dmm_factory dmm_router owner weth weth_amount (component ∷ components)
        (oracle ∷ oracles) =
      create_new_dmm_pool net owner_address dmm_factory weth.address component.address (pos 19_000)
      >>= λ pool.
          add_liquidity_to_pool dmm_router pool owner weth component oracle weth_amount
          >> (create_component_pools dmm_factory dmm_router owner weth weth_amount components
                oracles
              >>= λ pools. pure ((component.address, pool) ∷ pools))

  -- `initialize`
  unfoldable initialize_kyber_deploy :
      Address → Instance → List Instance → List Instance → ℤ → Action KyberDeployFixture
  unfolding create_component_pools
  initialize_kyber_deploy owner weth components oracles weth_amount = do
    dmm_factory ← deploy_dmm_factory net owner_address owner
    dmm_router ← deploy_dmm_router02 net owner_address dmm_factory.address weth.address
    component_pools ←
        create_component_pools dmm_factory dmm_router owner weth weth_amount components oracles
    pure (record {
      dmm_factory = dmm_factory;
      dmm_router = dmm_router;
      component_pools = component_pools;
    })
