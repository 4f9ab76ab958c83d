-- ===== src/Fixtures/Vaults.antt =====
-- utils/fixtures/yearnFixture.ts and utils/fixtures/curveFixture.ts: a vault with a strategy, a stable
-- pool, and gauges.
use set_protocol_v.Base.{String, ◌*◌, ◌^◌, List, [], ◌∷◌, none, some}
use set_protocol_v.Base.Int.{ℤ, pos}
use set_protocol_v.Units.{ether}
use set_protocol_v.Contracts.{Address}
use set_protocol_v.Deploy.Chain.{
  Network, Instance, Action, address, number, text, pure, ◌>>=◌, ◌>>◌, invoke, ask,
}
use set_protocol_v.Deploy.Mocks.Integration.{deploy_yearn_strategy_mock}
use set_protocol_v.Deploy.External.Exchange.{
  get_vault, deploy_vault, deploy_registry, deploy_curve_pool_erc20, deploy_stableswap,
  deploy_curve_deposit, deploy_crv_token, deploy_gauge_controller, deploy_minter,
  deploy_liquidity_gauge, deploy_liquidity_gauge_reward,
}

-- What `initializePool` and `initializeDAO` set.
pub record CurvePool : Type 0 where
  pub pool_token : Instance
  pub stable_swap : Instance
  pub deposit : Instance

pub record CurveDao : Type 0 where
  pub crv_token : Instance
  pub gauge_controller : Instance
  pub minter : Instance

module _ (net : Network) (owner_address : Address) where
  -- `initialize` of `YearnFixture`
  unfoldable initialize_yearn : Action Instance
  initialize_yearn = deploy_registry net owner_address

  unfoldable create_and_enable_vault_with_strategy_mock :
      Instance → Address → Address → Address → Address → String → String → ℤ → Action Instance
  create_and_enable_vault_with_strategy_mock registry underlying governance guardian rewards name
        symbol deposit_limit =
      do
        empty_vault ← deploy_vault net owner_address
        invoke net owner_address empty_vault
            "initialize(address,address,address,string,string,address)"
            (address underlying
              ∷ address governance
              ∷ address rewards
              ∷ text name
              ∷ text symbol
              ∷ address guardian
              ∷ [])
            (pos 0)
        invoke net owner_address empty_vault "setGovernance" (address owner_address ∷ []) (pos 0)
        invoke net owner_address empty_vault "acceptGovernance" [] (pos 0)
        invoke net owner_address registry "newRelease" (address empty_vault.address ∷ []) (pos 0)
        invoke net owner_address registry "newVault(address,address,address,string,string)"
            (address underlying ∷ address guardian ∷ address rewards ∷ text name ∷ text symbol ∷ [])
            (pos 0)
        vault_address ← ask net owner_address registry "latestVault" (address underlying ∷ [])
        let vault = get_vault vault_address
        invoke net owner_address vault "setDepositLimit" (number deposit_limit ∷ []) (pos 0)
        invoke net owner_address vault "setManagementFee" (number (pos 0) ∷ []) (pos 0)
        strategy ← deploy_yearn_strategy_mock net owner_address vault.address
        invoke net owner_address vault "addStrategy"
            (address strategy.address
              ∷ number (pos 9800)
              ∷ number (pos 0)
              ∷ number (pos 1000)
              ∷ number (pos 0)
              ∷ [])
            (pos 0)
        invoke net owner_address strategy "setKeeper" (address owner_address ∷ []) (pos 0)
        invoke net owner_address strategy "setRewards" (address rewards ∷ []) (pos 0)
        pure vault

  -- `initializePool`; the tuple of four tokens is a list.
  unfoldable initialize_curve_pool : List Address → Action CurvePool
  initialize_curve_pool tokens = do
    pool_token ←
        deploy_curve_pool_erc20 net owner_address "Curve.fi DAI/USDC/USDT/sUSD" "crvUSD"
          (some (pos 18)) (pos 0)
    stable_swap ← deploy_stableswap net owner_address tokens tokens pool_token.address none none
    deposit ←
        deploy_curve_deposit net owner_address tokens tokens stable_swap.address pool_token.address
    invoke net owner_address pool_token "set_minter" (address stable_swap.address ∷ []) (pos 0)
    pure (record { pool_token = pool_token; stable_swap = stable_swap; deposit = deposit })

  -- `initializeDAO`; `ether(0.5)` is written out.
  unfoldable initialize_dao : Action CurveDao
  initialize_dao = do
    crv_token ← deploy_crv_token net owner_address "Curve DAO Token" "CRV" none
    gauge_controller ← deploy_gauge_controller net owner_address crv_token.address crv_token.address
    invoke net owner_address gauge_controller "add_type(string,uint256)"
        (text "Liquidity" ∷ number (pos (5 * 10 ^ 17)) ∷ []) (pos 0)
    minter ← deploy_minter net owner_address crv_token.address gauge_controller.address
    invoke net owner_address crv_token "set_minter" (address minter.address ∷ []) (pos 0)
    pure (record { crv_token = crv_token; gauge_controller = gauge_controller; minter = minter })

  unfoldable initialize_gauge : CurveDao → Address → Action Instance
  initialize_gauge dao lp_token = do
    gauge ← deploy_liquidity_gauge net owner_address lp_token dao.minter.address
    invoke net owner_address dao.gauge_controller "add_gauge(address,int128,uint256)"
        (address gauge.address ∷ number (pos 0) ∷ number (ether 1) ∷ []) (pos 0)
    pure gauge

  unfoldable initialize_gauge_rewards : CurveDao → Address → Address → Address → Action Instance
  initialize_gauge_rewards dao lp_token reward_contract rewarded_token = do
    gauge ←
        deploy_liquidity_gauge_reward net owner_address lp_token dao.minter.address reward_contract
          rewarded_token
    invoke net owner_address dao.gauge_controller "add_gauge(address,int128,uint256)"
        (address gauge.address ∷ number (pos 0) ∷ number (ether 1) ∷ []) (pos 0)
    pure gauge
