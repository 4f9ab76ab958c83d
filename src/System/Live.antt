-- ===== src/System/Live.antt =====
-- utils/fixtures/systemFixtureDeploy.ts and utils/fixtures/systemFixtureDeployReduced.ts: the system
-- deployed on a live network, with the tokens and the pools that are there already, and on a
-- test network, with mocks of them. The two files share `initialize`.
pub mod Handover
pub mod Pools
use set_protocol_v.Base.{
  ℕ, ◌+◌, ◌*◌, ◌/◌, ◌^◌, ◌-◌, if◌then◌else◌, List, [], ◌∷◌, take, map, some, ok,
}
use set_protocol_v.Base.Int.{ℤ, pos, neg_of}
use set_protocol_v.Js.{str_lt, to_lower_case, codes}
use set_protocol_v.Units.{ether}
use set_protocol_v.Contracts.{Address}
use set_protocol_v.Deploy.Chain.{
  Network, Instance, World, Action, address, addresses, number, numbers, pure, attach, ◌>>=◌, ◌>>◌,
  deploy, invoke, ask,
}
use set_protocol_v.Deploy.Core.{
  deploy_controller, deploy_set_token_creator, deploy_price_oracle, deploy_integration_registry,
  deploy_set_valuer,
}
use set_protocol_v.Deploy.Modules.{
  deploy_basic_issuance_module, deploy_custom_oracle_nav_issuance_module,
}
use set_protocol_v.Deploy.Mocks.Integration.{deploy_token_mock}

-- The fields that `initializeStandardComponents` sets and `initialize` reads.
pub record LiveComponents : Type 0 where
  pub weth : Instance
  pub components : List Instance
  pub pool_addresses : List Address

-- The fields that `initialize` sets.
pub record LiveFixture : Type 0 where
  pub controller : Instance
  pub issuance_module : Instance
  pub standard : LiveComponents
  pub factory : Instance
  pub uniswap_price_adapter : Instance
  pub price_oracle : Instance
  pub integration_registry : Instance
  pub set_valuer : Instance
  pub nav_issuance_module : Instance

-- `componentData`: the tokens with the fees of their pools.
abbrev pub component_data : List (Address × ℕ)
component_data =
    (codes "0xfa7f8980b0f1e64a2062791cc3b0871572f1f7f0", 3000)
    ∷ (codes "0x9623063377ad1b27544c965ccd7342f7ea7e88c7", 3000)
    ∷ (codes "0x13ad51ed4f1b7e9dc168d8a00cb3f4ddd85efa60", 3000)
    ∷ (codes "0x0c880f6761f1af8d9aa9c466984b80dab9a8c9e8", 3000)
    ∷ (codes "0x912ce59144191c1204e64559fe8253a0e49e6548", 500)
    ∷ (codes "0xfc5a1a6eb076a2c7ad06ed22c90d7e710e35ad0a", 10_000)
    ∷ (codes "0x371c7ec6d8039ff7933a2aa28eb827ffe1f52f07", 10_000)
    ∷ (codes "0x18c11fd286c5ec11c3b683caa813b77f5163a122", 3000)
    ∷ (codes "0x3082cc23568ea640225c2467653db90e9250aaa0", 3000)
    ∷ (codes "0x4e352cf164e64adcbad318c3a1e222e9eba4ce42", 10_000)
    ∷ (codes "0x7dd747d63b094971e6638313a6a2685e80c7fb2e", 3000)
    ∷ (codes "0x0341c0c0ec423328621788d4854119b97f44e391", 10_000)
    ∷ (codes "0x58b9cb810a68a7f3e1e4f8cb45d1b9b3c79705e8", 10_000)
    ∷ (codes "0xf1264873436a0771e440e2b28072fafcc5eebd01", 100)
    ∷ []

module _ (net : Network) (owner_address : Address) where
  -- The loop at the end of `initializeStandardComponents` on a live network: each component is
  -- approved, and the address of its pool is collected.
  unfoldable pub collect_pools :
      Address → Instance → Address → List (Address × ℕ) → Action (List Address)
  collect_pools spender factory_contract weth [] = pure []
  collect_pools spender factory_contract weth ((token, fee) ∷ rest) =
      invoke net owner_address (attach "ERC20" token) "approve"
        (address spender ∷ number (ether 10_000) ∷ []) (pos 0)
      >> (ask net owner_address factory_contract "getPool"
            (address token ∷ address weth ∷ number (pos fee) ∷ [])
          >>= λ pool_address. collect_pools spender factory_contract weth rest >>= λ pool_addresses.
              pure (pool_address ∷ pool_addresses))

  -- `initializeStandardComponents` of systemFixtureDeploy.ts; the loop reads ten of the components.
  unfoldable pub live_components : Instance → Action LiveComponents
  unfolding collect_pools
  live_components issuance_module = do
    let weth = attach "ERC20" (codes "0x82aF49447D8a07e3bd95BD0d56f35241523fBab1")
    invoke net owner_address weth "approve"
        (address issuance_module.address ∷ number (ether 10_000) ∷ []) (pos 0)
    let factory_contract = attach "Contract" (codes "0x1F98431c8aD98523631AE4a59f267346ea31F984")
    pool_addresses ←
        collect_pools issuance_module.address factory_contract weth.address (take 10 component_data)
    pure (record {
      weth = weth;
      components = map (λ d. attach "ERC20" d.0) component_data;
      pool_addresses = pool_addresses;
    })

  -- `createUniswapPoolAndAddLiquidity` by the owner; the fields of the argument of `mint` in order.
  -- `now` is `Date.now()`, in milliseconds.
  unfoldable create_uniswap_pool_and_add_liquidity :
      (World → ℕ) → Address → Address → Address → Address → Action Address
  create_uniswap_pool_and_add_liquidity now factory_address router_address token_a token_b = do
    let ordered : Address × Address =
        if str_lt (to_lower_case token_b) (to_lower_case token_a)
        then (token_b, token_a)
        else (token_a, token_b)
    let spending = address router_address ∷ number (ether 10_000) ∷ []
    invoke net owner_address (attach "ERC20" ordered.0) "approve" spending (pos 0)
    invoke net owner_address (attach "ERC20" ordered.1) "approve" spending (pos 0)
    let router = attach "Contract" router_address
    invoke net owner_address router "createAndInitializePoolIfNecessary"
        (address ordered.0
          ∷ address ordered.1
          ∷ number (pos 500)
          ∷ number (pos 79_228_162_514_264_337_593_543_950_336)
          ∷ [])
        (pos 0)
    deadline ← (λ w. ok (now w / 1000 + 86_400_000, w))
    invoke net owner_address router "mint"
        (address ordered.0
          ∷ address ordered.1
          ∷ number (pos 500)
          ∷ number (neg_of 60)
          ∷ number (pos 60)
          ∷ number (ether 1000)
          ∷ number (ether 1000)
          ∷ number (ether 800)
          ∷ number (ether 800)
          ∷ address owner_address
          ∷ number (pos deadline)
          ∷ [])
        (pos 0)
    ask net owner_address (attach "Contract" factory_address) "getPool"
        (address ordered.0 ∷ address ordered.1 ∷ number (pos 500) ∷ [])

  -- `initializeStandardComponents` of systemFixtureDeployReduced.ts; both loops run once.
  unfoldable pub reduced_components : (World → ℕ) → Instance → Action LiveComponents
  unfolding create_uniswap_pool_and_add_liquidity
  reduced_components now issuance_module = do
    let spending = address issuance_module.address ∷ number (ether 10_000) ∷ []
    token ←
        deploy_token_mock net owner_address owner_address (some (ether 10_000)) (some (pos 18))
          (some "token0") (some "TOKEN0")
    invoke net owner_address token "approve" spending (pos 0)
    weth ←
        deploy_token_mock net owner_address owner_address (some (ether 50_000)) (some (pos 18))
          (some "weth") (some "WETH")
    invoke net owner_address weth "approve" spending (pos 0)
    pool_address ←
        create_uniswap_pool_and_add_liquidity now
          (codes "0x1F98431c8aD98523631AE4a59f267346ea31F984")
          (codes "0xC36442b4a4522E871399CD717aBDD847Ab11FE88") token.address weth.address
    pure (record { weth = weth; components = token ∷ []; pool_addresses = pool_address ∷ [] })

  -- `initialize` of both files, over their `initializeStandardComponents`.
  unfoldable pub initialize_live : (Instance → Action LiveComponents) → Action LiveFixture
  initialize_live initialize_standard = do
    controller ← deploy_controller net owner_address owner_address
    issuance_module ← deploy_basic_issuance_module net owner_address controller.address
    standard ← initialize_standard issuance_module
    factory ← deploy_set_token_creator net owner_address controller.address
    uniswap_price_adapter ←
        deploy net owner_address "UniswapV3PairPriceAdapter" []
          (addresses standard.pool_addresses ∷ [])
    price_oracle ←
        deploy_price_oracle net owner_address controller.address standard.weth.address
          (uniswap_price_adapter.address ∷ []) [] [] []
    integration_registry ← deploy_integration_registry net owner_address controller.address
    set_valuer ← deploy_set_valuer net owner_address controller.address
    nav_issuance_module ←
        deploy_custom_oracle_nav_issuance_module net owner_address controller.address
          standard.weth.address
    invoke net owner_address standard.weth "approve"
        (address nav_issuance_module.address ∷ number (pos (2 ^ 256 - 1)) ∷ []) (pos 0)
    invoke net owner_address controller "initialize"
        (addresses (factory.address ∷ [])
          ∷ addresses (issuance_module.address ∷ nav_issuance_module.address ∷ [])
          ∷ addresses
              (integration_registry.address ∷ price_oracle.address ∷ set_valuer.address ∷ [])
          ∷ numbers (pos 0 ∷ pos 1 ∷ pos 2 ∷ [])
          ∷ [])
        (pos 0)
    pure (record {
      controller = controller;
      issuance_module = issuance_module;
      standard = standard;
      factory = factory;
      uniswap_price_adapter = uniswap_price_adapter;
      price_oracle = price_oracle;
      integration_registry = integration_registry;
      set_valuer = set_valuer;
      nav_issuance_module = nav_issuance_module;
    })
