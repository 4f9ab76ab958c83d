-- ===== src/System/Fixture.antt =====
-- utils/fixtures/systemFixture.ts: the core system, deployed and handed to its controller.
use set_protocol_v.Base.{String, List, [], ◌∷◌, Option, none, some, get_elem?, err, type_error}
use set_protocol_v.Base.Int.{ℤ, pos}
use set_protocol_v.Units.{ether}
use set_protocol_v.Contracts.{Address}
use set_protocol_v.Deploy.Chain.{
  Network, Instance, Action, address, addresses, number, numbers, pure, ◌>>=◌, ◌>>◌, invoke,
  or_default,
}
use set_protocol_v.Deploy.Core.{
  deploy_controller, deploy_set_token_creator, deploy_price_oracle, deploy_integration_registry,
  deploy_set_valuer, deploy_set_token,
}
use set_protocol_v.Deploy.Modules.{
  deploy_basic_issuance_module, deploy_streaming_fee_module,
  deploy_custom_oracle_nav_issuance_module,
}
use set_protocol_v.Deploy.External.Lending.{deploy_weth}
use set_protocol_v.Deploy.Mocks.Integration.{deploy_token_mock}
use set_protocol_v.Deploy.Mocks.Protocol.{deploy_oracle_mock}

-- The fields that `initializeStandardComponents` sets; the prices are its constants.
pub record Components : Type 0 where
  pub weth : Instance
  pub usdc : Instance
  pub wbtc : Instance
  pub dai : Instance
  pub eth_usd_oracle : Instance
  pub usd_usd_oracle : Instance
  pub btc_usd_oracle : Instance
  pub dai_usd_oracle : Instance

-- The fields that `initialize` sets.
pub record SystemFixture : Type 0 where
  pub fee_recipient : Address
  pub controller : Instance
  pub issuance_module : Instance
  pub components : Components
  pub factory : Instance
  pub price_oracle : Instance
  pub integration_registry : Instance
  pub set_valuer : Instance
  pub streaming_fee_module : Instance
  pub nav_issuance_module : Instance

module _ (net : Network) (owner_address : Address) where
  -- `initializeStandardComponents`, with `this.issuanceModule`, which is set before.
  unfoldable pub initialize_standard_components : Instance → Action Components
  initialize_standard_components issuance_module = do
    weth ← deploy_weth net owner_address
    usdc ←
        deploy_token_mock net owner_address owner_address (some (ether 10_000)) (some (pos 6)) none
          none
    wbtc ←
        deploy_token_mock net owner_address owner_address (some (ether 10_000)) (some (pos 8)) none
          none
    dai ←
        deploy_token_mock net owner_address owner_address (some (ether 1_000_000)) (some (pos 18))
          none none
    eth_usd_oracle ← deploy_oracle_mock net owner_address (ether 230)
    usd_usd_oracle ← deploy_oracle_mock net owner_address (ether 1)
    btc_usd_oracle ← deploy_oracle_mock net owner_address (ether 9_000)
    dai_usd_oracle ← deploy_oracle_mock net owner_address (ether 1)
    invoke net owner_address weth "deposit" [] (ether 5_000)
    let spender = address issuance_module.address ∷ number (ether 10_000) ∷ []
    invoke net owner_address weth "approve" spender (pos 0)
    invoke net owner_address usdc "approve" spender (pos 0)
    invoke net owner_address wbtc "approve" spender (pos 0)
    invoke net owner_address dai "approve" spender (pos 0)
    pure (record {
      weth = weth;
      usdc = usdc;
      wbtc = wbtc;
      dai = dai;
      eth_usd_oracle = eth_usd_oracle;
      usd_usd_oracle = usd_usd_oracle;
      btc_usd_oracle = btc_usd_oracle;
      dai_usd_oracle = dai_usd_oracle;
    })

  -- `initialize` once `listAccounts` has answered with a fourth account.
  unfoldable pub initialize_with : Address → Action SystemFixture
  unfolding initialize_standard_components
  initialize_with fee_recipient = do
    controller ← deploy_controller net owner_address fee_recipient
    issuance_module ← deploy_basic_issuance_module net owner_address controller.address
    components ← initialize_standard_components issuance_module
    factory ← deploy_set_token_creator net owner_address controller.address
    let quote = components.usdc.address
    price_oracle ←
        deploy_price_oracle net owner_address controller.address quote []
          (components.weth.address ∷ components.usdc.address ∷ components.wbtc.address
            ∷ components.dai.address ∷ [])
          (quote ∷ quote ∷ quote ∷ quote ∷ [])
          (components.eth_usd_oracle.address ∷ components.usd_usd_oracle.address
            ∷ components.btc_usd_oracle.address ∷ components.dai_usd_oracle.address ∷ [])
    integration_registry ← deploy_integration_registry net owner_address controller.address
    set_valuer ← deploy_set_valuer net owner_address controller.address
    streaming_fee_module ← deploy_streaming_fee_module net owner_address controller.address
    nav_issuance_module ←
        deploy_custom_oracle_nav_issuance_module net owner_address controller.address
          components.weth.address
    invoke net owner_address controller "initialize"
        (addresses (factory.address ∷ [])
          ∷ addresses (
              issuance_module.address ∷ streaming_fee_module.address ∷ nav_issuance_module.address
              ∷ [])
          ∷ addresses
              (integration_registry.address ∷ price_oracle.address ∷ set_valuer.address ∷ [])
          ∷ numbers (pos 0 ∷ pos 1 ∷ pos 2 ∷ [])
          ∷ [])
        (pos 0)
    pure (record {
      fee_recipient = fee_recipient;
      controller = controller;
      issuance_module = issuance_module;
      components = components;
      factory = factory;
      price_oracle = price_oracle;
      integration_registry = integration_registry;
      set_valuer = set_valuer;
      streaming_fee_module = streaming_fee_module;
      nav_issuance_module = nav_issuance_module;
    })

  -- `initialize`; without a fourth account the deployment of the controller has an argument that
  -- is undefined, which ethers refuses.
  unfoldable pub initialize : List Address → Action SystemFixture
  unfolding initialize_with
  initialize accounts w = elim (get_elem? accounts 3) [
    | none ↦ err type_error
    | some fee_recipient ↦ initialize_with fee_recipient w
  ]

  -- `createNonControllerEnabledSetToken`
  unfoldable create_non_controller_enabled_set_token :
      SystemFixture
      → List Address
      → List ℤ
      → List Address
      → Option Address
      → Option String
      → Option String
      → Action Instance
  create_non_controller_enabled_set_token fixture components units modules manager name symbol =
      deploy_set_token net owner_address components units modules fixture.controller.address
        (or_default manager owner_address) (or_default name "SetToken") (or_default symbol "SET")
