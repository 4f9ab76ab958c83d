-- ===== src/System/Live/Handover.antt =====
-- The last transaction of utils/fixtures/systemFixtureDeploy.ts (and of the reduced one) run on
-- contracts/protocol/Controller.sol.
use set_protocol_v.Base.{
  ℕ, ◌≤◌, ◌^◌, ◌-◌, ◌∙◌, String, ◌≡◌, ◌≢◌, refl, true, false, List, [], ◌∷◌, ◌++◌, ok, some, arith,
}
use set_protocol_v.Base.Int.{pos}
use set_protocol_v.Js.{str_eq}
use set_protocol_v.Contracts.{Address}
use set_protocol_v.Deploy.Chain.{
  Network, Instance, World, Action, Transaction, creation, call, address, addresses, number,
  numbers, ◌>>=◌,
}
use set_protocol_v.Deploy.Accepted.{AcceptsAll, later, deploy-then, invoke-then}
use set_protocol_v.Deploy.Core.{
  deploy_controller, deploy_set_token_creator, deploy_price_oracle, deploy_integration_registry,
  deploy_set_valuer,
}
use set_protocol_v.Deploy.Modules.{
  deploy_basic_issuance_module, deploy_custom_oracle_nav_issuance_module,
}
use set_protocol_v.System.Controller.{
  Controller, initialize_controller, mark, assign, mark_all, register_resources,
}
use set_protocol_v.System.Controller.Arrays.{contains, str_eq_refl}
use set_protocol_v.System.Handover.{run_initialize, target_of, IsFresh, str_eq-different}
use set_protocol_v.System.Live.{LiveComponents, LiveFixture, initialize_live}

-- What the controller holds after the handover of a fixture, if its storage was `before`.
pub record IsLiveHandedOver (zero_address : Address) (before : Controller) (f : LiveFixture)
    (c : Controller) : Type 0 where
  pub factory_list : c.factories ≡ f.factory.address ∷ []
  pub module_list : c.modules ≡ f.issuance_module.address ∷ f.nav_issuance_module.address ∷ []
  pub resource_list :
      c.resources
      ≡ f.integration_registry.address ∷ f.price_oracle.address ∷ f.set_valuer.address ∷ []
  pub is_initialized : c.is_initialized ≡ true
  pub factory : (a : Address) → c.is_factory a ≡ contains a (f.factory.address ∷ [])
  pub modules :
      (a : Address)
      → c.is_module a ≡ contains a (f.issuance_module.address ∷ f.nav_issuance_module.address ∷ [])
  pub resources :
      (a : Address)
      → c.is_resource a
        ≡ contains a
            (f.integration_registry.address ∷ f.price_oracle.address ∷ f.set_valuer.address ∷ [])
  pub registry_id : c.resource_id 0 ≡ f.integration_registry.address
  pub oracle_id : c.resource_id 1 ≡ f.price_oracle.address
  pub valuer_id : c.resource_id 2 ≡ f.set_valuer.address
  pub other_ids : (i : ℕ) → 3 ≤ i → c.resource_id i ≡ zero_address
  pub same_owner : c.owner ≡ before.owner
  pub same_sets : (c.sets ≡ before.sets) × (c.is_set ≡ before.is_set)
  pub same_fees : (c.fees ≡ before.fees) × (c.fee_recipient ≡ before.fee_recipient)

-- The call of the controller with the contracts of a fixture.
abbrev live_handover : LiveFixture → Transaction
live_handover f =
    call f.controller.address "initialize"
      (addresses (f.factory.address ∷ [])
        ∷ addresses (f.issuance_module.address ∷ f.nav_issuance_module.address ∷ [])
        ∷ addresses
            (f.integration_registry.address ∷ f.price_oracle.address ∷ f.set_valuer.address ∷ [])
        ∷ numbers (pos 0 ∷ pos 1 ∷ pos 2 ∷ [])
        ∷ [])
      (pos 0)

module _ (net : Network) (owner : Address) where
  abbrev pub created : String → ℕ → Instance
  created contract n = record { contract = contract; address = net.create_address owner n }

  -- The fixture whose contracts are created from nonce `n` on, and from `m` on after the components.
  abbrev placed_live : ℕ → ℕ → LiveComponents → LiveFixture
  placed_live n m standard = record {
    controller = created "Controller" n;
    issuance_module = created "BasicIssuanceModule" (later 1 n);
    standard = standard;
    factory = created "SetTokenCreator" m;
    uniswap_price_adapter = created "UniswapV3PairPriceAdapter" (later 1 m);
    price_oracle = created "PriceOracle" (later 2 m);
    integration_registry = created "IntegrationRegistry" (later 3 m);
    set_valuer = created "SetValuer" (later 4 m);
    nav_issuance_module = created "CustomOracleNavIssuanceModule" (later 5 m);
  }

  -- The world after the controller and the issuance module.
  abbrev pub before_components : World → World
  before_components w = record {
    nonce = later 2 w.nonce;
    log =
        creation "BasicIssuanceModule" [] (address (net.create_address owner w.nonce) ∷ [])
        ∷ creation "Controller" [] (address owner ∷ [])
        ∷ w.log;
  }

  -- What is sent after the components and before the handover, the last one first.
  abbrev after_components : LiveFixture → List Transaction
  after_components f =
      let controller = address f.controller.address in
      call f.standard.weth.address "approve"
        (address f.nav_issuance_module.address ∷ number (pos (2 ^ 256 - 1)) ∷ []) (pos 0)
      ∷ creation "CustomOracleNavIssuanceModule" []
          (controller ∷ address f.standard.weth.address ∷ [])
      ∷ creation "SetValuer" [] (controller ∷ [])
      ∷ creation "IntegrationRegistry" [] (controller ∷ [])
      ∷ creation "PriceOracle" [] (
          controller
          ∷ address f.standard.weth.address
          ∷ addresses (f.uniswap_price_adapter.address ∷ [])
          ∷ addresses []
          ∷ addresses []
          ∷ addresses []
          ∷ [])
      ∷ creation "UniswapV3PairPriceAdapter" [] (addresses f.standard.pool_addresses ∷ [])
      ∷ creation "SetTokenCreator" [] (controller ∷ [])
      ∷ []

  initialize_live_lem :
      AcceptsAll net
      → (initialize_standard : Instance → Action LiveComponents) (standard : LiveComponents)
        (w after : World)
      → initialize_standard (created "BasicIssuanceModule" (later 1 w.nonce)) (before_components w)
        ≡ ok (standard, after)
      → let f = placed_live w.nonce after.nonce standard in
        initialize_live net owner initialize_standard w
        ≡ ok (
          f,
          record {
            nonce = later 8 after.nonce;
            log = live_handover f ∷ after_components f ++ after.log;
          },
        )
  unfolding initialize_live deploy_controller deploy_basic_issuance_module deploy_set_token_creator
      deploy_price_oracle deploy_integration_registry deploy_set_valuer
      deploy_custom_oracle_nav_issuance_module
  initialize_live_lem all initialize_standard standard w after runs =
      deploy-then net all owner _ _ _ w _
      ∙ deploy-then net all owner _ _ _ _ _
      ∙ rw (◌>>=◌, runs) (simp (deploy-then net all owner, invoke-then net all owner))

module _ (net : Network) (owner zero_address : Address)
    (nonzero : (k : ℕ) → net.create_address owner k ≢ zero_address) where
  not_zero : (k : ℕ) → str_eq (net.create_address owner k) zero_address ≡ false
  not_zero k = str_eq-different _ _ (nonzero k)

  -- The storage that the three loops write.
  abbrev live_storage : LiveFixture → Controller → Controller
  live_storage f c =
      let registry = f.integration_registry.address in
      let oracle = f.price_oracle.address in
      let valuer = f.set_valuer.address in
      record c {
        factories = f.factory.address ∷ [];
        modules = f.issuance_module.address ∷ f.nav_issuance_module.address ∷ [];
        resources = registry ∷ oracle ∷ valuer ∷ [];
        is_factory = mark c.is_factory f.factory.address;
        is_module = mark (mark c.is_module f.issuance_module.address) f.nav_issuance_module.address;
        is_resource = mark (mark (mark c.is_resource registry) oracle) valuer;
        resource_id = assign (assign (assign c.resource_id 0 registry) 1 oracle) 2 valuer;
        is_initialized = true;
      }

  live_storage-IsLiveHandedOver :
      (f : LiveFixture) (c : Controller)
      → IsFresh zero_address owner c
      → IsLiveHandedOver zero_address c f (live_storage f c)
  live_storage-IsLiveHandedOver f c fresh = record {
    factory_list = refl;
    module_list = refl;
    resource_list = refl;
    is_initialized = refl;
    factory = λ a. grind (arith, fresh.no_factory a);
    modules = λ a. grind (arith, fresh.no_module a);
    resources = λ a. grind (arith, fresh.no_resource a);
    registry_id = refl;
    oracle_id = refl;
    valuer_id = refl;
    other_ids = λ i h. grind (arith, fresh.no_id i);
    same_owner = refl;
    same_sets = (refl, refl);
    same_fees = (refl, refl);
  }

  live_handover_runs :
      (n m : ℕ) (standard : LiveComponents) (c : Controller)
      → IsFresh zero_address owner c
      → run_initialize zero_address owner (live_handover (placed_live net owner n m standard)) c
        ≡ ok (live_storage (placed_live net owner n m standard) c)
  unfolding initialize_controller mark_all register_resources
  live_handover_runs n m standard c fresh =
      simp (fresh.same_owner, str_eq_refl, fresh.not_initialized, not_zero, fresh.no_id)

  -- If every transaction goes through, no creation gets the zero address, the storage of the
  -- controller is fresh and owned by the signer, and `initializeStandardComponents` returns, whatever
  -- it does: `initialize` of the deployment scripts returns a fixture, and its last transaction is
  -- a call of `initialize` of the fixture's controller. On that storage the call succeeds: the lists
  -- and the mappings hold the fixture's factory, its two modules and its three resources and no
  -- other address, the ids 0, 1 and 2 are those of the resources and every other id stands for none,
  -- and owner, SetTokens, fees and fee recipient are as before.
  pub initialize_live_registers :
      AcceptsAll net
      → (initialize_standard : Instance → Action LiveComponents) (standard : LiveComponents)
        (w after : World) (c : Controller)
      → initialize_standard
          (created net owner "BasicIssuanceModule" (later 1 w.nonce))
          (before_components net owner w)
        ≡ ok (standard, after)
      → IsFresh zero_address owner c
      → (f : LiveFixture) × (end : World) × (last : Transaction) × (before : List Transaction)
        × (registered : Controller) × (initialize_live net owner initialize_standard w
            ≡ ok (f, end))
        × (end.log ≡ last ∷ before)
        × (target_of last ≡ some f.controller.address)
        × (run_initialize zero_address owner last c ≡ ok registered)
        × IsLiveHandedOver zero_address c f registered
  initialize_live_registers all initialize_standard standard w after c runs fresh = (
    _,
    _,
    _,
    _,
    _,
    initialize_live_lem net owner all initialize_standard standard w after runs,
    refl,
    refl,
    live_handover_runs w.nonce after.nonce standard c fresh,
    live_storage-IsLiveHandedOver (placed_live net owner w.nonce after.nonce standard) c fresh,
  )
