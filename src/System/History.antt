-- ===== src/System/History.antt =====
-- What a run of the fixture leaves on the chain: which contract stands at which nonce of the owner,
-- and the transactions in their order.
use set_protocol_v.Base.{String, ℕ, ◌≡◌, List, [], ◌∷◌, ◌++◌, some, get_elem?, ok}
use set_protocol_v.Base.Int.{pos}
use set_protocol_v.Units.{ether}
use set_protocol_v.Contracts.{Address}
use set_protocol_v.Deploy.Chain.{
  Network, Instance, World, Action, Transaction, creation, call, address, addresses, number,
  numbers, text, ◌>>=◌,
}
use set_protocol_v.Deploy.Accepted.{later, AcceptsAll, deploy-then, invoke-then}
use set_protocol_v.Deploy.Core.{
  deploy_controller, deploy_set_token_creator, deploy_price_oracle, deploy_integration_registry,
  deploy_set_valuer,
}
use set_protocol_v.Deploy.Modules.{
  deploy_basic_issuance_module, deploy_streaming_fee_module,
  deploy_custom_oracle_nav_issuance_module,
}
use set_protocol_v.Deploy.External.Lending.{deploy_weth}
use set_protocol_v.Deploy.Mocks.Integration.{deploy_token_mock}
use set_protocol_v.Deploy.Mocks.Protocol.{deploy_oracle_mock}
use set_protocol_v.System.Fixture.{
  Components, SystemFixture, initialize, initialize_with, initialize_standard_components,
}

module _ (net : Network) (owner : Address) (fee_recipient : Address) (n : ℕ) where
  -- The contract at an offset from the first nonce of the run.
  abbrev pub placed : String → ℕ → Instance
  placed contract offset = record {
    contract = contract;
    address = net.create_address owner (later offset n);
  }

  abbrev pub placed_components : Components
  placed_components = record {
    weth = placed "WETH9" 2;
    usdc = placed "StandardTokenMock" 3;
    wbtc = placed "StandardTokenMock" 4;
    dai = placed "StandardTokenMock" 5;
    eth_usd_oracle = placed "OracleMock" 6;
    usd_usd_oracle = placed "OracleMock" 7;
    btc_usd_oracle = placed "OracleMock" 8;
    dai_usd_oracle = placed "OracleMock" 9;
  }

  abbrev pub placed_fixture : SystemFixture
  placed_fixture = record {
    fee_recipient = fee_recipient;
    controller = placed "Controller" 0;
    issuance_module = placed "BasicIssuanceModule" 1;
    components = placed_components;
    factory = placed "SetTokenCreator" 15;
    price_oracle = placed "PriceOracle" 16;
    integration_registry = placed "IntegrationRegistry" 17;
    set_valuer = placed "SetValuer" 18;
    streaming_fee_module = placed "StreamingFeeModule" 19;
    nav_issuance_module = placed "CustomOracleNavIssuanceModule" 20;
  }

  -- The transactions of `initializeStandardComponents`, the last one first.
  abbrev pub component_transactions : List Transaction
  component_transactions =
      let at : ℕ → Address = λ k. net.create_address owner (later k n) in
      let approval : ℕ → Transaction =
        λ k. call (at k) "approve" (address (at 1) ∷ number (ether 10_000) ∷ []) (pos 0) in
      let token : ℕ → ℕ → Transaction = λ supply decimals. creation "StandardTokenMock" [] (
        address owner
        ∷ number (ether supply)
        ∷ text "Token"
        ∷ text "Symbol"
        ∷ number (pos decimals)
        ∷ []) in
      let oracle : ℕ → Transaction =
        λ price. creation "OracleMock" [] (number (ether price) ∷ []) in
      approval 5
      ∷ approval 4
      ∷ approval 3
      ∷ approval 2
      ∷ call (at 2) "deposit" [] (ether 5_000)
      ∷ oracle 1
      ∷ oracle 9_000
      ∷ oracle 1
      ∷ oracle 230
      ∷ token 1_000_000 18
      ∷ token 10_000 8
      ∷ token 10_000 6
      ∷ creation "WETH9" [] []
      ∷ []

  -- The last transaction, which hands the contracts over to the controller.
  abbrev pub handover : Transaction
  handover =
      let at : ℕ → Address = λ k. net.create_address owner (later k n) in
      call (at 0) "initialize"
        (addresses (at 15 ∷ [])
          ∷ addresses (at 1 ∷ at 19 ∷ at 20 ∷ [])
          ∷ addresses (at 17 ∷ at 16 ∷ at 18 ∷ [])
          ∷ numbers (pos 0 ∷ pos 1 ∷ pos 2 ∷ [])
          ∷ [])
        (pos 0)

  -- The transactions before it, the last one first.
  abbrev pub deployments : List Transaction
  deployments =
      let at : ℕ → Address = λ k. net.create_address owner (later k n) in
      let of_controller : String → Transaction =
        λ contract. creation contract [] (address (at 0) ∷ []) in
      creation "CustomOracleNavIssuanceModule" [] (address (at 0) ∷ address (at 2) ∷ [])
        ∷ of_controller "StreamingFeeModule"
        ∷ of_controller "SetValuer"
        ∷ of_controller "IntegrationRegistry"
        ∷ creation "PriceOracle" [] (
            address (at 0)
            ∷ address (at 3)
            ∷ addresses []
            ∷ addresses (at 2 ∷ at 3 ∷ at 4 ∷ at 5 ∷ [])
            ∷ addresses (at 3 ∷ at 3 ∷ at 3 ∷ at 3 ∷ [])
            ∷ addresses (at 6 ∷ at 7 ∷ at 8 ∷ at 9 ∷ [])
            ∷ [])
        ∷ of_controller "SetTokenCreator"
        ∷ component_transactions
      ++ of_controller "BasicIssuanceModule"
        ∷ creation "Controller" [] (address fee_recipient ∷ [])
        ∷ []

module _ (net : Network) (all : AcceptsAll net) (owner : Address) where
  components_lem :
      (fee_recipient : Address) (n : ℕ) (log : List Transaction)
      → initialize_standard_components net owner
          (placed net owner fee_recipient n "BasicIssuanceModule" 1)
          (record { nonce = later 2 n; log = log })
        ≡ ok (
          placed_components net owner fee_recipient n,
          record {
            nonce = later 15 n;
            log = component_transactions net owner fee_recipient n ++ log;
          },
        )
  unfolding initialize_standard_components deploy_weth deploy_token_mock deploy_oracle_mock
  components_lem fee_recipient n log = simp (deploy-then net all, invoke-then net all)

  components-then :
      {B : Type 0} (fee_recipient : Address) (n : ℕ) (log : List Transaction)
      (rest : Components → Action B)
      → (initialize_standard_components net owner
              (placed net owner fee_recipient n "BasicIssuanceModule" 1)
            >>= rest)
          (record { nonce = later 2 n; log = log })
        ≡ rest (placed_components net owner fee_recipient n) (record {
          nonce = later 15 n;
          log = component_transactions net owner fee_recipient n ++ log;
        })
  components-then fee_recipient n log rest = rw (◌>>=◌, components_lem fee_recipient n log)

  initialize_with_lem :
      (fee_recipient : Address) (w : World)
      → initialize_with net owner fee_recipient w
        ≡ ok (
          placed_fixture net owner fee_recipient w.nonce,
          record {
            nonce = later 22 w.nonce;
            log =
                handover net owner fee_recipient w.nonce
                  ∷ deployments net owner fee_recipient w.nonce
                ++ w.log;
          },
        )
  unfolding initialize_with deploy_controller deploy_set_token_creator deploy_price_oracle
      deploy_integration_registry deploy_set_valuer deploy_basic_issuance_module
      deploy_streaming_fee_module deploy_custom_oracle_nav_issuance_module
  initialize_with_lem fee_recipient w =
      simp (deploy-then net all, invoke-then net all, components-then fee_recipient)

  -- If every transaction goes through, and there is a fourth account, `initialize` returns the
  -- fixture whose contracts are the listed ones, each at the address of the listed nonce after the
  -- owner's, and it has sent exactly the listed transactions in their order, the call of the
  -- controller's `initialize` last.
  pub initialize_history :
      (accounts : List Address) (fee_recipient : Address) (w : World)
      → get_elem? accounts 3 ≡ some fee_recipient
      → initialize net owner accounts w
        ≡ ok (
          placed_fixture net owner fee_recipient w.nonce,
          record {
            nonce = later 22 w.nonce;
            log =
                handover net owner fee_recipient w.nonce
                  ∷ deployments net owner fee_recipient w.nonce
                ++ w.log;
          },
        )
  unfolding initialize
  initialize_history accounts fee_recipient w fourth =
      rw (initialize, fourth, initialize_with_lem fee_recipient w)
