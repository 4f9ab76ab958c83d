-- ===== src/System/Tests.antt =====
-- Runs of the fixture on a concrete network.
use set_protocol_v.Base.{ℕ, ◌≡◌, ◌≢◌, refl, true, false, List, [], ◌∷◌, ◌++◌, some, ok}
use set_protocol_v.Contracts.{Address}
use set_protocol_v.Deploy.Chain.{Network, World, Transaction}
use set_protocol_v.System.Controller.{Controller}
use set_protocol_v.System.Fixture.{SystemFixture, initialize}
use set_protocol_v.Deploy.Accepted.{AcceptsAll}
use set_protocol_v.System.History.{placed_fixture, handover, deployments, initialize_history}
use set_protocol_v.System.Handover.{
  IsFresh, IsHandedOver, run_initialize, target_of, initialize_registers,
}
use set_protocol_v.System.Distinct.{IsDistinct, contracts_of, initialize-IsDistinct}
use set_protocol_v.Base.{map, take, none}
use set_protocol_v.Base.Int.{pos}
use set_protocol_v.Protocol.{Position}
use set_protocol_v.Deploy.Chain.{Instance, attach}
use set_protocol_v.System.Live.{
  LiveComponents, LiveFixture, component_data, live_components, initialize_live,
}
use set_protocol_v.System.Live.Handover.{
  IsLiveHandedOver, created, before_components, initialize_live_registers,
}
use set_protocol_v.System.Live.Pools.{live_weth, allowed, all_allowed, live_components_pools}
use set_protocol_v.System.Sets.{
  approve_and_issue_set_token, after_approvals, issue, approve_and_issue_history,
}

-- The contract at a nonce has that nonce as its address; the zero address is empty.
abbrev hardhat : Network
hardhat = record {
  create_address = λ owner n. n ∷ [];
  accepts = λ w t. true;
  view = λ w target method arguments. ok [];
  view_number = λ w target method arguments. ok 6;
  view_three = λ w target method arguments. ok ([], [], []);
}

abbrev owner : Address
owner = b'o' ∷ []

abbrev recipient : Address
recipient = b'r' ∷ []

abbrev accounts : List Address
accounts = owner ∷ [] ∷ [] ∷ recipient ∷ []

abbrev start : World
start = record { nonce = 7; log = [] }

abbrev storage : Controller
storage = record {
  owner = owner;
  sets = [];
  factories = [];
  modules = [];
  resources = [];
  is_set = λ a. false;
  is_factory = λ a. false;
  is_module = λ a. false;
  is_resource = λ a. false;
  fees = λ a t. 0;
  resource_id = λ i. [];
  fee_recipient = recipient;
  is_initialized = false;
}

storage-IsFresh : IsFresh [] owner storage
storage-IsFresh = record {
  same_owner = refl;
  not_initialized = refl;
  no_factory = λ a. refl;
  no_module = λ a. refl;
  no_resource = λ a. refl;
  no_id = λ i. refl;
}

hardhat-AcceptsAll : AcceptsAll hardhat
hardhat-AcceptsAll w t = refl

hardhat_nonzero : (k : ℕ) → hardhat.create_address owner k ≢ []
hardhat_nonzero k same = cc

hardhat_injective :
    (j k : ℕ) → hardhat.create_address owner j ≡ hardhat.create_address owner k → j ≡ k
hardhat_injective j k same = cc

initialize_history_example :
    initialize hardhat owner accounts start
    ≡ ok (
      placed_fixture hardhat owner recipient 7,
      record {
        nonce = 29;
        log = handover hardhat owner recipient 7 ∷ deployments hardhat owner recipient 7 ++ [];
      },
    )
initialize_history_example =
    initialize_history hardhat hardhat-AcceptsAll owner accounts recipient start refl

initialize_registers_example :
    (f : SystemFixture) × (end : World) × (last : Transaction) × (before : List Transaction)
    × (after : Controller) × (initialize hardhat owner accounts start ≡ ok (f, end))
    × (end.log ≡ last ∷ before)
    × (target_of last ≡ some f.controller.address)
    × (run_initialize [] owner last storage ≡ ok after)
    × IsHandedOver [] storage f after
initialize_registers_example =
    initialize_registers hardhat owner [] hardhat_nonzero hardhat-AcceptsAll accounts recipient
      start storage refl storage-IsFresh

initialize-IsDistinct_example :
    (f : SystemFixture) × (end : World) × (initialize hardhat owner accounts start ≡ ok (f, end))
    × IsDistinct (contracts_of f)
initialize-IsDistinct_example =
    initialize-IsDistinct hardhat owner hardhat_injective hardhat-AcceptsAll accounts recipient
      start refl

abbrev hardhat_standard : LiveComponents × World
hardhat_standard = (
  record {
    weth = live_weth;
    components = map (λ d. attach "ERC20" d.0) component_data;
    pool_addresses = map (λ d. []) (take 10 component_data);
  },
  all_allowed hardhat hardhat-AcceptsAll owner (8 ∷ []) (take 10 component_data) (
      allowed hardhat hardhat-AcceptsAll owner (8 ∷ []) live_weth.address
        (before_components hardhat owner start)),
)

live_components_pools_example :
    live_components hardhat owner
      (created hardhat owner "BasicIssuanceModule" 8)
      (before_components hardhat owner start)
    ≡ ok hardhat_standard
live_components_pools_example =
    live_components_pools hardhat hardhat-AcceptsAll owner (λ token fee. [])
      (created hardhat owner "BasicIssuanceModule" 8) (before_components hardhat owner start)
      (λ w token fee. refl)

standard_again :
    live_components hardhat owner
      (created hardhat owner "BasicIssuanceModule" 8)
      (before_components hardhat owner start)
    ≡ ok hardhat_standard
standard_again =
    live_components_pools hardhat hardhat-AcceptsAll owner (λ token fee. [])
      (created hardhat owner "BasicIssuanceModule" 8) (before_components hardhat owner start)
      (λ w token fee. refl)

initialize_live_registers_example :
    (f : LiveFixture) × (end : World) × (last : Transaction) × (before : List Transaction)
    × (registered : Controller) × (initialize_live hardhat owner
          (live_components hardhat owner)
          start
        ≡ ok (f, end))
    × (end.log ≡ last ∷ before)
    × (target_of last ≡ some f.controller.address)
    × (run_initialize [] owner last storage ≡ ok registered)
    × IsLiveHandedOver [] storage f registered
initialize_live_registers_example =
    initialize_live_registers hardhat owner [] hardhat_nonzero hardhat-AcceptsAll
      (live_components hardhat owner) hardhat_standard.0 start hardhat_standard.1 storage
      standard_again storage-IsFresh

abbrev kept_position : Position
kept_position = record {
  component = 40 ∷ [];
  position_module = [];
  unit = pos 3;
  position_state = 0;
  data_bytes = [];
}

abbrev hardhat_fixture : SystemFixture
hardhat_fixture = placed_fixture hardhat owner recipient 7

abbrev set_token : Instance
set_token = record { contract = "SetToken"; address = 60 ∷ [] }

approve_and_issue_history_example :
    approve_and_issue_set_token hardhat owner
      (λ w a. ok (kept_position ∷ kept_position ∷ []))
      hardhat_fixture
      set_token
      (pos 5)
      none
      start
    ≡ ok (
      tt,
      record {
        nonce = 10;
        log =
            issue hardhat owner hardhat_fixture set_token (pos 5) none
            ∷ (after_approvals hardhat owner hardhat_fixture.issuance_module.address
                (kept_position ∷ kept_position ∷ [])
                start).log;
      },
    )
approve_and_issue_history_example =
    approve_and_issue_history hardhat owner hardhat-AcceptsAll
      (λ w a. ok (kept_position ∷ kept_position ∷ [])) hardhat_fixture set_token (pos 5) none
      (kept_position ∷ kept_position ∷ []) start refl
