-- ===== src/Fixtures/Tests.antt =====
-- The theorems on the fixtures, applied on a network that accepts what it likes.
use set_protocol_v.Base.{
  ℕ, true, refl, ◌^◌, ◌-◌, ltb, ◌≡◌, ◌⊎◌, [], ◌∷◌, ◌++◌, none, some, ok, err, reverted,
}
use set_protocol_v.Base.Int.{pos}
use set_protocol_v.Js.{str_lt, to_lower_case}
use set_protocol_v.Contracts.{Address}
use set_protocol_v.Deploy.Chain.{
  Network, Instance, World, Action, invoke, creation, address, number, text,
}
use set_protocol_v.Fixtures.Compound.{CompoundFixture, create_and_enable_c_token}
use set_protocol_v.Fixtures.Compound.Markets.{
  market_log, c_token_at, create_and_enable_c_token_cases,
}
use set_protocol_v.Fixtures.UniswapV3.{UniswapV3Contracts, fee_3000, add_liquidity_wide}
use set_protocol_v.PerpSystem.Ticks.{get_min_tick, get_max_tick}
use set_protocol_v.Fixtures.UniswapV3.Liquidity.{add_liquidity_wide_swap}

-- It accepts nine transactions.
abbrev network : Network
network = record {
  create_address = λ owner n. n ∷ [];
  accepts = λ w t. ltb w.nonce 9;
  view = λ w target method arguments. ok [];
  view_number = λ w target method arguments. ok 18;
  view_three = λ w target method arguments. ok ([], [], []);
}

abbrev start : World
start = record { nonce = 4; log = [] }

abbrev owner : Address
owner = b'o' ∷ []

abbrev contract_at : ℕ → Instance
contract_at n = record { contract = "Contract"; address = n ∷ [] }

abbrev compound : CompoundFixture
compound = record {
  price_oracle = contract_at 20;
  price_oracle_proxy = contract_at 21;
  unitroller = contract_at 22;
  comptroller = contract_at 23;
  interest_rate_model = contract_at 24;
  comp = contract_at 25;
  compound_timelock = contract_at 26;
  compound_governor_alpha = contract_at 27;
}

abbrev v3 : UniswapV3Contracts
v3 = record {
  factory = contract_at 30;
  swap_router = contract_at 31;
  nft_position_manager = contract_at 32;
  nft_descriptor = contract_at 33;
  quoter = contract_at 34;
}

create_and_enable_c_token_cases_example :
    (create_and_enable_c_token network owner compound
        (50 ∷ [])
        (pos 2)
        none
        none
        (some "Dai")
        none
        none
        (pos 7)
        (pos 1)
        start
      ≡ err reverted)
    ⊎ (create_and_enable_c_token network owner compound
          (50 ∷ [])
          (pos 2)
          none
          none
          (some "Dai")
          none
          none
          (pos 7)
          (pos 1)
          start
        ≡ ok (
          c_token_at network owner start,
          record {
            nonce = 8;
            log =
                market_log network owner compound (4 ∷ []) (pos 7) (pos 1)
                ++ creation "CERc20" [] (
                    address (50 ∷ [])
                    ∷ address (22 ∷ [])
                    ∷ address (24 ∷ [])
                    ∷ number (pos 2)
                    ∷ text "Dai"
                    ∷ text "CT"
                    ∷ number (pos 8)
                    ∷ [])
                  ∷ [];
          },
        ))
create_and_enable_c_token_cases_example =
    create_and_enable_c_token_cases network owner compound (50 ∷ []) (pos 2) none none (some "Dai")
      none none (pos 7) (pos 1) start

seventy_below :
    str_lt (to_lower_case (contract_at 70).address) (to_lower_case (contract_at 71).address) ≡ true
unfolding to_lower_case str_lt
seventy_below = refl

abbrev mint : Action (Unit {0})
mint =
    invoke network owner v3.nft_position_manager "mint"
      (number (pos 3000)
        ∷ address (contract_at 70).address
        ∷ address (contract_at 71).address
        ∷ number (get_min_tick 60)
        ∷ number (get_max_tick 60)
        ∷ number (pos 5)
        ∷ number (pos 6)
        ∷ number (pos 0)
        ∷ number (pos 0)
        ∷ number (pos (2 ^ 256 - 1))
        ∷ address owner
        ∷ [])
      (pos 0)

add_liquidity_wide_swap_example :
    (add_liquidity_wide network owner v3
        (contract_at 70)
        (contract_at 71)
        fee_3000
        (pos 5)
        (pos 6)
        owner
      ≡ mint)
    × (add_liquidity_wide network owner v3
          (contract_at 71)
          (contract_at 70)
          fee_3000
          (pos 6)
          (pos 5)
          owner
        ≡ mint)
add_liquidity_wide_swap_example =
    add_liquidity_wide_swap network owner v3 (contract_at 70) (contract_at 71) fee_3000 (pos 5)
      (pos 6) owner seventy_below
