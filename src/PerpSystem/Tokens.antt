-- ===== src/PerpSystem/Tokens.antt =====
-- utils/fixtures/perpV2Fixture.ts: base and quote tokens, deployed until their addresses stand in
-- the order that the pools want.
use set_protocol_v.Base.{ℕ, zero, suc, String, if◌then◌else◌, [], ◌∷◌, Option, none, some}
use set_protocol_v.Base.Int.{pos}
use set_protocol_v.Contracts.{Address}
use set_protocol_v.TokenOrder.{is_ascending_token_order}
use set_protocol_v.Deploy.Chain.{
  Network, Instance, Action, address, text, pure, ◌>>=◌, ◌>>◌, invoke,
}
use set_protocol_v.Deploy.Mocks.Integration.{deploy_chainlink_aggregator_mock}
use set_protocol_v.Deploy.External.Exchange.{
  deploy_perp_v2_quote_token, deploy_perp_v2_base_token, deploy_perp_v2_chainlink_price_feed,
}

pub record BaseTokenFixture : Type 0 where
  pub base_token : Instance
  pub mock_aggregator : Instance

-- The first token and its aggregator; the second token, which serves as the quote token.
pub record TokensFixture : Type 0 where
  pub token_zero : Instance
  pub mock_aggregator_zero : Instance
  pub token_one : Instance
  pub mock_aggregator_one : Instance

-- The end of `_tokensFixture`.
unfoldable pub order_tokens : BaseTokenFixture → BaseTokenFixture → TokensFixture
order_tokens random_zero random_one =
    if is_ascending_token_order random_zero.base_token.address random_one.base_token.address
    then record {
      token_zero = random_zero.base_token;
      mock_aggregator_zero = random_zero.mock_aggregator;
      token_one = random_one.base_token;
      mock_aggregator_one = random_one.mock_aggregator;
    }
    else record {
      token_zero = random_one.base_token;
      mock_aggregator_zero = random_one.mock_aggregator;
      token_one = random_zero.base_token;
      mock_aggregator_one = random_zero.mock_aggregator;
    }

module _ (net : Network) (owner_address : Address) where
  unfoldable create_quote_token_fixture : String → String → Action Instance
  create_quote_token_fixture name symbol = do
    quote_token ← deploy_perp_v2_quote_token net owner_address
    invoke net owner_address quote_token "initialize" (text name ∷ text symbol ∷ []) (pos 0)
    pure quote_token

  unfoldable pub create_base_token_fixture : String → String → Action BaseTokenFixture
  create_base_token_fixture name symbol = do
    mock_aggregator ← deploy_chainlink_aggregator_mock net owner_address (pos 6)
    price_feed ← deploy_perp_v2_chainlink_price_feed net owner_address
    invoke net owner_address price_feed "initialize" (address mock_aggregator.address ∷ []) (pos 0)
    base_token ← deploy_perp_v2_base_token net owner_address
    invoke net owner_address base_token "initialize"
        (text name ∷ text symbol ∷ address price_feed.address ∷ []) (pos 0)
    pure (record { base_token = base_token; mock_aggregator = mock_aggregator })

  unfoldable pub tokens_fixture : Action TokensFixture
  unfolding order_tokens
  tokens_fixture = do
    random_zero ← create_base_token_fixture "RandomTestToken0" "randomToken0"
    random_one ← create_base_token_fixture "RandomTestToken1" "randomToken1"
    pure (order_tokens random_zero random_one)

  -- `_token0Fixture`: another base token until its address is before the other token's. The loop
  -- runs once at least; `none` is fuel that ran out.
  unfoldable pub token_zero_fixture : ℕ → Address → Action (Option BaseTokenFixture)
  token_zero_fixture zero token_one_address = pure none
  token_zero_fixture (suc fuel) token_one_address =
      let again = token_zero_fixture fuel token_one_address in
      create_base_token_fixture "RandomTestToken0" "randomToken0" >>= λ fixture.
      if is_ascending_token_order fixture.base_token.address token_one_address
      then pure (some fixture)
      else again

  -- The tokens of `initialize`: the base token of the first pool with the quote token, and the base
  -- token of the second pool.
  unfoldable pub choose_tokens : ℕ → Action (Option (TokensFixture × BaseTokenFixture))
  choose_tokens fuel = do
    tokens ← tokens_fixture
    second ← token_zero_fixture fuel tokens.token_one.address
    pure (elim second [ none ↦ none | some fixture ↦ some (tokens, fixture) ])
