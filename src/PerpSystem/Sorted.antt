-- ===== src/PerpSystem/Sorted.antt =====
-- utils/fixtures/perpV2Fixture.ts: the tokens that are chosen stand in the order that the pools want.
use set_protocol_v.Base.{
  ℕ, zero, suc, String, ◌<◌, ◌≡◌, ◌≢◌, refl, ◌∙◌, true, false, Bool-cases, inl, inr, List, [], ◌∷◌,
  ◌++◌, some, ok, arith,
}
use set_protocol_v.Base.Int.{pos}
use set_protocol_v.Js.{str_lt, to_lower_case}
use set_protocol_v.Js.Order.{str_lt_total}
use set_protocol_v.Contracts.{Address}
use set_protocol_v.TokenOrder.{is_ascending_token_order}
use set_protocol_v.Deploy.Chain.{
  Network, Instance, World, Action, Transaction, creation, call, address, number, text, ◌>>=◌,
}
use set_protocol_v.Deploy.Accepted.{later, AcceptsAll, deploy-then, invoke-then}
use set_protocol_v.Deploy.Mocks.Integration.{deploy_chainlink_aggregator_mock}
use set_protocol_v.Deploy.External.Exchange.{
  deploy_perp_v2_base_token, deploy_perp_v2_chainlink_price_feed,
}
use set_protocol_v.PerpSystem.Tokens.{
  BaseTokenFixture, TokensFixture, create_base_token_fixture, order_tokens, tokens_fixture,
  token_zero_fixture, choose_tokens,
}

-- The nonce at which an attempt of `_token0Fixture` begins.
abbrev pub attempt : ℕ → ℕ → ℕ
attempt zero n = n
attempt (suc k) n = attempt k (later 5 n)

module _ (net : Network) (owner : Address) where
  -- The base token and the aggregator that are deployed from a nonce on.
  abbrev pub base_at : ℕ → BaseTokenFixture
  base_at n = record {
    base_token = record {
      contract = "PerpV2BaseToken";
      address = net.create_address owner (later 3 n);
    };
    mock_aggregator = record {
      contract = "ChainlinkAggregatorMock";
      address = net.create_address owner n;
    };
  }

  abbrev base_log : String → String → ℕ → List Transaction
  base_log name symbol n =
      let at : ℕ → Address = λ k. net.create_address owner (later k n) in
      call (at 3) "initialize" (text name ∷ text symbol ∷ address (at 1) ∷ []) (pos 0)
      ∷ creation "PerpV2BaseToken" [] []
      ∷ call (at 1) "initialize" (address (at 0) ∷ []) (pos 0)
      ∷ creation "PerpV2ChainlinkPriceFeed" [] []
      ∷ creation "ChainlinkAggregatorMock" [] (number (pos 6) ∷ [])
      ∷ []

  -- `_isAscendingTokenOrder` holds of the two.
  abbrev pub IsAscending : Instance → Instance → Type 0
  IsAscending a b = is_ascending_token_order a.address b.address ≡ true

  -- The two tokens of `_tokensFixture`, in their order.
  abbrev pub ordered_at : ℕ → TokensFixture
  ordered_at n = order_tokens (base_at n) (base_at (later 5 n))

module _ (net : Network) (all : AcceptsAll net) (owner : Address) where
  base_lem :
      (name symbol : String) (w : World)
      → create_base_token_fixture net owner name symbol w
        ≡ ok (
          base_at net owner w.nonce,
          record { nonce = later 5 w.nonce; log = base_log net owner name symbol w.nonce ++ w.log },
        )
  unfolding create_base_token_fixture deploy_chainlink_aggregator_mock deploy_perp_v2_base_token
      deploy_perp_v2_chainlink_price_feed
  base_lem name symbol w = simp (deploy-then net all, invoke-then net all)

  base-then :
      {B : Type 0} (name symbol : String) (w : World) (rest : BaseTokenFixture → Action B)
      → (create_base_token_fixture net owner name symbol >>= rest) w
        ≡ rest (base_at net owner w.nonce) (record {
          nonce = later 5 w.nonce;
          log = base_log net owner name symbol w.nonce ++ w.log;
        })
  base-then name symbol w rest = rw (◌>>=◌, base_lem name symbol w)

  abbrev after_base : String → String → World → World
  after_base name symbol w = record {
    nonce = later 5 w.nonce;
    log = base_log net owner name symbol w.nonce ++ w.log;
  }

  abbrev after_attempt : World → World
  after_attempt = after_base "RandomTestToken0" "randomToken0"

  attempt_found :
      (fuel : ℕ) (one : Address) (w : World)
      → is_ascending_token_order (base_at net owner w.nonce).base_token.address one ≡ true
      → token_zero_fixture net owner (suc fuel) one w
        ≡ ok (some (base_at net owner w.nonce), after_attempt w)
  unfolding token_zero_fixture
  attempt_found fuel one w now = base-then "RandomTestToken0" "randomToken0" w _ ∙ rw now refl

  attempt_failed :
      (fuel : ℕ) (one : Address) (w : World)
      → is_ascending_token_order (base_at net owner w.nonce).base_token.address one ≡ false
      → token_zero_fixture net owner (suc fuel) one w
        ≡ token_zero_fixture net owner fuel one (after_attempt w)
  unfolding token_zero_fixture
  attempt_failed fuel one w again = base-then "RandomTestToken0" "randomToken0" w _ ∙ rw again refl

  -- If every transaction goes through, and one of the attempts that the fuel allows gets an address
  -- before the given one, the loop of `_token0Fixture` ends with such a token.
  pub token_zero_found :
      (fuel k : ℕ) (one : Address) (w : World)
      → k < fuel
      → is_ascending_token_order (base_at net owner (attempt k w.nonce)).base_token.address one
        ≡ true
      → (f : BaseTokenFixture) × (after : World) × (token_zero_fixture net owner fuel one w
          ≡ ok (some f, after))
        × (is_ascending_token_order f.base_token.address one ≡ true)
  token_zero_found zero k one w lt found = absurd (omega arith)
  token_zero_found (suc fuel) zero one w lt found =
      (base_at net owner w.nonce, after_attempt w, attempt_found fuel one w found, found)
  token_zero_found (suc fuel) (suc k) one w lt found =
      elim (Bool-cases
        (is_ascending_token_order (base_at net owner w.nonce).base_token.address one)) [
          | inl now ↦
              (base_at net owner w.nonce, after_attempt w, attempt_found fuel one w now, now)
          | inr again ↦
              let (f, after, runs, ascending) =
                token_zero_found fuel k one (after_attempt w) (omega arith) found in
              (f, after, attempt_failed fuel one w again ∙ runs, ascending)
        ]

  abbrev after_tokens : World → World
  after_tokens w =
      after_base "RandomTestToken1" "randomToken1" (after_base "RandomTestToken0" "randomToken0" w)

  tokens_lem :
      (w : World) → tokens_fixture net owner w ≡ ok (ordered_at net owner w.nonce, after_tokens w)
  unfolding tokens_fixture
  tokens_lem w = simp base-then

  ordered_ascending :
      (a b : BaseTokenFixture)
      → to_lower_case a.base_token.address ≢ to_lower_case b.base_token.address
      → is_ascending_token_order
          (order_tokens a b).token_zero.address
          (order_tokens a b).token_one.address
        ≡ true
  unfolding order_tokens is_ascending_token_order
  ordered_ascending a b different =
      elim (Bool-cases
        (str_lt (to_lower_case a.base_token.address) (to_lower_case b.base_token.address))) [
          | inl ab ↦ rw ab ab
          | inr ab ↦
              elim (Bool-cases (
                str_lt (to_lower_case b.base_token.address) (to_lower_case a.base_token.address))) [
                  | inl ba ↦ rw ab ba
                  | inr ba ↦ absurd (different (str_lt_total _ _ ab ba))
                ]
        ]

  -- If every transaction goes through, the first two base tokens differ in lower case, and one of the
  -- attempts that the fuel allows gets an address before that of the larger one: `initialize` has its
  -- tokens, and both base tokens stand before the token that serves as the quote token, as its
  -- pools assume.
  pub choose_tokens_ascending :
      (fuel k : ℕ) (w : World)
      → to_lower_case (base_at net owner w.nonce).base_token.address
        ≢ to_lower_case (base_at net owner (later 5 w.nonce)).base_token.address
      → k < fuel
      → is_ascending_token_order
          (base_at net owner (attempt k (later 10 w.nonce))).base_token.address
          (ordered_at net owner w.nonce).token_one.address
        ≡ true
      → (tokens : TokensFixture) × (second : BaseTokenFixture) × (after : World) × (choose_tokens
            net owner fuel w
          ≡ ok (some (tokens, second), after))
        × (is_ascending_token_order tokens.token_zero.address tokens.token_one.address ≡ true)
        × (is_ascending_token_order second.base_token.address tokens.token_one.address ≡ true)
  unfolding choose_tokens
  choose_tokens_ascending fuel k w different lt found =
      let (f, after, runs, ascending) =
        token_zero_found fuel k (ordered_at net owner w.nonce).token_one.address (after_tokens w) lt
          found in
      (
        ordered_at net owner w.nonce,
        f,
        after,
        rw (◌>>=◌, tokens_lem w, runs),
        ordered_ascending _ _ different,
        ascending,
      )
