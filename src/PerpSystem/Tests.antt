-- ===== src/PerpSystem/Tests.antt =====
-- Runs on a network whose addresses scatter, and the theorems applied to it.
use set_protocol_v.Base.{◌*◌, ◌%◌, ◌≡◌, ◌≢◌, refl, true, [], ◌∷◌, some, ok, arith}
use set_protocol_v.Base.Int.{pos, nat_abs, neg_of, ◌≤ℤ◌, ◌<ℤ◌, ◌+ℤ◌, ◌-ℤ◌}
use set_protocol_v.Js.{str_lt, to_lower_case}
use set_protocol_v.Contracts.{Address}
use set_protocol_v.TokenOrder.{is_ascending_token_order}
use set_protocol_v.Deploy.Chain.{Network, World}
use set_protocol_v.Deploy.Accepted.{AcceptsAll, later}
use set_protocol_v.PerpSystem.Tokens.{
  BaseTokenFixture, TokensFixture, token_zero_fixture, choose_tokens, order_tokens,
}
use set_protocol_v.PerpSystem.Sorted.{
  base_at, ordered_at, attempt, token_zero_found, choose_tokens_ascending,
}
use set_protocol_v.PerpSystem.Ticks.{get_max_tick, get_min_tick, ticks_widest}

abbrev scattered : Network
scattered = record {
  create_address = λ owner n. (n * 7 % 50) ∷ [];
  accepts = λ w t. true;
  view = λ w target method arguments. ok [];
  view_number = λ w target method arguments. ok 6;
  view_three = λ w target method arguments. ok ([], [], []);
}

abbrev owner : Address
owner = b'o' ∷ []

scattered-AcceptsAll : AcceptsAll scattered
scattered-AcceptsAll w t = refl

abbrev start : World
start = record { nonce = 0; log = [] }

first_two_differ :
    to_lower_case (base_at scattered owner 0).base_token.address
    ≢ to_lower_case (base_at scattered owner (later 5 0)).base_token.address
unfolding to_lower_case
first_two_differ same = ground arith

third_attempt :
    is_ascending_token_order
      (base_at scattered owner (attempt 2 (later 10 0))).base_token.address
      (ordered_at scattered owner 0).token_one.address
    ≡ true
unfolding is_ascending_token_order order_tokens str_lt to_lower_case
third_attempt = refl

choose_tokens_ascending_example :
    (tokens : TokensFixture) × (second : BaseTokenFixture) × (after : World) × (choose_tokens
        scattered owner 4 start
      ≡ ok (some (tokens, second), after))
    × (is_ascending_token_order tokens.token_zero.address tokens.token_one.address ≡ true)
    × (is_ascending_token_order second.base_token.address tokens.token_one.address ≡ true)
choose_tokens_ascending_example =
    choose_tokens_ascending scattered scattered-AcceptsAll owner 4 2 start first_two_differ
      (omega arith) third_attempt

before_twelve :
    is_ascending_token_order (base_at scattered owner (attempt 4 0)).base_token.address (12 ∷ [])
    ≡ true
unfolding is_ascending_token_order str_lt to_lower_case
before_twelve = refl

token_zero_found_example :
    (f : BaseTokenFixture) × (after : World) × (token_zero_fixture scattered owner 6 (12 ∷ []) start
      ≡ ok (some f, after))
    × (is_ascending_token_order f.base_token.address (12 ∷ []) ≡ true)
token_zero_found_example =
    token_zero_found scattered scattered-AcceptsAll owner 6 4 (12 ∷ []) start (omega arith)
      before_twelve

ticks_widest_example :
    (nat_abs (get_max_tick 200) % 200 ≡ 0)
    × (get_min_tick 200 ≡ neg_of (nat_abs (get_max_tick 200)))
    × (get_max_tick 200 ≤ℤ pos 887_272)
    × (neg_of 887_272 ≤ℤ get_min_tick 200)
    × (pos 887_272 <ℤ get_max_tick 200 +ℤ pos 200)
    × (get_min_tick 200 -ℤ pos 200 <ℤ neg_of 887_272)
ticks_widest_example = ticks_widest 200 (omega arith)
