-- ===== src/TokenOrder.antt =====
-- The order of two token addresses: utils/fixtures/uniswapFixture.ts and
-- utils/fixtures/perpV2Fixture.ts compare them in lower case.
pub mod Sorted
use set_protocol_v.Base.{Bool, if◌then◌else◌}
use set_protocol_v.Js.{str_lt, to_lower_case}
use set_protocol_v.Contracts.{Address}

-- `_isAscendingTokenOrder`
unfoldable pub is_ascending_token_order : Address → Address → Bool
is_ascending_token_order address_zero address_one =
    str_lt (to_lower_case address_zero) (to_lower_case address_one)

-- `getTokenOrder`
unfoldable pub get_token_order : Address → Address → Address × Address
get_token_order token_one token_two =
    if str_lt (to_lower_case token_one) (to_lower_case token_two)
    then (token_one, token_two)
    else (token_two, token_one)
