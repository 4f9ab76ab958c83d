-- ===== src/Contracts.antt =====
-- The contract instances that the utilities read. Their classes are generated from the contracts'
-- ABIs and their answers come from the chain, so an instance is a parameter: a record with one
-- field for each view that the modelled code calls, at the moment of the call. A view that
-- reverts throws.
use set_protocol_v.Base.{ℕ, List, Result}
use set_protocol_v.Base.Int.{ℤ}

-- `Address` of utils/types.ts is a string: its UTF-16 code units.
abbrev pub Address : Type 0
Address = List ℕ

-- A SetToken.
pub record SetToken : Type 0 where
  pub address : Address
  pub total_supply : Result ℤ

-- An ISetValuer.
pub record SetValuer : Type 0 where
  pub calculate_set_token_valuation : Address → Address → Result ℤ

-- The part of a StreamingFeeModule that is read: `feeStates(setToken).streamingFeePercentage`.
pub record StreamingFeeModule : Type 0 where
  pub streaming_fee_percentage : Address → Result ℤ

-- A BigNumber that a call returns, as an object: `==` and `!=` compare identities.
pub record BigNumberObject : Type 0 where
  pub identity : ℕ
  pub value : ℤ

-- A StandardTokenMock or WETH9.
pub record Token : Type 0 where
  pub address : Address
  pub balance_of : Address → Result ℤ

-- A UniswapV2Pair.
pub record UniswapPair : Type 0 where
  pub get_reserves : Result (ℤ × ℤ)
  pub total_supply : Result BigNumberObject

-- A UniswapV2Router02.
pub record UniswapRouter : Type 0 where
  pub get_amounts_out : ℤ → List Address → Result (List ℤ)

-- A StakingRewards.
pub record StakingRewards : Type 0 where
  pub balance_of : Address → Result ℤ
