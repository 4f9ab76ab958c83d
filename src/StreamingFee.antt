-- ===== src/StreamingFee.antt =====
-- utils/common/feeModuleUtils.ts: the streaming fee and its effect on supply and positions.
pub mod Accrual
pub mod Units
mod Tests
use set_protocol_v.Base.{Result, ok, ◌>>=◌, if◌then◌else◌, List, [], ◌∷◌, ◌++◌, Option, none, some}
use set_protocol_v.Base.Int.{ℤ, pos}
use set_protocol_v.Ethers.{BigNumber}
use set_protocol_v.Contracts.{Address, StreamingFeeModule}
use set_protocol_v.PreciseMath.{precise_unit, precise_mul, precise_mul_ceil_int}

-- `ONE_YEAR_IN_SECONDS` (utils/constants.ts)
abbrev pub one_year_in_seconds : ℤ
one_year_in_seconds = pos 31_557_600

-- `streamingFee ? streamingFee : …`; an object is true, also where it wraps zero.
abbrev pub accrual_rate : Option ℤ → ℤ → ℤ
accrual_rate none fee_state = fee_state
accrual_rate (some streaming_fee) fee_state = streaming_fee

module _ (bn : BigNumber) where
  open bn use {sub, mul, div, gte}

  unfoldable pub get_streaming_fee : StreamingFeeModule → Address → ℤ → ℤ → Option ℤ → Result ℤ
  get_streaming_fee fee_module set_token previous_accrue_timestamp recent_accrue_timestamp
        streaming_fee =
      do
        fee_state ← fee_module.streaming_fee_percentage set_token
        let rate = accrual_rate streaming_fee fee_state
        let time_elapsed = sub recent_accrue_timestamp previous_accrue_timestamp
        div (mul time_elapsed rate) one_year_in_seconds

  unfoldable pub get_streaming_fee_inflation_amount : ℤ → ℤ → Result ℤ
  get_streaming_fee_inflation_amount inflation_percent total_supply =
      let a = mul inflation_percent total_supply in
      let b = sub precise_unit inflation_percent in div a b

  -- One round of the loop of `getPostFeePositionUnits`.
  unfoldable pub post_fee_position_unit : ℤ → ℤ → Result ℤ
  post_fee_position_unit inflation_percent unit =
      if gte unit (pos 0)
      then precise_mul bn unit (sub precise_unit inflation_percent)
      else precise_mul_ceil_int bn unit (sub precise_unit inflation_percent)

  -- The loop, from the units that are already pushed.
  unfoldable pub post_fee_units_from : List ℤ → List ℤ → ℤ → Result (List ℤ)
  post_fee_units_from new_units [] inflation_percent = ok new_units
  post_fee_units_from new_units (unit ∷ units) inflation_percent = do
    new_unit ← post_fee_position_unit inflation_percent unit
    post_fee_units_from (new_units ++ new_unit ∷ []) units inflation_percent

  unfoldable pub get_post_fee_position_units : List ℤ → ℤ → Result (List ℤ)
  unfolding post_fee_units_from post_fee_position_unit
  get_post_fee_position_units pre_fee_units inflation_percent =
      post_fee_units_from [] pre_fee_units inflation_percent
