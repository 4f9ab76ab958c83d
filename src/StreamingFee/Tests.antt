-- ===== src/StreamingFee/Tests.antt =====
-- Runs of utils/common/feeModuleUtils.ts and its theorems applied at concrete inputs.
use set_protocol_v.Base.{
  ℕ, ◌+◌, ◌-◌, ◌*◌, ◌≤◌, ◌<◌, ◌≡◌, refl, List, [], ◌∷◌, ok, some, none, inl, arith,
}
use set_protocol_v.Base.Int.{ℤ, pos, negsuc, ◌+ℤ◌, ◌-ℤ◌, ◌*ℤ◌, quot, IsFloor}
use set_protocol_v.Ethers.{exact}
use set_protocol_v.Contracts.{StreamingFeeModule}
use set_protocol_v.PreciseMath.{precise_unit, precise_mul, precise_mul_ceil_int}
use set_protocol_v.PreciseMath.Naturals.{unit}
use set_protocol_v.StreamingFee.{
  get_streaming_fee, get_streaming_fee_inflation_amount, get_post_fee_position_units,
}
use set_protocol_v.StreamingFee.Accrual.{inflation_amount_bounds, streaming_fee_split}
use set_protocol_v.StreamingFee.Units.{Pointwise, post_fee_units-IsFloor}

abbrev fees : StreamingFeeModule
fees = record { streaming_fee_percentage = λ t. ok (pos 20_000_000_000_000_000) }

-- The state's rate over one year, and a rate of zero that is given.
year_run :
    get_streaming_fee exact fees [] (pos 100) (pos 31_557_700) none
    ≡ ok (pos 20_000_000_000_000_000)
unfolding get_streaming_fee ◌*ℤ◌ ◌-ℤ◌ quot
year_run = refl

zero_rate_run :
    get_streaming_fee exact fees [] (pos 100) (pos 31_557_700) (some (pos 0)) ≡ ok (pos 0)
unfolding get_streaming_fee ◌*ℤ◌ ◌-ℤ◌ quot
zero_rate_run = refl

abbrev one_percent : ℕ
one_percent = 10_000_000_000_000_000

units_run :
    get_post_fee_position_units exact (pos 150 ∷ negsuc 149 ∷ []) (pos one_percent)
    ≡ ok (pos 148 ∷ negsuc 148 ∷ [])
unfolding get_post_fee_position_units precise_mul precise_mul_ceil_int ◌*ℤ◌ ◌-ℤ◌ ◌+ℤ◌ quot
units_run = refl

inflation_amount_bounds_example :
    (r : ℕ) × (get_streaming_fee_inflation_amount exact (pos one_percent) (pos 1000) ≡ ok (pos r))
    × (r * unit ≤ one_percent * (1000 + r))
    × (one_percent * (1000 + r + 1) < (r + 1) * unit)
inflation_amount_bounds_example = inflation_amount_bounds exact one_percent 1000 (omega arith)

streaming_fee_split_example :
    (x y z : ℕ) × (get_streaming_fee exact fees [] (pos 5) (pos 1000) (some (pos one_percent))
      ≡ ok (pos x))
    × (get_streaming_fee exact fees [] (pos 1000) (pos 7777) (some (pos one_percent)) ≡ ok (pos y))
    × (get_streaming_fee exact fees [] (pos 5) (pos 7777) (some (pos one_percent)) ≡ ok (pos z))
    × (z * 31_557_600 ≤ (7777 - 5) * one_percent)
    × ((7777 - 5) * one_percent < (z + 1) * 31_557_600)
    × (x + y ≤ z)
    × (z ≤ x + y + 1)
streaming_fee_split_example =
    streaming_fee_split exact fees [] (some (pos one_percent)) one_percent refl (inl refl) 5 1000
      7777 (omega arith) (omega arith)

post_fee_units-IsFloor_example :
    (new_units : List ℤ) × (get_post_fee_position_units exact
        (pos 150 ∷ negsuc 149 ∷ [])
        (pos one_percent)
      ≡ ok new_units)
    × Pointwise
        (λ u r. IsFloor (u *ℤ pos (unit - one_percent)) precise_unit r)
        (pos 150 ∷ negsuc 149 ∷ [])
        new_units
post_fee_units-IsFloor_example =
    post_fee_units-IsFloor exact one_percent (omega arith) (pos 150 ∷ negsuc 149 ∷ [])
