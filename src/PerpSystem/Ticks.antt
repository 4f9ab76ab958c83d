-- ===== src/PerpSystem/Ticks.antt =====
-- utils/fixtures/perpV2Fixture.ts and utils/fixtures/uniswapV3Fixture.ts: the widest range of ticks.
use set_protocol_v.Base.{ℕ, ◌+◌, ◌*◌, ◌/◌, ◌%◌, ◌≤◌, ◌<◌, ◌≡◌, refl, arith}
use native.Mathlib.Nat.{div-mul-le_self, mul-mod_left}
use set_protocol_v.Base.Int.{div_upper, ℤ, pos, ◌≤ℤ◌, ◌<ℤ◌, neg_of, ◌+ℤ◌, ◌-ℤ◌, nat_abs}

-- `_getMaxTick`, `Math.floor(887272 / tickSpacing) * tickSpacing`. The division is on numbers; its
-- floor is that of the rational quotient, for spacings up to 887272.
unfoldable pub get_max_tick : ℕ → ℤ
get_max_tick tick_spacing = pos (887_272 / tick_spacing * tick_spacing)

-- `_getMinTick`, `Math.ceil(-887272 / tickSpacing) * tickSpacing`: the quotient of a negative number
-- rounded up is the one rounded towards zero.
unfoldable pub get_min_tick : ℕ → ℤ
get_min_tick tick_spacing = neg_of (887_272 / tick_spacing * tick_spacing)

range_of :
    (m spacing : ℕ)
    → m ≤ 887_272
    → 887_272 < m + spacing
    → (pos m ≤ℤ pos 887_272)
      × (neg_of 887_272 ≤ℤ neg_of m)
      × (pos 887_272 <ℤ pos m +ℤ pos spacing)
      × (neg_of m -ℤ pos spacing <ℤ neg_of 887_272)
unfolding ◌+ℤ◌ ◌-ℤ◌
range_of m spacing low high = ground arith

-- For a positive tick spacing the two ticks are opposite, they are multiples of the spacing, they lie
-- within the range of Uniswap V3, and one more spacing would leave it.
pub ticks_widest :
    (tick_spacing : ℕ)
    → 0 < tick_spacing
    → (nat_abs (get_max_tick tick_spacing) % tick_spacing ≡ 0)
      × (get_min_tick tick_spacing ≡ neg_of (nat_abs (get_max_tick tick_spacing)))
      × (get_max_tick tick_spacing ≤ℤ pos 887_272)
      × (neg_of 887_272 ≤ℤ get_min_tick tick_spacing)
      × (pos 887_272 <ℤ get_max_tick tick_spacing +ℤ pos tick_spacing)
      × (get_min_tick tick_spacing -ℤ pos tick_spacing <ℤ neg_of 887_272)
unfolding get_max_tick get_min_tick
ticks_widest tick_spacing h =
    let bounds =
      range_of (887_272 / tick_spacing * tick_spacing) tick_spacing
        (div-mul-le_self 887_272 tick_spacing) (omega (arith, div_upper 887_272 tick_spacing h)) in
    (
      mul-mod_left (887_272 / tick_spacing) tick_spacing,
      refl,
      bounds.0,
      bounds.1,
      bounds.2,
      bounds.3,
    )
