-- ===== src/Perp/Fixture.antt =====
-- The pure parts and the quotes of utils/fixtures/perpV2Fixture.ts.
use set_protocol_v.Base.{Bool, not, Result, err, type_error, ◌>>=◌, none, some}
use set_protocol_v.Base.Int.{ℤ, pos}
use set_protocol_v.Ethers.{BigNumber}
use set_protocol_v.Contracts.{Address}
use set_protocol_v.PreciseMath.{precise_mul, precise_div}
use set_protocol_v.Perp.Views.{Deployment, PositionInfo, Jsbi}

module _ (js : Jsbi) where
  open js use {multiply, divide, exponentiate}

  unfoldable pub get_price_from_sqrt_price_x96 : ℤ → Result ℤ
  get_price_from_sqrt_price_x96 sqrt_price_x96 = do
    let squared_price = multiply sqrt_price_x96 sqrt_price_x96
    denominator ← exponentiate (pos 2) (pos 192)
    let scaled_price = multiply squared_price (pos 1_000_000_000_000_000_000)
    divide scaled_price denominator

  -- `this._pools[_baseToken]` is undefined for an unknown token, and reading its `slot0` throws.
  unfoldable pub get_spot_price : Deployment → Address → Result ℤ
  unfolding get_price_from_sqrt_price_x96
  get_spot_price d base_token = elim (d.pools base_token) [
    | none ↦ err type_error
    | some pool ↦ do
      sqrt_price_x96 ← d.slot0_sqrt_price_x96 pool
      get_price_from_sqrt_price_x96 sqrt_price_x96
  ]

  unfoldable pub get_current_leverage : BigNumber → Deployment → PositionInfo → ℤ → Result ℤ
  unfolding get_spot_price
  get_current_leverage bn d position_info collateral_balance = do
    price ← get_spot_price d position_info.base_token
    value ← precise_mul bn position_info.base_balance price
    let base_position_absolute_value = bn.abs value
    base_position_net_value ← precise_mul bn position_info.base_balance price
    precise_div bn base_position_absolute_value
        (bn.add (bn.add base_position_net_value position_info.quote_balance) collateral_balance)

-- `getSwapQuote`; the answer is `(deltaBase, deltaQuote)`.
unfoldable pub get_swap_quote : Deployment → Address → ℤ → Bool → Result (ℤ × ℤ)
get_swap_quote d base_token base_quantity is_buy = d.open_position (record {
  base_token = base_token;
  is_base_to_quote = not is_buy;
  is_exact_input = not is_buy;
  amount = base_quantity;
})
