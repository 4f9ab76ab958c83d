-- ===== src/UniswapMath/Reserves.antt =====
-- The reserves in the order of the caller's assets, and a SetToken's share of them.
use set_protocol_v.Base.{ℕ, ◌*◌, ◌/◌, ◌≤◌, ◌<◌, ◌≡◌, ◌≢◌, ok, map_result, arith}
use set_protocol_v.Base.Int.{ℤ, pos}
use set_protocol_v.Js.Order.{str_lt_asymm, str_lt_total, str_eq_iff}
use set_protocol_v.Ethers.{BigNumber}
use set_protocol_v.Contracts.{
  Address, SetToken, Token, UniswapPair, StakingRewards, BigNumberObject,
}
use set_protocol_v.PreciseMath.Naturals.{unit, precise_mul-pos, precise_div-pos}
use set_protocol_v.UniswapMath.{get_reserves_safe, calculate_tokens_in_reserve}
use native.Mathlib.Nat.{
  div-mul-le_self, mul-le-mul_left, mul-le-mul_right, le_of_mul-le-mul_right, le_trans,
}

abbrev pub flip : ℤ × ℤ → ℤ × ℤ
flip (a, b) = (b, a)

-- Asking for two different assets in the other order swaps the two reserves.
pub get_reserves_safe_swap :
    (bn : BigNumber) (a b : Address) (pool : UniswapPair)
    → a ≢ b
    → get_reserves_safe bn b a pool ≡ map_result flip (get_reserves_safe bn a b pool)
unfolding get_reserves_safe
get_reserves_safe_swap bn a b pool h = ground (
  arith,
  str_lt_asymm a b,
  str_lt_total a b,
  str_eq_iff a b,
  str_eq_iff b a,
  str_eq_iff a a,
  str_eq_iff b b,
)

share_bounds :
    (r s l : ℕ)
    → 0 < s
    → l ≤ s
    → (r * unit / s * l / unit * s ≤ r * l) × (r * unit / s * l / unit ≤ r)
share_bounds r s l h k =
    let x : ℕ = r * unit / s in
    let y : ℕ = x * l / unit in
    let first : y * s ≤ r * l = omega (
      arith,
      mul-le-mul_right s (div-mul-le_self (x * l) unit),
      mul-le-mul_right l (div-mul-le_self (r * unit) s),
    ) in
    (first, le_of_mul-le-mul_right (le_trans first (mul-le-mul_left r k)) h)

module _ (bn : BigNumber) (set_token : SetToken) (one two : Token) (pool : UniswapPair)
    (staking : StakingRewards) (first second s l : ℕ) {supply : BigNumberObject} where
  -- Where the reserves, a positive supply and a staked balance of at most the supply can be read, each
  -- amount is at most the share of the reserve that the balance stands for, and at most the reserve.
  pub tokens_in_reserve_bounds :
      get_reserves_safe bn one.address two.address pool ≡ ok (pos first, pos second)
      → pool.total_supply ≡ ok supply
      → supply.value ≡ pos s
      → staking.balance_of set_token.address ≡ ok (pos l)
      → 0 < s
      → l ≤ s
      → (x y : ℕ) × (calculate_tokens_in_reserve bn set_token one two pool staking
          ≡ ok (pos x, pos y))
        × (x * s ≤ first * l)
        × (y * s ≤ second * l)
        × (x ≤ first)
        × (y ≤ second)
  unfolding calculate_tokens_in_reserve
  tokens_in_reserve_bounds er es ev el h k =
      let (p, q) = share_bounds first s l h k in
      let (u, v) = share_bounds second s l h k in
      (
        first * unit / s * l / unit,
        second * unit / s * l / unit,
        rw (er, es, ev, el)
            (rw (precise_div-pos bn first s h, precise_div-pos bn second s h)
              (rw (
                precise_mul-pos bn (first * unit / s) l,
                precise_mul-pos bn (second * unit / s) l,
              ))),
        p,
        u,
        q,
        v,
      )
