-- ===== src/UniswapMath/Rebalance.antt =====
-- The quantity that a rebalance sells.
use set_protocol_v.Base.{
  ℕ, ◌+◌, ◌-◌, ◌*◌, ◌/◌, ◌≤◌, ◌<◌, ◌≡◌, ltb, ok, ◌⊎◌, inl, inr, Bool-cases, arith,
}
use set_protocol_v.Base.Int.{ℤ, pos, quot, div_upper}
use set_protocol_v.Ethers.{BigNumber}
use set_protocol_v.Contracts.{Address, SetToken, Token}
use set_protocol_v.PreciseMath.Naturals.{unit, precise_mul-pos, precise_div-pos, sub-pos, add-pos}
use set_protocol_v.UniswapMath.{rebalance_choice, calculate_rebalance_quantity}
use set_protocol_v.UniswapMath.Compare.{zero-object_lt}
use native.Mathlib.Nat.{div-mul-le_self, mul-le-mul_right}

module _ (bn : BigNumber) (one two : Address) (b v price : ℕ) where
  half-pos : (a : ℕ) → bn.div (pos a) (pos 2) ≡ ok (pos (a / 2))
  unfolding quot
  half-pos a = bn.div_lem (pos a) (pos 2) (λ e. cc)

  choice_one :
      v < b
      → rebalance_choice bn one two (pos b) (pos v) (pos price) ≡ ok (pos ((b - v) / 2), one, two)
  unfolding rebalance_choice
  choice_one h = ground (arith, bn.gt_lem (pos b) (pos v), sub-pos bn b v, half-pos (b - v))

  choice_two :
      b ≤ v
      → rebalance_choice bn one two (pos b) (pos v) (pos price)
        ≡ ok (pos ((v - b) / 2 * price / unit), two, one)
  unfolding rebalance_choice
  choice_two h = ground (
    arith,
    bn.gt_lem (pos b) (pos v),
    sub-pos bn v b,
    half-pos (v - b),
    precise_mul-pos bn ((v - b) / 2) price,
  )

sold_bound : (n price : ℕ) → 2 * (n / 2 * price / unit * unit) ≤ n * price
sold_bound n price =
    omega
      (arith, div-mul-le_self (n / 2 * price) unit, mul-le-mul_right price (div-mul-le_self n 2))

module _ (bn : BigNumber) (set_token : SetToken) (one two : Token) (a b c d price : ℕ) where
  computed :
      one.balance_of set_token.address ≡ ok (pos a)
      → two.balance_of set_token.address ≡ ok (pos b)
      → 0 < price
      → (q : ℤ) (sold bought : Address)
      → rebalance_choice bn one.address two.address
          (pos (a + c))
          (pos ((b + d) * unit / price))
          (pos price)
        ≡ ok (q, sold, bought)
      → calculate_rebalance_quantity bn (pos 0) set_token one two (pos price) (pos c) (pos d)
        ≡ ok (q, sold, bought)
  unfolding calculate_rebalance_quantity
  computed ea eb h q sold bought e =
      rw (ea, eb)
        (rw (add-pos bn a c, add-pos bn b d)
          (rw (precise_div-pos bn (b + d) price h, zero-object_lt bn (pos 0)) (rw e)))

  -- Where both balances `a` and `b` can be read, with extra quantities `c` and `d` and a positive
  -- price, let `v` be the second balance in terms of the first. With no quantity given, the asset of
  -- the larger value is sold for the other. Sold from the first, the quantity leaves the two values
  -- equal or one apart; sold from the second, it is worth at most half of the difference.
  pub rebalance_balances :
      one.balance_of set_token.address ≡ ok (pos a)
      → two.balance_of set_token.address ≡ ok (pos b)
      → 0 < price
      → (q v : ℕ) × (v * price ≤ (b + d) * unit)
        × ((b + d) * unit < (v + 1) * price)
        × (((calculate_rebalance_quantity bn (pos 0) set_token one two (pos price) (pos c) (pos d)
                ≡ ok (pos q, one.address, two.address))
              × (v + q ≤ a + c - q)
              × (a + c - q ≤ v + q + 1)
              × (v < a + c))
            ⊎ ((calculate_rebalance_quantity bn
                    (pos 0)
                    set_token
                    one
                    two
                    (pos price)
                    (pos c)
                    (pos d)
                  ≡ ok (pos q, two.address, one.address))
                × (a + c ≤ v)
                × (2 * (q * unit) ≤ (v - (a + c)) * price)))
  rebalance_balances ea eb h = elim (Bool-cases (ltb v (a + c))) [
    | inl above ↦ (
      (a + c - v) / 2,
      v,
      div-mul-le_self ((b + d) * unit) price,
      div_upper ((b + d) * unit) price h,
      inl (
        computed ea eb h _ _ _ (choice_one bn _ _ (a + c) v price (ground arith)),
        ground arith,
        ground arith,
        ground arith,
      ),
    )
    | inr below ↦ (
      (v - (a + c)) / 2 * price / unit,
      v,
      div-mul-le_self ((b + d) * unit) price,
      div_upper ((b + d) * unit) price h,
      inr (
        computed ea eb h _ _ _ (choice_two bn _ _ (a + c) v price (ground arith)),
        ground arith,
        sold_bound (v - (a + c)) price,
      ),
    )
  ]
    where
      v : ℕ
      v = (b + d) * unit / price

module _ (bn : BigNumber) (set_token : SetToken) (one two : Token) (c d price : ℕ) where
  -- A positive quantity that is given replaces the computed one, and the assets are chosen as
  -- without it.
  pub rebalance_given :
      (given : ℕ) {q : ℤ} {sold bought : Address}
      → 0 < given
      → calculate_rebalance_quantity bn (pos 0) set_token one two (pos price) (pos c) (pos d)
        ≡ ok (q, sold, bought)
      → calculate_rebalance_quantity bn (pos given) set_token one two (pos price) (pos c) (pos d)
        ≡ ok (pos given, sold, bought)
  unfolding calculate_rebalance_quantity
  rebalance_given given h e =
      ground (arith, zero-object_lt bn (pos 0), zero-object_lt bn (pos given))
