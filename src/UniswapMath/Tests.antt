-- ===== src/UniswapMath/Tests.antt =====
-- Runs of utils/common/uniswapUtils.ts and its theorems applied at concrete inputs.
use set_protocol_v.Base.{
  ℕ, ◌+◌, ◌-◌, ◌*◌, ◌≤◌, ◌<◌, ◌≡◌, ◌⊎◌, refl, [], ◌∷◌, ok, some, map_result, arith,
}
use set_protocol_v.Base.Int.{pos, ◌+ℤ◌, ◌-ℤ◌, ◌*ℤ◌, ◌≤ℤ◌, quot}
use set_protocol_v.Js.{str_lt, decimal}
use set_protocol_v.Ethers.{exact}
use set_protocol_v.Contracts.{SetToken, Token, UniswapPair, StakingRewards, BigNumberObject}
use set_protocol_v.PreciseMath.{precise_mul, precise_div}
use set_protocol_v.PreciseMath.Naturals.{unit}
use set_protocol_v.UniswapMath.{min, sqrt, get_reserves_safe, calculate_rebalance_quantity}
use set_protocol_v.UniswapMath.Compare.{min_first_digit, sqrt_first_digit}
use set_protocol_v.UniswapMath.Sqrt.{sqrt_ends}
use set_protocol_v.UniswapMath.Reserves.{get_reserves_safe_swap, flip}
use set_protocol_v.UniswapMath.Rebalance.{rebalance_balances}

min_run : min exact (pos 9) (pos 10) ≡ pos 10
unfolding min str_lt decimal
min_run = refl

sqrt_run : sqrt exact 20 (pos 100) ≡ ok (some (pos 1))
unfolding sqrt str_lt decimal
sqrt_run = refl

-- The loop stops where the notation of the next value is no longer first.
sqrt_fifty : sqrt exact 20 (pos 50) ≡ ok (some (pos 13))
unfolding sqrt str_lt decimal ◌+ℤ◌ quot
sqrt_fifty = refl

min_first_digit_example :
    (min exact (pos 9) (pos 10) ≡ pos 10) × ¬ (min exact (pos 9) (pos 10) ≤ℤ pos 9)
unfolding decimal
min_first_digit_example =
    min_first_digit exact 9 10 b'9' b'1' [] (b'0' ∷ []) (omega arith) refl refl (omega arith)

sqrt_first_digit_example : sqrt exact 20 (pos 10_000) ≡ ok (some (pos 1))
unfolding decimal
sqrt_first_digit_example =
    sqrt_first_digit exact 20 10_000 b'1' (b'0' ∷ b'0' ∷ b'0' ∷ b'0' ∷ []) refl (omega arith)

abbrev supply_of : ℕ → BigNumberObject
supply_of n = record { identity = 7; value = pos n }

abbrev pool : UniswapPair
pool = record { get_reserves = ok (pos 1000, pos 30); total_supply = ok (supply_of 60) }

get_reserves_safe_swap_example :
    get_reserves_safe exact (b'b' ∷ []) (b'a' ∷ []) pool
    ≡ map_result flip (get_reserves_safe exact (b'a' ∷ []) (b'b' ∷ []) pool)
get_reserves_safe_swap_example =
    get_reserves_safe_swap exact (b'a' ∷ []) (b'b' ∷ []) pool (λ e. ground arith)

abbrev set_token : SetToken
set_token = record { address = b'5' ∷ []; total_supply = ok (pos 1) }

abbrev weth : Token
weth = record { address = b'a' ∷ []; balance_of = λ x. ok (pos 100) }

abbrev usdc : Token
usdc = record { address = b'b' ∷ []; balance_of = λ x. ok (pos 40) }

abbrev staking : StakingRewards
staking = record { balance_of = λ x. ok (pos 20) }

-- Half of what 140 of the first asset exceed 50 by, at the price of one.
rebalance_run :
    calculate_rebalance_quantity exact (pos 0) set_token weth usdc (pos unit) (pos 40) (pos 10)
    ≡ ok (pos 45, b'a' ∷ [], b'b' ∷ [])
unfolding calculate_rebalance_quantity str_lt decimal precise_mul precise_div ◌+ℤ◌ ◌-ℤ◌ ◌*ℤ◌ quot
rebalance_run = refl

rebalance_balances_example :
    (q v : ℕ) × (v * unit ≤ (40 + 10) * unit)
    × ((40 + 10) * unit < (v + 1) * unit)
    × (((calculate_rebalance_quantity exact (pos 0) set_token weth usdc (pos unit) (pos 40) (pos 10)
            ≡ ok (pos q, b'a' ∷ [], b'b' ∷ []))
          × (v + q ≤ 100 + 40 - q)
          × (100 + 40 - q ≤ v + q + 1)
          × (v < 100 + 40))
        ⊎ ((calculate_rebalance_quantity exact
                (pos 0)
                set_token
                weth
                usdc
                (pos unit)
                (pos 40)
                (pos 10)
              ≡ ok (pos q, b'b' ∷ [], b'a' ∷ []))
            × (100 + 40 ≤ v)
            × (2 * (q * unit) ≤ (v - (100 + 40)) * unit)))
rebalance_balances_example =
    rebalance_balances exact set_token weth usdc 100 40 40 10 unit refl refl (omega arith)

sqrt_ends_example :
    (r : ℕ) × (sqrt exact 402 (pos 400) ≡ ok (some (pos r))) × (1 ≤ r) × (r ≤ 400 ⊎ r ≡ 1)
sqrt_ends_example = sqrt_ends exact (pos 400) 402 (omega arith)
