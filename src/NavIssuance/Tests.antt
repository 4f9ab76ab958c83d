-- ===== src/NavIssuance/Tests.antt =====
-- Runs of utils/common/navIssuanceModuleUtils.ts and its theorems applied at concrete inputs.
use set_protocol_v.Base.{ℕ, ◌+◌, ◌-◌, ◌*◌, ◌≤◌, ◌≡◌, refl, [], ok, arith}
use set_protocol_v.Base.Int.{pos, ◌+ℤ◌, ◌-ℤ◌, ◌*ℤ◌, quot}
use set_protocol_v.Ethers.{exact}
use set_protocol_v.Contracts.{SetToken, SetValuer}
use set_protocol_v.PreciseMath.{precise_mul, precise_div, precise_div_ceil}
use set_protocol_v.PreciseMath.Naturals.{unit}
use set_protocol_v.NavIssuance.{
  get_expected_issue_position_multiplier, get_expected_redeem_position_multiplier,
  get_expected_set_token_issue_quantity, get_expected_reserve_redeem_quantity,
}
use set_protocol_v.NavIssuance.Multiplier.{issue_multiplier_bounds, issue_redeem_multiplier_le}
use set_protocol_v.NavIssuance.Quantity.{redeem_quantity_bound}

-- Two thirds of a unit, rounded down.
multiplier_run :
    get_expected_issue_position_multiplier exact (pos 1_000_000_000_000_000_000) (pos 2) (pos 3)
    ≡ ok (pos 666_666_666_666_666_666)
unfolding get_expected_issue_position_multiplier precise_mul precise_div_ceil ◌*ℤ◌ ◌-ℤ◌ ◌+ℤ◌ quot
multiplier_run = refl

abbrev token : SetToken
token = record { address = []; total_supply = ok (pos 5_000_000_000_000_000_000) }

abbrev valuer : SetValuer
valuer = record { calculate_set_token_valuation = λ t a. ok (pos 2_000_000_000_000_000_000) }

-- Six USDC at a valuation of two buy three SetTokens.
issue_run :
    get_expected_set_token_issue_quantity exact token valuer []
      (pos 1_000_000)
      (pos 6_000_000)
      (pos 0)
      (pos 0)
      (pos 0)
    ≡ ok (pos 3_000_000_000_000_000_000)
unfolding get_expected_set_token_issue_quantity precise_mul precise_div ◌*ℤ◌ ◌-ℤ◌ ◌+ℤ◌ quot
issue_run = refl

issue_multiplier_bounds_example :
    (r : ℕ) × (get_expected_issue_position_multiplier exact (pos 1000) (pos 2) (pos 3) ≡ ok (pos r))
    × (r ≤ 1000)
    × (r * 3 ≤ 1000 * 2)
issue_multiplier_bounds_example = issue_multiplier_bounds exact 1000 2 3 (omega arith) (omega arith)

issue_redeem_multiplier_le_example :
    (r s : ℕ) × (get_expected_issue_position_multiplier exact (pos 1000) (pos 2) (pos 3)
      ≡ ok (pos r))
    × (get_expected_redeem_position_multiplier exact (pos r) (pos 3) (pos 2) ≡ ok (pos s))
    × (r ≤ s)
    × (s ≤ 1000)
issue_redeem_multiplier_le_example =
    issue_redeem_multiplier_le exact 1000 2 3 (omega arith) (omega arith)

abbrev one_percent : ℕ
one_percent = 10_000_000_000_000_000

redeem_quantity_bound_example :
    (r : ℕ) × (get_expected_reserve_redeem_quantity exact
        (pos unit)
        (pos unit)
        (pos 1_000_000)
        (pos one_percent)
        (pos one_percent)
        (pos one_percent)
      ≡ ok (pos r))
    × (r * unit * unit * unit * unit
        ≤ (unit * unit * (unit - one_percent) * (unit - one_percent - one_percent)
            + 2 * unit * unit * unit)
          * 1_000_000)
    × (unit * unit * (unit - one_percent) * (unit - one_percent - one_percent) * 1_000_000
        ≤ ((r + 1) * unit + 2 * 1_000_000) * (unit * unit * unit))
redeem_quantity_bound_example =
    redeem_quantity_bound exact unit unit 1_000_000 one_percent one_percent one_percent
      (omega arith) (omega arith)
