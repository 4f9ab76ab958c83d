-- ===== src/Units.antt =====
-- utils/common/unitsUtils.ts: amounts of tokens as integers, at whole numbers.
use set_protocol_v.Base.{
  ℕ, ◌*◌, ◌^◌, ltb, if◌then◌else◌, Result, ok, err, numeric_fault, map_result,
}
use set_protocol_v.Base.Int.{ℤ, pos}
use set_protocol_v.Ethers.{BigNumber}

-- `ether(n)` for a whole number below 10^21, where `n.toString()` is decimal notation: `parseEther`
-- is ethers' and yields `n` times 10^18.
abbrev pub ether : ℕ → ℤ
ether amount = pos (amount * 10 ^ 18)

-- `BigNumber.from(n)` on a number that is whole: ethers throws where it is not safe, from 2^53.
unfoldable from_number : ℕ → Result ℤ
from_number n = if ltb n (2 ^ 53) then ok (pos n) else err numeric_fault

-- `gWei(n)`: the product converts its argument.
unfoldable g_wei : BigNumber → ℕ → Result ℤ
unfolding from_number
g_wei bn amount = map_result (λ n. bn.mul (pos 1_000_000_000) n) (from_number amount)

-- `bitcoin(n)` and `usdc(n)` multiply as numbers, and convert the product.
unfoldable pub bitcoin : ℕ → Result ℤ
unfolding from_number
bitcoin amount = from_number (100_000_000 * amount)

unfoldable usdc : ℕ → Result ℤ
unfolding from_number
usdc amount = from_number (1_000_000 * amount)
