-- ===== src/UniswapMath/Compare.antt =====
-- The comparisons of utils/common/uniswapUtils.ts, which compare decimal notations.
use set_protocol_v.Base.{ℕ, zero, suc, ◌<◌, ◌≡◌, refl, ok, List, [], ◌∷◌, length, some, arith}
use set_protocol_v.Base.Int.{ℤ, pos, negsuc, ◌≤ℤ◌, ltb_ℤ}
use set_protocol_v.Js.{str_lt, decimal}
use set_protocol_v.Js.Order.{str_lt-decimal, str_lt-first, str_lt_irrefl, decimal_first}
use set_protocol_v.Ethers.{BigNumber}
use set_protocol_v.UniswapMath.{object_lt, min, sqrt}

decimal_zero : decimal 0 ≡ b'0' ∷ []
unfolding decimal
decimal_zero = refl

pub decimal_three : decimal 3 ≡ b'3' ∷ []
unfolding decimal
decimal_three = refl

module _ (bn : BigNumber) where
  pub object_lt-pos : (m n : ℕ) → object_lt bn (pos m) (pos n) ≡ str_lt (decimal m) (decimal n)
  unfolding object_lt
  object_lt-pos m n = rw (bn.to_string_pos m, bn.to_string_pos n)

  -- On numbers written in as many digits, `min` returns the smaller one.
  pub min_same_digits :
      (m n : ℕ)
      → length (decimal m) ≡ length (decimal n)
      → (min bn (pos m) (pos n) ≤ℤ pos m) × (min bn (pos m) (pos n) ≤ℤ pos n)
  unfolding min
  min_same_digits m n h = ground (arith, object_lt-pos m n, str_lt-decimal m n h)

  -- Where the smaller of two numbers begins with the larger digit, `min` returns the larger number.
  pub min_first_digit :
      (m n c d : ℕ) (s t : List ℕ)
      → m < n
      → decimal m ≡ c ∷ s
      → decimal n ≡ d ∷ t
      → d < c
      → (min bn (pos m) (pos n) ≡ pos n) × ¬ (min bn (pos m) (pos n) ≤ℤ pos m)
  unfolding min
  min_first_digit m n c d s t h em en k =
      ground (arith, object_lt-pos m n, em, en, str_lt-first c d s t)

  -- `sqrt` of a number other than zero whose notation begins with a digit below 3 is one, whatever
  -- its size.
  pub sqrt_first_digit :
      (fuel n c : ℕ) (s : List ℕ)
      → decimal n ≡ c ∷ s
      → c < b'3'
      → sqrt bn fuel (pos n) ≡ ok (some (pos 1))
  unfolding sqrt
  sqrt_first_digit fuel n c s e h =
      ground (arith, object_lt-pos 3 n, decimal_three, str_lt-first b'3' c [] s)

  -- A positive number is above zero as an object too, and a number that is not positive is not.
  pub zero-object_lt : (a : ℤ) → object_lt bn (pos 0) a ≡ ltb_ℤ (pos 0) a
  unfolding object_lt
  zero-object_lt (pos zero) = rw (object_lt-pos 0 0, str_lt_irrefl (decimal 0))
  zero-object_lt (pos (suc n)) =
      let (c, s, e, above, _) = decimal_first (suc n) (omega arith) in
      rw (object_lt-pos 0 (suc n), decimal_zero, e) (ground (arith, str_lt-first b'0' c [] s))
  zero-object_lt (negsuc n) =
      rw (object_lt, bn.to_string_pos 0, bn.to_string_negsuc n, decimal_zero)
        (ground (arith, str_lt-first b'0' b'-' [] (decimal (suc n))))
