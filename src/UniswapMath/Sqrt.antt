-- ===== src/UniswapMath/Sqrt.antt =====
-- `sqrt` of utils/common/uniswapUtils.ts: its loop ends, since the notation of its variable falls in
-- the order of strings and its values stay below the argument.
use set_protocol_v.Base.{
  [], ℕ, zero, suc, ◌+◌, ◌*◌, ◌/◌, ◌≤◌, ◌<◌, ◌≡◌, ◌⊎◌, inl, inr, refl, true, false, if◌then◌else◌,
  Bool-cases, ok, Result, ◌>>=◌, ◌==◌, ==_iff, some, arith,
}
use set_protocol_v.Base.Int.{ℤ, pos, negsuc, nat_abs, quot}
use native.Mathlib.Nat.{div-add-mod', div-mul-le_self}
use set_protocol_v.Js.{str_lt, decimal}
use set_protocol_v.Js.Order.{str_lt_irrefl, str_lt_trans, str_lt-first}
use set_protocol_v.Ethers.{BigNumber}
use set_protocol_v.PreciseMath.Naturals.{add-pos}
use set_protocol_v.UniswapMath.{object_lt, sqrt, sqrt_loop}
use set_protocol_v.UniswapMath.Compare.{object_lt-pos, decimal_three}

-- How many of the numbers below `n` are written before `x`.
abbrev rank : ℕ → ℕ → ℕ
rank zero x = 0
rank (suc n) x = rank n x + (if str_lt (decimal n) (decimal x) then 1 else 0)

rank-le : (n x : ℕ) → rank n x ≤ n
rank-le zero x = omega arith
rank-le (suc n) x = ground (arith, rank-le n x)

rank_mono : (n x z : ℕ) → str_lt (decimal x) (decimal z) ≡ true → rank n x ≤ rank n z
rank_mono zero x z h = omega arith
rank_mono (suc n) x z h =
    ground (arith, rank_mono n x z, str_lt_trans (decimal n) (decimal x) (decimal z))

-- The count of `x` is less than that of a number written after it.
rank_lt : (n x z : ℕ) → x < n → str_lt (decimal x) (decimal z) ≡ true → rank n x < rank n z
rank_lt zero x z l h = absurd (omega arith)
rank_lt (suc n) x z l h = elim (Bool-cases (x == n)) [
  | inl same ↦
      let e : x ≡ n = (==_iff x n).0 same in
      let above : str_lt (decimal n) (decimal z) ≡ true = rw (← e) h in
      let self : str_lt (decimal n) (decimal x) ≡ false = rw e (str_lt_irrefl (decimal n)) in
      rw (above, self) (omega (arith, rank_mono n x z h))
  | inr other ↦ ground (arith, rank_lt n x z, str_lt_trans (decimal n) (decimal x) (decimal z))
]

add-le-mul : (q x : ℕ) → 1 ≤ q → 1 ≤ x → q + x ≤ q * x + 1
add-le-mul zero x h k = absurd (omega arith)
add-le-mul (suc zero) x h k = omega arith
add-le-mul (suc (suc q)) x h k = omega (arith, add-le-mul (suc q) x (omega arith) k)

le-div : (x v : ℕ) → 1 ≤ x → x ≤ v → 1 ≤ v / x
le-div x v h k = grind (arith, div-add-mod' v x)

-- The next value of the loop lies between one and the argument.
next_bounds : (v x : ℕ) → 1 ≤ x → x ≤ v → (1 ≤ (v / x + x) / 2) × ((v / x + x) / 2 ≤ v)
next_bounds v x h k =
    let one : 1 ≤ v / x = le-div x v h k in
    omega (arith, add-le-mul (v / x) x one h, div-mul-le_self v x)

above_three : (v : ℕ) → str_lt (decimal 3) (decimal v) ≡ true → 2 ≤ v
unfolding str_lt decimal
above_three zero h = cc
above_three (suc zero) h = cc
above_three (suc (suc v)) h = omega arith

module _ (bn : BigNumber) where
  step-next :
      {B : Type 0} (v x : ℕ) (rest : ℤ → Result B)
      → 1 ≤ x
      → (bn.div (pos v) (pos x) >>= λ quotient. bn.div (bn.add quotient (pos x)) (pos 2) >>= rest)
        ≡ rest (pos ((v / x + x) / 2))
  unfolding quot
  step-next v x rest h =
      rw
        (
          bn.div_lem (pos v) (pos x) (λ e. ground arith),
          add-pos bn (v / x) x,
          bn.div_lem (pos (v / x + x)) (pos 2) (λ e. ground arith),
        )
        refl

  loop_ends :
      (fuel v x z : ℕ)
      → 1 ≤ x
      → x ≤ v
      → 1 ≤ z
      → z ≤ v
      → rank (suc v) z < fuel
      → (r : ℕ) × (sqrt_loop bn fuel (pos v) (pos x) (pos z) ≡ ok (some (pos r)))
        × (1 ≤ r)
        × (r ≤ v)
  unfolding sqrt_loop
  loop_ends zero v x z a b c d h = absurd (omega arith)
  loop_ends (suc fuel) v x z a b c d h = elim (Bool-cases (object_lt bn (pos x) (pos z))) [
    | inl below ↦
        let (low, high) = next_bounds v x a b in
        let fewer : rank (suc v) x < rank (suc v) z =
          rank_lt (suc v) x z (omega arith) (rw (← object_lt-pos bn x z) below) in
        rw (below, step-next v x (λ next. sqrt_loop bn fuel (pos v) next (pos x)) a)
          (loop_ends fuel v ((v / x + x) / 2) x low high a b (omega arith))
    | inr done ↦ (z, rw done, c, d)
  ]

  halved :
      {B : Type 0} (v : ℕ) (rest : ℤ → Result B)
      → (bn.div (pos v) (pos 2) >>= λ half. rest (bn.add half (pos 1))) ≡ rest (pos (v / 2 + 1))
  unfolding quot
  halved v rest = rw (bn.div_lem (pos v) (pos 2) (λ e. ground arith), add-pos bn (v / 2) 1) refl

  negative : (v : ℕ) → object_lt bn (pos 3) (negsuc v) ≡ false
  unfolding object_lt
  negative v =
      rw (bn.to_string_pos 3, bn.to_string_negsuc v, decimal_three)
        (ground (arith, str_lt-first b'3' b'-' [] (decimal (suc v))))

  -- Given more rounds than its argument and one, `sqrt` returns, whatever the order of strings does to
  -- its tests: one, or a number between one and the argument.
  pub sqrt_ends :
      (value : ℤ) (fuel : ℕ)
      → nat_abs value + 1 < fuel
      → (r : ℕ) × (sqrt bn fuel value ≡ ok (some (pos r))) × (1 ≤ r) × (r ≤ nat_abs value ⊎ r ≡ 1)
  unfolding sqrt
  sqrt_ends (pos v) fuel h = elim (Bool-cases (object_lt bn (pos 3) (pos v))) [
    | inl above ↦
        let two : 2 ≤ v = above_three v (rw (← object_lt-pos bn 3 v) above) in
        let (r, runs, low, high) =
          loop_ends fuel v (v / 2 + 1) v (omega arith) (omega arith) (omega arith) (omega arith)
            (omega (arith, rank-le (suc v) v)) in
        (r, rw (above, halved v (λ x. sqrt_loop bn fuel (pos v) x (pos v))) runs, low, inl high)
    | inr small ↦ (1, rw small, omega arith, inr refl)
  ]
  sqrt_ends (negsuc v) fuel h = (1, rw (negative v), omega arith, inr refl)
