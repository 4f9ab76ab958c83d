-- ===== src/Base/Int/Rounding.antt =====
-- Quotients of integers by how they round: towards zero, away from zero, and down.
use set_protocol_v.Base.Tests.{if◌then◌else◌, ◌==◌}
use Prim.Native.Nat.{ℕ, zero, suc, ◌+◌, ◌*◌, ◌/◌, ◌%◌, ◌≤◌, ◌<◌}
use mathlib.Core.Path.{◌≡◌, refl}
use mathlib.Core.Logic.{◌≢◌}
use mathlib.Core.Bool.{Bool, ◌&&◌, ◌||◌}
use native.Mathlib.Omega.{arith}
use set_protocol_v.Base.Int.Defs.{
  ℤ, pos, negsuc, ◌+ℤ◌, ◌-ℤ◌, ◌*ℤ◌, ◌≤ℤ◌, ◌<ℤ◌, quot, nat_abs, neg_of, pos_part, neg_part, eqb_ℤ,
  ltb_ℤ,
}
use set_protocol_v.Base.Int.Defs.{nat_abs-quot, int_products, eq_of_parts}
use native.Mathlib.Nat.{div-mul-le_self, div-add-mod'}

pub div_upper : (x y : ℕ) → 0 < y → x < (x / y + 1) * y
div_upper x y h = grind arith

-- `q` is `n / d` rounded towards zero.
pub record Truncates (n d q : ℤ) : Type 0 where
  pub lower : nat_abs q * nat_abs d ≤ nat_abs n
  pub upper : nat_abs n < (nat_abs q + 1) * nat_abs d
  pub sign : pos 0 ≤ℤ q *ℤ (n *ℤ d)

pub neg_of_parts : (k : ℕ) → (pos_part (neg_of k) ≡ 0) × (neg_part (neg_of k) ≡ k)
neg_of_parts k = ground arith

quot_sign : (n d : ℤ) → pos 0 ≤ℤ quot n d *ℤ (n *ℤ d)
unfolding quot
quot_sign (pos m) (pos n) = simp int_products (omega arith)
quot_sign (pos m) (negsuc n) =
    simp int_products
      (rw ((neg_of_parts (m / suc n)).0, (neg_of_parts (m / suc n)).1) (omega arith))
quot_sign (negsuc m) (pos n) =
    simp int_products
      (rw ((neg_of_parts (suc m / n)).0, (neg_of_parts (suc m / n)).1) (omega arith))
quot_sign (negsuc m) (negsuc n) = simp int_products (omega arith)

pub nat_abs_pos : (d : ℤ) → d ≢ pos 0 → 0 < nat_abs d
nat_abs_pos d h = ground arith

pub quot-Truncates : (n d : ℤ) → d ≢ pos 0 → Truncates n d (quot n d)
quot-Truncates n d h = record {
  lower = rw nat_abs-quot (div-mul-le_self _ _);
  upper = rw nat_abs-quot (div_upper _ _ (nat_abs_pos d h));
  sign = quot_sign n d;
}

-- `q` is `n / d` rounded away from zero.
pub record RoundsAway (n d q : ℤ) : Type 0 where
  pub lower : nat_abs n ≤ nat_abs q * nat_abs d
  pub upper : nat_abs q * nat_abs d < nat_abs n + nat_abs d
  pub sign : pos 0 ≤ℤ q *ℤ (n *ℤ d)

-- A quotient of numbers, rounded up.
abbrev pub ceil_quot : ℕ → ℕ → ℕ
ceil_quot m d = if m % d == 0 then m / d else m / d + 1

pub ceil_quot_bounds : (m d : ℕ) → 0 < d → (m ≤ ceil_quot m d * d) × (ceil_quot m d * d < m + d)
ceil_quot_bounds m d h = ground (arith, div-add-mod' m d, div_upper m d, div-mul-le_self m d)

-- The quotient rounded away from zero.
abbrev pub away_quot : ℤ → ℤ → ℤ
away_quot (pos m) (pos n) = pos (ceil_quot m n)
away_quot (pos m) (negsuc n) = neg_of (ceil_quot m (suc n))
away_quot (negsuc m) (pos n) = neg_of (ceil_quot (suc m) n)
away_quot (negsuc m) (negsuc n) = pos (ceil_quot (suc m) (suc n))

nat_abs-away_quot : (n d : ℤ) → nat_abs (away_quot n d) ≡ ceil_quot (nat_abs n) (nat_abs d)
nat_abs-away_quot n d = ground arith

away_quot_sign : (n d : ℤ) → pos 0 ≤ℤ away_quot n d *ℤ (n *ℤ d)
away_quot_sign (pos m) (pos n) = simp int_products (omega arith)
away_quot_sign (pos m) (negsuc n) =
    let (p, q) = neg_of_parts (ceil_quot m (suc n)) in simp int_products (rw (p, q) (omega arith))
away_quot_sign (negsuc m) (pos n) =
    let (p, q) = neg_of_parts (ceil_quot (suc m) n) in simp int_products (rw (p, q) (omega arith))
away_quot_sign (negsuc m) (negsuc n) = simp int_products (omega arith)

pub away_quot-RoundsAway : (n d : ℤ) → d ≢ pos 0 → RoundsAway n d (away_quot n d)
away_quot-RoundsAway n d h =
    let b = ceil_quot_bounds (nat_abs n) (nat_abs d) (nat_abs_pos d h) in
    record {
      lower = rw nat_abs-away_quot b.0;
      upper = rw nat_abs-away_quot b.1;
      sign = away_quot_sign n d;
    }

away_bounds : (k d : ℕ) → 0 < d → (suc k ≤ (k / d + 1) * d) × ((k / d + 1) * d < suc k + d)
away_bounds k d h = grind (arith, div_upper k d h, div-mul-le_self k d)

-- The two ways in which the program rounds up: through the number below, and by a test.
le_of_steps : (x y n d : ℕ) → x * d < n + d → n ≤ y * d → x ≤ y
le_of_steps x y n d h k = grind arith

ceil_of_pred : (k d : ℕ) → 0 < d → k / d + 1 ≡ ceil_quot (suc k) d
ceil_of_pred k d h =
    let (cl, cu) = ceil_quot_bounds (suc k) d h in
    let (l, u) = away_bounds k d h in
    omega (
      arith,
      le_of_steps (k / d + 1) (ceil_quot (suc k) d) (suc k) d u cl,
      le_of_steps (ceil_quot (suc k) d) (k / d + 1) (suc k) d cu l,
    )

pub away_of_pos :
    (n : ℤ) (d : ℕ) → 0 < d → pos 0 <ℤ n → quot (n -ℤ pos 1) (pos d) +ℤ pos 1 ≡ away_quot n (pos d)
unfolding quot ◌+ℤ◌ ◌-ℤ◌
away_of_pos (pos zero) d p h = absurd (omega arith)
away_of_pos (pos (suc k)) d p h = ground (arith, ceil_of_pred k d p)
away_of_pos (negsuc k) d p h = absurd (omega arith)

pub away_of_neg :
    (n : ℤ) (d : ℕ) → 0 < d → n <ℤ pos 0 → quot (n +ℤ pos 1) (pos d) -ℤ pos 1 ≡ away_quot n (pos d)
unfolding quot ◌+ℤ◌ ◌-ℤ◌
away_of_neg (pos k) d p h = absurd (omega arith)
away_of_neg (negsuc zero) d p h = ground (arith, ceil_of_pred 0 d p)
away_of_neg (negsuc (suc k)) d p h = ground (arith, ceil_of_pred (suc k) d p)

pub negsuc_add_one : (j : ℕ) → neg_of (suc j) +ℤ pos 1 ≡ neg_of j
unfolding ◌+ℤ◌
negsuc_add_one zero = ground arith
negsuc_add_one (suc j) = ground arith

neg_of_times : (j n : ℕ) → neg_of j *ℤ pos n ≡ neg_of (j * n)
unfolding ◌*ℤ◌
neg_of_times zero n = ground arith
neg_of_times (suc j) n = refl

neg_of_times_neg : (j n : ℕ) → neg_of j *ℤ negsuc n ≡ pos (j * suc n)
unfolding ◌*ℤ◌
neg_of_times_neg zero n = ground arith
neg_of_times_neg (suc j) n = refl

pub neg_of_sub_one : (j : ℕ) → neg_of j -ℤ pos 1 ≡ neg_of (j + 1)
unfolding ◌-ℤ◌
neg_of_sub_one zero = ground arith
neg_of_sub_one (suc j) = ground arith

abbrev pub same_signs : ℤ → ℤ → Bool
same_signs a b = (ltb_ℤ (pos 0) a && ltb_ℤ (pos 0) b) || (ltb_ℤ a (pos 0) && ltb_ℤ b (pos 0))

-- One step away from zero, unless the quotient is exact.
pub away_of_quot :
    (n d : ℤ)
    → d ≢ pos 0
    → away_quot n d ≡ (
        if eqb_ℤ (quot n d *ℤ d) n
        then quot n d
        else if same_signs n d
        then quot n d +ℤ pos 1
        else quot n d -ℤ pos 1)
unfolding quot
away_of_quot (pos m) (pos n) h = unfold ◌+ℤ◌ ◌-ℤ◌ ◌*ℤ◌ in ground (arith, div-add-mod' m n)
away_of_quot (pos m) (negsuc n) h =
    rw (neg_of_times_neg (m / suc n), neg_of_sub_one (m / suc n))
      (ground (arith, div-add-mod' m (suc n)))
away_of_quot (negsuc m) (pos n) h =
    rw (neg_of_times (suc m / n) n, neg_of_sub_one (suc m / n))
      (ground (arith, div-add-mod' (suc m) n))
away_of_quot (negsuc m) (negsuc n) h =
    unfold ◌+ℤ◌ ◌-ℤ◌ ◌*ℤ◌ in ground (arith, div-add-mod' (suc m) (suc n))

module _ (a b : ℤ) where
  pub mul_zero_left : a ≡ pos 0 → a *ℤ b ≡ pos 0
  mul_zero_left h = rw h (eq_of_parts _ _ (simp int_products (omega arith)))

  pub mul_zero_right : b ≡ pos 0 → a *ℤ b ≡ pos 0
  mul_zero_right h = rw h (eq_of_parts _ _ (simp int_products (omega arith)))

  pub mul_pos_pos : pos 0 <ℤ a → pos 0 <ℤ b → pos 0 <ℤ a *ℤ b
  unfolding ◌*ℤ◌
  mul_pos_pos h k = grind arith

  pub mul_neg_neg : a <ℤ pos 0 → b <ℤ pos 0 → pos 0 <ℤ a *ℤ b
  unfolding ◌*ℤ◌
  mul_neg_neg h k = grind arith

  pub mul_pos_neg : pos 0 <ℤ a → b <ℤ pos 0 → a *ℤ b <ℤ pos 0
  unfolding ◌*ℤ◌
  mul_pos_neg h k = grind arith

  pub mul_neg_pos : a <ℤ pos 0 → pos 0 <ℤ b → a *ℤ b <ℤ pos 0
  unfolding ◌*ℤ◌
  mul_neg_pos h k = grind arith

-- `q` is `a / b` rounded down: the largest integer that is not above the quotient.
abbrev pub IsFloor : ℤ → ℤ → ℤ → Type 0
IsFloor a (pos n) q = (q *ℤ pos n ≤ℤ a) × (a <ℤ (q +ℤ pos 1) *ℤ pos n)
IsFloor a (negsuc n) q = (a ≤ℤ q *ℤ negsuc n) × ((q +ℤ pos 1) *ℤ negsuc n <ℤ a)

-- The quotient rounded down, from the one rounded towards zero.
abbrev pub floor_quot : ℤ → ℤ → ℤ
floor_quot (pos m) (pos n) = pos (m / n)
floor_quot (pos m) (negsuc n) = neg_of (if m % suc n == 0 then m / suc n else m / suc n + 1)
floor_quot (negsuc m) (pos n) = neg_of (if suc m % n == 0 then suc m / n else suc m / n + 1)
floor_quot (negsuc m) (negsuc n) = pos (suc m / suc n)

IsFloor-above :
    (m n k : ℕ) → m ≤ k * suc n → k * suc n < m + suc n → IsFloor (pos m) (negsuc n) (neg_of k)
unfolding ◌*ℤ◌
IsFloor-above m n zero h u = unfold ◌+ℤ◌ in ground arith
IsFloor-above m n (suc j) h u = rw (negsuc_add_one j) (ground (arith, neg_of_times j (suc n)))

IsFloor-below :
    (m n k : ℕ) → 0 < n → suc m ≤ k * n → k * n < suc m + n → IsFloor (negsuc m) (pos n) (neg_of k)
unfolding ◌*ℤ◌
IsFloor-below m n zero p h u = unfold ◌+ℤ◌ in ground arith
IsFloor-below m n (suc j) p h u = rw (negsuc_add_one j) (ground (arith, neg_of_times j n))

pub floor_quot-IsFloor : (a b : ℤ) → b ≢ pos 0 → IsFloor a b (floor_quot a b)
unfolding ◌+ℤ◌ ◌*ℤ◌
floor_quot-IsFloor (pos m) (pos n) h = ground (arith, div-mul-le_self m n, div_upper m n)
floor_quot-IsFloor (pos m) (negsuc n) h =
    let b = ceil_quot_bounds m (suc n) (omega arith) in IsFloor-above m n _ b.0 b.1
floor_quot-IsFloor (negsuc m) (pos n) h =
    let p : 0 < n = ground arith in
    let b = ceil_quot_bounds (suc m) n p in IsFloor-below m n _ p b.0 b.1
floor_quot-IsFloor (negsuc m) (negsuc n) h =
    ground (arith, div-mul-le_self (suc m) (suc n), div_upper (suc m) (suc n))
