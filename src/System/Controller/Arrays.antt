-- ===== src/System/Controller/Arrays.antt =====
-- contracts/lib/AddressArrayUtils.sol: `remove`, and what it leaves of a list without repetitions.
use set_protocol_v.Base.{
  ℕ, zero, suc, ◌≡◌, refl, ◌∙◌, sym, Bool, true, false, Bool-cases, inl, inr, ◌||◌, if◌then◌else◌,
  List, [], ◌∷◌, ◌++◌, Option, none, some, Result, ok, err, reverted, map_result,
}
use set_protocol_v.Js.{str_eq}
use set_protocol_v.Js.Order.{str_eq_iff}
use set_protocol_v.Contracts.{Address}

-- The index in a list with one address more at its front.
abbrev next_index : Option ℕ → Option ℕ
next_index none = none
next_index (some i) = some (suc i)

-- `indexOf`; `none` is the pair of the largest index with false.
unfoldable pub index_of : List Address → Address → Option ℕ
index_of [] a = none
index_of (b ∷ rest) a = if str_eq b a then some 0 else next_index (index_of rest a)

-- `pop`, its first component.
unfoldable pub pop_at : List Address → ℕ → Result (List Address)
pop_at [] i = err reverted
pop_at (b ∷ rest) zero = ok rest
pop_at (b ∷ rest) (suc i) = map_result (λ popped. b ∷ popped) (pop_at rest i)

abbrev pop_found : List Address → Option ℕ → Result (List Address)
pop_found addresses none = err reverted
pop_found addresses (some i) = pop_at addresses i

unfoldable pub remove : List Address → Address → Result (List Address)
unfolding index_of pop_at
remove addresses a = pop_found addresses (index_of addresses a)

-- The address is in the list.
abbrev pub contains : Address → List Address → Bool
contains a [] = false
contains a (b ∷ rest) = str_eq a b || contains a rest

-- No address stands in the list twice.
abbrev pub Distinct : List Address → Type 0
Distinct [] = Unit
Distinct (a ∷ rest) = (contains a rest ≡ false) × Distinct rest

pub str_eq_refl : (s : Address) → str_eq s s ≡ true
str_eq_refl s = (str_eq_iff s s).1 refl

pub str_eq_sym : (s t : Address) → str_eq s t ≡ str_eq t s
str_eq_sym s t = elim (Bool-cases (str_eq s t)) [
  | inl same ↦ same ∙ sym ((str_eq_iff t s).1 (sym ((str_eq_iff s t).0 same)))
  | inr different ↦ elim (Bool-cases (str_eq t s)) [
    | inl same ↦ (str_eq_iff s t).1 (sym ((str_eq_iff t s).0 same)) ∙ sym same
    | inr other ↦ different ∙ sym other
  ]
]

-- An address is in a list with one at its end if it is in the list or that one.
pub contains-push :
    (b a : Address) (xs : List Address)
    → contains b (xs ++ a ∷ []) ≡ (if str_eq b a then true else contains b xs)
contains-push b a [] = elim (Bool-cases (str_eq b a)) [ inl e ↦ rw e refl | inr e ↦ rw e refl ]
contains-push b a (x ∷ xs) = rw (contains-push b a xs) (elim (Bool-cases (str_eq b a)) [
  | inl e ↦ elim (Bool-cases (str_eq b x)) [ inl f ↦ rw (e, f) refl | inr f ↦ rw (e, f) refl ]
  | inr e ↦ rw e refl
])

skip_first :
    (x : Address) (xs : List Address) (found : Option ℕ)
    → pop_found (x ∷ xs) (next_index found) ≡ map_result (λ popped. x ∷ popped) (pop_found xs found)
unfolding pop_at
skip_first x xs none = refl
skip_first x xs (some i) = refl

remove_other :
    (x a : Address) (xs : List Address)
    → str_eq x a ≡ false
    → remove (x ∷ xs) a ≡ map_result (λ popped. x ∷ popped) (remove xs a)
unfolding remove index_of
remove_other x a xs other = rw (remove, other) (skip_first x xs (index_of xs a))

-- What a list holds once an address is taken out.
abbrev pub Without : Address → List Address → List Address → Type 0
Without a xs ys =
    Distinct ys × ((b : Address) → contains b ys ≡ (if str_eq b a then false else contains b xs))

skip_first-Without :
    (x a : Address) (xs : List Address)
    → Distinct (x ∷ xs)
    → str_eq x a ≡ true
    → Without a (x ∷ xs) xs
skip_first-Without x a xs (fresh, distinct) same = (
  distinct,
  λ b. elim (Bool-cases (str_eq b a)) [
    | inl here ↦ rw (here, (str_eq_iff b a).0 here ∙ sym ((str_eq_iff x a).0 same)) fresh
    | inr there ↦ rw (there, (str_eq_iff x a).0 same, there) refl
  ],
)

keep_first-Without :
    (x a : Address) (xs ys : List Address)
    → Distinct (x ∷ xs)
    → str_eq x a ≡ false
    → Without a xs ys
    → Without a (x ∷ xs) (x ∷ ys)
keep_first-Without x a xs ys (fresh, distinct) other (kept, held) = (
  (held x ∙ rw other fresh, kept),
  λ b. elim (Bool-cases (str_eq b a)) [
    | inl here ↦ rw (held b, here, (str_eq_iff b a).0 here, str_eq_sym a x, other) refl
    | inr there ↦ rw (held b, there) refl
  ],
)

-- Taking an address out of a list without repetitions that holds it succeeds, and leaves a list
-- without repetitions that holds the others.
pub remove-Without :
    (xs : List Address) (a : Address)
    → Distinct xs
    → contains a xs ≡ true
    → (ys : List Address) × (remove xs a ≡ ok ys) × Without a xs ys
unfolding remove index_of pop_at
remove-Without [] a distinct held = absurd (cc)
remove-Without (x ∷ xs) a distinct held = elim (Bool-cases (str_eq x a)) [
  | inl same ↦ (xs, rw (remove, same) refl, skip_first-Without x a xs distinct same)
  | inr other ↦
      let later : contains a xs ≡ true = sym (rw (str_eq_sym a x ∙ other) refl) ∙ held in
      let (ys, runs, without) = remove-Without xs a distinct.1 later in
      (
        x ∷ ys,
        remove_other x a xs other ∙ rw runs refl,
        keep_first-Without x a xs ys distinct other without,
      )
]
