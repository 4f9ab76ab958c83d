-- ===== src/System/Controller/Registered.antt =====
-- A list of addresses and its mapping agree: what contracts/protocol/Controller.sol keeps of each kind.
use set_protocol_v.Base.{
  ◌≡◌, refl, sym, ◌∙◌, Bool, true, false, Bool-cases, inl, inr, List, [], ◌∷◌, ◌++◌, ok,
}
use set_protocol_v.Js.{str_eq}
use set_protocol_v.Contracts.{Address}
use set_protocol_v.System.Controller.{mark}
use set_protocol_v.System.Controller.Arrays.{
  remove, contains, Distinct, contains-push, remove-Without, str_eq_sym,
}
use set_protocol_v.System.Controller.Admin.{unmark}

-- The list has no repetitions, and the mapping is true of its members alone.
abbrev pub IsRegistry : List Address → (Address → Bool) → Type 0
IsRegistry xs m = Distinct xs × ((b : Address) → m b ≡ contains b xs)

push-Distinct :
    (xs : List Address) (a : Address)
    → Distinct xs
    → contains a xs ≡ false
    → Distinct (xs ++ a ∷ [])
push-Distinct [] a distinct fresh = (refl, tt)
push-Distinct (x ∷ xs) a (here, distinct) fresh = elim (Bool-cases (str_eq a x)) [
  | inl same ↦ let e : true ≡ false = sym (rw same refl) ∙ fresh in absurd cc
  | inr other ↦ (
    contains-push x a xs ∙ rw (str_eq_sym x a, other) here,
    push-Distinct xs a distinct (sym (rw other refl) ∙ fresh),
  )
]

-- Enlisting an address that the mapping is not true of.
pub mark-IsRegistry :
    (xs : List Address) (m : Address → Bool) (a : Address)
    → IsRegistry xs m
    → m a ≡ false
    → IsRegistry (xs ++ a ∷ []) (mark m a)
mark-IsRegistry xs m a (distinct, agree) fresh = (
  push-Distinct xs a distinct (sym (agree a) ∙ fresh),
  λ b. rw (contains-push b a xs, agree b) refl,
)

-- Taking out an address that the mapping is true of succeeds.
pub unmark-IsRegistry :
    (xs : List Address) (m : Address → Bool) (a : Address)
    → IsRegistry xs m
    → m a ≡ true
    → (ys : List Address) × (remove xs a ≡ ok ys) × IsRegistry ys (unmark m a)
unmark-IsRegistry xs m a (distinct, agree) held =
    let (ys, runs, (kept, rest)) = remove-Without xs a distinct (sym (agree a) ∙ held) in
    (ys, runs, (kept, λ b. rw (agree b, rest b) refl))
