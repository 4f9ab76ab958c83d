-- ===== src/System/Controller/Initial.antt =====
-- contracts/protocol/Controller.sol: what `initialize` leaves of a storage that is empty.
use mathlib.Core.Path.{subst}
use set_protocol_v.Base.{
  ℕ, ◌==◌, ◌≡◌, refl, sym, ◌∙◌, Bool, true, false, Bool-cases, inl, inr, ◌||◌, if◌then◌else◌, List,
  [], ◌∷◌, length, Result, ok, err, reverted, >>=-eq-ok,
}
use set_protocol_v.Js.{str_eq}
use set_protocol_v.Js.Order.{str_eq_iff}
use set_protocol_v.Contracts.{Address}
use set_protocol_v.System.Controller.{
  Controller, mark, assign, mark_all, register_resources, initialize_controller,
}
use set_protocol_v.System.Controller.Arrays.{contains, Distinct, str_eq_refl}
use set_protocol_v.System.Controller.Registered.{IsRegistry}
use set_protocol_v.System.Controller.Resources.{Enabled, Unique, mark-Enabled, mark-Unique}
use set_protocol_v.System.Controller.Steps.{WellFormed, require_ok, ok_same}

-- The storage as the constructor leaves it: nothing is listed, enabled or assigned.
pub record IsEmpty (zero_address : Address) (c : Controller) : Type 0 where
  pub no_sets : c.sets ≡ []
  pub no_set : (a : Address) → c.is_set a ≡ false
  pub no_factory : (a : Address) → c.is_factory a ≡ false
  pub no_module : (a : Address) → c.is_module a ≡ false
  pub no_resource : (a : Address) → c.is_resource a ≡ false
  pub no_id : (i : ℕ) → c.resource_id i ≡ zero_address

or_false : (a b : Bool) → b ≡ false → (a || b) ≡ a
or_false true b e = refl
or_false false b e = e

or_swap : (a b c : Bool) → (b || (if a then true else c)) ≡ ((a || b) || c)
or_swap true true c = refl
or_swap true false c = refl
or_swap false b c = refl

refused_ok :
    {A : Type 0} (test : Bool) (rest : Result A) (a : A)
    → (if test then err reverted else rest) ≡ ok a
    → rest ≡ ok a
refused_ok true rest a runs = absurd cc
refused_ok false rest a runs = runs

module _ (zero_address : Address) where
  mark_all_lem :
      (xs : List Address) (m n : Address → Bool)
      → mark_all zero_address xs m ≡ ok n
      → (b : Address) → n b ≡ (contains b xs || m b)
  unfolding mark_all
  mark_all_lem [] m n runs b = let e : m ≡ n = cc in rw e refl
  mark_all_lem (a ∷ xs) m n runs b = elim (Bool-cases (str_eq a zero_address)) [
    | inl zero_given ↦ let clash = rw zero_given at runs in absurd cc
    | inr given ↦
        mark_all_lem xs (mark m a) n (rw given at runs) b
        ∙ or_swap (str_eq b a) (contains b xs) (m b)
  ]

  -- Marking the first of a list leaves the mapping false of the rest.
  mark-fresh :
      (a : Address) (xs : List Address) (m : Address → Bool)
      → contains a xs ≡ false
      → ((b : Address) → contains b (a ∷ xs) ≡ true → m b ≡ false)
      → (b : Address) → contains b xs ≡ true
      → mark m a b ≡ false
  mark-fresh a xs m new fresh b held = elim (Bool-cases (str_eq b a)) [
    | inl same ↦ let clash : true ≡ false = sym held ∙ rw ((str_eq_iff b a).0 same) new in absurd cc
    | inr other ↦ rw other (fresh b (rw (other, held) refl))
  ]

  register_lem :
      (xs : List Address) (ids : List ℕ) (m n : Address → Bool) (by_id then_by_id : ℕ → Address)
      → register_resources zero_address xs ids m by_id ≡ ok (n, then_by_id)
      → Distinct xs
      → ((b : Address) → contains b xs ≡ true → m b ≡ false)
      → Enabled zero_address by_id m
      → Unique zero_address by_id
      → ((b : Address) → n b ≡ (contains b xs || m b))
        × Enabled zero_address then_by_id n
        × Unique zero_address then_by_id
  unfolding register_resources
  register_lem [] ids m n by_id then_by_id runs distinct fresh enabled unique =
      let e : m ≡ n = cc in
      let f : by_id ≡ then_by_id = cc in
      (
        λ b. rw e refl,
        subst (λ t. Enabled zero_address t n) f
            (subst (λ k. Enabled zero_address by_id k) e enabled),
        subst (Unique zero_address) f unique,
      )
  register_lem (a ∷ xs) [] m n by_id then_by_id runs distinct fresh enabled unique = absurd cc
  register_lem (a ∷ xs) (i ∷ ids) m n by_id then_by_id runs (new, distinct) fresh enabled unique =
      elim (Bool-cases (str_eq a zero_address)) [
        | inl zero_given ↦ let clash = rw (register_resources, zero_given) at runs in absurd cc
        | inr given ↦ elim (Bool-cases (str_eq (by_id i) zero_address)) [
          | inr taken ↦ let clash = rw (register_resources, given, taken) at runs in absurd cc
          | inl free ↦
              let unmarked : m a ≡ false = fresh a (rw (str_eq_refl a) refl) in
              let (agree, enabled', unique') =
                register_lem xs ids (mark m a) n (assign by_id i a) then_by_id
                  (rw (register_resources, given, free) at runs) distinct
                  (mark-fresh a xs m new fresh) (mark-Enabled zero_address by_id m i a enabled)
                  (mark-Unique zero_address by_id m i a enabled unique unmarked) in
              (λ b. agree b ∙ or_swap (str_eq b a) (contains b xs) (m b), enabled', unique')
        ]
      ]

  marked-IsRegistry :
      (xs : List Address) (m n : Address → Bool)
      → Distinct xs
      → ((b : Address) → n b ≡ (contains b xs || m b))
      → ((b : Address) → m b ≡ false)
      → IsRegistry xs n
  marked-IsRegistry xs m n distinct agree none =
      (distinct, λ b. agree b ∙ or_false (contains b xs) (m b) (none b))

  -- If `initialize` succeeds on an empty storage, with lists that have no repetitions, it leaves lists that
  -- agree with their mappings, and ids that stand for different enabled resources.
  pub initialize_controller-WellFormed :
      (sender : Address) (fs ms rs : List Address) (ids : List ℕ) (c d : Controller)
      → IsEmpty zero_address c
      → Distinct fs
      → Distinct ms
      → Distinct rs
      → initialize_controller zero_address sender fs ms rs ids c ≡ ok d
      → WellFormed zero_address d
  unfolding initialize_controller
  initialize_controller-WellFormed sender fs ms rs ids c d empty fs_distinct ms_distinct rs_distinct
        runs =
      let (_, owned) = require_ok zero_address (str_eq sender c.owner) _ d runs in
      let tested = refused_ok c.is_initialized _ d owned in
      let (_, looped) = require_ok zero_address (length rs == length ids) _ d tested in
      let (is_factory, fs_run, next) = >>=-eq-ok _ _ looped in
      let (is_module, ms_run, last) = >>=-eq-ok _ _ next in
      let (registered, rs_run, stored) = >>=-eq-ok _ _ last in
      let (agree, enabled, unique) =
        register_lem rs ids c.is_resource registered.0 c.resource_id registered.1 rs_run rs_distinct
          (λ b held. empty.no_resource b) (λ i stands. absurd (stands (empty.no_id i)))
          (λ i j stands same. absurd (stands (empty.no_id i))) in
      subst (WellFormed zero_address) (ok_same zero_address stored) (record {
        sets = (rw empty.no_sets tt, λ b. rw (empty.no_sets, empty.no_set b) refl);
        factories =
            marked-IsRegistry fs c.is_factory is_factory fs_distinct
              (mark_all_lem fs c.is_factory is_factory fs_run) empty.no_factory;
        modules =
            marked-IsRegistry ms c.is_module is_module ms_distinct
              (mark_all_lem ms c.is_module is_module ms_run) empty.no_module;
        resources =
            marked-IsRegistry rs c.is_resource registered.0 rs_distinct agree empty.no_resource;
        enabled = enabled;
        unique = unique;
      })
