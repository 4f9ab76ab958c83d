-- ===== src/System/Controller/Resources.antt =====
-- contracts/protocol/Controller.sol: the ids of resources stay those of enabled resources.
use mathlib.Core.Path.{subst}
use set_protocol_v.Base.{
  ℕ, ◌==◌, ◌≡◌, ◌≢◌, refl, sym, ◌∙◌, Bool, true, false, not, Bool-cases, inl, inr, ok, arith,
}
use set_protocol_v.Js.{str_eq}
use set_protocol_v.Js.Order.{str_eq_iff}
use set_protocol_v.Contracts.{Address}
use set_protocol_v.System.Controller.{Controller, mark, assign}
use set_protocol_v.System.Controller.Arrays.{str_eq_refl}
use set_protocol_v.System.Controller.Admin.{unmark, add_resource, remove_resource}
use set_protocol_v.System.Controller.Registered.{mark-IsRegistry}
use set_protocol_v.System.Controller.Steps.{
  WellFormed, require_ok, governed, false_of_not, removed, ok_same,
}

same_number : (i j : ℕ) → (i == j) ≡ true → i ≡ j
same_number i j e = ground arith

module _ (zero_address : Address) where
  -- Every id stands for an address that a mapping is true of, or for none.
  abbrev pub Enabled : (ℕ → Address) → (Address → Bool) → Type 0
  Enabled by_id m = (i : ℕ) → by_id i ≢ zero_address → m (by_id i) ≡ true

  -- Two ids never stand for one address.
  abbrev pub Unique : (ℕ → Address) → Type 0
  Unique by_id = (i j : ℕ) → by_id i ≢ zero_address → by_id i ≡ by_id j → i ≡ j

  pub mark-Enabled :
      (by_id : ℕ → Address) (m : Address → Bool) (id : ℕ) (a : Address)
      → Enabled by_id m
      → Enabled (assign by_id id a) (mark m a)
  mark-Enabled by_id m id a enabled i nonzero = elim (Bool-cases (i == id)) [
    | inl here ↦ rw (here, str_eq_refl a) refl
    | inr there ↦ elim (Bool-cases (str_eq (by_id i) a)) [
      | inl same ↦ rw (there, same) refl
      | inr other ↦ rw (there, other) (enabled i (rw there at nonzero))
    ]
  ]

  pub mark-Unique :
      (by_id : ℕ → Address) (m : Address → Bool) (id : ℕ) (a : Address)
      → Enabled by_id m
      → Unique by_id
      → m a ≡ false
      → Unique (assign by_id id a)
  mark-Unique by_id m id a enabled unique fresh i j nonzero same = elim (Bool-cases (i == id)) [
    | inl i_here ↦ elim (Bool-cases (j == id)) [
      | inl j_here ↦ same_number i id i_here ∙ sym (same_number j id j_here)
      | inr j_there ↦
          let met : a ≡ by_id j = rw (i_here, j_there) at same in
          let held : m (by_id j) ≡ true = enabled j (λ e. (rw i_here at nonzero) (met ∙ e)) in
          let clash : true ≡ false = sym held ∙ rw (← met) fresh in absurd cc
    ]
    | inr i_there ↦ elim (Bool-cases (j == id)) [
      | inl j_here ↦
          let met : by_id i ≡ a = rw (i_there, j_here) at same in
          let held : m (by_id i) ≡ true = enabled i (rw i_there at nonzero) in
          let clash : true ≡ false = sym held ∙ rw met fresh in absurd cc
      | inr j_there ↦ unique i j (rw i_there at nonzero) (rw (i_there, j_there) at same)
    ]
  ]

  pub unmark-Enabled :
      (by_id : ℕ → Address) (m : Address → Bool) (id : ℕ)
      → Enabled by_id m
      → Unique by_id
      → Enabled (assign by_id id zero_address) (unmark m (by_id id))
  unmark-Enabled by_id m id enabled unique i nonzero = elim (Bool-cases (i == id)) [
    | inl here ↦ absurd ((rw here at nonzero) refl)
    | inr there ↦ elim (Bool-cases (str_eq (by_id i) (by_id id))) [
      | inl same ↦
          let met : i ≡ id =
            unique i id (rw there at nonzero) ((str_eq_iff (by_id i) (by_id id)).0 same) in
          absurd (ground arith)
      | inr other ↦ rw (there, other) (enabled i (rw there at nonzero))
    ]
  ]

  pub unmark-Unique :
      (by_id : ℕ → Address) (id : ℕ) → Unique by_id → Unique (assign by_id id zero_address)
  unmark-Unique by_id id unique i j nonzero same = elim (Bool-cases (i == id)) [
    | inl here ↦ absurd ((rw here at nonzero) refl)
    | inr i_there ↦ elim (Bool-cases (j == id)) [
      | inl j_here ↦ absurd ((rw i_there at nonzero) (rw (i_there, j_here) at same))
      | inr j_there ↦ unique i j (rw i_there at nonzero) (rw (i_there, j_there) at same)
    ]
  ]

  pub add_resource-WellFormed :
      (sender a : Address) (id : ℕ) (c d : Controller)
      → WellFormed zero_address c
      → add_resource zero_address sender a id c ≡ ok d
      → WellFormed zero_address d
  unfolding add_resource
  add_resource-WellFormed sender a id c d wf runs =
      let (fresh, rest) = governed zero_address sender c (not (c.is_resource a)) _ d runs in
      let (_, e) = require_ok zero_address (str_eq (c.resource_id id) zero_address) _ d rest in
      let new : c.is_resource a ≡ false = false_of_not zero_address (c.is_resource a) fresh in
      subst (WellFormed zero_address) (ok_same zero_address e) (record {
        sets = wf.sets;
        factories = wf.factories;
        modules = wf.modules;
        resources = mark-IsRegistry c.resources c.is_resource a wf.resources new;
        enabled = mark-Enabled c.resource_id c.is_resource id a wf.enabled;
        unique = mark-Unique c.resource_id c.is_resource id a wf.enabled wf.unique new;
      })

  nonzero_of : (a : Address) → not (str_eq a zero_address) ≡ true → a ≢ zero_address
  nonzero_of a e same =
      let clash : false ≡ true = sym (rw (same, str_eq_refl zero_address) refl) ∙ e in absurd cc

  pub remove_resource-WellFormed :
      (sender : Address) (id : ℕ) (c d : Controller)
      → WellFormed zero_address c
      → remove_resource zero_address sender id c ≡ ok d
      → WellFormed zero_address d
  unfolding remove_resource
  remove_resource-WellFormed sender id c d wf runs =
      let a = c.resource_id id in
      let (given, e) = governed zero_address sender c (not (str_eq a zero_address)) _ d runs in
      let held : c.is_resource a ≡ true = wf.enabled id (nonzero_of a given) in
      let (ys, same, kept) =
        removed zero_address c.resources c.is_resource a _ d wf.resources held e in
      subst (WellFormed zero_address) same (record {
        sets = wf.sets;
        factories = wf.factories;
        modules = wf.modules;
        resources = kept;
        enabled = unmark-Enabled c.resource_id c.is_resource id wf.enabled wf.unique;
        unique = unmark-Unique c.resource_id id wf.unique;
      })
