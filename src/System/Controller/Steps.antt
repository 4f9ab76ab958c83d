-- ===== src/System/Controller/Steps.antt =====
-- contracts/protocol/Controller.sol as a state machine: a step is a call that succeeds.
use set_protocol_v.Base.{
  ℕ, ◌≡◌, ◌≢◌, refl, sym, ◌∙◌, Bool, true, false, not, List, Result, ok, ◌>>=◌,
}
use set_protocol_v.Js.{str_eq}
use set_protocol_v.Contracts.{Address}
use set_protocol_v.System.Controller.{Controller}
use set_protocol_v.System.Controller.Arrays.{remove}
use set_protocol_v.System.Controller.Admin.{
  require, only_governance, unmark, add_set, remove_set, add_factory, remove_factory, add_module,
  remove_module, add_resource, remove_resource, edit_fee_recipient, add_fee, edit_fee,
}
use set_protocol_v.System.Controller.Registered.{IsRegistry, unmark-IsRegistry}

module _ (zero_address : Address) where
  -- A call of any function that changes the storage, but for `initialize`, by any sender.
  pub data Step (c d : Controller) : Type 0 where
    set_added : (sender a : Address) → add_set sender a c ≡ ok d → Step c d
    set_removed : (sender a : Address) → remove_set sender a c ≡ ok d → Step c d
    factory_added : (sender a : Address) → add_factory sender a c ≡ ok d → Step c d
    factory_removed : (sender a : Address) → remove_factory sender a c ≡ ok d → Step c d
    module_added : (sender a : Address) → add_module sender a c ≡ ok d → Step c d
    module_removed : (sender a : Address) → remove_module sender a c ≡ ok d → Step c d
    resource_added :
        (sender a : Address) (id : ℕ) → add_resource zero_address sender a id c ≡ ok d → Step c d
    resource_removed :
        (sender : Address) (id : ℕ) → remove_resource zero_address sender id c ≡ ok d → Step c d
    recipient_edited :
        (sender a : Address) → edit_fee_recipient zero_address sender a c ≡ ok d → Step c d
    fee_added : (sender a : Address) (t p : ℕ) → add_fee sender a t p c ≡ ok d → Step c d
    fee_edited : (sender a : Address) (t p : ℕ) → edit_fee sender a t p c ≡ ok d → Step c d

  pub data Reach (c : Controller) : Controller → Type 0 where
    begin : Reach c c
    then_step : {d e : Controller} → Reach c d → Step d e → Reach c e

  -- Each list and its mapping agree; an id stands for a resource that is enabled or for none; two ids
  -- stand for two resources.
  pub record WellFormed (c : Controller) : Type 0 where
    pub sets : IsRegistry c.sets c.is_set
    pub factories : IsRegistry c.factories c.is_factory
    pub modules : IsRegistry c.modules c.is_module
    pub resources : IsRegistry c.resources c.is_resource
    pub enabled : (i : ℕ) → c.resource_id i ≢ zero_address → c.is_resource (c.resource_id i) ≡ true
    pub unique :
        (i j : ℕ) → c.resource_id i ≢ zero_address → c.resource_id i ≡ c.resource_id j → i ≡ j

  pub require_ok :
      {A : Type 0} (test : Bool) (rest : Result A) (a : A)
      → require test rest ≡ ok a
      → (test ≡ true) × (rest ≡ ok a)
  require_ok true rest a runs = (refl, runs)
  require_ok false rest a runs = absurd cc

  pub governed :
      {A : Type 0} (sender : Address) (c : Controller) (test : Bool) (rest : Result A) (a : A)
      → only_governance sender c (require test rest) ≡ ok a
      → (test ≡ true) × (rest ≡ ok a)
  governed sender c test rest a runs =
      let (_, owned) = require_ok c.is_initialized _ a runs in
      let (_, tested) = require_ok (str_eq sender c.owner) _ a owned in
      require_ok test rest a tested

  pub false_of_not : (b : Bool) → not b ≡ true → b ≡ false
  false_of_not false e = refl
  false_of_not true e = absurd cc

  pub ok_same : {c d : Controller} → ok c ≡ ok d → c ≡ d
  ok_same e = cc

  -- A list from which an address was taken, and what the function made of it.
  pub removed :
      (xs : List Address) (m : Address → Bool) (a : Address) (f : List Address → Controller)
      (d : Controller)
      → IsRegistry xs m
      → m a ≡ true
      → (remove xs a >>= λ ys. ok (f ys)) ≡ ok d
      → (ys : List Address) × (f ys ≡ d) × IsRegistry ys (unmark m a)
  removed xs m a f d registry held runs =
      let (ys, taken, kept) = unmark-IsRegistry xs m a registry held in
      let e : ok (f ys) ≡ ok d = sym (rw taken refl) ∙ runs in (ys, cc, kept)
