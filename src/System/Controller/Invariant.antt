-- ===== src/System/Controller/Invariant.antt =====
-- contracts/protocol/Controller.sol: what holds of the storage after any sequence of calls.
use mathlib.Core.Path.{subst}
use set_protocol_v.Base.{
  ℕ, ◌==◌, ◌≡◌, refl, sym, ◌∙◌, Bool, true, false, not, List, Result, ok, ◌>>=◌, err, reverted, ◌⊎◌,
  inl, inr, Bool-cases, if◌then◌else◌,
}
use set_protocol_v.Js.{str_eq}
use set_protocol_v.Js.Order.{str_eq_iff}
use set_protocol_v.Contracts.{Address}
use set_protocol_v.System.Controller.{Controller}
use set_protocol_v.System.Controller.Arrays.{remove, str_eq_refl}
use set_protocol_v.System.Controller.Admin.{
  require, only_governance, remove_set, remove_factory, remove_module, remove_resource,
  edit_fee_recipient, add_fee, edit_fee, unmark,
}
use set_protocol_v.System.Controller.Registered.{IsRegistry}
use set_protocol_v.System.Controller.Steps.{
  Step, Reach, WellFormed, require_ok, governed, false_of_not, ok_same, set_added, set_removed,
  factory_added, factory_removed, module_added, module_removed, resource_added, resource_removed,
  recipient_edited, fee_added, fee_edited, begin, then_step,
}
use set_protocol_v.System.Controller.{initialize_controller}
use set_protocol_v.System.Controller.Arrays.{Distinct, Without, remove-Without}
use set_protocol_v.System.Controller.Initial.{IsEmpty, initialize_controller-WellFormed}
use set_protocol_v.System.Controller.Resources.{add_resource-WellFormed, remove_resource-WellFormed}
use set_protocol_v.System.Controller.Preserved.{
  add_set-WellFormed, remove_set-WellFormed, add_factory-WellFormed, remove_factory-WellFormed,
  add_module-WellFormed, remove_module-WellFormed,
}

-- What taking `a` out of the list `xs` with the mapping `m` comes to: `run` reverts if `a` is not
-- present, or it stores what is left of both.
abbrev pub Removal :
    Bool
    → Address
    → Result Controller
    → List Address
    → (Address → Bool)
    → (List Address → (Address → Bool) → Controller)
    → Type 0
Removal present a run xs m put =
    ((present ≡ false) × (run ≡ err reverted))
    ⊎ ((present ≡ true)
        × ((ys : List Address) × (run ≡ ok (put ys (λ b. if str_eq b a then false else m b)))
            × Without a xs ys))

module _ (zero_address : Address) where
  edit_fee_recipient-WellFormed :
      (sender a : Address) (c d : Controller)
      → WellFormed zero_address c
      → edit_fee_recipient zero_address sender a c ≡ ok d
      → WellFormed zero_address d
  unfolding edit_fee_recipient
  edit_fee_recipient-WellFormed sender a c d wf runs =
      let (_, e) = governed zero_address sender c (not (str_eq a zero_address)) _ d runs in
      subst (WellFormed zero_address) (ok_same zero_address e) (record {
        sets = wf.sets;
        factories = wf.factories;
        modules = wf.modules;
        resources = wf.resources;
        enabled = wf.enabled;
        unique = wf.unique;
      })

  add_fee-WellFormed :
      (sender a : Address) (t p : ℕ) (c d : Controller)
      → WellFormed zero_address c
      → add_fee sender a t p c ≡ ok d
      → WellFormed zero_address d
  unfolding add_fee
  add_fee-WellFormed sender a t p c d wf runs =
      let (_, rest) = governed zero_address sender c (c.is_module a) _ d runs in
      let (_, e) = require_ok zero_address (c.fees a t == 0) _ d rest in
      subst (WellFormed zero_address) (ok_same zero_address e) (record {
        sets = wf.sets;
        factories = wf.factories;
        modules = wf.modules;
        resources = wf.resources;
        enabled = wf.enabled;
        unique = wf.unique;
      })

  edit_fee-WellFormed :
      (sender a : Address) (t p : ℕ) (c d : Controller)
      → WellFormed zero_address c
      → edit_fee sender a t p c ≡ ok d
      → WellFormed zero_address d
  unfolding edit_fee
  edit_fee-WellFormed sender a t p c d wf runs =
      let (_, rest) = governed zero_address sender c (c.is_module a) _ d runs in
      let (_, e) = require_ok zero_address (not (c.fees a t == 0)) _ d rest in
      subst (WellFormed zero_address) (ok_same zero_address e) (record {
        sets = wf.sets;
        factories = wf.factories;
        modules = wf.modules;
        resources = wf.resources;
        enabled = wf.enabled;
        unique = wf.unique;
      })

  -- A call that succeeds keeps the agreement.
  Step-WellFormed :
      (c d : Controller)
      → Step zero_address c d
      → WellFormed zero_address c
      → WellFormed zero_address d
  Step-WellFormed c d (set_added sender a e) wf = add_set-WellFormed zero_address sender a c d wf e
  Step-WellFormed c d (set_removed sender a e) wf =
      remove_set-WellFormed zero_address sender a c d wf e
  Step-WellFormed c d (factory_added sender a e) wf =
      add_factory-WellFormed zero_address sender a c d wf e
  Step-WellFormed c d (factory_removed sender a e) wf =
      remove_factory-WellFormed zero_address sender a c d wf e
  Step-WellFormed c d (module_added sender a e) wf =
      add_module-WellFormed zero_address sender a c d wf e
  Step-WellFormed c d (module_removed sender a e) wf =
      remove_module-WellFormed zero_address sender a c d wf e
  Step-WellFormed c d (resource_added sender a id e) wf =
      add_resource-WellFormed zero_address sender a id c d wf e
  Step-WellFormed c d (resource_removed sender id e) wf =
      remove_resource-WellFormed zero_address sender id c d wf e
  Step-WellFormed c d (recipient_edited sender a e) wf =
      edit_fee_recipient-WellFormed sender a c d wf e
  Step-WellFormed c d (fee_added sender a t p e) wf = add_fee-WellFormed sender a t p c d wf e
  Step-WellFormed c d (fee_edited sender a t p e) wf = edit_fee-WellFormed sender a t p c d wf e

  -- From a controller whose lists have no repetitions and agree with their mappings, and whose ids stand
  -- for different enabled resources: after any sequence of calls, by any senders, that change its
  -- sets, factories, modules, resources, fees or fee recipient, this is so again.
  pub Reach-WellFormed :
      (c d : Controller)
      → WellFormed zero_address c
      → Reach zero_address c d
      → WellFormed zero_address d
  Reach-WellFormed c d wf begin = wf
  Reach-WellFormed c d wf (then_step {d = m} reach step) =
      Step-WellFormed m d step (Reach-WellFormed c m wf reach)

  -- After `initialize` has succeeded on an empty storage, with lists that have no repetitions, and after
  -- any sequence of successful calls of the other functions, by any senders: the lists have no
  -- repetitions and agree with their mappings, and the ids stand for different enabled resources.
  pub initialized-WellFormed :
      (sender : Address) (fs ms rs : List Address) (ids : List ℕ) (c d e : Controller)
      → IsEmpty zero_address c
      → Distinct fs
      → Distinct ms
      → Distinct rs
      → initialize_controller zero_address sender fs ms rs ids c ≡ ok d
      → Reach zero_address d e
      → WellFormed zero_address e
  initialized-WellFormed sender fs ms rs ids c d e empty fs_distinct ms_distinct rs_distinct runs
        reach =
      Reach-WellFormed d e
        (initialize_controller-WellFormed zero_address sender fs ms rs ids c d empty fs_distinct
          ms_distinct rs_distinct runs)
        reach

  governance_runs :
      (c : Controller) (test : Bool) (rest : Result Controller)
      → c.is_initialized ≡ true
      → only_governance c.owner c (require test rest) ≡ require test rest
  governance_runs c test rest on = rw (on, str_eq_refl c.owner) refl

  removal :
      (c : Controller) (present : Bool) (a : Address) (xs : List Address) (m : Address → Bool)
      (put : List Address → (Address → Bool) → Controller)
      → c.is_initialized ≡ true
      → IsRegistry xs m
      → (present ≡ true → m a ≡ true)
      → Removal present a
          (only_governance c.owner c
            (require present (remove xs a >>= λ ys. ok (put ys (unmark m a)))))
          xs
          m
          put
  removal c present a xs m put on (distinct, agree) held = elim (Bool-cases present) [
    | inl here ↦
        let (ys, runs, without) = remove-Without xs a distinct (sym (agree a) ∙ held here) in
        inr (here, (ys, governance_runs c present _ on ∙ rw (here, runs) refl, without))
    | inr absent ↦ inl (absent, governance_runs c present _ on ∙ rw absent refl)
  ]

  -- Where the lists and the mappings agree, a removal by the owner of an initialized controller
  -- reverts if the SetToken, factory, module or id is not registered; and if it is, it succeeds: the
  -- list then holds the other members alone, each once, the mapping is false of the one removed and
  -- unchanged elsewhere, the id of a removed resource stands for none, and all else is as before.
  pub removals_succeed :
      (c : Controller) (a : Address) (id : ℕ)
      → WellFormed zero_address c
      → c.is_initialized ≡ true
      → Removal
          (c.is_set a)
          a
          (remove_set c.owner a c)
          c.sets
          c.is_set
          (λ ys m. record c { sets = ys; is_set = m })
        × Removal
            (c.is_factory a)
            a
            (remove_factory c.owner a c)
            c.factories
            c.is_factory
            (λ ys m. record c { factories = ys; is_factory = m })
        × Removal
            (c.is_module a)
            a
            (remove_module c.owner a c)
            c.modules
            c.is_module
            (λ ys m. record c { modules = ys; is_module = m })
        × Removal
            (not (str_eq (c.resource_id id) zero_address))
            (c.resource_id id)
            (remove_resource zero_address c.owner id c)
            c.resources
            c.is_resource
            (λ ys m. record c {
              resources = ys;
              is_resource = m;
              resource_id = λ i. if i == id then zero_address else c.resource_id i;
            })
  unfolding remove_set remove_factory remove_module remove_resource
  removals_succeed c a id wf on = (
    removal c (c.is_set a) a c.sets c.is_set (λ ys m. record c { sets = ys; is_set = m }) on wf.sets
        (λ held. held),
    removal c (c.is_factory a) a c.factories c.is_factory
        (λ ys m. record c { factories = ys; is_factory = m }) on wf.factories (λ held. held),
    removal c (c.is_module a) a c.modules c.is_module
        (λ ys m. record c { modules = ys; is_module = m }) on wf.modules (λ held. held),
    removal c (not (str_eq (c.resource_id id) zero_address)) (c.resource_id id) c.resources
        c.is_resource
        (λ ys m. record c {
          resources = ys;
          is_resource = m;
          resource_id = λ i. if i == id then zero_address else c.resource_id i;
        })
        on wf.resources
        λ given. wf.enabled id λ e.
          let same : str_eq (c.resource_id id) zero_address ≡ true = (str_eq_iff _ _).1 e in
          let clash : true ≡ false = sym same ∙ false_of_not zero_address _ given in absurd cc,
  )
