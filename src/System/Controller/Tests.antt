-- ===== src/System/Controller/Tests.antt =====
-- Calls of the controller on small storages, and the theorems applied to them.
use set_protocol_v.Base.{◌≡◌, not, ◌==◌, if◌then◌else◌, refl, true, false, [], ◌∷◌, ok}
use set_protocol_v.Js.{str_eq}
use set_protocol_v.Contracts.{Address}
use set_protocol_v.System.Controller.{
  Controller, mark, assign, mark_all, register_resources, initialize_controller,
}
use set_protocol_v.System.Controller.Admin.{
  add_module, remove_set, remove_factory, remove_module, remove_resource,
}
use set_protocol_v.System.Controller.Initial.{IsEmpty}
use set_protocol_v.System.Controller.Steps.{WellFormed, begin, then_step, module_added}
use set_protocol_v.System.Controller.Invariant.{Removal, initialized-WellFormed, removals_succeed}

abbrev owner : Address
owner = b'o' ∷ []

abbrev recipient : Address
recipient = b'r' ∷ []

abbrev storage : Controller
storage = record {
  owner = owner;
  sets = [];
  factories = [];
  modules = [];
  resources = [];
  is_set = λ a. false;
  is_factory = λ a. false;
  is_module = λ a. false;
  is_resource = λ a. false;
  fees = λ a t. 0;
  resource_id = λ i. [];
  fee_recipient = recipient;
  is_initialized = false;
}

storage-IsEmpty : IsEmpty [] storage
storage-IsEmpty = record {
  no_sets = refl;
  no_set = λ a. refl;
  no_factory = λ a. refl;
  no_module = λ a. refl;
  no_resource = λ a. refl;
  no_id = λ i. refl;
}

-- What `initialize` registers in the runs below, and a second module after it.
abbrev registered : Controller
registered = record storage {
  factories = (5 ∷ []) ∷ [];
  modules = (1 ∷ []) ∷ [];
  resources = (6 ∷ []) ∷ [];
  is_factory = mark storage.is_factory (5 ∷ []);
  is_module = mark storage.is_module (1 ∷ []);
  is_resource = mark storage.is_resource (6 ∷ []);
  resource_id = assign storage.resource_id 0 (6 ∷ []);
  is_initialized = true;
}

registered_run :
    initialize_controller [] owner ((5 ∷ []) ∷ []) ((1 ∷ []) ∷ []) ((6 ∷ []) ∷ []) (0 ∷ []) storage
    ≡ ok registered
unfolding initialize_controller mark_all register_resources str_eq
registered_run = refl

abbrev two_modules : Controller
two_modules = record registered {
  modules = (1 ∷ []) ∷ (2 ∷ []) ∷ [];
  is_module = mark registered.is_module (2 ∷ []);
}

second_module : add_module owner (2 ∷ []) registered ≡ ok two_modules
unfolding add_module str_eq
second_module = refl

initialized-WellFormed_example : WellFormed [] two_modules
initialized-WellFormed_example =
    initialized-WellFormed [] owner ((5 ∷ []) ∷ []) ((1 ∷ []) ∷ []) ((6 ∷ []) ∷ []) (0 ∷ []) storage
      registered two_modules storage-IsEmpty (refl, tt) (refl, tt) (refl, tt) registered_run
      (then_step begin (module_added owner (2 ∷ []) second_module))

removals_succeed_example :
    Removal
      (two_modules.is_set (1 ∷ []))
      (1 ∷ [])
      (remove_set owner (1 ∷ []) two_modules)
      two_modules.sets
      two_modules.is_set
      (λ ys m. record two_modules { sets = ys; is_set = m })
    × Removal
        (two_modules.is_factory (1 ∷ []))
        (1 ∷ [])
        (remove_factory owner (1 ∷ []) two_modules)
        two_modules.factories
        two_modules.is_factory
        (λ ys m. record two_modules { factories = ys; is_factory = m })
    × Removal
        (two_modules.is_module (1 ∷ []))
        (1 ∷ [])
        (remove_module owner (1 ∷ []) two_modules)
        two_modules.modules
        two_modules.is_module
        (λ ys m. record two_modules { modules = ys; is_module = m })
    × Removal
        (not (str_eq (two_modules.resource_id 0) []))
        (two_modules.resource_id 0)
        (remove_resource [] owner 0 two_modules)
        two_modules.resources
        two_modules.is_resource
        (λ ys m. record two_modules {
          resources = ys;
          is_resource = m;
          resource_id = λ i. if i == 0 then [] else two_modules.resource_id i;
        })
removals_succeed_example =
    removals_succeed [] two_modules (1 ∷ []) 0
      (initialized-WellFormed [] owner ((5 ∷ []) ∷ []) ((1 ∷ []) ∷ []) ((6 ∷ []) ∷ []) (0 ∷ [])
        storage registered two_modules storage-IsEmpty (refl, tt) (refl, tt) (refl, tt)
        registered_run (then_step begin (module_added owner (2 ∷ []) second_module)))
      refl
