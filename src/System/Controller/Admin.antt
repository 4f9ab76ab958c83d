-- ===== src/System/Controller/Admin.antt =====
-- contracts/protocol/Controller.sol: the administration of SetTokens, factories, modules, resources and
-- fees. A call gives its sender first; events are left out.
use set_protocol_v.Base.{
  ℕ, Bool, false, not, ◌==◌, ◌||◌, if◌then◌else◌, [], ◌∷◌, ◌++◌, Result, ok, err, reverted, ◌>>=◌,
}
use set_protocol_v.Js.{str_eq}
use set_protocol_v.Contracts.{Address}
use set_protocol_v.System.Controller.{Controller, mark, assign}
use set_protocol_v.System.Controller.Arrays.{remove}

-- `require(test)` before the rest of a function.
abbrev pub require : {A : Type 0} → Bool → Result A → Result A
require test rest = if test then rest else err reverted

-- `m[a] = false`
abbrev pub unmark : (Address → Bool) → Address → Address → Bool
unmark m a b = if str_eq b a then false else m b

-- The modifiers `onlyInitialized onlyOwner`.
abbrev pub only_governance : {A : Type 0} → Address → Controller → Result A → Result A
only_governance sender c rest = require c.is_initialized (require (str_eq sender c.owner) rest)

-- The modifiers are `onlyInitialized onlyFactory`.
unfoldable pub add_set : Address → Address → Controller → Result Controller
add_set sender set_token c = require c.is_initialized (
    require (c.is_factory sender) (
      require (not (c.is_set set_token))
        (ok (record c { sets = c.sets ++ set_token ∷ []; is_set = mark c.is_set set_token }))))

unfoldable pub remove_set : Address → Address → Controller → Result Controller
unfolding remove
remove_set sender set_token c = only_governance sender c (
    require (c.is_set set_token) (do
      sets ← remove c.sets set_token
      ok (record c { sets = sets; is_set = unmark c.is_set set_token })))

unfoldable pub add_factory : Address → Address → Controller → Result Controller
add_factory sender factory c = only_governance sender c (
    require (not (c.is_factory factory)) (
      ok (record c {
        factories = c.factories ++ factory ∷ [];
        is_factory = mark c.is_factory factory;
      })))

unfoldable pub remove_factory : Address → Address → Controller → Result Controller
unfolding remove
remove_factory sender factory c = only_governance sender c (
    require (c.is_factory factory) (do
      factories ← remove c.factories factory
      ok (record c { factories = factories; is_factory = unmark c.is_factory factory })))

unfoldable pub add_module : Address → Address → Controller → Result Controller
add_module sender added c = only_governance sender c (
    require (not (c.is_module added))
      (ok (record c { modules = c.modules ++ added ∷ []; is_module = mark c.is_module added })))

unfoldable pub remove_module : Address → Address → Controller → Result Controller
unfolding remove
remove_module sender removed c = only_governance sender c (
    require (c.is_module removed) (do
      modules ← remove c.modules removed
      ok (record c { modules = modules; is_module = unmark c.is_module removed })))

module _ (zero_address : Address) where
  unfoldable pub add_resource : Address → Address → ℕ → Controller → Result Controller
  add_resource sender resource id c = only_governance sender c (
      require (not (c.is_resource resource)) (
        require (str_eq (c.resource_id id) zero_address) (
          ok (record c {
            resources = c.resources ++ resource ∷ [];
            is_resource = mark c.is_resource resource;
            resource_id = assign c.resource_id id resource;
          }))))

  unfoldable pub remove_resource : Address → ℕ → Controller → Result Controller
  unfolding remove
  remove_resource sender id c =
      let resource_to_remove = c.resource_id id in
      only_governance sender c (
        require (not (str_eq resource_to_remove zero_address)) (do
          resources ← remove c.resources resource_to_remove
          ok (record c {
            resources = resources;
            is_resource = unmark c.is_resource resource_to_remove;
            resource_id = assign c.resource_id id zero_address;
          })))

  unfoldable pub edit_fee_recipient : Address → Address → Controller → Result Controller
  edit_fee_recipient sender new_fee_recipient c = only_governance sender c (
      require (not (str_eq new_fee_recipient zero_address))
        (ok (record c { fee_recipient = new_fee_recipient })))

-- `fees[a][t] = percentage`
abbrev set_fee : (Address → ℕ → ℕ) → Address → ℕ → ℕ → Address → ℕ → ℕ
set_fee fees a t percentage b u =
    if str_eq b a then (if u == t then percentage else fees b u) else fees b u

unfoldable pub add_fee : Address → Address → ℕ → ℕ → Controller → Result Controller
add_fee sender charged fee_type percentage c = only_governance sender c (
    require (c.is_module charged) (
      require (c.fees charged fee_type == 0)
        (ok (record c { fees = set_fee c.fees charged fee_type percentage }))))

unfoldable pub edit_fee : Address → Address → ℕ → ℕ → Controller → Result Controller
edit_fee sender charged fee_type percentage c = only_governance sender c (
    require (c.is_module charged) (
      require (not (c.fees charged fee_type == 0))
        (ok (record c { fees = set_fee c.fees charged fee_type percentage }))))

-- `isSystemContract`, of the controller at an address.
unfoldable is_system_contract : Address → Address → Controller → Bool
is_system_contract this contract_address c =
    c.is_set contract_address
    || c.is_module contract_address
    || c.is_resource contract_address
    || c.is_factory contract_address
    || str_eq contract_address this
