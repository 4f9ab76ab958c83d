-- ===== src/System/Controller.antt =====
-- contracts/protocol/Controller.sol: the storage, and `initialize`, which registers the predeployed
-- contracts.
pub mod Arrays
pub mod Admin
pub mod Registered
pub mod Steps
pub mod Resources
pub mod Preserved
pub mod Initial
pub mod Invariant
mod Tests
use set_protocol_v.Base.{
  ℕ, Bool, true, ◌==◌, if◌then◌else◌, List, [], ◌∷◌, length, Result, ok, err, reverted, ◌>>=◌,
}
use set_protocol_v.Js.{str_eq}
use set_protocol_v.Contracts.{Address}

-- The storage; `owner` is that of Ownable.
pub record Controller : Type 0 where
  pub owner : Address
  pub sets : List Address
  pub factories : List Address
  pub modules : List Address
  pub resources : List Address
  pub is_set : Address → Bool
  pub is_factory : Address → Bool
  pub is_module : Address → Bool
  pub is_resource : Address → Bool
  pub fees : Address → ℕ → ℕ
  pub resource_id : ℕ → Address
  pub fee_recipient : Address
  pub is_initialized : Bool

-- `m[a] = true`
abbrev pub mark : (Address → Bool) → Address → Address → Bool
mark m a b = if str_eq b a then true else m b

-- `m[i] = a`
abbrev pub assign : (ℕ → Address) → ℕ → Address → ℕ → Address
assign m i a j = if j == i then a else m j

module _ (zero_address : Address) where
  -- The first loop and the second: every address is marked, unless it is zero.
  unfoldable pub mark_all : List Address → (Address → Bool) → Result (Address → Bool)
  mark_all [] m = ok m
  mark_all (a ∷ rest) m =
      let marked = mark_all rest (mark m a) in
      if str_eq a zero_address then err reverted else marked

  -- The third loop.
  unfoldable pub register_resources :
      List Address
      → List ℕ
      → (Address → Bool)
      → (ℕ → Address)
      → Result ((Address → Bool) × (ℕ → Address))
  register_resources [] ids m by_id = ok (m, by_id)
  register_resources (a ∷ rest) [] m by_id = err reverted
  register_resources (a ∷ rest) (i ∷ ids) m by_id =
      let registered = register_resources rest ids (mark m a) (assign by_id i a) in
      if str_eq a zero_address
      then err reverted
      else if str_eq (by_id i) zero_address
      then registered
      else err reverted

  -- `initialize`, called by `sender`.
  unfoldable pub initialize_controller :
      Address → List Address → List Address → List Address → List ℕ → Controller → Result Controller
  unfolding mark_all register_resources
  initialize_controller sender factories modules resources resource_ids c =
      let run = (do
        is_factory ← mark_all factories c.is_factory
        is_module ← mark_all modules c.is_module
        (is_resource, resource_id) ←
            register_resources resources resource_ids c.is_resource c.resource_id
        ok (record c {
          factories = factories;
          modules = modules;
          resources = resources;
          is_factory = is_factory;
          is_module = is_module;
          is_resource = is_resource;
          resource_id = resource_id;
          is_initialized = true;
        })) in
      if str_eq sender c.owner
      then if c.is_initialized
        then err reverted
        else if length resources == length resource_ids
        then run
        else err reverted
      else err reverted
