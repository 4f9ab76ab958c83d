-- ===== src/System/Controller/Preserved.antt =====
-- contracts/protocol/Controller.sol: every call that succeeds keeps the lists, the mappings and the ids in
-- agreement.
use mathlib.Core.Path.{subst}
use set_protocol_v.Base.{◌≡◌, not, ok}
use set_protocol_v.Contracts.{Address}
use set_protocol_v.System.Controller.{Controller}
use set_protocol_v.System.Controller.Admin.{
  add_set, remove_set, add_factory, remove_factory, add_module, remove_module,
}
use set_protocol_v.System.Controller.Registered.{mark-IsRegistry}
use set_protocol_v.System.Controller.Steps.{
  WellFormed, require_ok, governed, false_of_not, removed, ok_same,
}

module _ (zero_address : Address) where
  pub add_set-WellFormed :
      (sender a : Address) (c d : Controller)
      → WellFormed zero_address c
      → add_set sender a c ≡ ok d
      → WellFormed zero_address d
  unfolding add_set
  add_set-WellFormed sender a c d wf runs =
      let (_, e1) = require_ok zero_address c.is_initialized _ d runs in
      let (_, e2) = require_ok zero_address (c.is_factory sender) _ d e1 in
      let (fresh, e) = require_ok zero_address (not (c.is_set a)) _ d e2 in
      subst (WellFormed zero_address) (ok_same zero_address e) (record {
        sets =
            mark-IsRegistry c.sets c.is_set a wf.sets
              (false_of_not zero_address (c.is_set a) fresh);
        factories = wf.factories;
        modules = wf.modules;
        resources = wf.resources;
        enabled = wf.enabled;
        unique = wf.unique;
      })

  pub remove_set-WellFormed :
      (sender a : Address) (c d : Controller)
      → WellFormed zero_address c
      → remove_set sender a c ≡ ok d
      → WellFormed zero_address d
  unfolding remove_set
  remove_set-WellFormed sender a c d wf runs =
      let (held, e) = governed zero_address sender c (c.is_set a) _ d runs in
      let (ys, same, kept) = removed zero_address c.sets c.is_set a _ d wf.sets held e in
      subst (WellFormed zero_address) same (record {
        sets = kept;
        factories = wf.factories;
        modules = wf.modules;
        resources = wf.resources;
        enabled = wf.enabled;
        unique = wf.unique;
      })

  pub add_factory-WellFormed :
      (sender a : Address) (c d : Controller)
      → WellFormed zero_address c
      → add_factory sender a c ≡ ok d
      → WellFormed zero_address d
  unfolding add_factory
  add_factory-WellFormed sender a c d wf runs =
      let (fresh, e) = governed zero_address sender c (not (c.is_factory a)) _ d runs in
      subst (WellFormed zero_address) (ok_same zero_address e) (record {
        sets = wf.sets;
        factories =
            mark-IsRegistry c.factories c.is_factory a wf.factories
              (false_of_not zero_address (c.is_factory a) fresh);
        modules = wf.modules;
        resources = wf.resources;
        enabled = wf.enabled;
        unique = wf.unique;
      })

  pub remove_factory-WellFormed :
      (sender a : Address) (c d : Controller)
      → WellFormed zero_address c
      → remove_factory sender a c ≡ ok d
      → WellFormed zero_address d
  unfolding remove_factory
  remove_factory-WellFormed sender a c d wf runs =
      let (held, e) = governed zero_address sender c (c.is_factory a) _ d runs in
      let (ys, same, kept) =
        removed zero_address c.factories c.is_factory a _ d wf.factories held e in
      subst (WellFormed zero_address) same (record {
        sets = wf.sets;
        factories = kept;
        modules = wf.modules;
        resources = wf.resources;
        enabled = wf.enabled;
        unique = wf.unique;
      })

  pub add_module-WellFormed :
      (sender a : Address) (c d : Controller)
      → WellFormed zero_address c
      → add_module sender a c ≡ ok d
      → WellFormed zero_address d
  unfolding add_module
  add_module-WellFormed sender a c d wf runs =
      let (fresh, e) = governed zero_address sender c (not (c.is_module a)) _ d runs in
      subst (WellFormed zero_address) (ok_same zero_address e) (record {
        sets = wf.sets;
        factories = wf.factories;
        modules =
            mark-IsRegistry c.modules c.is_module a wf.modules
              (false_of_not zero_address (c.is_module a) fresh);
        resources = wf.resources;
        enabled = wf.enabled;
        unique = wf.unique;
      })

  pub remove_module-WellFormed :
      (sender a : Address) (c d : Controller)
      → WellFormed zero_address c
      → remove_module sender a c ≡ ok d
      → WellFormed zero_address d
  unfolding remove_module
  remove_module-WellFormed sender a c d wf runs =
      let (held, e) = governed zero_address sender c (c.is_module a) _ d runs in
      let (ys, same, kept) = removed zero_address c.modules c.is_module a _ d wf.modules held e in
      subst (WellFormed zero_address) same (record {
        sets = wf.sets;
        factories = wf.factories;
        modules = kept;
        resources = wf.resources;
        enabled = wf.enabled;
        unique = wf.unique;
      })
