-- ===== src/Rfit/World/Registry.antt =====
-- The two caches: `R::getUniqueR` and `R::getRCount` of src/RFIT/R/resource.cpp, `F::getF`,
-- `F::registerF` and the constructor of `F` in src/RFIT/F/function.cpp. The second look under the
-- exclusive lock meets the map as the first one left it, or as another thread's registration did.
use tpfaas.Base.{
  ℕ, suc, not, String, [], ◌∷◌, ◌++◌, Option, none, some, Outcome, ok, ◌>>◌, assert, ◌==◌,
}
use tpfaas.Utils.Queue
use tpfaas.Wavm.{map_size}
use tpfaas.Rfit.Function.{null, new_f}
use tpfaas.Rfit.Resource.{R, Resource}
use tpfaas.Rfit.World.{Platform, World, set_f, set_r}

-- `f ? *f : nullptr`
abbrev pub or_null : Option ℕ → ℕ
or_null none = null
or_null (some f) = f

module _ (p : Platform) where
  -- the constructor of `R`
  unfoldable pub new_r : Resource → R p.hm
  new_r res = record {
    r = res;
    functions = [];
    idle_task = Queue.new_queue;
    busy_task = p.hm.empty;
  }

  -- `R::getUniqueR`
  unfoldable pub get_unique_r : World p → Resource → ℕ × World p
  get_unique_r w res = elim (p.hm.get w.resource_map res.hash) [
    | some r ↦ (r, w)
    | none ↦ (
      w.next,
      record (set_r p w w.next (new_r res)) {
        resource_map = p.hm.add w.resource_map res.hash w.next;
        next = suc w.next;
      },
    )
  ]

  -- `R::getRCount`
  unfoldable pub get_r_count : World p → ℕ
  get_r_count w = map_size p.hm w.resource_map

  -- `F::getF`: the null pointer if nothing is registered under the name
  unfoldable pub get_f : World p → String → ℕ
  get_f w function_name = or_null (p.sm.get w.function_map function_name)

  -- `new F(...)`: the record of the limits is found or made, and the function is added to it.
  unfoldable pub construct_f : World p → String → ℕ → Resource → ℕ → ℕ × World p
  construct_f w function_name entry_addr res concurrency_limit =
      let (ra, w1) = get_unique_r w res in
      let fa = w1.next in
      let f = new_f function_name entry_addr ra concurrency_limit (p.uninitialised fa) in
      let r = w1.resources ra in
      let r1 = record r { functions = r.functions ++ fa ∷ [] } in
      (fa, record (set_r p (set_f p w1 fa f) ra r1) { next = suc fa })

  -- `F::registerF`
  unfoldable pub register_f : World p → String → ℕ → Resource → ℕ → Outcome (World p)
  register_f w function_name entry_addr res concurrency_limit =
      elim (p.sm.get w.function_map function_name) [
        | some _ ↦ ok w
        | none ↦ do
          assert (not (entry_addr == null))
          let (fa, w1) = construct_f w function_name entry_addr res concurrency_limit
          ok (record w1 { function_map = p.sm.add w1.function_map function_name fa })
      ]
