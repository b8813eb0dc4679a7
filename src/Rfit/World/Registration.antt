-- ===== src/Rfit/World/Registration.antt =====
-- What the registration of a function leaves in the two caches.
use tpfaas.Base.{
  ℕ, ◌≡◌, ◌≢◌, ap, ◌∙◌, inl, inr, String, [], ◌∷◌, ◌++◌, none, some, arith, ok, Option-cases,
}
use tpfaas.Rfit.Function.{null, new_f}
use tpfaas.Rfit.Resource.{Resource}
use tpfaas.Rfit.World.{Platform, World}
use tpfaas.Rfit.World.Registry.{get_unique_r, get_f, register_f, construct_f, or_null}

module _ (p : Platform) where
  -- There is one `R` for each hash of limits: once there is one, limits of that hash get it again,
  -- and nothing changes.
  pub get_unique_r_again :
      (w : World p) (res other : Resource)
      → other.hash ≡ res.hash
      → let (ra, w1) = get_unique_r p w res in get_unique_r p w1 other ≡ (ra, w1)
  unfolding get_unique_r
  get_unique_r_again w res other same = elim (Option-cases (p.hm.get w.resource_map res.hash)) [
    | inl e ↦
        rw (same, e, get_unique_r) (ground (arith, p.hm.get_add w.resource_map res.hash w.next e))
    | inr (r, e) ↦ rw (same, e, get_unique_r) (ground arith)
  ]

  -- The constructor of `F` leaves the table of functions as it was.
  construct_f-function_map :
      (w : World p) (name : String) (entry : ℕ) (res : Resource) (limit : ℕ)
      → (construct_f p w name entry res limit).1.function_map ≡ w.function_map
  unfolding construct_f get_unique_r
  construct_f-function_map w name entry res limit = ground arith

  -- The new function has the given parts, its `R` is the one that the table of resources holds for
  -- its limits, and this `R` lists the function last.
  construct_f_lem :
      (w : World p) (name : String) (entry : ℕ) (res : Resource) (limit : ℕ)
      → let (fa, w1) = construct_f p w name entry res limit in
        let ra = (w1.functions fa).r in
        (w1.functions fa ≡ new_f name entry ra limit (p.uninitialised fa))
        × (p.hm.get w1.resource_map res.hash ≡ some ra)
        × ((w1.resources ra).functions
            ≡ ((get_unique_r p w res).1.resources ra).functions ++ fa ∷ [])
  unfolding construct_f new_f get_unique_r
  construct_f_lem w name entry res limit = elim (Option-cases (p.hm.get w.resource_map res.hash)) [
    | inl e ↦ ground (arith, p.hm.get_add w.resource_map res.hash w.next e)
    | inr (r, e) ↦ ground arith
  ]

  -- The first registration under a name, with an entry point, succeeds; the function that `getF`
  -- then finds has the given parts, its `R` is that of its limits and lists it last, and every
  -- other name leads where it led before.
  pub register_f_first :
      (w : World p) (name : String) (entry : ℕ) (res : Resource) (limit : ℕ) (other : String)
      → p.sm.get w.function_map name ≡ none
      → entry ≢ null
      → name ≢ other
      → (w1 : World p) × (register_f p w name entry res limit ≡ ok w1)
        × (let f = w1.functions (get_f p w1 name) in
            (f ≡ new_f name entry f.r limit (p.uninitialised (get_f p w1 name)))
            × (p.hm.get w1.resource_map res.hash ≡ some f.r)
            × ((w1.resources f.r).functions
                ≡ ((get_unique_r p w res).1.resources f.r).functions ++ get_f p w1 name ∷ []))
        × (get_f p w1 other ≡ get_f p w other)
  unfolding register_f get_f
  register_f_first w name entry res limit other free some_entry apart =
      let c = construct_f p w name entry res limit in
      let w1 = record (c.1) { function_map = p.sm.add c.1.function_map name c.0 } in
      let same = construct_f-function_map w name entry res limit in
      let absent = ap (λ (m : p.sm.Map). p.sm.get m name) same ∙ free in
      let found = p.sm.get_add c.1.function_map name c.0 absent in
      (
        w1,
        rw (free, register_f) (ground arith),
        rw (found, get_f) (construct_f_lem w name entry res limit),
        ap or_null (
            p.sm.get_add_ne c.1.function_map name other c.0 apart
            ∙ ap (λ (m : p.sm.Map). p.sm.get m other) same),
      )

  -- A second registration under a name changes nothing, whatever it is given.
  pub register_f_again :
      (w w1 : World p) (name : String) (entry entry' : ℕ) (res res' : Resource) (limit limit' : ℕ)
      → register_f p w name entry res limit ≡ ok w1
      → register_f p w1 name entry' res' limit' ≡ ok w1
  unfolding register_f
  register_f_again w w1 name entry entry' res res' limit limit' e =
      elim (Option-cases (p.sm.get w.function_map name)) [
        | inl free ↦
            let c = construct_f p w name entry res limit in
            let same = construct_f-function_map w name entry res limit in
            let absent = ap (λ (m : p.sm.Map). p.sm.get m name) same ∙ free in
            ground (arith, p.sm.get_add c.1.function_map name c.0 absent)
        | inr (f, there) ↦ ground arith
      ]
