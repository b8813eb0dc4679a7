-- ===== src/Rfit/System/Range.antt =====
-- The count of free places stays a count: an `Iptr` that is not negative.
use tpfaas.Base.{subst, sym, ℕ, ◌-◌, ◌^◌, ◌≤◌, ◌≡◌, [], arith, ℤ, pos, ◌≤ℤ◌, -ℤ_parts}
use tpfaas.Wavm.{HashMap}
use tpfaas.Rfit.Function.{F, add_i2f, to_iptr}
use tpfaas.Rfit.Function.Capacity.{scale_cap_inv, try_scale_down_cap-true, try_scale_down_cap-false}
use tpfaas.Rfit.Task.Fetch.{fetch_i-Takes}
use tpfaas.Rfit.Task.Leave.{leave_from_f_inv}
use tpfaas.Rfit.System.Defs.{
  System, Step, request, take_place, no_place, add_places, start, wake, fetch, leave, finish, Reach,
  begin, next_step,
}
use tpfaas.Rfit.System.Reachable.{Reach-Inv, Inv-IsPlaced}

abbrev pub IsCount : ℤ → Type 0
IsCount z = (pos 0 ≤ℤ z) × (z ≤ℤ pos (2 ^ 63 - 1))

pub zero-IsCount : (z : ℤ) → z ≡ pos 0 → IsCount z
zero-IsCount z e = subst IsCount (sym e) (omega arith, omega arith)

module _ (hm : HashMap ℕ) (h : ℕ → ℕ) (fp : ℕ) (f0 : F) (concurrent : 2 ≤ f0.concurrency_limit)
    (small : f0.concurrency_limit ≤ 2 ^ 63) (injective : (i j : ℕ) → h i ≡ h j → i ≡ j)
    (empty : f0.global_i_queue.mq ≡ []) where
  Step-IsCount :
      {s u : System hm}
      → Reach hm h fp f0 s
      → Step hm h fp s u
      → IsCount s.f.rest_cap
      → IsCount u.f.rest_cap
  unfolding add_i2f
  Step-IsCount r (request _) z = z
  Step-IsCount {s} r (take_place {f1} _ e) z =
      let (same, enough) = try_scale_down_cap-true s.f f1 1 e in
      rw same (
        omega (arith, z.0, -ℤ_parts s.f.rest_cap (pos 1)),
        omega (arith, z.1, -ℤ_parts s.f.rest_cap (pos 1)),
      )
  Step-IsCount {s} r (no_place {f1} _ e) z = rw ((try_scale_down_cap-false s.f f1 1 e).0) z
  Step-IsCount {s} r (add_places {c} {f1} _ e) z =
      let (same, left, top) = scale_cap_inv s.f (to_iptr (s.f.concurrency_limit - 1)) c f1 e in
      rw same (left, top)
  Step-IsCount r (start _ _) z = z
  Step-IsCount r (wake _ _ _ _) z = z
  Step-IsCount {s} r (fetch k {i} {t1} {f1} lt _ e) z =
      let placed =
        Inv-IsPlaced hm h fp f0 concurrent small injective s k
          (Reach-Inv hm h fp f0 concurrent small injective empty r) lt in
      rw ((fetch_i-Takes hm h injective (s.workers k).t s.f i t1 f1 placed e).cap) z
  Step-IsCount {s} r (leave k {f1} _ _ e) z =
      let v = Reach-Inv hm h fp f0 concurrent small injective empty r in
      let (same, left, top) =
        leave_from_f_inv hm (s.workers k).t s.f f1 (omega (arith, v.limit)) (omega (arith, v.limit))
          e in
      (left, top)
  Step-IsCount {s} r (finish k {c} {f1} _ _ e) z =
      let (same, left, top) = scale_cap_inv s.f (pos 1) c f1 e in rw same (left, top)

  pub Reach-IsCount :
      {s : System hm} → Reach hm h fp f0 s → IsCount f0.rest_cap → IsCount s.f.rest_cap
  Reach-IsCount begin z = z
  Reach-IsCount (next_step r st) z = Step-IsCount r st (Reach-IsCount r z)
