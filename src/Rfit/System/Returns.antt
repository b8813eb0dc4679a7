-- ===== src/Rfit/System/Returns.antt =====
-- What `tryScaleDownCap` and `scaleCap` do where requests come and instances end.
use tpfaas.Base.{
  ℕ, ◌-◌, ◌^◌, ◌≤◌, ◌<◌, ◌↔◌, fault, overflow, ◌≡◌, Bool, true, [], arith, ok, ℤ, pos, ◌+ℤ◌, ◌≤ℤ◌,
  +ℤ_parts,
}
use tpfaas.Wavm.{HashMap}
use tpfaas.Rfit.Function.{F, is_concurrency, try_scale_down_cap, scale_cap, to_iptr}
use tpfaas.Rfit.Function.Capacity.{
  scale_cap_ok, scale_cap_overflow, scale_cap_inv, try_scale_down_cap_returns, to_iptr_small,
}
use tpfaas.Rfit.System.Defs.{System, Reach}
use tpfaas.Rfit.System.Safety.{inv}
use tpfaas.Rfit.System.Range.{IsCount, Reach-IsCount}

is_concurrency_of_le : (f : F) → 2 ≤ f.concurrency_limit → is_concurrency f ≡ true
unfolding is_concurrency
is_concurrency_of_le f h = ground arith

-- That `scaleCap` with a number returns exactly if the count stays an `Iptr`, and overflows otherwise.
abbrev pub Scales : F → ℕ → Type 0
Scales f n =
    (((c : ℤ) × (f1 : F) × (scale_cap f (to_iptr n) ≡ ok (c, f1)))
      ↔ (f.rest_cap +ℤ pos n ≤ℤ pos (2 ^ 63 - 1)))
    × ((scale_cap f (to_iptr n) ≡ fault overflow) ↔ ¬ (f.rest_cap +ℤ pos n ≤ℤ pos (2 ^ 63 - 1)))

ok_not_fault :
    (f : F) (z c : ℤ) (f1 : F) → scale_cap f z ≡ ok (c, f1) → scale_cap f z ≡ fault overflow → ⊥
ok_not_fault f z c f1 e g = cc

scales_lem :
    (f : F) (n : ℕ) → is_concurrency f ≡ true → pos 0 ≤ℤ f.rest_cap → n < 2 ^ 63 → Scales f n
scales_lem f n c z small =
    let fits = to_iptr_small n small in
    let grows = +ℤ_parts f.rest_cap (pos n) in
    let returns : (f.rest_cap +ℤ pos n ≤ℤ pos (2 ^ 63 - 1))
        → scale_cap f (pos n)
          ≡ ok (f.rest_cap +ℤ pos n, record f { rest_cap = f.rest_cap +ℤ pos n }) =
      λ le. scale_cap_ok f (pos n) c (omega (arith, grows)) le in
    rw fits (
      (λ x. (scale_cap_inv f (pos n) x.0 x.1 x.2).2, λ le. (_, _, returns le)),
      (λ e. λ le. ok_not_fault f (pos n) _ _ (returns le) e, scale_cap_overflow f (pos n) c),
    )

module _ (hm : HashMap ℕ) (h : ℕ → ℕ) (fp : ℕ) (f0 : F) (concurrent : 2 ≤ f0.concurrency_limit)
    (small : f0.concurrency_limit ≤ 2 ^ 63) (injective : (i j : ℕ) → h i ≡ h j → i ≡ j)
    (empty : f0.global_i_queue.mq ≡ []) where
  -- For a function with a limit from 2 to 2^63, an empty queue at first and distinct hashes of
  -- instances, in every state that the requests and the threads reach: where the count began as an
  -- `Iptr` from 0 on, it is one. `tryScaleDownCap(1)` of `make_request` returns; and `scaleCap` of
  -- `make_request`, with one less than the limit, and of the end of an instance, with 1, each return
  -- exactly if the sum of the count and this number is below 2^63, and overflow exactly if it is not:
  -- their assertion does not fail.
  pub others_return :
      (s : System hm)
      → Reach hm h fp f0 s
      → IsCount f0.rest_cap
      → IsCount s.f.rest_cap
        × ((b : Bool) × (f1 : F) × (try_scale_down_cap s.f (pos 1) ≡ ok (b, f1)))
        × Scales s.f (s.f.concurrency_limit - 1)
        × Scales s.f 1
  others_return s r below =
      let v = inv hm h fp f0 concurrent small injective empty r in
      let z = Reach-IsCount hm h fp f0 concurrent small injective empty r below in
      let c = is_concurrency_of_le s.f (omega (arith, v.limit)) in
      (
        z,
        try_scale_down_cap_returns s.f 1 c,
        scales_lem s.f (s.f.concurrency_limit - 1) c z.0 (omega (arith, v.limit)),
        scales_lem s.f 1 c z.0 (omega arith),
      )
