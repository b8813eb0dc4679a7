-- ===== src/Rfit/Task/Leave.antt =====
-- `leaveFromF_safe`: the count of free places falls by the limit, and may not fall below zero.
use tpfaas.Base.{
  ℕ, ◌-◌, ◌^◌, ◌≤◌, ◌≡◌, ◌≢◌, arith, pos, negsuc, ◌+ℤ◌, ◌≤ℤ◌, ok, fault, assert_failed,
}
use tpfaas.Wavm.{HashMap}
use tpfaas.Rfit.Function.{F, null, is_concurrency, scale_cap, is_iptr}
use tpfaas.Rfit.Function.Capacity.{to_iptr-negate}
use tpfaas.Rfit.Task.{T, leave_from_f}

module _ (hm : HashMap ℕ) where
  -- For a concurrent function whose limit and count fit an `Iptr`, the thread leaves exactly if there are as
  -- many free places as it supplies; otherwise the assertion of `scaleCap` fails.
  pub leave_from_f_ok :
      (t : T hm) (f : F)
      → t.work_for ≢ null
      → 2 ≤ f.concurrency_limit
      → f.concurrency_limit ≤ 2 ^ 63
      → pos f.concurrency_limit ≤ℤ f.rest_cap
      → f.rest_cap ≤ℤ pos (2 ^ 63 - 1)
      → leave_from_f hm t f
        ≡ ok (record f { rest_cap = f.rest_cap +ℤ negsuc (f.concurrency_limit - 1) })
  unfolding leave_from_f is_concurrency scale_cap is_iptr
  leave_from_f_ok t f some two le h below = ground (arith, to_iptr-negate f.concurrency_limit)

  pub leave_from_f_fault :
      (t : T hm) (f : F)
      → 2 ≤ f.concurrency_limit
      → f.concurrency_limit ≤ 2 ^ 63
      → ¬ (pos f.concurrency_limit ≤ℤ f.rest_cap)
      → pos 0 ≤ℤ f.rest_cap
      → leave_from_f hm t f ≡ fault assert_failed
  unfolding leave_from_f is_concurrency scale_cap is_iptr
  leave_from_f_fault t f two le h above = ground (arith, to_iptr-negate f.concurrency_limit)

  pub leave_from_f_inv :
      (t : T hm) (f f1 : F)
      → 2 ≤ f.concurrency_limit
      → f.concurrency_limit ≤ 2 ^ 63
      → leave_from_f hm t f ≡ ok f1
      → (f1 ≡ record f { rest_cap = f.rest_cap +ℤ negsuc (f.concurrency_limit - 1) })
        × (pos 0 ≤ℤ f1.rest_cap)
        × (f1.rest_cap ≤ℤ pos (2 ^ 63 - 1))
  unfolding leave_from_f is_concurrency scale_cap is_iptr
  leave_from_f_inv t f f1 two le e = ground (arith, to_iptr-negate f.concurrency_limit)
