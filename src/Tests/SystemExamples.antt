-- ===== src/Tests/SystemExamples.antt =====
-- The theorems on the system at the runs of `Runs`.
use tpfaas.Base.{
  ℕ, ◌+◌, ◌-◌, ◌≤◌, ◌<◌, ◌≡◌, ◌≢◌, ◌↔◌, ◌⊎◌, refl, [], ◌∷◌, ◌++◌, Bool, arith, sum_by, is_at, count,
  pos, negsuc, ok, fault, assert_failed, ◌+ℤ◌,
}
use tpfaas.Rfit.Function.{F, try_scale_down_cap, null}
use tpfaas.Rfit.Task.{T, fetch_i, leave_from_f}
use tpfaas.Rfit.System.{Reach}
use tpfaas.Rfit.System.Totals.{total}
use tpfaas.Rfit.System.Invariant.{place_of, outstanding, supplied, pending}
use tpfaas.Rfit.System.Safety.{one_place, places_balance, runs_once, leave_iff, fetch_returns}
use tpfaas.Rfit.System.Returns.{Scales, others_return}
use tpfaas.Rfit.System.Range.{IsCount}
use tpfaas.Rfit.System.Races.{late_request, requested}
use tpfaas.Tests.Runs.{hm, hash, f0, served, running_first}

one_place_example :
    sum_by (is_at 1) (served.0).f.global_i_queue.mq
      + total (place_of hm (is_at 1)) (served.0).count (served.0).workers
      + count 1 (served.0).released
    ≡ 1
unfolding served
one_place_example =
    one_place hm hash 9 f0 (omega arith) (omega arith) (λ i j e. e) refl (served.0) (served.1) 1

places_balance_example :
    (running_first.0).f.rest_cap +ℤ pos (outstanding hm (λ _. 1) (running_first.0))
    ≡ pos 0 +ℤ pos (supplied hm (running_first.0) + pending 4 (running_first.0).client)
unfolding running_first
places_balance_example =
    places_balance hm hash 9 f0 (omega arith) (omega arith) (λ i j e. e) refl (running_first.0)
      (running_first.1)

runs_once_example :
    (◌≡◌ {A = ℕ} 0 0)
    × (count 1 (running_first.0).released ≡ 0)
    × (count 1 (running_first.0).f.global_i_queue.mq ≡ 0)
unfolding running_first
runs_once_example =
    runs_once hm hash 9 f0 (omega arith) (omega arith) (λ i j e. e) refl (running_first.0) 0 0 1
      (running_first.1) (omega arith) (omega arith) refl refl

leave_iff_example :
    ((leave_from_f hm ((served.0).workers 0).t (served.0).f
        ≡ ok (record ((served.0).f) {
          rest_cap = (served.0).f.rest_cap +ℤ negsuc ((served.0).f.concurrency_limit - 1);
        }))
      ↔ (outstanding hm (λ _. 1) (served.0) + (served.0).f.concurrency_limit
          ≤ supplied hm (served.0) + pending (served.0).f.concurrency_limit (served.0).client))
    × ((leave_from_f hm ((served.0).workers 0).t (served.0).f ≡ fault assert_failed) ↔ (
        supplied hm (served.0) + pending (served.0).f.concurrency_limit (served.0).client
        < outstanding hm (λ _. 1) (served.0) + (served.0).f.concurrency_limit))
leave_iff_example =
    leave_iff hm hash 9 f0 (omega arith) (omega arith) (λ i j e. e) refl (served.0) 0 (served.1)
      (λ e. omega arith) refl

fetch_returns_example :
    (i : ℕ) × (t1 : T hm) × (f1 : F) × (fetch_i hm hash ((served.0).workers 0).t (served.0).f
      ≡ ok (i, t1, f1))
    × ((i ≢ null) ⊎ ((f1.global_i_queue.mq ≡ []) × (hm.entries t1.local_i_map ≡ [])))
unfolding served
fetch_returns_example =
    fetch_returns hm hash 9 f0 (omega arith) (omega arith) (λ i j e. e) refl (served.0) 0 (served.1)
      (omega arith)

others_return_example :
    IsCount (served.0).f.rest_cap
    × ((b : Bool) × (f1 : F) × (try_scale_down_cap (served.0).f (pos 1) ≡ ok (b, f1)))
    × Scales (served.0).f ((served.0).f.concurrency_limit - 1)
    × Scales (served.0).f 1
others_return_example =
    others_return hm hash 9 f0 (omega arith) (omega arith) (λ i j e. e) refl (served.0) (served.1)
      (omega arith, omega arith)

late_request_example :
    let u = requested hm (served.0) in
    Reach hm hash 9 f0 u
    × (u.workers ≡ (served.0).workers)
    × (u.f.global_i_queue.mq ≡ (served.0).f.global_i_queue.mq ++ (served.0).next ∷ [])
    × (leave_from_f hm (u.workers 0).t u.f ≡ fault assert_failed)
unfolding served total
late_request_example =
    late_request hm hash 9 f0 (omega arith) (omega arith) (λ i j e. e) refl (served.0) 0 (served.1)
      refl refl refl refl refl
