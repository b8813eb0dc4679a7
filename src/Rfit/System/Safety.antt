-- ===== src/Rfit/System/Safety.antt =====
-- What holds in every state that the requests and the threads can reach.
use tpfaas.Base.{
  ℕ, ◌+◌, ◌-◌, ◌^◌, ◌≤◌, ◌<◌, ◌≡◌, sym, ap, ◌∙◌, ◌⊎◌, ◌≢◌, ◌↔◌, inl, inr, [], arith, sum_by, count,
  is_at, ok, fault, assert_failed, pos, negsuc, ◌+ℤ◌, int_laws, ℕ_discrete, eq-nil_of_length,
}
use tpfaas.Wavm.{HashMap}
use tpfaas.Rfit.Function.{F, null}
use tpfaas.Rfit.Task.{T, fetch_i, leave_from_f}
use tpfaas.Rfit.Task.Fetch.{fetch_i-Fetches}
use tpfaas.Rfit.Task.Leave.{leave_from_f_ok, leave_from_f_fault}
use tpfaas.Rfit.System.Totals.{total, le-total, two-le-total}
use tpfaas.Rfit.System.Defs.{running, System, Reach}
use tpfaas.Rfit.System.Invariant.{Inv, run_weight, pending, made, place_of, outstanding, supplied}
use tpfaas.Rfit.System.Range.{zero-IsCount, Reach-IsCount}
use tpfaas.Rfit.System.Reachable.{Reach-Inv, Inv-IsPlaced}

module _ (hm : HashMap ℕ) (h : ℕ → ℕ) (fp : ℕ) (f0 : F) (concurrent : 2 ≤ f0.concurrency_limit)
    (small : f0.concurrency_limit ≤ 2 ^ 63) (injective : (i j : ℕ) → h i ≡ h j → i ≡ j)
    (empty : f0.global_i_queue.mq ≡ []) where
  pub inv : {s : System hm} → Reach hm h fp f0 s → Inv hm h fp f0 s
  inv r = Reach-Inv hm h fp f0 concurrent small injective empty r

  -- For a function with a limit from 2 to 2^63, an empty queue at first and distinct hashes of
  -- instances, in every state that the requests and the threads reach: every instance that has
  -- been made is at exactly one place: in the global queue, in one thread's local map, run by one
  -- thread, or released; an address that was given to none is nowhere.
  pub one_place :
      (s : System hm)
      → Reach hm h fp f0 s
      → (x : ℕ)
      → sum_by (is_at x) s.f.global_i_queue.mq
          + total (place_of hm (is_at x)) s.count s.workers
          + count x s.released
        ≡ made s.next x
  one_place s r x = (inv r).exact x

  -- For a function with a limit from 2 to 2^63, an empty queue at first and distinct hashes of
  -- instances, in every state that the requests and the threads reach: the free places and the
  -- instances that are not yet released make up, with what the count held in memory at first, the
  -- places that the attached threads supply and those that `make_request` is about to settle.
  pub places_balance :
      (s : System hm)
      → Reach hm h fp f0 s
      → s.f.rest_cap +ℤ pos (outstanding hm (λ _. 1) s)
        ≡ f0.rest_cap +ℤ pos (supplied hm s + pending s.f.concurrency_limit s.client)
  places_balance s r = omega (int_laws, (inv r).balance)

  run_counts :
      (s : System hm) (k i : ℕ)
      → (s.workers k).pc ≡ running i
      → 1 ≤ place_of hm (is_at i) (s.workers k)
  run_counts s k i e = ground (arith, ap (run_weight (is_at i)) e)

  two_run :
      (s : System hm) (j k i : ℕ)
      → Reach hm h fp f0 s
      → j < k
      → k < s.count
      → (s.workers j).pc ≡ running i
      → (s.workers k).pc ≡ running i
      → ⊥
  two_run s j k i r lt below p q = ground (
    arith,
    (inv r).exact i,
    run_counts s j i p,
    run_counts s k i q,
    two-le-total (place_of hm (is_at i)) s.count s.workers j k lt below,
  )

  -- For a function with a limit from 2 to 2^63, an empty queue at first and distinct hashes of
  -- instances, in every state that the requests and the threads reach: no instance is run by two
  -- threads, and none that runs has been deleted or waits in the queue.
  pub runs_once :
      (s : System hm) (j k i : ℕ)
      → Reach hm h fp f0 s
      → j < s.count
      → k < s.count
      → (s.workers j).pc ≡ running i
      → (s.workers k).pc ≡ running i
      → (j ≡ k) × (count i s.released ≡ 0) × (count i s.f.global_i_queue.mq ≡ 0)
  runs_once s j k i r lj lk p q = (
    ground (
      arith,
      (λ (a : j < k). two_run s j k i r a lk p q),
      (λ (a : k < j). two_run s k j i r a lj q p),
    ),
    ground (
      arith,
      (inv r).exact i,
      run_counts s j i p,
      le-total (place_of hm (is_at i)) s.count s.workers j lj,
    ),
    ground (
      arith,
      (inv r).exact i,
      run_counts s j i p,
      le-total (place_of hm (is_at i)) s.count s.workers j lj,
    ),
  )

  leave_fits :
      (s : System hm) (k : ℕ)
      → Reach hm h fp f0 s
      → fp ≢ null
      → f0.rest_cap ≡ pos 0
      → outstanding hm (λ _. 1) s + s.f.concurrency_limit
        ≤ supplied hm s + pending s.f.concurrency_limit s.client
      → leave_from_f hm (s.workers k).t s.f
        ≡ ok (record (s.f) { rest_cap = s.f.rest_cap +ℤ negsuc (s.f.concurrency_limit - 1) })
  leave_fits s k r some_f zero_cap fits =
      let v = inv r in
      leave_from_f_ok hm (s.workers k).t s.f (λ e. some_f (sym (v.works k) ∙ e))
        (omega (arith, v.limit)) (omega (arith, v.limit)) (ground (arith, v.balance, zero_cap))
        (Reach-IsCount hm h fp f0 concurrent small injective empty r
          (zero-IsCount f0.rest_cap zero_cap)).1

  pub leave_tight :
      (s : System hm) (k : ℕ)
      → Reach hm h fp f0 s
      → f0.rest_cap ≡ pos 0
      → supplied hm s + pending s.f.concurrency_limit s.client
        < outstanding hm (λ _. 1) s + s.f.concurrency_limit
      → leave_from_f hm (s.workers k).t s.f ≡ fault assert_failed
  leave_tight s k r zero_cap tight =
      let v = inv r in
      leave_from_f_fault hm (s.workers k).t s.f (omega (arith, v.limit)) (omega (arith, v.limit))
        (λ fits. ground (arith, v.balance, zero_cap))
        (Reach-IsCount hm h fp f0 concurrent small injective empty r
          (zero-IsCount f0.rest_cap zero_cap)).0

  -- For a function with a limit from 2 to 2^63, an empty queue at first and distinct hashes of
  -- instances, in every state that the requests and the threads reach: where the count began at 0,
  -- `leaveFromF_safe` on any thread returns exactly if the instances that are not yet released and
  -- one limit come to no more than the places that the attached threads supply with those that
  -- `make_request` is about to settle, and the assertion of `scaleCap` fails exactly if they come
  -- to more.
  pub leave_iff :
      (s : System hm) (k : ℕ)
      → Reach hm h fp f0 s
      → fp ≢ null
      → f0.rest_cap ≡ pos 0
      → ((leave_from_f hm (s.workers k).t s.f
            ≡ ok (record (s.f) { rest_cap = s.f.rest_cap +ℤ negsuc (s.f.concurrency_limit - 1) }))
          ↔ (outstanding hm (λ _. 1) s + s.f.concurrency_limit
              ≤ supplied hm s + pending s.f.concurrency_limit s.client))
        × ((leave_from_f hm (s.workers k).t s.f ≡ fault assert_failed) ↔ (
            supplied hm s + pending s.f.concurrency_limit s.client
            < outstanding hm (λ _. 1) s + s.f.concurrency_limit))
  leave_iff s k r some_f zero_cap =
      let fits = leave_fits s k r some_f zero_cap in
      let tight = leave_tight s k r zero_cap in
      ((λ e. ground (arith, tight), fits), (λ e. ground (arith, fits), tight))

  -- For a function with a limit from 2 to 2^63, an empty queue at first and distinct hashes of
  -- instances, in every state that the requests and the threads reach: a fetch returns; it takes
  -- an instance, or it leaves nothing in the queue and in the thread's local map.
  pub fetch_returns :
      (s : System hm) (k : ℕ)
      → Reach hm h fp f0 s
      → k < s.count
      → (i : ℕ) × (t1 : T hm) × (f1 : F) × (fetch_i hm h (s.workers k).t s.f ≡ ok (i, t1, f1))
        × ((i ≢ null) ⊎ ((f1.global_i_queue.mq ≡ []) × (hm.entries t1.local_i_map ≡ [])))
  fetch_returns s k r lt =
      let v = inv r in
      let placed = Inv-IsPlaced hm h fp f0 concurrent small injective s k v lt in
      let got = fetch_i-Fetches hm h injective (s.workers k).t s.f placed in
      (
        got.i,
        got.t1,
        got.f1,
        got.result,
        elim (ℕ_discrete got.i null) [
          | yes e ↦
              let left = got.nothing e (omega (arith, v.limit)) in
              inr
                (eq-nil_of_length _ (omega (arith, left)), eq-nil_of_length _ (omega (arith, left)))
          | no some_i ↦ inl some_i
        ],
      )
