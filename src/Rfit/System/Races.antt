-- ===== src/Rfit/System/Races.antt =====
-- A request that comes between a thread's last look at the queue and its `leaveFromF_safe`.
use tpfaas.Base.{
  ℕ, suc, ◌+◌, ◌^◌, ◌≤◌, ◌≡◌, refl, [], ◌∷◌, ◌++◌, arith, sum_by-append, fault, assert_failed, pos,
  ◌-ℤ◌, ◌≤ℤ◌,
}
use tpfaas.Wavm.{HashMap}
use tpfaas.Utils.Queue
use tpfaas.Rfit.Function.{F, add_i2f, is_concurrency}
use tpfaas.Rfit.Function.Capacity.{try_scale_down_cap_ok}
use tpfaas.Rfit.Task.{leave_from_f}
use tpfaas.Rfit.System.Defs.{System, ready, leaving, request, take_place, Reach, next_step}
use tpfaas.Rfit.System.Invariant.{outstanding, supplied}
use tpfaas.Rfit.System.Safety.{inv, leave_tight}

queue_grows :
    (hm : HashMap ℕ) (s : System hm)
    → outstanding hm (λ _. 1) (record s { f = add_i2f s.f s.next }) ≡ outstanding hm (λ _. 1) s + 1
unfolding add_i2f Queue.enqueue
queue_grows hm s = omega (arith, sum_by-append (λ _. 1) s.f.global_i_queue.mq (s.next ∷ []))

-- What `make_request` leaves of a state with a free place: the instance is queued, the place is
-- taken, and no thread is called.
unfoldable pub requested : (hm : HashMap ℕ) → System hm → System hm
unfolding add_i2f
requested hm s = record s {
  f = record (add_i2f s.f s.next) { rest_cap = s.f.rest_cap -ℤ pos 1 };
  client = ready;
  next = suc s.next;
}

module _ (hm : HashMap ℕ) (h : ℕ → ℕ) (fp : ℕ) (f0 : F) (concurrent : 2 ≤ f0.concurrency_limit)
    (small : f0.concurrency_limit ≤ 2 ^ 63) (injective : (i j : ℕ) → h i ≡ h j → i ≡ j)
    (empty : f0.global_i_queue.mq ≡ []) where
  Reach-requested :
      (s : System hm)
      → Reach hm h fp f0 s
      → s.client ≡ ready
      → pos 1 ≤ℤ s.f.rest_cap
      → Reach hm h fp f0 (requested hm s)
  unfolding requested is_concurrency add_i2f
  Reach-requested s r c free =
      next_step (next_step r (request c)) (
        take_place refl (try_scale_down_cap_ok (add_i2f s.f s.next) 1 (ground (arith, limit)) free))
    where
      limit : s.f.concurrency_limit ≡ f0.concurrency_limit
      limit = (inv hm h fp f0 concurrent small injective empty r).limit

  -- For a function with a limit from 2 to 2^63, an empty queue at first and distinct hashes of
  -- instances, in every state that the requests and the threads reach: if the count began at 0,
  -- every instance is released and one thread is attached, which has found nothing and is about to
  -- leave, then a request that `make_request` now serves completely finds a free place, so it
  -- wakes no thread; and the assertion fails when the thread leaves.
  pub late_request :
      (s : System hm) (k : ℕ)
      → Reach hm h fp f0 s
      → f0.rest_cap ≡ pos 0
      → s.client ≡ ready
      → (s.workers k).pc ≡ leaving
      → outstanding hm (λ _. 1) s ≡ 0
      → supplied hm s ≡ s.f.concurrency_limit
      → let u = requested hm s in
        Reach hm h fp f0 u
        × (u.workers ≡ s.workers)
        × (u.f.global_i_queue.mq ≡ s.f.global_i_queue.mq ++ s.next ∷ [])
        × (leave_from_f hm (u.workers k).t u.f ≡ fault assert_failed)
  unfolding requested add_i2f Queue.enqueue
  late_request s k r zero_cap c pc all_released attached =
      let v = inv hm h fp f0 concurrent small injective empty r in
      let free : pos 1 ≤ℤ s.f.rest_cap = ground (arith, v.balance, zero_cap, v.limit, c) in
      let reach = Reach-requested s r c free in
      (
        reach,
        refl,
        refl,
        leave_tight hm h fp f0 concurrent small injective empty (requested hm s) k reach zero_cap
            (omega (arith, queue_grows hm s)),
      )
