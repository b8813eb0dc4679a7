-- ===== src/Main/Served.antt =====
-- The requests of `main` while no thread moves: that each keeps its instance and its thread.
use tpfaas.Base.{
  ℕ, zero, suc, ◌≤◌, ◌<◌, ◌+◌, ◌*◌, ◌≡◌, ◌≢◌, refl, subst, true, false, [], none, arith, ok,
}
use tpfaas.Rfit.Function.{is_concurrency}
use tpfaas.Rfit.World.{Platform, World}
use tpfaas.Rfit.World.Requests.{bind_os_thread}
use tpfaas.Rfit.World.Direct.{Serves}
use tpfaas.Rfit.World.Life.{direct_world, make_request_direct, direct_world-Serves}
use tpfaas.Main.{request_loop}

module _ (p : Platform) where
  -- The request has an instance at `i`, which is alive, and a thread at `t` that is busy with it.
  pub record HasThread (w : World p) (fa request i t : ℕ) : Type 0 where
    pub instance_of :
        w.instances i ≡ record { hash = p.hashing.hash request; f = fa; request = request }
    pub alive : w.live i ≡ true
    pub hashed : (w.threads t).hash ≡ p.hashing.hash (p.hashing.hash request)
    pub serves : Serves p w t i fa true

  at_place :
      (w : World p) (fa request request1 a b : ℕ)
      → request ≡ request1
      → a ≡ b
      → HasThread w fa request a (suc a)
      → HasThread w fa request1 b (suc b)
  at_place w fa request request1 a b e f h =
      subst (λ (n : ℕ). HasThread w fa request1 n (suc n)) f
        (subst (λ (n : ℕ). HasThread w fa n a (suc a)) e h)

  -- Requests at different addresses have different hashes.
  module _ (injective : (i j : ℕ) → p.hashing.hash i ≡ p.hashing.hash j → i ≡ j) where
    -- No hash of a thread for the requests from `i` on is taken in the resource at `ra`.
    abbrev pub FreeFrom : World p → ℕ → ℕ → Type 0
    FreeFrom w ra i =
        (j : ℕ)
        → i ≤ j
        → p.hm.get (w.resources ra).busy_task (p.hashing.hash (p.hashing.hash j)) ≡ none

    pub direct_world-FreeFrom :
        (w : World p) (fa i : ℕ)
        → FreeFrom w (w.functions fa).r i
        → FreeFrom (direct_world p w fa i) (w.functions fa).r (suc i)
    unfolding bind_os_thread
    direct_world-FreeFrom w fa i free j le =
        let ra = (w.functions fa).r in
        let apart : p.hashing.hash (p.hashing.hash i) ≢ p.hashing.hash (p.hashing.hash j) = λ e.
          absurd (
            omega (arith, injective i j (injective (p.hashing.hash i) (p.hashing.hash j) e), le)) in
        ground (
          arith,
          p.hm.get_add_ne (w.resources ra).busy_task (p.hashing.hash (p.hashing.hash i))
              (p.hashing.hash (p.hashing.hash j)) (suc w.next) apart,
          free j (omega (arith, le)),
        )

    pub direct_world-idle :
        (w : World p) (fa i : ℕ)
        → ((direct_world p w fa i).resources (w.functions fa).r).idle_task.mq ≡ []
    unfolding bind_os_thread
    direct_world-idle w fa i = ground arith

    direct_world-HasThread :
        (w : World p) (fa i : ℕ)
        → is_concurrency (w.functions fa) ≡ false
        → FreeFrom w (w.functions fa).r i
        → HasThread (direct_world p w fa i) fa i w.next (suc w.next)
    unfolding bind_os_thread
    direct_world-HasThread w fa i alone free = record {
      instance_of = ground arith;
      alive = ground arith;
      hashed = ground arith;
      serves = direct_world-Serves p w fa i alone (free i (omega arith));
    }

    -- A later request leaves the instance and the thread of an earlier one.
    HasThread-kept :
        (w : World p) (fa i request a t : ℕ)
        → request < i
        → a < w.next
        → t < w.next
        → HasThread w fa request a t
        → HasThread (direct_world p w fa i) fa request a t
    unfolding bind_os_thread
    HasThread-kept w fa i request a t earlier old_i old_t h =
        let ra = (w.functions fa).r in
        let s = h.serves in
        let apart : p.hashing.hash (p.hashing.hash i) ≢ p.hashing.hash (p.hashing.hash request) =
          λ e. absurd (
            omega (
              arith,
              injective i request (injective (p.hashing.hash i) (p.hashing.hash request) e),
            )) in
        let stays =
          p.hm.get_add_ne (w.resources ra).busy_task (p.hashing.hash (p.hashing.hash i))
            (p.hashing.hash (p.hashing.hash request)) (suc w.next) apart in
        record {
          instance_of = ground (arith, h.instance_of);
          alive = ground (arith, h.alive);
          hashed = ground (arith, h.hashed);
          serves = record {
            status = ground (arith, s.status);
            deal_with = ground (arith, s.deal_with);
            work_for = ground (arith, s.work_for);
            direct_run = ground (arith, s.direct_run);
            registered = ground (arith, stays, h.hashed, s.registered);
            alone = s.alone;
          };
        }

    loop_keeps :
        (n : ℕ) (w : World p) (fa i request a t : ℕ)
        → is_concurrency (w.functions fa) ≡ false
        → (w.resources (w.functions fa).r).idle_task.mq ≡ []
        → FreeFrom w (w.functions fa).r i
        → request < i
        → a < w.next
        → t < w.next
        → HasThread w fa request a t
        → (w1 : World p) × (request_loop p n w fa i ≡ ok w1) × HasThread w1 fa request a t
    unfolding request_loop bind_os_thread
    loop_keeps zero w fa i request a t alone idle free earlier old_i old_t h = (w, refl, h)
    loop_keeps (suc n) w fa i request a t alone idle free earlier old_i old_t h =
        let (w1, runs, kept) =
          loop_keeps n (direct_world p w fa i) fa (suc i) request a t alone
            (direct_world-idle w fa i) (direct_world-FreeFrom w fa i free) (omega arith)
            (omega arith) (omega arith) (HasThread-kept w fa i request a t earlier old_i old_t h) in
        (w1, rw (make_request_direct p w fa i alone idle (free i (omega arith))) runs, kept)

    -- After the loop the k-th request has the k-th of the new instances and threads.
    pub loop-HasThread :
        (n : ℕ) (w : World p) (fa i k : ℕ)
        → is_concurrency (w.functions fa) ≡ false
        → (w.resources (w.functions fa).r).idle_task.mq ≡ []
        → FreeFrom w (w.functions fa).r i
        → k < n
        → (w1 : World p) × (request_loop p n w fa i ≡ ok w1)
          × HasThread w1 fa (i + k) (w.next + 2 * k) (suc (w.next + 2 * k))
    unfolding request_loop bind_os_thread
    loop-HasThread zero w fa i k alone idle free below = absurd (omega arith)
    loop-HasThread (suc n) w fa i zero alone idle free below =
        let v = direct_world p w fa i in
        let (w1, runs, kept) =
          loop_keeps n v fa (suc i) i w.next (suc w.next) alone (direct_world-idle w fa i)
            (direct_world-FreeFrom w fa i free) (omega arith) (omega arith) (omega arith)
            (direct_world-HasThread w fa i alone free) in
        (
          w1,
          rw (make_request_direct p w fa i alone idle (free i (omega arith))) runs,
          at_place w1 fa i (i + 0) w.next (w.next + 2 * 0) (omega arith) (omega arith) kept,
        )
    loop-HasThread (suc n) w fa i (suc k) alone idle free below =
        let v = direct_world p w fa i in
        let (w1, runs, has) =
          loop-HasThread n v fa (suc i) k alone (direct_world-idle w fa i)
            (direct_world-FreeFrom w fa i free) (omega arith) in
        (
          w1,
          rw (make_request_direct p w fa i alone idle (free i (omega arith))) runs,
          at_place w1 fa (suc i + k) (i + suc k) (v.next + 2 * k) (w.next + 2 * suc k) (omega arith)
              (omega arith) has,
        )
