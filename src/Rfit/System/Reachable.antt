-- ===== src/Rfit/System/Reachable.antt =====
-- The fetch step, and the invariant in every reachable state.
use tpfaas.Base.{
  ℕ, ◌^◌, ◌≤◌, ◌<◌, ◌≡◌, refl, ap, ◌∙◌, [], arith, sum_by, count, is_at, ok, pos_part, neg_part,
}
use tpfaas.Wavm.{HashMap}
use tpfaas.Rfit.Function.{F, null}
use tpfaas.Rfit.Task.{T, fetch_i}
use tpfaas.Rfit.Task.Contents.{bad_key}
use tpfaas.Rfit.Task.Taking.{weigh_at, IsPlaced}
use tpfaas.Rfit.Task.Fetch.{fetch_i-Takes}
use tpfaas.Rfit.System.Totals.{total, le-total}
use tpfaas.Rfit.System.Defs.{
  finding, System, new_worker, after_fetch, set_worker, Step, request, take_place, no_place,
  add_places, start, wake, fetch, leave, finish, init, Reach, begin, next_step,
}
use tpfaas.Rfit.System.Invariant.{
  Inv, run_weight, supplied_at, place_of, request-Inv, take_place-Inv, no_place-Inv,
}
use tpfaas.Rfit.System.Steps.{
  add_places-Inv, empty-weigh, start-Inv, set_worker-Inv, wake-Inv, leave-Inv, finish-Inv,
}

module _ (hm : HashMap ℕ) (h : ℕ → ℕ) (fp : ℕ) (f0 : F) (concurrent : 2 ≤ f0.concurrency_limit)
    (small : f0.concurrency_limit ≤ 2 ^ 63) where
  module _ (injective : (i j : ℕ) → h i ≡ h j → i ≡ j) where
    -- A thread and the queue hold no instance twice, and no null pointer.
    pub Inv-IsPlaced :
        (s : System hm) (k : ℕ) → Inv hm h fp f0 s → k < s.count → IsPlaced hm h (s.workers k).t s.f
    Inv-IsPlaced s k v lt = record {
      keyed = v.keyed k;
      no_null =
          ground (arith, v.exact null, le-total (place_of hm (is_at null)) s.count s.workers k lt);
      once =
          λ x. ground (arith, v.exact x, le-total (place_of hm (is_at x)) s.count s.workers k lt);
    }

    after_fetch_weight : (w : ℕ → ℕ) (i : ℕ) → run_weight w (after_fetch hm i) ≡ weigh_at w i
    after_fetch_weight w i = ground arith

    after_fetch_supplied : (c i : ℕ) → supplied_at c (after_fetch hm i) ≡ c
    after_fetch_supplied c i = ground arith

    fetch-Inv :
        (s : System hm) (k i : ℕ) (t1 : T hm) (f1 : F)
        → Inv hm h fp f0 s
        → k < s.count
        → (s.workers k).pc ≡ finding
        → fetch_i hm h (s.workers k).t s.f ≡ ok (i, t1, f1)
        → Inv hm h fp f0 (set_worker hm s k t1 (after_fetch hm i) f1)
    fetch-Inv s k i t1 f1 v lt pc e =
        let takes =
          fetch_i-Takes hm h injective (s.workers k).t s.f i t1 f1 (Inv-IsPlaced s k v lt) e in
        set_worker-Inv hm h fp f0 concurrent small s k t1 (after_fetch hm i) f1 s.client s.released
          v lt takes.keyed (takes.work_for ∙ v.works k) takes.limit
          (λ x. omega (
            arith,
            takes.moved (is_at x),
            after_fetch_weight (is_at x) i,
            ap (run_weight (is_at x)) pc,
          ))
          (omega (
            arith,
            takes.moved (λ _. 1),
            after_fetch_weight (λ _. 1) i,
            after_fetch_supplied s.f.concurrency_limit i,
            ap (run_weight (λ _. 1)) pc,
            ap (supplied_at s.f.concurrency_limit) pc,
            ap pos_part takes.cap,
            ap neg_part takes.cap,
          ))

    -- Every step keeps the invariant.
    pub Step-Inv : {s u : System hm} → Step hm h fp s u → Inv hm h fp f0 s → Inv hm h fp f0 u
    Step-Inv {s} (request c) v = request-Inv hm h fp f0 s v c
    Step-Inv {s} (take_place {i} {f1} c e) v = take_place-Inv hm h fp f0 s i f1 v c e
    Step-Inv {s} (no_place {i} {f1} c e) v = no_place-Inv hm h fp f0 s i f1 v c e
    Step-Inv {s} (add_places {i} {c} {f1} cl e) v =
        add_places-Inv hm h fp f0 concurrent small s i c f1 v cl e
    Step-Inv {s} (start {i} hash c) v = start-Inv hm h fp f0 concurrent small s i hash v c
    Step-Inv {s} (wake {i} k c lt pc) v = wake-Inv hm h fp f0 concurrent small s i k v c lt pc
    Step-Inv {s} (fetch k {i} {t1} {f1} lt pc e) v = fetch-Inv s k i t1 f1 v lt pc e
    Step-Inv {s} (leave k {f1} lt pc e) v = leave-Inv hm h fp f0 concurrent small s k f1 v lt pc e
    Step-Inv {s} (finish k {i} {c} {f1} lt pc e) v =
        finish-Inv hm h fp f0 concurrent small s k i c f1 v lt pc e

    init-Inv : f0.global_i_queue.mq ≡ [] → Inv hm h fp f0 (init hm h fp f0)
    unfolding new_worker total
    init-Inv e = record {
      keyed = λ k. empty-weigh hm h fp f0 concurrent small (bad_key h);
      works = λ k. refl;
      exact = λ x. ground (arith, ap (count x) e);
      first = omega arith;
      limit = refl;
      balance = omega (arith, ap (sum_by (λ _. 1)) e);
    }

    -- So it holds in every state that the requests and the threads can reach.
    pub Reach-Inv :
        {s : System hm} → f0.global_i_queue.mq ≡ [] → Reach hm h fp f0 s → Inv hm h fp f0 s
    Reach-Inv e begin = init-Inv e
    Reach-Inv e (next_step r st) = Step-Inv st (Reach-Inv e r)
