-- ===== src/Rfit/System/Steps.antt =====
-- The steps of the threads keep the invariant, and so do all.
use tpfaas.Base.{
  ℕ, suc, ◌+◌, ◌-◌, ◌^◌, ◌≤◌, ◌<◌, ◌≡◌, refl, ap, ◌∙◌, List, ◌∷◌, arith, sum_by, count, is_at, ok,
  ℤ, pos, negsuc, pos_part, neg_part, +ℤ_parts,
}
use tpfaas.Wavm.{HashMap}
use tpfaas.Rfit.Function.{F, scale_cap, to_iptr}
use tpfaas.Rfit.Function.Capacity.{scale_cap_inv, to_iptr_small}
use tpfaas.Rfit.Task.{T, leave_from_f}
use tpfaas.Rfit.Task.Contents.{IsKeyed, bad_key}
use tpfaas.Rfit.Task.Leave.{leave_from_f_inv}
use tpfaas.Rfit.World.{update}
use tpfaas.Rfit.System.Totals.{total-update, total-append}
use tpfaas.Rfit.System.Defs.{
  Pc, finding, running, leaving, detached, Client, ready, short, calling, Worker, System,
  new_worker, set_worker,
}
use tpfaas.Rfit.System.Invariant.{Inv, run_weight, supplied_at, pending, place_of, supplied_by}

module _ (hm : HashMap ℕ) (h : ℕ → ℕ) (fp : ℕ) (f0 : F) (concurrent : 2 ≤ f0.concurrency_limit)
    (small : f0.concurrency_limit ≤ 2 ^ 63) where
  pub add_places-Inv :
      (s : System hm) (i : ℕ) (c : ℤ) (f1 : F)
      → Inv hm h fp f0 s
      → s.client ≡ short i
      → scale_cap s.f (to_iptr (s.f.concurrency_limit - 1)) ≡ ok (c, f1)
      → Inv hm h fp f0 (record s { f = f1; client = calling i })
  add_places-Inv s i c f1 v e call =
      let (same, _, _) = scale_cap_inv s.f (to_iptr (s.f.concurrency_limit - 1)) c f1 call in
      let fits : s.f.concurrency_limit - 1 < 2 ^ 63 = omega (arith, v.limit) in
      rw (same, to_iptr_small (s.f.concurrency_limit - 1) fits)
        (record {
          keyed = v.keyed;
          works = v.works;
          exact = v.exact;
          first = v.first;
          limit = v.limit;
          balance = ground (
            arith,
            v.balance,
            v.limit,
            e,
            +ℤ_parts s.f.rest_cap (pos (s.f.concurrency_limit - 1)),
          );
        })

  pub empty-weigh : (w : ℕ × ℕ → ℕ) → sum_by w (hm.entries hm.empty) ≡ 0
  empty-weigh w = ap (sum_by w) hm.entries_empty

  pub start-Inv :
      (s : System hm) (i hash : ℕ)
      → Inv hm h fp f0 s
      → s.client ≡ calling i
      → Inv hm h fp f0 (record s {
        client = ready;
        workers = update s.workers s.count (new_worker hm fp hash);
        count = suc s.count;
      })
  unfolding new_worker
  start-Inv s i hash v e =
      let grows = λ (w : Worker hm → ℕ). total-append w s.count s.workers (new_worker hm fp hash) in
      record {
        keyed = λ k. ground (arith, v.keyed k, empty-weigh (bad_key h));
        works = λ k. ground (arith, v.works k);
        exact = λ x. omega (
          arith,
          v.exact x,
          grows (place_of hm (is_at x)),
          empty-weigh (λ (e : ℕ × ℕ). is_at x e.1),
        );
        first = v.first;
        limit = v.limit;
        balance = ground (
          arith,
          v.balance,
          e,
          grows (place_of hm (λ _. 1)),
          empty-weigh (λ (_ : ℕ × ℕ). 1),
          grows (supplied_by hm s.f.concurrency_limit),
        );
      }

  -- A step of the thread `k` that exchanges weights with the queue and the released instances.
  pub set_worker-Inv :
      (s : System hm) (k : ℕ) (t : T hm) (pc : Pc) (f1 : F) (client : Client) (gone : List ℕ)
      → Inv hm h fp f0 s
      → k < s.count
      → IsKeyed hm h t.local_i_map
      → t.work_for ≡ fp
      → f1.concurrency_limit ≡ s.f.concurrency_limit
      → ((x : ℕ)
          → place_of hm (is_at x) (record { t = t; pc = pc })
              + sum_by (is_at x) f1.global_i_queue.mq
              + count x gone
            ≡ place_of hm (is_at x) (s.workers k)
              + sum_by (is_at x) s.f.global_i_queue.mq
              + count x s.released)
      → pos_part f1.rest_cap
          + place_of hm (λ _. 1) (record { t = t; pc = pc })
          + sum_by (λ _. 1) f1.global_i_queue.mq
          + neg_part s.f.rest_cap
          + supplied_at s.f.concurrency_limit (s.workers k).pc
          + pending s.f.concurrency_limit s.client
        ≡ neg_part f1.rest_cap
          + place_of hm (λ _. 1) (s.workers k)
          + sum_by (λ _. 1) s.f.global_i_queue.mq
          + pos_part s.f.rest_cap
          + supplied_at s.f.concurrency_limit pc
          + pending s.f.concurrency_limit client
      → Inv hm h fp f0 (record (set_worker hm s k t pc f1) { client = client; released = gone })
  set_worker-Inv s k t pc f1 client gone v lt keyed works limit places free =
      let moves =
        λ (w : Worker hm → ℕ). total-update w s.count s.workers k (record { t = t; pc = pc }) lt in
      record {
        keyed = λ j. ground (arith, v.keyed j, keyed);
        works = λ j. ground (arith, v.works j, works);
        exact = λ x. omega (arith, v.exact x, places x, moves (place_of hm (is_at x)));
        first = v.first;
        limit = limit ∙ v.limit;
        balance = rw limit (
            omega (
              arith,
              v.balance,
              free,
              moves (place_of hm (λ _. 1)),
              moves (supplied_by hm s.f.concurrency_limit),
            ));
      }

  pub wake-Inv :
      (s : System hm) (i k : ℕ)
      → Inv hm h fp f0 s
      → s.client ≡ calling i
      → k < s.count
      → (s.workers k).pc ≡ detached
      → Inv hm h fp f0
          (record (set_worker hm s k (record ((s.workers k).t) { work_for = fp }) finding s.f) {
            client = ready;
          })
  wake-Inv s i k v e lt pc =
      set_worker-Inv s k (record ((s.workers k).t) { work_for = fp }) finding s.f ready s.released v
        lt (v.keyed k) refl refl (λ x. ground (arith, ap (run_weight (is_at x)) pc))
        (ground (arith, pc, e))

  pub leave-Inv :
      (s : System hm) (k : ℕ) (f1 : F)
      → Inv hm h fp f0 s
      → k < s.count
      → (s.workers k).pc ≡ leaving
      → leave_from_f hm (s.workers k).t s.f ≡ ok f1
      → Inv hm h fp f0 (set_worker hm s k (s.workers k).t detached f1)
  leave-Inv s k f1 v lt pc e =
      let (same, _, _) =
        leave_from_f_inv hm (s.workers k).t s.f f1 (omega (arith, v.limit)) (omega (arith, v.limit))
          e in
      rw same (
        set_worker-Inv s k (s.workers k).t detached _ s.client s.released v lt (v.keyed k)
          (v.works k) refl (λ x. ground (arith, ap (run_weight (is_at x)) pc))
          (ground (
            arith,
            pc,
            v.limit,
            ap (supplied_at s.f.concurrency_limit) pc,
            +ℤ_parts s.f.rest_cap (negsuc (s.f.concurrency_limit - 1)),
          )))

  pub finish-Inv :
      (s : System hm) (k i : ℕ) (c : ℤ) (f1 : F)
      → Inv hm h fp f0 s
      → k < s.count
      → (s.workers k).pc ≡ running i
      → scale_cap s.f (pos 1) ≡ ok (c, f1)
      → Inv hm h fp f0
          (record (set_worker hm s k (s.workers k).t finding f1) { released = i ∷ s.released })
  finish-Inv s k i c f1 v lt pc e =
      let (same, _, _) = scale_cap_inv s.f (pos 1) c f1 e in
      rw same (
        set_worker-Inv s k (s.workers k).t finding _ s.client (i ∷ s.released) v lt (v.keyed k)
          (v.works k) refl (λ x. ground (arith, ap (run_weight (is_at x)) pc))
          (ground (
            arith,
            ap (run_weight (λ _. 1)) pc,
            ap (supplied_at s.f.concurrency_limit) pc,
            +ℤ_parts s.f.rest_cap (pos 1),
          )))
