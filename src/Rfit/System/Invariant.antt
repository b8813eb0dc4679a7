-- ===== src/Rfit/System/Invariant.antt =====
-- What every step keeps: each instance at exactly one place, and the balance of the free places.
use tpfaas.Base.{
  ℕ, suc, ◌+◌, ◌≤◌, ◌≡◌, true, false, [], ◌∷◌, arith, sum_by, sum_by-append, count, is_at, ltb, leb,
  ◌&&◌, if◌then◌else◌, ok, pos, pos_part, neg_part, -ℤ_parts,
}
use tpfaas.Wavm.{HashMap}
use tpfaas.Utils.Queue
use tpfaas.Rfit.Function.{F, add_i2f, try_scale_down_cap}
use tpfaas.Rfit.Function.Capacity.{try_scale_down_cap-true, try_scale_down_cap-false}
use tpfaas.Rfit.Task.Contents.{weigh, IsKeyed}
use tpfaas.Rfit.System.Totals.{total}
use tpfaas.Rfit.System.Defs.{
  Pc, finding, running, leaving, detached, Client, ready, queued, short, calling, Worker, System,
}

abbrev pub run_weight : (ℕ → ℕ) → Pc → ℕ
run_weight w finding = 0
run_weight w (running i) = w i
run_weight w leaving = 0
run_weight w detached = 0

-- The places that a thread supplies while it is attached to a function of this limit.
abbrev pub supplied_at : ℕ → Pc → ℕ
supplied_at limit finding = limit
supplied_at limit (running i) = limit
supplied_at limit leaving = limit
supplied_at limit detached = 0

-- What `make_request` owes between its steps: the place of the new instance, or the places of the
-- thread that it is about to call.
abbrev pub pending : ℕ → Client → ℕ
pending limit ready = 0
pending limit (queued i) = 1
pending limit (short i) = 1
pending limit (calling i) = limit

-- Whether the address `x` has been given to an instance.
abbrev pub made : ℕ → ℕ → ℕ
made next x = if leb 1 x && ltb x next then 1 else 0

module _ (hm : HashMap ℕ) where
  abbrev pub place_of : (ℕ → ℕ) → Worker hm → ℕ
  place_of w wk = weigh hm w wk.t.local_i_map + run_weight w wk.pc

  abbrev pub supplied_by : ℕ → Worker hm → ℕ
  supplied_by limit wk = supplied_at limit wk.pc

  -- The weight of the instances in the queue and with the threads.
  abbrev pub outstanding : (ℕ → ℕ) → System hm → ℕ
  outstanding w s = sum_by w s.f.global_i_queue.mq + total (place_of w) s.count s.workers

  abbrev pub supplied : System hm → ℕ
  supplied s = total (supplied_by s.f.concurrency_limit) s.count s.workers

  pub record Inv (h : ℕ → ℕ) (fp : ℕ) (f0 : F) (s : System hm) : Type 0 where
    pub keyed : (k : ℕ) → IsKeyed hm h (s.workers k).t.local_i_map
    pub works : (k : ℕ) → (s.workers k).t.work_for ≡ fp
    -- each instance made is in the queue, with one thread, or released
    pub exact : (x : ℕ) → outstanding (is_at x) s + count x s.released ≡ made s.next x
    pub first : 1 ≤ s.next
    pub limit : s.f.concurrency_limit ≡ f0.concurrency_limit
    -- free places and places taken are those that the threads supply
    pub balance :
        pos_part s.f.rest_cap + outstanding (λ _. 1) s + neg_part f0.rest_cap
        ≡ neg_part s.f.rest_cap
          + supplied s
          + pending s.f.concurrency_limit s.client
          + pos_part f0.rest_cap

  module _ (h : ℕ → ℕ) (fp : ℕ) (f0 : F) where
    pub request-Inv :
        (s : System hm)
        → Inv h fp f0 s
        → s.client ≡ ready
        → Inv h fp f0
            (record s { f = add_i2f s.f s.next; client = queued s.next; next = suc s.next })
    unfolding add_i2f Queue.enqueue
    request-Inv s v c = record {
      keyed = v.keyed;
      works = v.works;
      exact = λ x.
          ground (
            arith,
            v.exact x,
            v.first,
            sum_by-append (is_at x) s.f.global_i_queue.mq (s.next ∷ []),
          );
      first = omega (arith, v.first);
      limit = v.limit;
      balance =
          ground (arith, v.balance, c, sum_by-append (λ _. 1) s.f.global_i_queue.mq (s.next ∷ []));
    }

    pub take_place-Inv :
        (s : System hm) (i : ℕ) (f1 : F)
        → Inv h fp f0 s
        → s.client ≡ queued i
        → try_scale_down_cap s.f (pos 1) ≡ ok (true, f1)
        → Inv h fp f0 (record s { f = f1; client = ready })
    take_place-Inv s i f1 v c e =
        let (same, _) = try_scale_down_cap-true s.f f1 1 e in
        rw same (record {
          keyed = v.keyed;
          works = v.works;
          exact = v.exact;
          first = v.first;
          limit = v.limit;
          balance = ground (arith, v.balance, c, -ℤ_parts s.f.rest_cap (pos 1));
        })

    pub no_place-Inv :
        (s : System hm) (i : ℕ) (f1 : F)
        → Inv h fp f0 s
        → s.client ≡ queued i
        → try_scale_down_cap s.f (pos 1) ≡ ok (false, f1)
        → Inv h fp f0 (record s { f = f1; client = short i })
    no_place-Inv s i f1 v c e =
        let (same, _) = try_scale_down_cap-false s.f f1 1 e in
        rw same (record {
          keyed = v.keyed;
          works = v.works;
          exact = v.exact;
          first = v.first;
          limit = v.limit;
          balance = ground (arith, v.balance, c);
        })
