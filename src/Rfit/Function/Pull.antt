-- ===== src/Rfit/Function/Pull.antt =====
-- What `tryGetMultiI` takes from the global queue.
use mathlib.Core.List.{append-nil, append_assoc}
use tpfaas.Base.{
  ℕ, zero, suc, ◌≤◌, ◌≡◌, ap, sym, List, [], ◌∷◌, ◌++◌, arith, length, take, drop, min, ltb, ◌==◌,
  if◌then◌else◌, ◌||◌, true, Bool-cases, inl, inr,
}
use tpfaas.Utils.Queue
use tpfaas.Utils.Queue.{Queue}
use tpfaas.Rfit.Function.{F, pull_loop, try_get_multi_i, get_i_count}

pull_loop-take :
    (n : ℕ) (v q : List ℕ)
    → n ≤ length q
    → pull_loop n v (record { mq = q }) ≡ (v ++ take n q, record { mq = drop n q })
unfolding pull_loop Queue.try_dequeue
pull_loop-take zero v q h = ap (λ (l : List ℕ). (l, record { mq = q })) (sym (append-nil v))
pull_loop-take (suc n) v [] h = absurd (omega arith)
pull_loop-take (suc n) v (i ∷ q) h =
    rw (pull_loop-take n (v ++ i ∷ []) q (omega arith), append_assoc v (i ∷ []) (take n q))

min-zero : (c n : ℕ) → (n == 0 || c == 0) ≡ true → min c n ≡ 0
min-zero c n h = ground arith

pull_count-min : (c n : ℕ) → (if ltb c n then c else n) ≡ min c n
pull_count-min c n = ground arith

-- `tryGetMultiI` appends to the vector the oldest instances of the queue, as many as asked for or
-- as there are, and takes just these from the queue; nothing else of the function changes.
pub try_get_multi_i_lem :
    (f : F) (i_vector : List ℕ) (count : ℕ)
    → try_get_multi_i f i_vector count ≡ (
      i_vector ++ take (min count (get_i_count f)) f.global_i_queue.mq,
      record f {
        global_i_queue = record { mq = drop (min count (get_i_count f)) f.global_i_queue.mq };
      },
    )
unfolding try_get_multi_i get_i_count Queue.size
try_get_multi_i_lem f v count =
    let n = length f.global_i_queue.mq in
    elim (Bool-cases (n == 0 || count == 0)) [
      | inl e ↦ rw (e, min-zero count n e, append-nil v)
      | inr e ↦ rw (
        e,
        pull_count-min count n,
        pull_loop-take (min count n) v f.global_i_queue.mq (omega arith),
      )
    ]
