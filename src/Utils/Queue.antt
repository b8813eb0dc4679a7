-- ===== src/Utils/Queue.antt =====
-- include/utils/queue.h: `Queue<T>` over a `std::queue`, without its mutex: each use of a queue by
-- the callers that take the mutex is one step here.
use mathlib.Core.List.{append-nil, append_assoc}
use tpfaas.Base.{ℕ, suc, ◌≡◌, refl, List, [], ◌∷◌, ◌++◌, length, ap, ◌∙◌, sym}

-- Oldest first.
pub record Queue {ℓ} (A : Type ℓ) : Type ℓ where
  pub mq : List A

module _ {ℓ} {A : Type ℓ} where
  unfoldable pub new_queue : Queue A
  new_queue = record { mq = [] }

  unfoldable pub enqueue : Queue A → A → Queue A
  enqueue q value = record { mq = q.mq ++ value ∷ [] }

  abbrev dequeue_from : List A → A → A × Queue A
  dequeue_from [] try_value = (try_value, record { mq = [] })
  dequeue_from (value ∷ rest) try_value = (value, record { mq = rest })

  unfoldable pub try_dequeue : Queue A → A → A × Queue A
  try_dequeue q try_value = dequeue_from q.mq try_value

  unfoldable pub size : Queue A → ℕ
  size q = length q.mq

  -- `while (!mq.empty()) mq.pop();`
  drain_from : List A → Queue A
  drain_from [] = record { mq = [] }
  drain_from (_ ∷ rest) = drain_from rest

  unfoldable pub drain : Queue A → Queue A
  unfolding drain_from
  drain q = drain_from q.mq

  unfoldable pub reset : Queue A → Queue A
  reset q = record { mq = [] }

  drain_from-empty : (xs : List A) → drain_from xs ≡ record { mq = [] }
  unfolding drain_from
  drain_from-empty [] = refl
  drain_from-empty (_ ∷ rest) = drain_from-empty rest

  -- Emptying by `drain` and by `reset` come to the same queue, of size 0.
  pub drain-reset : (q : Queue A) → (drain q ≡ reset q) × (size (drain q) ≡ 0)
  unfolding drain reset size
  drain-reset q = rw (drain_from-empty q.mq) (refl, refl)

  -- The values put in one after the other.
  pub enqueue_all : Queue A → List A → Queue A
  enqueue_all q [] = q
  enqueue_all q (x ∷ xs) = enqueue_all (enqueue q x) xs

  -- `n` values taken out, with the queue that is left.
  pub dequeue_all : ℕ → A → Queue A → List A × Queue A
  dequeue_all ℕ.zero d q = ([], q)
  dequeue_all (suc n) d q =
      let (x, q1) = try_dequeue q d in let (xs, q2) = dequeue_all n d q1 in (x ∷ xs, q2)

  mq-enqueue_all : (q : Queue A) (xs : List A) → (enqueue_all q xs).mq ≡ q.mq ++ xs
  unfolding enqueue_all enqueue
  mq-enqueue_all q [] = sym (append-nil q.mq)
  mq-enqueue_all q (x ∷ xs) = mq-enqueue_all (enqueue q x) xs ∙ append_assoc q.mq (x ∷ []) xs

  dequeue_all-append :
      (d : A) (xs ys : List A)
      → dequeue_all (length xs) d (record { mq = xs ++ ys }) ≡ (xs, record { mq = ys })
  unfolding dequeue_all try_dequeue
  dequeue_all-append d [] ys = refl
  dequeue_all-append d (x ∷ xs) ys =
      ap (λ (p : List A × Queue A). (x ∷ p.0, p.1)) (dequeue_all-append d xs ys)

  dequeue_all_self :
      (d : A) (xs : List A)
      → dequeue_all (length xs) d (record { mq = xs }) ≡ (xs, record { mq = [] })
  dequeue_all_self d xs = rw (append-nil xs) at (dequeue_all-append d xs [])

  -- First in, first out: what is put into a queue comes out behind what it held before, in the
  -- order in which it was put in, and nothing is left. An empty queue gives the caller's value.
  pub fifo :
      (d : A) (q : Queue A) (xs : List A)
      → (dequeue_all (size (enqueue_all q xs)) d (enqueue_all q xs) ≡ (q.mq ++ xs, reset q))
        × (try_dequeue (reset q) d ≡ (d, reset q))
  unfolding size reset try_dequeue
  fifo d q xs = (
    dequeue_all_self d (enqueue_all q xs).mq
        ∙ ap (λ (l : List A). (l, reset q)) (mq-enqueue_all q xs),
    refl,
  )
