-- ===== src/Faabric/TokenPool.antt =====
-- faasm/faabric: the `TokenPool` of src/util/queue.cpp and include/faabric/util/queue.h, and the threads of
-- src/executor/FaabricPool.cpp. What the pool thread and the executors' threads do is a sequence of
-- steps; an executor is known by its token.
pub mod Steps
use tpfaas.Base.{
  ℕ, zero, suc, List, [], ◌∷◌, ◌++◌, length, ℤ, pos, negsuc, sub_ℕ, ◌==◌, if◌then◌else◌, Outcome,
  ok, fault, stuck, Bool, true, false, ◌≡◌,
}

pub record TokenPool : Type 0 where
  pub size : ℕ
  pub queue : List ℤ

unfoldable pub tokens_from : ℕ → ℕ → List ℤ
tokens_from i zero = []
tokens_from i (suc n) = pos i ∷ tokens_from (suc i) n

-- `TokenPool::TokenPool`
unfoldable pub token_pool : ℕ → TokenPool
unfolding tokens_from
token_pool n_tokens = record { size = n_tokens; queue = tokens_from 0 n_tokens }

-- `free`
unfoldable pub free_tokens : TokenPool → ℕ
free_tokens p = length p.queue

-- `taken`, as an `int`
unfoldable pub taken : TokenPool → ℤ
taken p = sub_ℕ p.size (length p.queue)

-- `getToken`: a pool of no tokens has −1 for everyone, and an empty queue is waited for.
unfoldable pub get_token : TokenPool → Outcome (ℤ × TokenPool)
get_token p =
    if p.size == 0
    then ok (negsuc 0, p)
    else elim p.queue [ [] ↦ fault stuck | token ∷ rest ↦ ok (token, record p { queue = rest }) ]

unfoldable pub release_token : TokenPool → ℤ → TokenPool
release_token p token = record p { queue = p.queue ++ token ∷ [] }

-- `reset`
unfoldable pub reset_tokens : TokenPool → TokenPool
reset_tokens p = record p { queue = [] }

-- `held` is the token of the pool thread between `getThreadToken` and the start of an executor.
pub record FaabricPool : Type 0 where
  pub thread_token_pool : TokenPool
  pub held : List ℤ
  pub running : List ℤ
  pub is_shutdown : Bool
  pub is_over : Bool

-- `FaabricPool::FaabricPool`
unfoldable pub faabric_pool : ℕ → FaabricPool
unfolding token_pool
faabric_pool n_threads = record {
  thread_token_pool = token_pool n_threads;
  held = [];
  running = [];
  is_shutdown = false;
  is_over = false;
}

-- The steps of the threads: the pool thread leaves its loop at its head, takes a token, leaves its loop
-- with the token, or starts an executor with it; an executor's thread ends and gives its token back, or
-- ends with an `ExecutorPoolFinishedException` first; `shutdown` or `reset` is called.
pub data PoolStep (p : FaabricPool) : FaabricPool → Type 0 where
  leaves :
      p.is_over ≡ false
      → p.held ≡ []
      → p.is_shutdown ≡ true
      → PoolStep p (record p { is_over = true })
  takes :
      (token : ℤ) (tokens : TokenPool)
      → p.is_over ≡ false
      → p.held ≡ []
      → p.is_shutdown ≡ false
      → get_token p.thread_token_pool ≡ ok (token, tokens)
      → PoolStep p (record p { thread_token_pool = tokens; held = token ∷ [] })
  leaves_late :
      (token : ℤ)
      → p.is_over ≡ false
      → p.held ≡ token ∷ []
      → p.is_shutdown ≡ true
      → PoolStep p (record p { is_over = true })
  starts :
      (token : ℤ)
      → p.is_over ≡ false
      → p.held ≡ token ∷ []
      → p.is_shutdown ≡ false
      → PoolStep p (record p { held = []; running = p.running ++ token ∷ [] })
  ends :
      (before after : List ℤ) (token : ℤ)
      → p.running ≡ before ++ token ∷ after
      → PoolStep p (record p {
        thread_token_pool = release_token p.thread_token_pool token;
        running = before ++ after;
      })
  ends_pool :
      (before after : List ℤ) (token : ℤ)
      → p.running ≡ before ++ token ∷ after
      → PoolStep p (record p {
        thread_token_pool = release_token p.thread_token_pool token;
        running = before ++ after;
        is_shutdown = true;
      })
  shuts_down : PoolStep p (record p { is_shutdown = true })
  -- `FaabricPool::reset`
  resets : PoolStep p (record p { thread_token_pool = reset_tokens p.thread_token_pool })

-- The pools that the threads of a new one of that many threads come to.
pub data Reachable (n_threads : ℕ) : FaabricPool → Type 0 where
  at_first : Reachable n_threads (faabric_pool n_threads)
  then_step : (p q : FaabricPool) → Reachable n_threads p → PoolStep p q → Reachable n_threads q
