-- ===== src/Faabric/TokenPool/Steps.antt =====
-- faasm/faabric, src/executor/FaabricPool.cpp: where the tokens of a pool are.
use tpfaas.Base.{
  ℕ, zero, suc, ◌+◌, ◌<◌, ◌≤◌, ◌≡◌, refl, ap, ◌∙◌, ◌⊎◌, List, [], ◌∷◌, ◌++◌, length, length-append,
  sum_by, sum_by-append, sum_by_one, is_at, arith, ltb, ℤ, pos, negsuc, ◌==◌, if◌then◌else◌, true,
  false, Bool-cases, inl, inr, ok, subst,
}
use tpfaas.Faabric.TokenPool.{
  TokenPool, tokens_from, token_pool, get_token, free_tokens, release_token, reset_tokens,
  FaabricPool, faabric_pool, PoolStep, leaves, takes, leaves_late, starts, ends, ends_pool,
  shuts_down, resets, Reachable, at_first, then_step,
}
use tpfaas.Faabric.Scheduler.Kept.{Holds}

-- Whether a token is the one with that number.
abbrev is_token : ℕ → ℤ → ℕ
is_token i (pos n) = is_at i n
is_token i (negsuc n) = 0

-- How many executors, tokens that are free and tokens that are held have that number.
abbrev pub in_queue : FaabricPool → ℕ → ℕ
in_queue p i = sum_by (is_token i) p.thread_token_pool.queue

abbrev pub in_hand : FaabricPool → ℕ → ℕ
in_hand p i = sum_by (is_token i) p.held

abbrev pub in_use : FaabricPool → ℕ → ℕ
in_use p i = sum_by (is_token i) p.running

tokens_from_lem :
    (start n i : ℕ)
    → sum_by (is_token i) (tokens_from start n)
      ≡ (if ltb i start then 0 else if ltb i (start + n) then 1 else 0)
unfolding tokens_from
tokens_from_lem start zero i = ground arith
tokens_from_lem start (suc n) i = ground (arith, tokens_from_lem (suc start) n i)

length-tokens_from : (start n : ℕ) → length (tokens_from start n) ≡ n
unfolding tokens_from
length-tokens_from start zero = refl
length-tokens_from start (suc n) = omega (arith, length-tokens_from (suc start) n)

List-cases : (l : List ℤ) → (l ≡ []) ⊎ ((x : ℤ) × (r : List ℤ) × (l ≡ x ∷ r))
List-cases [] = inl refl
List-cases (x ∷ r) = inr (x, r, refl)

-- What a token that is made up weighs.
abbrev made_up : (ℤ → ℕ) → ℕ → ℕ
made_up w size = if size == 0 then w (negsuc 0) else 0

-- Taking a token from a pool.
get_token_lem :
    (w : ℤ → ℕ) (p : TokenPool)
    → made_up w p.size ≡ 0
    → Holds
        (λ (x : ℤ × TokenPool).
          (sum_by w x.1.queue + w x.0 ≡ sum_by w p.queue) × (x.1.size ≡ p.size))
        (get_token p)
unfolding get_token
get_token_lem w p no_weight = elim (Bool-cases (p.size == 0)) [
  | inl without ↦ rw (get_token, without) (omega (arith, rw without at no_weight), refl)
  | inr sized ↦ elim (List-cases p.queue) [
    | inl nothing ↦ rw (get_token, sized, nothing) tt
    | inr (token, rest, e) ↦ rw (get_token, sized, e) (omega arith, refl)
  ]
]

-- The weight of all tokens of a pool.
abbrev weight : (ℤ → ℕ) → FaabricPool → ℕ
weight w p = sum_by w p.thread_token_pool.queue + sum_by w p.held + sum_by w p.running

record Weighs (w : ℤ → ℕ) (p q : FaabricPool) : Type 0 where
  no_more : weight w q ≤ weight w p
  same_size : q.thread_token_pool.size ≡ p.thread_token_pool.size

-- An executor that ends puts its token back.
end_lem :
    (w : ℤ → ℕ) (p : FaabricPool) (before after : List ℤ) (token : ℤ)
    → p.running ≡ before ++ token ∷ after
    → sum_by w (p.thread_token_pool.queue ++ token ∷ [])
        + sum_by w p.held
        + sum_by w (before ++ after)
      ≡ weight w p
end_lem w p before after token e = omega (
  arith,
  ap (sum_by w) e,
  sum_by-append w before (token ∷ after),
  sum_by-append w before after,
  sum_by-append w p.thread_token_pool.queue (token ∷ []),
)

PoolStep-Weighs :
    (w : ℤ → ℕ) (p q : FaabricPool)
    → made_up w p.thread_token_pool.size ≡ 0
    → PoolStep p q
    → Weighs w p q
unfolding release_token reset_tokens
PoolStep-Weighs w p _ no_weight (leaves _ _ _) = record { no_more = omega arith; same_size = refl }
PoolStep-Weighs w p _ no_weight (takes token tokens _ held _ taken) =
    let (weighs, size) = subst (Holds _) taken (get_token_lem w p.thread_token_pool no_weight) in
    record { no_more = omega (arith, ap (sum_by w) held, weighs); same_size = size }
PoolStep-Weighs w p _ no_weight (leaves_late _ _ _ _) = record {
  no_more = omega arith;
  same_size = refl;
}
PoolStep-Weighs w p _ no_weight (starts token _ held _) = record {
  no_more = omega (arith, ap (sum_by w) held, sum_by-append w p.running (token ∷ []));
  same_size = refl;
}
PoolStep-Weighs w p _ no_weight (ends before after token e) = record {
  no_more = omega (arith, end_lem w p before after token e);
  same_size = refl;
}
PoolStep-Weighs w p _ no_weight (ends_pool before after token e) = record {
  no_more = omega (arith, end_lem w p before after token e);
  same_size = refl;
}
PoolStep-Weighs w p _ no_weight shuts_down = record { no_more = omega arith; same_size = refl }
PoolStep-Weighs w p _ no_weight resets = record { no_more = omega arith; same_size = refl }

reachable_lem :
    (w : ℤ → ℕ) (n : ℕ) (p : FaabricPool)
    → made_up w n ≡ 0
    → Reachable n p
    → (weight w p ≤ sum_by w (tokens_from 0 n)) × (p.thread_token_pool.size ≡ n)
unfolding faabric_pool token_pool
reachable_lem w n _ no_weight at_first = (omega arith, refl)
reachable_lem w n q no_weight (then_step p _ reached step) =
    let (weighs, size) = reachable_lem w n p no_weight reached in
    let next = PoolStep-Weighs w p q (ap (made_up w) size ∙ no_weight) step in
    (omega (arith, next.no_more, weighs), next.same_size ∙ size)

-- Whether a token is below 0.
abbrev is_below : ℤ → ℕ
is_below (pos n) = 0
is_below (negsuc n) = 1

-- How many executors, free tokens and held tokens have a token below 0.
abbrev pub below_zero : FaabricPool → ℕ
below_zero p = weight is_below p

tokens_from-below : (start n : ℕ) → sum_by is_below (tokens_from start n) ≡ 0
unfolding tokens_from
tokens_from-below start zero = refl
tokens_from-below start (suc n) = omega (arith, tokens_from-below (suc start) n)

-- In every pool that the threads of a pool of some threads come to, resets included, each number below
-- the number of threads is at most once among the tokens of the executors, the free tokens and the token
-- that the pool thread holds; no other number is among them, and none below 0.
pub one_token_each :
    (n i : ℕ) (p : FaabricPool)
    → 0 < n
    → Reachable n p
    → (in_queue p i + in_hand p i + in_use p i ≤ (if ltb i n then 1 else 0)) × (below_zero p ≡ 0)
one_token_each n i p some_threads reached =
    let none : made_up (is_token i) n ≡ 0 = ground arith in
    let none_below : made_up is_below n ≡ 0 = ground arith in
    (
      ground (arith, (reachable_lem (is_token i) n p none reached).0, tokens_from_lem 0 n i),
      omega (arith, (reachable_lem is_below n p none_below reached).0, tokens_from-below 0 n),
    )

-- In every pool that the threads of a pool of some threads come to, the executors, the free tokens and
-- the token that is held are together no more than the threads.
pub pool_capacity :
    (n : ℕ) (p : FaabricPool)
    → 0 < n
    → Reachable n p
    → length p.running + (free_tokens p.thread_token_pool + length p.held) ≤ n
unfolding free_tokens
pool_capacity n p some_threads reached =
    let none : made_up (λ _. 1) n ≡ 0 = ground arith in
    omega (
      arith,
      (reachable_lem (λ _. 1) n p none reached).0,
      sum_by_one p.running,
      sum_by_one p.held,
      sum_by_one p.thread_token_pool.queue,
      sum_by_one (tokens_from 0 n),
      length-tokens_from 0 n,
    )

no_token_lem : (p : TokenPool) → p.size ≡ 0 → get_token p ≡ ok (negsuc 0, p)
unfolding get_token
no_token_lem p e = let without : (p.size == 0) ≡ true = ground arith in rw (get_token, without) refl

unlimited :
    (k : ℕ)
    → (p : FaabricPool) × Reachable 0 p
      × (length p.running ≡ k)
      × (p.held ≡ [])
      × (p.is_over ≡ false)
      × (p.is_shutdown ≡ false)
      × (p.thread_token_pool.size ≡ 0)
unfolding faabric_pool token_pool tokens_from get_token
unlimited zero = (faabric_pool 0, at_first, refl, refl, refl, refl, refl)
unlimited (suc k) =
    let (p, reached, count, none_held, on, up, size) = unlimited k in
    let made : get_token p.thread_token_pool ≡ ok (negsuc 0, p.thread_token_pool) =
      no_token_lem p.thread_token_pool size in
    let p1 : FaabricPool = record p { held = negsuc 0 ∷ [] } in
    let took = then_step p p1 reached (takes (negsuc 0) p.thread_token_pool on none_held up made) in
    let p2 : FaabricPool = record p1 { held = []; running = p.running ++ negsuc 0 ∷ [] } in
    (
      p2,
      then_step p1 p2 took (starts (negsuc 0) on refl up),
      omega (arith, count, length-append p.running (negsuc 0 ∷ [])),
      refl,
      on,
      up,
      size,
    )

-- A pool of no threads starts executors without an end: for every number there is a pool that its
-- threads come to with that many executors.
pub no_threads_no_limit : (k : ℕ) → (p : FaabricPool) × Reachable 0 p × (length p.running ≡ k)
no_threads_no_limit k = let (p, reached, count, _, _, _, _) = unlimited k in (p, reached, count)
