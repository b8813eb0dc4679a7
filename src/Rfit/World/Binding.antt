-- ===== src/Rfit/World/Binding.antt =====
-- How often `bind_os_thread` tries to start an operating system thread.
use tpfaas.Base.{
  ℕ, zero, suc, ◌+◌, ◌-◌, ◌≤◌, ◌<◌, ◌≡◌, ◌≢◌, ◌↔◌, inl, inr, refl, Bool, true, false, arith, ◌==◌,
  Bool-cases,
}
use tpfaas.Rfit.World.Requests.{bind_loop, try_count}

-- The calls of `pthread_create` are those from number `k` up to the one before `r.1`.
pub record Tries (create : ℕ → ℕ) (most k : ℕ) (r : Bool × ℕ) : Type 0 where
  pub some_call : k < r.1
  pub bounded : r.1 ≤ k + most
  pub last : (r.0 ≡ true) ↔ (create (r.1 - 1) ≡ 0)
  pub before : (j : ℕ) → k ≤ j → suc j < r.1 → create j ≢ 0
  pub given_up : r.0 ≡ false → r.1 ≡ k + most

again-Tries :
    (create : ℕ → ℕ) (n k : ℕ) (r : Bool × ℕ)
    → create k ≢ 0
    → Tries create n (suc k) r
    → Tries create (suc n) k r
again-Tries create n k r bad t = record {
  some_call = omega (arith, t.some_call);
  bounded = omega (arith, t.bounded);
  last = t.last;
  before = λ j le lt. ground (arith, t.before j);
  given_up = λ e. omega (arith, t.given_up e);
}

now-Tries : (create : ℕ → ℕ) (n k : ℕ) → create k ≡ 0 → Tries create (suc n) k (true, suc k)
now-Tries create n k good = record {
  some_call = omega arith;
  bounded = omega arith;
  last = (λ _. ground arith, λ _. refl);
  before = λ j le lt. absurd (omega arith);
  given_up = λ e. cc;
}

never-Tries : (create : ℕ → ℕ) (k : ℕ) → create k ≢ 0 → Tries create 1 k (false, suc k)
never-Tries create k bad = record {
  some_call = omega arith;
  bounded = omega arith;
  last = (λ e. cc, λ e. ground arith);
  before = λ j le lt. absurd (omega arith);
  given_up = λ e. omega arith;
}

-- `bind_loop` with `n` tries to come calls `pthread_create` at least once and at most `n + 1` times,
-- stops at the first call that succeeds, and gives up only behind the last.
bind_loop-Tries : (create : ℕ → ℕ) (n k : ℕ) → Tries create (suc n) k (bind_loop create n k)
unfolding bind_loop
bind_loop-Tries create zero k = elim (Bool-cases (create k == 0)) [
  | inl good ↦ rw good (now-Tries create 0 k (ground arith))
  | inr bad ↦ rw bad (never-Tries create k (ground arith))
]
bind_loop-Tries create (suc n) k = elim (Bool-cases (create k == 0)) [
  | inl good ↦ rw good (now-Tries create (suc n) k (ground arith))
  | inr bad ↦
      rw bad (again-Tries create (suc n) k _ (ground arith) (bind_loop-Tries create n (suc k)))
]

-- `bind_os_thread` makes one call at least and four at most: it stops at the first that succeeds,
-- reports success exactly if the last one did, and gives up only behind the fourth.
pub bind_four_times : (create : ℕ → ℕ) (k : ℕ) → Tries create 4 k (bind_loop create try_count k)
bind_four_times create k = bind_loop-Tries create 3 k
