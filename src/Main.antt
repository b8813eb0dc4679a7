-- ===== src/Main.antt =====
-- main.cpp: the two programs that `FCGI_ENABLE` chooses from.
pub mod Keeping
pub mod Served
pub mod Requests
use tpfaas.Base.{
  ℕ, zero, suc, ◌+◌, Bool, true, false, List, [], ◌∷◌, ℤ, pos, ltb_ℤ, if◌then◌else◌, Outcome, ok,
  ◌>>=◌,
}
use tpfaas.Rfit.Resource.{default_resource}
use tpfaas.Rfit.World.{Platform, World}
use tpfaas.Rfit.World.Registry.{get_f, register_f}
use tpfaas.Rfit.World.Requests.{make_request}

module _ (p : Platform) where
  -- The loop over the accepted requests: each call of `FCGX_Accept_r` has a return code and the
  -- address of its request, and the loop ends at a negative code.
  unfoldable pub accept_loop : World p → ℕ → List (ℤ × ℕ) → Outcome (World p)
  accept_loop w f_a [] = ok w
  accept_loop w f_a ((rc, request) ∷ rest) =
      if ltb_ℤ rc (pos 0)
      then ok w
      else (do w1 ← make_request p w f_a request; accept_loop w1 f_a rest)

  -- `main` with FCGI_ENABLE, where `task_f` is the address of `taskF`
  unfoldable pub main_fcgi : World p → ℕ → List (ℤ × ℕ) → Outcome (World p)
  main_fcgi w task_f accepted = do
    w1 ← register_f p w "taskA" task_f (default_resource p.hashing) 100
    accept_loop w1 (get_f p w1 "taskA") accepted

  -- The `for` loop from `i` on, with the rounds that are left.
  unfoldable pub request_loop : ℕ → World p → ℕ → ℕ → Outcome (World p)
  request_loop zero w f_b i = ok w
  request_loop (suc n) w f_b i = do w1 ← make_request p w f_b i; request_loop n w1 f_b (suc i)

  -- `main` without FCGI_ENABLE, up to its `sleep`; `q_count` stands for `Q_COUNT`.
  unfoldable pub main_direct : World p → ℕ → ℕ → Outcome (World p)
  main_direct w task_t q_count = do
    w1 ← register_f p w "taskB" task_t (default_resource p.hashing) 1
    request_loop q_count w1 (get_f p w1 "taskB") 1
