-- ===== src/Tests/Runs.antt =====
-- The system with one function of limit 4, as a sequence of steps.
use tpfaas.Base.{ℕ, refl, [], arith, pos, ℕ_discrete}
use tpfaas.Wavm.{HashMap}
use tpfaas.Wavm.Assoc.{assoc_map, find, erase}
use tpfaas.Utils.Queue
use tpfaas.Rfit.Function.{
  F, try_get_multi_i, add_i2f, scale_cap, try_scale_down_cap, is_concurrency, to_iptr,
}
use tpfaas.Rfit.Task.{fetch_i, take_i_from_i_local_map, try_get_i_from_f2t, take_again, add_all}
use tpfaas.Rfit.System.{
  System, request, no_place, add_places, start, fetch, finish, Reach, begin, next_step, new_worker,
}

abbrev pub hm : HashMap ℕ
unfolding assoc_map
hm = assoc_map ℕ_discrete

-- The addresses of the instances stand for their hashes.
abbrev pub hash : ℕ → ℕ
hash i = i

abbrev pub f0 : F
f0 = record {
  name = "taskA";
  entry_addr = 1;
  r = 1;
  concurrency_limit = 4;
  global_i_queue = record { mq = [] };
  rest_cap = pos 0;
}

abbrev Run : Type 0
Run = (s : System hm) × Reach hm hash 9 f0 s

-- The first request starts a thread, which takes its instance.
unfoldable pub running_first : Run
unfolding try_scale_down_cap scale_cap add_i2f is_concurrency to_iptr fetch_i new_worker assoc_map
    take_i_from_i_local_map try_get_i_from_f2t take_again Queue.enqueue Queue.try_dequeue Queue.size
    try_get_multi_i find ℕ_discrete add_all
running_first = (
  _,
  next_step
      (next_step
        (next_step (next_step (next_step begin (request refl)) (no_place refl refl))
          (add_places refl refl))
        (start 7 refl))
      (fetch 0 (omega arith) refl refl),
)

-- The instance is released, and the thread finds nothing more.
unfoldable pub served : Run
unfolding running_first erase
served = (
  _,
  next_step (next_step (running_first.1) (finish 0 (omega arith) refl refl))
      (fetch 0 (omega arith) refl refl),
)
