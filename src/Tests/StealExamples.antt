-- ===== src/Tests/StealExamples.antt =====
-- The theorems on what a thread finds elsewhere, at concrete inputs.
use tpfaas.Base.{ℕ, ◌≤◌, ◌≡◌, refl, [], ◌∷◌, ok, arith, is_at, true, ℕ_discrete}
use tpfaas.Wavm.Assoc.{assoc_map, add, add_at, find}
use tpfaas.Rfit.Function.{is_concurrency, get_i_count, try_get_multi_i, scale_cap, to_iptr}
use tpfaas.Utils.Queue
use tpfaas.Rfit.Task.{
  try_get_i_from_f2t, take_i_from_i_local_map, add_all, attach_to_f, T, local_count,
  try_get_i_from_other_t2t,
}
use tpfaas.Rfit.Task.Contents.{weigh}
use tpfaas.Rfit.Task.Stealing.{stolen_twice}
use tpfaas.Rfit.System.{new_worker}
use tpfaas.Rfit.World.{World, update}
use tpfaas.Rfit.World.Search.{search_functions, take_and_attach, get_instance_from_functions}
use tpfaas.Tests.Runs.{hm, hash, f0}
use tpfaas.Tests.WorldRuns.{platform, memory}

-- A thread with nothing to do, and one with four instances.
abbrev poor : T hm
poor = (new_worker hm 9 7).t

abbrev rich : T hm
rich = record ((new_worker hm 9 8).t) {
  local_i_map = hm.add (hm.add (hm.add (hm.add hm.empty 1 1) 2 2) 3 3) 4 4;
}

stolen_twice_example :
    (t1 other1 : T hm) × (try_get_i_from_other_t2t hm hash poor rich f0 ≡ (2, t1, other1))
    × (local_count hm t1 ≡ 2)
    × (1 ≤ local_count hm t1)
    × (local_count hm other1 ≡ 4)
    × ((x : ℕ) → weigh hm (is_at x) t1.local_i_map ≤ weigh hm (is_at x) other1.local_i_map)
unfolding new_worker assoc_map add add_at find ℕ_discrete is_concurrency
stolen_twice_example =
    stolen_twice hm hash (λ i j e. e) poor rich f0 refl (omega arith) refl (λ x. ground arith)

-- The thread at 7 works for the function at 2, whose queue is empty; the one at 4 has instances.
abbrev uneven : World platform
uneven =
    let w = memory platform.hm.empty true in
    record w {
      functions =
          update w.functions 4
            (record (w.functions 2) { global_i_queue = record { mq = 5 ∷ 6 ∷ [] } });
      resources = λ a. record (w.resources a) { functions = 2 ∷ 4 ∷ [] };
      threads = update w.threads 7 (record (w.threads 7) { work_for = 2 });
    }

-- The same memory, with an instance in the queue of the thread's own function.
abbrev own_first : World platform
own_first = record uneven {
  functions =
      update uneven.functions 2
        (record (uneven.functions 2) { global_i_queue = record { mq = 8 ∷ [] } });
}

-- The search takes this instance, and attaches the thread.
own_found : (r : ℕ × World platform) × (get_instance_from_functions platform own_first 7 ≡ ok r)
unfolding get_instance_from_functions search_functions is_concurrency ℕ_discrete try_get_i_from_f2t
    get_i_count Queue.size try_get_multi_i take_and_attach take_i_from_i_local_map platform add_all
    Queue.try_dequeue attach_to_f scale_cap to_iptr
own_found = (_, refl)
