-- ===== src/Tests/WorldExamples.antt =====
-- The theorems on the whole memory at the memories of `WorldRuns`.
use tpfaas.Base.{◌≡◌, refl, true, false, [], ◌∷◌, none, ok, arith, ℕ_discrete}
use tpfaas.Rfit.Function.{is_concurrency}
use tpfaas.Rfit.Task.{TStatus}
use tpfaas.Rfit.World.{World}
use tpfaas.Rfit.World.Registry.{register_f, construct_f}
use tpfaas.Rfit.World.Requests.{make_request}
use tpfaas.Rfit.World.Search.{task_done}
use tpfaas.Rfit.World.Life.{direct_life}
use tpfaas.Tests.WorldRuns.{platform, limits, memory}

-- A memory with no busy thread.
abbrev quiet : World platform
quiet = memory platform.hm.empty true

-- The memory once a function is registered.
abbrev registered : World platform
registered =
    let c = construct_f platform quiet "taskA" 100 limits 4 in
    record (c.1) { function_map = platform.sm.add c.1.function_map "taskA" c.0 }

register_task_a : register_f platform quiet "taskA" 100 limits 4 ≡ ok registered
unfolding register_f
register_task_a = rw (platform.sm.get_empty "taskA", register_f) refl

-- The thread at 7 is busy under the hash 9.
abbrev serving : World platform
serving = memory (platform.hm.add platform.hm.empty 9 7) true

direct_life_example :
    (w1 : World platform) × (w2 : World platform) × (w3 : World platform) × (make_request platform
        quiet 3 9
      ≡ ok w1)
    × (task_done platform w1 11 ≡ ok (true, w2))
    × ((w2.threads 11).deal_with ≡ 10)
    × ((w2.instances 10).request ≡ 9)
    × (task_done platform w2 11 ≡ ok (false, w3))
    × (w3.live 10 ≡ false)
    × ((w3.threads 11).status ≡ TStatus.idle)
    × ((w3.resources 1).idle_task.mq ≡ 11 ∷ [])
    × (platform.hm.get (w3.resources 1).busy_task (w3.threads 11).hash ≡ none)
unfolding platform is_concurrency ℕ_discrete
direct_life_example =
    direct_life platform quiet 3 9 (omega arith) (omega arith) refl refl refl
      (platform.hm.get_empty 9)
