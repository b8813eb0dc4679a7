-- ===== src/Tests/MainExamples.antt =====
-- The theorems on `main` at a memory of `WorldRuns`.
use tpfaas.Base.{◌+◌, ◌*◌, ◌≡◌, refl, true, ok, arith, ℕ_discrete}
use tpfaas.Rfit.Function.{new_f, is_concurrency}
use tpfaas.Rfit.Resource.{default_resource}
use tpfaas.Rfit.World.{World}
use tpfaas.Main.{main_direct, request_loop}
use tpfaas.Main.Keeping.{request_loop-functions}
use tpfaas.Main.Served.{HasThread}
use tpfaas.Main.Requests.{main_direct_returns, request_loop_returns}
use tpfaas.Tests.WorldRuns.{platform, memory}

abbrev quiet : World platform
quiet = memory platform.hm.empty true

main_direct_returns_example :
    (w1 : World platform) × (main_direct platform quiet 100 5 ≡ ok w1)
    × (w1.functions 11 ≡ new_f "taskB" 100 10 1 (platform.uninitialised 11))
    × (w1.next ≡ 10 + 2 + 2 * 5)
    × HasThread platform w1 11 4 18 19
unfolding platform
main_direct_returns_example =
    main_direct_returns platform (λ i j e. e) quiet 100 5 3 (platform.sm.get_empty "taskB")
      (platform.hm.get_empty (default_resource platform.hashing).hash) (omega arith) (omega arith)

-- Three requests to the function at 3.
abbrev three_requests :
    (w1 : World platform) × (request_loop platform 3 quiet 3 20 ≡ ok w1)
    × (w1.functions ≡ quiet.functions)
    × (w1.next ≡ 10 + 2 * 3)
unfolding platform is_concurrency ℕ_discrete
three_requests =
    request_loop_returns platform (λ i j e. e) 3 quiet 3 20 refl refl
      (λ j le. platform.hm.get_empty j)

request_loop-functions_example : three_requests.0.functions ≡ quiet.functions
unfolding is_concurrency ℕ_discrete
request_loop-functions_example =
    request_loop-functions platform 3 quiet (three_requests.0) 3 20 refl three_requests.1
