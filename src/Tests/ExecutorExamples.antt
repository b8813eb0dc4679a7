-- ===== src/Tests/ExecutorExamples.antt =====
-- Runs of the model of faasm/faabric's executors and of their pool.
use tpfaas.Base.{
  ℕ, ◌+◌, ◌≤◌, ◌≡◌, some, ◌≢◌, refl, List, [], ◌∷◌, ◌++◌, length, arith, String, true, false,
  Outcome, ok, fault, stuck, pos, ltb,
}
use tpfaas.Faabric.Maps.{same, at, put}
use tpfaas.Faabric.Scheduler.{
  Message, functions, Scheduler, func_to_string, notify_faaslet_finished, drop_faaslet,
}
use tpfaas.Faabric.Scheduler.Calls.{call_functions, snapshot_needed}
use tpfaas.Faabric.Executor.{
  of_function, returned, Hooks, Setup, hooked, flushed_out, ExecutorState, new_executor, run,
  int_to_string, process_next_message, dequeue, finish, type_is_flush, type_is_bind,
}
use tpfaas.Faabric.Executor.Messages.{IsCall, published, with_count}
use tpfaas.Faabric.Executor.Runs.{Succeed, none_left, then_one, Did, run_executes_all}
use tpfaas.Faabric.Executor.Failed.{by_result, reported, run_stops_at_failure}
use tpfaas.Faabric.Executor.Effects.{bound_to, HooksDo, Fewer}
use tpfaas.Faabric.Executor.Bound.{run_ends, bound_once}
use tpfaas.Faabric.Executor.Batch.{batch_served}
use tpfaas.Faabric.TokenPool.{
  FaabricPool, faabric_pool, takes, starts, Reachable, at_first, then_step, token_pool, tokens_from,
  get_token,
}
use tpfaas.Faabric.TokenPool.Steps.{
  in_queue, in_hand, in_use, below_zero, one_token_each, no_threads_no_limit,
}
use tpfaas.Tests.SchedulerExamples.{echo, host_a, as_messages, lists_only, one_core, no_snapshot}

-- Functions that succeed but for the message 13; the module counts the calls.
abbrev counting : Hooks (lists_only.Server)
counting = record {
  Module = ℕ;
  do_execute = λ x msg. returned (ltb msg.id 13) msg (x.0 + 1, x.1, x.2);
  post_bind = λ x msg force. hooked x;
  pre_finish_call = λ x msg success error_message. some (msg, x);
  flush = λ x. flushed_out x;
}

abbrev clock : ℕ → ℕ
clock n = 100 + n

abbrev echoes : Setup
echoes = record {
  hooks = counting;
  protobuf = as_messages;
  redis = lists_only;
  endpoint_host = "a";
  bound_timeout = 5;
  unbound_timeout = 5;
  now = clock;
}

abbrev keyed_echo : ℕ → Message
keyed_echo id = record (echo id) { result_key = "result"; status_key = "status" }

abbrev Echoes : Type 0
Echoes = ExecutorState echoes

-- A host where "demo/echo" has these calls queued.
abbrev waiting : List Message → Scheduler
waiting msgs = record (host_a 4) { queue_map = ("demo/echo", msgs) ∷ [] }

abbrev worker_on : List Message → Echoes
worker_on msgs = record {
  executor = bound_to (new_executor echoes 0) (echo 0);
  scheduler = waiting msgs;
  server = [];
  module_state = 0;
}

abbrev runs : ℕ → Echoes → Outcome Echoes
runs rounds w = run echoes rounds w

keyed_echo-IsCall : (id : ℕ) → IsCall echoes "demo/echo" (keyed_echo id)
unfolding func_to_string same type_is_flush type_is_bind
keyed_echo-IsCall id = record {
  no_flush = refl;
  no_bind = refl;
  of_func = refl;
  keyed = refl;
  status = refl;
}

abbrev two_echoes : List Message
two_echoes = keyed_echo 1 ∷ keyed_echo 2 ∷ []

two_echoes-Succeed : Succeed echoes "demo/echo" 0 two_echoes two_echoes 2
two_echoes-Succeed =
    then_one 0 1 1 2 (keyed_echo 1) (keyed_echo 1) (keyed_echo 1) _ _ (keyed_echo-IsCall 1)
      (keyed_echo-IsCall 1) (λ s r. refl) (λ s r. refl)
      (then_one 1 2 2 2 (keyed_echo 2) (keyed_echo 2) (keyed_echo 2) _ _ (keyed_echo-IsCall 2)
        (keyed_echo-IsCall 2) (λ s r. refl) (λ s r. refl) (none_left 2))

run_executes_all_example :
    (w1 : Echoes) × (runs 3 (worker_on two_echoes) ≡ ok w1)
    × (at [] w1.scheduler.queue_map "demo/echo" ≡ [])
    × Did echoes "demo/echo" 2 two_echoes 2 (worker_on two_echoes) w1
unfolding func_to_string same at
run_executes_all_example =
    run_executes_all echoes "demo/echo" (worker_on two_echoes) two_echoes two_echoes 2 3
      (omega arith) refl refl refl refl two_echoes-Succeed (omega arith)

abbrev bad_echo : Message
bad_echo = keyed_echo 13

abbrev bad_text : String
bad_text = "Call failed (return value=0)"

run_stops_at_failure_example :
    (w1 : Echoes) × (runs 4 (worker_on (two_echoes ++ bad_echo ∷ two_echoes)) ≡ ok w1)
    × (at [] w1.scheduler.queue_map "demo/echo" ≡ two_echoes)
    × Did echoes "demo/echo" 3
        (two_echoes ++ reported echoes bad_echo bad_text ∷ [])
        3
        (worker_on (two_echoes ++ bad_echo ∷ two_echoes))
        w1
unfolding func_to_string same at int_to_string
run_stops_at_failure_example =
    run_stops_at_failure echoes "demo/echo" (worker_on (two_echoes ++ bad_echo ∷ two_echoes))
      two_echoes two_echoes two_echoes bad_echo bad_echo bad_text 2 3 4 refl refl refl refl
      two_echoes-Succeed (keyed_echo-IsCall 13) (keyed_echo-IsCall 13)
      (by_result bad_echo bad_echo 3 3 bad_text (λ s r. refl) refl (λ s r. refl)) (omega arith)

echoes-HooksDo : HooksDo echoes Fewer
echoes-HooksDo = record {
  executing = λ x msg. omega arith;
  binding = λ x msg force. omega arith;
  finishing = λ x msg success error_message. omega arith;
  flushing = λ x. omega arith;
}

run_ends_example : runs 3 (worker_on two_echoes) ≢ fault stuck
run_ends_example =
    run_ends echoes echoes-HooksDo 3 (worker_on two_echoes) (omega arith) (omega arith)
      (omega arith)

batch_served_example :
    (s1 : Scheduler) × (executed : List String) × (w1 : Echoes) × (call_functions false one_core
        ("a" ∷ "b" ∷ "c" ∷ [])
        no_snapshot
        (host_a 4)
        (record { batch = functions; messages = two_echoes })
        true
      ≡ ok (s1, executed))
    × (runs 4 (record {
      executor = new_executor echoes 0;
      scheduler = s1;
      server = [];
      module_state = 0;
    })
        ≡ ok w1)
    × (w1.executor.current_queue ≡ of_function "demo/echo")
    × (w1.executor.execution_count ≡ 2)
    × (at [] w1.scheduler.queue_map "demo/echo" ≡ [])
    × (w1.server ≡ published echoes [] two_echoes 0)
    × (at 0 w1.scheduler.in_flight_counts "demo/echo" ≡ 1)
    × (w1.scheduler.this_host_resources.functions_in_flight ≡ 1)
unfolding func_to_string same at snapshot_needed
batch_served_example =
    batch_served false one_core ("a" ∷ "b" ∷ "c" ∷ []) no_snapshot echoes (host_a 4) functions
      (keyed_echo 1) (keyed_echo 2 ∷ []) two_echoes 0 4 [] 0 0 2 refl refl refl (refl, tt)
      (omega arith) refl refl (omega arith) (λ s r. refl) two_echoes-Succeed (omega arith)

-- The worker after a run in which no message came.
abbrev idle : Echoes
idle = record (worker_on []) {
  scheduler = record (waiting []) {
    faaslet_counts = ("demo/echo", 0) ∷ [];
    this_host_resources = record { cores = 4; functions_in_flight = 1; bound_executors = 0 };
  };
}

idle_run : runs 1 (worker_on []) ≡ ok idle
unfolding run process_next_message dequeue finish notify_faaslet_finished drop_faaslet
    func_to_string same at put new_executor
idle_run = refl

bound_once_example : idle.executor ≡ with_count (worker_on []).executor 0
unfolding new_executor
bound_once_example = bound_once echoes 1 (worker_on []) idle refl idle_run

-- A pool of two threads that has started one executor.
abbrev one_started : FaabricPool
one_started = record {
  thread_token_pool = record { size = 2; queue = pos 1 ∷ [] };
  held = [];
  running = pos 0 ∷ [];
  is_shutdown = false;
  is_over = false;
}

abbrev one_held : FaabricPool
one_held = record one_started { held = pos 0 ∷ []; running = [] }

one_started-Reachable : Reachable 2 one_started
unfolding faabric_pool token_pool tokens_from get_token
one_started-Reachable =
    then_step one_held one_started
      (then_step (faabric_pool 2) one_held at_first
        (takes (pos 0) (record { size = 2; queue = pos 1 ∷ [] }) refl refl refl refl))
      (starts (pos 0) refl refl refl)

one_token_each_example :
    (in_queue one_started 0 + in_hand one_started 0 + in_use one_started 0 ≤ 1)
    × (below_zero one_started ≡ 0)
one_token_each_example = one_token_each 2 0 one_started (omega arith) one_started-Reachable

no_threads_no_limit_example : (p : FaabricPool) × Reachable 0 p × (length p.running ≡ 3)
no_threads_no_limit_example = no_threads_no_limit 3
