-- ===== src/Faabric/Executor/Messages.antt =====
-- faasm/faabric, src/executor/FaabricExecutor.cpp: what an executor does with one message, and without
-- any.
use tpfaas.Base.{
  ℕ, suc, ◌+◌, ◌-◌, ◌<◌, ◌≡◌, refl, ap, ◌∙◌, Bool, true, false, not, Bool-cases, inl, inr, String,
  List, [], ◌∷◌, arith, ltb, none, some, ◌==◌, ◌&&◌, ok,
}
use tpfaas.Faabric.Maps.{same, at, put}
use tpfaas.Faabric.Scheduler.{
  Message, Scheduler, func_to_string, notify_call_finished, notify_faaslet_finished, drop_faaslet,
}
use tpfaas.Faabric.Scheduler.Results.{set_function_result, finished}
use tpfaas.Faabric.Executor.{
  FaabricExecutor, CurrentQueue, of_function, returned, Setup, ExecutorState, processed, timed_out,
  dequeue, type_is_flush, type_is_bind, finish_call, failure_message, execute_call, process,
  process_next_message, with_error, run, finish,
}

abbrev pub with_count : FaabricExecutor → ℕ → FaabricExecutor
with_count e n = record e { execution_count = n }

module _ (setup : Setup) where
  abbrev W : Type 0
  W = ExecutorState setup

  -- The server after the result of a call is set.
  abbrev pub published_one : setup.redis.Server → Message → ℕ → setup.redis.Server
  published_one r msg n =
      let bytes =
        setup.protobuf.message_to_bytes
          (finished setup.protobuf setup.redis setup.endpoint_host msg (setup.now n)) in
      setup.redis.set (setup.redis.enqueue_bytes r msg.result_key bytes) msg.status_key bytes

  -- The server after the results are set, from the call with the number `n` on.
  abbrev pub published : setup.redis.Server → List Message → ℕ → setup.redis.Server
  published r [] n = r
  published r (msg ∷ msgs) n = published (published_one r msg n) msgs (n + 1)

  -- A call of a function that has keys for its result.
  pub record IsCall (func : String) (msg : Message) : Type 0 where
    pub no_flush : type_is_flush msg.kind ≡ false
    pub no_bind : type_is_bind msg.kind ≡ false
    pub of_func : func_to_string msg ≡ func
    pub keyed : same msg.result_key "" ≡ false
    pub status : same msg.status_key "" ≡ false

  pub dequeue_lem :
      (func : String) (s : Scheduler) (msg : Message) (msgs : List Message)
      → at [] s.queue_map func ≡ msg ∷ msgs
      → dequeue (of_function func) s
        ≡ some (msg, record s { queue_map = put s.queue_map func msgs })
  unfolding dequeue
  dequeue_lem func s msg msgs e = rw (dequeue, e) refl

  pub process_lem :
      (w : W) (msg : Message) (s : Scheduler)
      → dequeue w.executor.current_queue w.scheduler ≡ some (msg, s)
      → process_next_message setup w ≡ process setup (record w { scheduler = s }) msg
  unfolding process_next_message
  process_lem w msg s e = rw (process_next_message, e) refl

  pub set_result_lem :
      (r : setup.redis.Server) (msg : Message) (n : ℕ)
      → same msg.result_key "" ≡ false
      → same msg.status_key "" ≡ false
      → set_function_result setup.protobuf setup.redis setup.endpoint_host r msg (setup.now n)
        ≡ ok (published_one r msg n)
  unfolding set_function_result
  set_result_lem r msg n keyed status = rw (keyed, status) refl

  -- The worker after a call.
  abbrev pub after_call : W → Message → setup.hooks.Module → W
  after_call w msg m = record {
    executor = record (w.executor) { execution_count = w.executor.execution_count + 1 };
    scheduler = notify_call_finished w.scheduler msg;
    server = published_one w.server msg w.executor.execution_count;
    module_state = m;
  }

  pub finish-call :
      (w : W) (msg1 msg2 : Message) (success : Bool) (error_message : String)
      (m2 : setup.hooks.Module)
      → same (with_error setup success error_message msg2).result_key "" ≡ false
      → same (with_error setup success error_message msg2).status_key "" ≡ false
      → setup.hooks.pre_finish_call
          (w.module_state, w.scheduler, w.server)
          msg1
          success
          error_message
        ≡ some (msg2, (m2, w.scheduler, w.server))
      → finish_call setup w msg1 success error_message
        ≡ ok (after_call w (with_error setup success error_message msg2) m2)
  unfolding finish_call
  finish-call w msg1 msg2 success error_message m2 keyed status finishes =
      rw (finish_call, finishes, set_result_lem w.server _ w.executor.execution_count keyed status)
        refl

  pub execute-call :
      (func : String) (w : W) (msg msg1 msg2 : Message) (m1 m2 : setup.hooks.Module)
      → IsCall func msg2
      → setup.hooks.do_execute (w.module_state, w.scheduler, w.server) msg
        ≡ returned true msg1 (m1, w.scheduler, w.server)
      → setup.hooks.pre_finish_call (m1, w.scheduler, w.server) msg1 true ""
        ≡ some (msg2, (m2, w.scheduler, w.server))
      → execute_call setup w msg ≡ ok ("", after_call w msg2 m2)
  unfolding execute_call with_error failure_message
  execute-call func w msg msg1 msg2 m1 m2 c2 executes finishes =
      rw
        (
          execute_call,
          executes,
          finish-call (record w { module_state = m1 }) msg1 msg2 true "" m2 c2.keyed c2.status
              finishes,
        )
        refl

  pub process-call :
      (w w1 : W) (msg : Message) (error_message : String)
      → type_is_flush msg.kind ≡ false
      → type_is_bind msg.kind ≡ false
      → execute_call setup w msg ≡ ok (error_message, w1)
      → process setup w msg ≡ ok (processed error_message w1)
  unfolding process
  process-call w w1 msg error_message no_flush no_bind e = rw (process, no_flush, no_bind, e) refl

  notify_lem :
      (s : Scheduler) (msg : Message)
      → same msg.master_host "" ≡ false
      → (s1 : Scheduler) × (notify_faaslet_finished s msg ≡ ok s1)
        × (s1.in_flight_counts ≡ s.in_flight_counts)
        × (s1.this_host_resources.functions_in_flight ≡ s.this_host_resources.functions_in_flight)
        × (s1.queue_map ≡ s.queue_map)
  unfolding notify_faaslet_finished drop_faaslet
  notify_lem s msg mastered =
      let count = at 0 s.faaslet_counts (func_to_string msg) in
      elim (Bool-cases (ltb 0 count)) [
        | inl some_left ↦
            elim (Bool-cases (count - 1 == 0 && not (same s.this_host msg.master_host))) [
              | inl away ↦ rw (mastered, some_left, away) (_, refl, refl, refl, refl)
              | inr here ↦ rw (mastered, some_left, here) (_, refl, refl, refl, refl)
            ]
        | inr no_faaslet ↦ rw (mastered, no_faaslet) (_, refl, refl, refl, refl)
      ]

  -- An executor that leaves gives up a faaslet and touches neither queues nor calls.
  pub finish_lem :
      (w : W)
      → w.executor.is_bound ≡ true
      → same w.executor.bound_message.master_host "" ≡ false
      → (s : Scheduler) × (finish setup w ≡ ok (record w { scheduler = s }))
        × (s.in_flight_counts ≡ w.scheduler.in_flight_counts)
        × (s.this_host_resources.functions_in_flight
            ≡ w.scheduler.this_host_resources.functions_in_flight)
        × (s.queue_map ≡ w.scheduler.queue_map)
  unfolding finish
  finish_lem w bound mastered =
      let (s, e, flights, busy, queues) =
        notify_lem w.scheduler w.executor.bound_message mastered in
      (s, rw (finish, bound, e) refl, flights, busy, queues)

  no_message_lem :
      (func : String) (s : Scheduler)
      → at [] s.queue_map func ≡ []
      → dequeue (of_function func) s ≡ none
  unfolding dequeue
  no_message_lem func s e = rw (dequeue, e) refl

  nothing_lem :
      (func : String) (w : W)
      → 0 < setup.bound_timeout
      → w.executor.is_bound ≡ true
      → w.executor.current_queue ≡ of_function func
      → at [] w.scheduler.queue_map func ≡ []
      → process_next_message setup w ≡ ok timed_out
  unfolding process_next_message
  nothing_lem func w waits bound listens nothing =
      let none_there =
        ap (λ (q : CurrentQueue). dequeue q w.scheduler) listens
        ∙ no_message_lem func w.scheduler nothing in
      let long : ltb 0 setup.bound_timeout ≡ true = ground arith in
      rw (process_next_message, none_there, bound, long) refl

  -- Waiting in vain ends the run of a bound executor.
  pub run-nothing_left :
      (func : String) (w : W) (rounds : ℕ)
      → 0 < setup.bound_timeout
      → w.executor.is_bound ≡ true
      → w.executor.current_queue ≡ of_function func
      → at [] w.scheduler.queue_map func ≡ []
      → run setup (suc rounds) w ≡ finish setup w
  unfolding run
  run-nothing_left func w rounds waits bound listens nothing =
      rw (run, nothing_lem func w waits bound listens nothing) refl
