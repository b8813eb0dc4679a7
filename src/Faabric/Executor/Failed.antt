-- ===== src/Faabric/Executor/Failed.antt =====
-- faasm/faabric, `run` and `executeCall` of src/executor/FaabricExecutor.cpp: a call that fails.
use tpfaas.Base.{
  ℕ, suc, ◌+◌, ◌-◌, ◌<◌, ◌≡◌, refl, ap, sym, subst, ◌∙◌, true, false, String, List, [], ◌∷◌, ◌++◌,
  length, arith, some, ok,
}
use tpfaas.Faabric.Maps.{joined, joined_nonempty, same, at, put, at-put}
use tpfaas.Faabric.Scheduler.{Message, Scheduler, func_to_string}
use tpfaas.Faabric.Executor.{
  FaabricExecutor, CurrentQueue, of_function, raised, returned, Setup, ExecutorState, dequeue,
  type_is_flush, type_is_bind, failure_message, execute_call, with_error, int_to_string, run,
  finish,
}
use tpfaas.Faabric.Executor.Messages.{
  IsCall, dequeue_lem, process_lem, process-call, finish-call, finish_lem, after_call, published,
  published_one, with_count,
}
use tpfaas.Faabric.Executor.Runs.{Succeed, then_one, Did, calls_done, counts_after}

module _ (setup : Setup) where
  abbrev W : Type 0
  W = ExecutorState setup

  -- A call that `doExecute` does not succeed with and whose hooks leave the scheduler and Redis alone, the
  -- error message, and the call and the module that `preFinishCall` leaves.
  pub data Fails (m : setup.hooks.Module) (msg : Message)
      : String → Message → setup.hooks.Module → Type 0 where
    by_result :
        (msg1 msg2 : Message) (m1 m2 : setup.hooks.Module) (error_message : String)
        → ((s : Scheduler) (r : setup.redis.Server)
            → setup.hooks.do_execute (m, s, r) msg ≡ returned false msg1 (m1, s, r))
        → error_message
          ≡ joined (joined "Call failed (return value=" (int_to_string msg1.return_value)) ")"
        → ((s : Scheduler) (r : setup.redis.Server)
            → setup.hooks.pre_finish_call (m1, s, r) msg1 false error_message
              ≡ some (msg2, (m2, s, r)))
        → Fails m msg error_message msg2 m2
    by_exception :
        (msg1 msg2 : Message) (m1 m2 : setup.hooks.Module) (what error_message : String)
        → ((s : Scheduler) (r : setup.redis.Server)
            → setup.hooks.do_execute (m, s, r) msg ≡ raised what msg1 (m1, s, r))
        → error_message ≡ joined "Error: " what
        → ((s : Scheduler) (r : setup.redis.Server)
            → setup.hooks.pre_finish_call
                (m1, s, r)
                (record msg1 { return_value = 1 })
                false
                error_message
              ≡ some (msg2, (m2, s, r)))
        → Fails m msg error_message msg2 m2

  -- What a call that failed leaves as its output.
  abbrev pub reported : Message → String → Message
  reported msg error_message = record msg { output_data = error_message }

  Fails-nonempty :
      (m m2 : setup.hooks.Module) (msg msg2 : Message) (error_message : String)
      → Fails m msg error_message msg2 m2
      → same error_message "" ≡ false
  unfolding same
  Fails-nonempty m m2 msg msg2 error_message (by_result msg1 _ m1 _ _ _ e _) =
      rw e (joined_nonempty _ ")" (joined_nonempty "Call failed (return value=" _ refl))
  Fails-nonempty m m2 msg msg2 error_message (by_exception msg1 _ m1 _ what _ _ e _) =
      rw e (joined_nonempty "Error: " what refl)

  execute-failed :
      (w : W) (msg msg2 : Message) (error_message : String) (m2 : setup.hooks.Module)
      → Fails w.module_state msg error_message msg2 m2
      → same msg2.result_key "" ≡ false
      → same msg2.status_key "" ≡ false
      → execute_call setup w msg
        ≡ ok (error_message, after_call setup w (reported msg2 error_message) m2)
  unfolding execute_call failure_message with_error
  execute-failed w msg msg2 error_message m2 (by_result msg1 _ m1 _ _ executes e finishes) keyed
        status =
      let finishes0 = finishes w.scheduler w.server in
      let finishes1 = rw e at finishes0 in
      let done =
        finish-call setup (record w { module_state = m1 }) msg1 msg2 false _ m2 keyed status
          finishes1 in
      rw (execute_call, executes w.scheduler w.server, done, e) refl
  execute-failed w msg msg2 error_message m2 (by_exception msg1 _ m1 _ what _ executes e finishes)
        keyed status =
      let finishes0 = finishes w.scheduler w.server in
      let finishes1 = rw e at finishes0 in
      let done =
        finish-call setup (record w { module_state = m1 }) (record msg1 { return_value = 1 }) msg2
          false _ m2 keyed status finishes1 in
      rw (execute_call, executes w.scheduler w.server, done, e) refl

  length-Succeed :
      (func : String) (m m3 : setup.hooks.Module) (msgs done : List Message)
      → Succeed setup func m msgs done m3
      → length done ≡ length msgs
  length-Succeed func m m3 [] [] x = refl
  length-Succeed func m m3 [] (msg2 ∷ done) x = elim x [ ]
  length-Succeed func m m3 (msg ∷ msgs) [] x = elim x [ ]
  length-Succeed func m m3 (msg ∷ msgs) (msg2 ∷ done)
        (then_one _ m1 m2 _ _ msg1 _ _ _ c c2 executes finishes more) =
      omega (arith, length-Succeed func m2 m3 msgs done more)

  published-end :
      (r : setup.redis.Server) (done : List Message) (msg : Message) (n : ℕ)
      → published setup r (done ++ msg ∷ []) n
        ≡ published_one setup (published setup r done n) msg (n + length done)
  published-end r [] msg n = ap (λ (k : ℕ). published_one setup r msg k) (omega arith)
  published-end r (d ∷ done) msg n =
      published-end (published_one setup r d n) done msg (n + 1)
      ∙ ap (λ (k : ℕ). published_one setup (published setup r (d ∷ done) n) msg k) (omega arith)

  -- One round of the loop for a call that fails is the last one.
  round-failed :
      (w w1 : W) (s : Scheduler) (msg : Message) (error_message : String) (rounds : ℕ)
      → dequeue w.executor.current_queue w.scheduler ≡ some (msg, s)
      → type_is_flush msg.kind ≡ false
      → type_is_bind msg.kind ≡ false
      → execute_call setup (record w { scheduler = s }) msg ≡ ok (error_message, w1)
      → same error_message "" ≡ false
      → run setup (suc rounds) w ≡ finish setup w1
  unfolding run
  round-failed w w1 s msg error_message rounds e no_flush no_bind executes nonempty =
      rw
        (
          run,
          process_lem setup w msg s e,
          process-call setup (record w { scheduler = s }) w1 msg error_message no_flush no_bind
              executes,
          nonempty,
        )
        refl

  -- An executor that is bound to a function, with calls queued for it of which the first succeed and the
  -- next one fails, whose hooks leave the scheduler and Redis alone, and with enough rounds: its run returns after that call, with the calls behind it
  -- still queued. The results of all calls up to it are set in Redis, the failed one with its error
  -- message as output, and as many calls less are in flight for the function and on the host.
  pub run_stops_at_failure :
      (func : String) (w : W) (msgs done rest : List Message) (bad msg2 : Message)
      (error_message : String) (m m2 : setup.hooks.Module) (rounds : ℕ)
      → w.executor.is_bound ≡ true
      → w.executor.current_queue ≡ of_function func
      → same w.executor.bound_message.master_host "" ≡ false
      → at [] w.scheduler.queue_map func ≡ msgs ++ bad ∷ rest
      → Succeed setup func w.module_state msgs done m
      → IsCall setup func bad
      → IsCall setup func msg2
      → Fails m bad error_message msg2 m2
      → length msgs < rounds
      → (w1 : W) × (run setup rounds w ≡ ok w1)
        × (at [] w1.scheduler.queue_map func ≡ rest)
        × Did setup func (length msgs + 1) (done ++ reported msg2 error_message ∷ []) m2 w w1
  unfolding func_to_string
  run_stops_at_failure func w msgs done rest bad msg2 error_message m m2 rounds bound listens
        mastered queue succeed c c2 fails enough =
      let (w1, runs, did, left) =
        calls_done setup func w.module_state m msgs done (bad ∷ rest) succeed w
          (suc (rounds - length msgs - 1)) refl listens queue in
      let s1 : Scheduler = record (w1.scheduler) {
        queue_map = put w1.scheduler.queue_map func rest;
      } in
      let failed = reported msg2 error_message in
      let w2 = after_call setup (record w1 { scheduler = s1 }) failed m2 in
      let listens1 = ap (λ (e : FaabricExecutor). e.current_queue) did.executed ∙ listens in
      let taken =
        ap (λ (q : CurrentQueue). dequeue q w1.scheduler) listens1
        ∙ dequeue_lem setup func w1.scheduler bad rest left in
      let executes =
        execute-failed (record w1 { scheduler = s1 }) bad msg2 error_message m2
          (subst (λ (x : setup.hooks.Module). Fails x bad error_message msg2 m2) (sym did.state)
            fails)
          c2.keyed c2.status in
      let (flights, busy1, queues) = counts_after setup func s1 failed c2.of_func in
      let (s, ends, flights2, busy2, queues2) =
        finish_lem setup w2 (ap (λ (e : FaabricExecutor). e.is_bound) did.executed ∙ bound) (
          ap (λ (e : FaabricExecutor). same e.bound_message.master_host "") did.executed
          ∙ mastered) in
      let rounds_left : rounds ≡ length msgs + suc (rounds - length msgs - 1) = omega arith in
      let count = ap (λ (e : FaabricExecutor). e.execution_count) did.executed in
      let len = length-Succeed func w.module_state m msgs done succeed in
      (
        record w2 { scheduler = s },
        ap (λ (n : ℕ). run setup n w) rounds_left
            ∙ runs
            ∙ round-failed w1 w2 s1 bad error_message (rounds - length msgs - 1) taken c.no_flush
                c.no_bind executes (Fails-nonempty m m2 bad msg2 error_message fails)
            ∙ ends,
        ap (λ (q : List (String × List Message)). at [] q func) (queues2 ∙ queues)
            ∙ at-put [] w1.scheduler.queue_map func rest,
        record {
          executed =
              ap (λ (e : FaabricExecutor). with_count e (e.execution_count + 1)) did.executed
              ∙ ap (with_count w.executor) (omega arith);
          in_flight =
              ap (λ (q : List (String × ℕ)). at 0 q func) flights2
              ∙ omega (arith, flights, did.in_flight);
          busy = busy2 ∙ omega (arith, busy1, did.busy);
          results =
              ap
                (λ (r : setup.redis.Server).
                  published_one setup r failed w1.executor.execution_count)
                did.results
              ∙ ap
                  (λ (k : ℕ).
                    published_one setup (published setup w.server done w.executor.execution_count)
                      failed k)
                  (omega (arith, count, len))
              ∙ sym (published-end w.server done failed w.executor.execution_count);
          state = refl;
        },
      )
