-- ===== src/Faabric/Executor/Runs.antt =====
-- faasm/faabric, `run` of src/executor/FaabricExecutor.cpp: what an executor does with the messages that
-- are queued for its function.
use mathlib.Core.List.{append-nil}
use tpfaas.Base.{
  ℕ, suc, ◌+◌, ◌-◌, ◌<◌, ◌≡◌, refl, ap, sym, ◌∙◌, true, false, String, List, [], ◌∷◌, ◌++◌, length,
  arith, some, ok,
}
use tpfaas.Faabric.Maps.{same, at, put, at-put}
use tpfaas.Faabric.Scheduler.{
  Message, Scheduler, func_to_string, notify_call_finished, decrement_above_zero,
}
use tpfaas.Faabric.Executor.{
  FaabricExecutor, CurrentQueue, of_function, returned, Setup, ExecutorState, dequeue,
  type_is_flush, type_is_bind, execute_call, run,
}
use tpfaas.Faabric.Executor.Messages.{
  with_count, published, IsCall, dequeue_lem, process_lem, after_call, execute-call, process-call,
  finish_lem, run-nothing_left,
}

module _ (setup : Setup) where
  abbrev W : Type 0
  W = ExecutorState setup

  -- The calls that succeed one after the other and whose hooks leave the scheduler and Redis alone, what
  -- they leave of the messages, and the module after them.
  pub data Succeed (func : String)
      : setup.hooks.Module → List Message → List Message → setup.hooks.Module → Type 0 where
    none_left : (m : setup.hooks.Module) → Succeed func m [] [] m
    then_one :
        (m m1 m2 m3 : setup.hooks.Module) (msg msg1 msg2 : Message) (msgs done : List Message)
        → IsCall setup func msg
        → IsCall setup func msg2
        → ((s : Scheduler) (r : setup.redis.Server)
            → setup.hooks.do_execute (m, s, r) msg ≡ returned true msg1 (m1, s, r))
        → ((s : Scheduler) (r : setup.redis.Server)
            → setup.hooks.pre_finish_call (m1, s, r) msg1 true "" ≡ some (msg2, (m2, s, r)))
        → Succeed func m2 msgs done m3
        → Succeed func m (msg ∷ msgs) (msg2 ∷ done) m3

  -- What calls that are done have changed.
  pub record Did (func : String) (n : ℕ) (done : List Message) (m : setup.hooks.Module) (w w1 : W)
      : Type 0 where
    pub executed : w1.executor ≡ with_count w.executor (w.executor.execution_count + n)
    pub in_flight :
        at 0 w1.scheduler.in_flight_counts func ≡ at 0 w.scheduler.in_flight_counts func - n
    pub busy :
        w1.scheduler.this_host_resources.functions_in_flight
        ≡ w.scheduler.this_host_resources.functions_in_flight - n
    pub results : w1.server ≡ published setup w.server done w.executor.execution_count
    pub state : w1.module_state ≡ m

  -- The counts after one call, and what stays.
  pub counts_after :
      (func : String) (s : Scheduler) (msg : Message)
      → func_to_string msg ≡ func
      → (at 0 (notify_call_finished s msg).in_flight_counts func ≡ at 0 s.in_flight_counts func - 1)
        × ((notify_call_finished s msg).this_host_resources.functions_in_flight
            ≡ s.this_host_resources.functions_in_flight - 1)
        × ((notify_call_finished s msg).queue_map ≡ s.queue_map)
  unfolding notify_call_finished decrement_above_zero
  counts_after func s msg e =
      rw e (at-put 0 s.in_flight_counts func (at 0 s.in_flight_counts func - 1), refl, refl)

  -- One round of the loop for a call that succeeds.
  round-call :
      (func : String) (w w1 : W) (s : Scheduler) (msg : Message) (rounds : ℕ)
      → dequeue w.executor.current_queue w.scheduler ≡ some (msg, s)
      → type_is_flush msg.kind ≡ false
      → type_is_bind msg.kind ≡ false
      → execute_call setup (record w { scheduler = s }) msg ≡ ok ("", w1)
      → run setup (suc rounds) w ≡ run setup rounds w1
  unfolding run same
  round-call func w w1 s msg rounds e no_flush no_bind executes =
      rw
        (
          run,
          process_lem setup w msg s e,
          process-call setup (record w { scheduler = s }) w1 msg "" no_flush no_bind executes,
        )
        refl

  -- Calls that succeed, at the front of the queue, are executed one after the other.
  pub calls_done :
      (func : String) (m m3 : setup.hooks.Module) (msgs done rest : List Message)
      → Succeed func m msgs done m3
      → (w : W) (rounds : ℕ) → w.module_state ≡ m
      → w.executor.current_queue ≡ of_function func
      → at [] w.scheduler.queue_map func ≡ msgs ++ rest
      → (w1 : W) × (run setup (length msgs + rounds) w ≡ run setup rounds w1)
        × Did func (length msgs) done m3 w w1
        × (at [] w1.scheduler.queue_map func ≡ rest)
  calls_done func m m3 [] done rest (none_left _) w rounds here listens queue = (
    w,
    ap (λ (n : ℕ). run setup n w) (omega arith),
    record {
      executed = ap (with_count w.executor) (omega arith);
      in_flight = omega arith;
      busy = omega arith;
      results = refl;
      state = here;
    },
    queue,
  )
  calls_done func m m3 (msg ∷ msgs) [] rest x w rounds here listens queue = elim x [ ]
  calls_done func m m3 (msg ∷ msgs) (msg2 ∷ done) rest
        (then_one _ m1 m2 _ _ msg1 _ _ _ c c2 executes finishes more) w rounds here listens queue =
      let s1 : Scheduler = record (w.scheduler) {
        queue_map = put w.scheduler.queue_map func (msgs ++ rest);
      } in
      let w1 = after_call setup (record w { scheduler = s1 }) msg2 m2 in
      let taken =
        ap (λ (q : CurrentQueue). dequeue q w.scheduler) listens
        ∙ dequeue_lem setup func w.scheduler msg (msgs ++ rest) queue in
      let called =
        execute-call setup func (record w { scheduler = s1 }) msg msg1 msg2 m1 m2 c2
          (ap (λ (x : setup.hooks.Module). setup.hooks.do_execute (x, s1, w.server) msg) here
            ∙ executes s1 w.server)
          (finishes s1 w.server) in
      let (flights, busy1, queues) = counts_after func s1 msg2 c2.of_func in
      let (w2, runs, did, left) = calls_done func m2 m3 msgs done rest more w1 rounds refl listens (
        ap (λ (q : List (String × List Message)). at [] q func) queues
        ∙ at-put [] w.scheduler.queue_map func (msgs ++ rest)) in
      let one_more : suc (length msgs) + rounds ≡ suc (length msgs + rounds) = omega arith in
      (
        w2,
        ap (λ (n : ℕ). run setup n w) one_more
            ∙ round-call func w w1 s1 msg (length msgs + rounds) taken c.no_flush c.no_bind called
            ∙ runs,
        record {
          executed = did.executed ∙ ap (with_count w.executor) (omega arith);
          in_flight = omega (arith, did.in_flight, flights);
          busy = omega (arith, did.busy, busy1);
          results = did.results;
          state = did.state;
        },
        left,
      )

  -- An executor that is bound to a function, with calls queued for it that all succeed and whose hooks
  -- leave the scheduler and Redis alone, and with enough rounds: its run returns with all of them executed in order, the queue empty, their results set in
  -- Redis in the same order, and as many calls less in flight for the function and on the host.
  pub run_executes_all :
      (func : String) (w : W) (msgs done : List Message) (m : setup.hooks.Module) (rounds : ℕ)
      → 0 < setup.bound_timeout
      → w.executor.is_bound ≡ true
      → w.executor.current_queue ≡ of_function func
      → same w.executor.bound_message.master_host "" ≡ false
      → at [] w.scheduler.queue_map func ≡ msgs
      → Succeed func w.module_state msgs done m
      → length msgs < rounds
      → (w1 : W) × (run setup rounds w ≡ ok w1)
        × (at [] w1.scheduler.queue_map func ≡ [])
        × Did func (length msgs) done m w w1
  run_executes_all func w msgs done m rounds waits bound listens mastered queue succeed enough =
      let (w1, runs, did, left) =
        calls_done func w.module_state m msgs done [] succeed w (suc (rounds - length msgs - 1))
          refl listens (queue ∙ sym (append-nil msgs)) in
      let (s, ends, flights, busy, queues) =
        finish_lem setup w1 (ap (λ (e : FaabricExecutor). e.is_bound) did.executed ∙ bound) (
          ap (λ (e : FaabricExecutor). same e.bound_message.master_host "") did.executed
          ∙ mastered) in
      let rounds_left : rounds ≡ length msgs + suc (rounds - length msgs - 1) = omega arith in
      (
        record w1 { scheduler = s },
        ap (λ (n : ℕ). run setup n w) rounds_left
            ∙ runs
            ∙ run-nothing_left setup func w1 (rounds - length msgs - 1) waits
                (ap (λ (e : FaabricExecutor). e.is_bound) did.executed ∙ bound)
                (ap (λ (e : FaabricExecutor). e.current_queue) did.executed ∙ listens) left
            ∙ ends,
        ap (λ (q : List (String × List Message)). at [] q func) queues ∙ left,
        record {
          executed = did.executed;
          in_flight = ap (λ (q : List (String × ℕ)). at 0 q func) flights ∙ did.in_flight;
          busy = busy ∙ did.busy;
          results = did.results;
          state = did.state;
        },
      )
