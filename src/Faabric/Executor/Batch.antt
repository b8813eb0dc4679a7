-- ===== src/Faabric/Executor/Batch.antt =====
-- faasm/faabric, src/scheduler/Scheduler.cpp with src/executor/FaabricExecutor.cpp: a batch that is called
-- on this host, and the executor that it asks for.
use mathlib.Core.List.{append_assoc, append-nil}
use tpfaas.Base.{
  ℕ, suc, ◌+◌, ◌-◌, ◌≤◌, ◌<◌, ◌≡◌, refl, sym, ap, subst, ◌∙◌, Bool, true, false, ◌||◌, Bool-cases,
  inl, inr, String, List, [], ◌∷◌, ◌++◌, length, replicate, arith, ltb, ok, some,
}
use tpfaas.Faabric.Maps.{same, at, at-put}
use tpfaas.Faabric.Scheduler.{
  Message, BatchExecuteType, HostResources, Scheduler, func_to_string, bind_message,
  get_function_queue, enqueue_message, increment_in_flight_count, add_faaslets,
}
use tpfaas.Faabric.Scheduler.Calls.{
  snapshot_needed, forced_round, run_locally, account, dispatch, call_functions,
}
use tpfaas.Faabric.Scheduler.Kept.{Holds}
use tpfaas.Faabric.Scheduler.Running.{AllFor, forced_call}
use tpfaas.Faabric.Executor.{
  FaabricExecutor, of_binds, of_function, hooked, Setup, ExecutorState, processed, dequeue,
  type_is_flush, type_is_bind, bind_to_function, process, run, new_executor,
}
use tpfaas.Faabric.Executor.Messages.{process_lem, published}
use tpfaas.Faabric.Executor.Runs.{Succeed, run_executes_all}
use tpfaas.Faabric.Executor.Effects.{bound_to}

-- The bind queue begins with these messages.
Starts : List Message → Scheduler → Type 0
Starts front s = (more : List Message) × (s.bind_queue ≡ front ++ more)

forced_round-Starts :
    (func : String) (front : List Message) (s : Scheduler) (msg : Message)
    → Starts front s
    → Starts front (forced_round func s msg)
unfolding Starts forced_round enqueue_message increment_in_flight_count add_faaslets
forced_round-Starts func front s msg (more, e) =
    let s1 = increment_in_flight_count (enqueue_message s func msg) msg in
    elim (Bool-cases (
      ltb (at 0 s1.faaslet_counts (func_to_string msg))
        (at 0 s1.in_flight_counts (func_to_string msg)))) [
          | inl short ↦
              rw (forced_round, add_faaslets, short)
                (
                  more ++ bind_message s msg ∷ [],
                  ap (λ (q : List Message). q ++ bind_message s msg ∷ []) e
                      ∙ append_assoc front more (bind_message s msg ∷ []),
                )
          | inr enough ↦ rw (forced_round, add_faaslets, enough) (more, e)
        ]

-- The first message of a function without faaslets to spare asks for one.
first_round-Starts :
    (func : String) (s : Scheduler) (msg : Message)
    → func_to_string msg ≡ func
    → at 0 s.faaslet_counts func ≤ at 0 s.in_flight_counts func
    → Starts (s.bind_queue ++ bind_message s msg ∷ []) (forced_round func s msg)
unfolding Starts forced_round enqueue_message increment_in_flight_count add_faaslets bind_message
first_round-Starts func s msg e few =
    let got = at-put 0 s.in_flight_counts func (at 0 s.in_flight_counts func + 1) in
    let short : ltb (at 0 s.faaslet_counts func) (at 0 s.in_flight_counts func + 1) ≡ true =
      ground arith in
    rw (e, got, short) ([], sym (append-nil _))

run_locally-Starts :
    (func : String) (front : List Message) (s : Scheduler) (msgs : List Message)
    → Starts front s
    → Starts front (run_locally (forced_round func) s msgs)
unfolding run_locally
run_locally-Starts func front s [] h = h
run_locally-Starts func front s (msg ∷ msgs) h =
    run_locally-Starts func front (forced_round func s msg) msgs
      (forced_round-Starts func front s msg h)

module _ (test_mode : Bool) (get_host_resources : String → HostResources)
    (available_hosts : List String) (has_snapshot : String → Bool) where
  bind_queue-account :
      (s : Scheduler) (msgs : List Message) (executed : List String)
      → (account test_mode get_host_resources available_hosts has_snapshot s msgs
          executed).bind_queue
        ≡ s.bind_queue
  unfolding account
  bind_queue-account s [] executed = refl
  bind_queue-account s (msg ∷ msgs) [] = refl
  bind_queue-account s (msg ∷ msgs) (host ∷ executed) = elim (Bool-cases test_mode) [
    | inl testing ↦ elim (Bool-cases (same host "" || same host s.this_host)) [
      | inl here ↦ rw (account, testing, here) (bind_queue-account _ msgs executed)
      | inr there ↦ rw (account, testing, there) (bind_queue-account _ msgs executed)
    ]
    | inr live ↦ rw (account, live) (bind_queue-account s msgs executed)
  ]

  -- A forced batch of a function without faaslets to spare asks for one behind the requests that are
  -- there.
  pub forced_asks :
      (s s1 : Scheduler) (batch : BatchExecuteType) (first_msg : Message) (rest : List Message)
      (executed : List String)
      → snapshot_needed batch ≡ false
      → same first_msg.master_host "" ≡ false
      → at 0 s.faaslet_counts (func_to_string first_msg)
        ≤ at 0 s.in_flight_counts (func_to_string first_msg)
      → call_functions test_mode get_host_resources available_hosts has_snapshot s
          (record { batch = batch; messages = first_msg ∷ rest })
          true
        ≡ ok (s1, executed)
      → (more : List Message) × (s1.bind_queue
          ≡ (s.bind_queue ++ bind_message s first_msg ∷ []) ++ more)
  unfolding call_functions dispatch get_function_queue run_locally bind_message Starts
  forced_asks s s1 batch first_msg rest executed without mastered few e =
      let func = func_to_string first_msg in
      let s0 = get_function_queue s func in
      let front = s.bind_queue ++ bind_message s first_msg ∷ [] in
      let s2 = forced_round func s0 first_msg in
      let (more, asked) =
        run_locally-Starts func front s2 rest (first_round-Starts func s0 first_msg refl few) in
      let kept =
        bind_queue-account (run_locally (forced_round func) s2 rest) (first_msg ∷ rest)
          (replicate (length (first_msg ∷ rest)) s.this_host) in
      subst (Holds (λ (x : Scheduler × List String). Starts front x.0)) e
        (rw (mastered, without) (more, kept ∙ asked))

  module _ (setup : Setup) where
    abbrev W : Type 0
    W = ExecutorState setup

    -- The worker of a new executor that has taken the front of the bind queue.
    abbrev bound_worker :
        ℕ → Scheduler → List Message → Message → setup.redis.Server → setup.hooks.Module → W
    bound_worker thread_idx s requests msg r m = record {
      executor = bound_to (new_executor setup thread_idx) msg;
      scheduler = get_function_queue (record s { bind_queue = requests }) (func_to_string msg);
      server = r;
      module_state = m;
    }

    process-bind :
        (w w1 : W) (msg : Message)
        → type_is_flush msg.kind ≡ false
        → type_is_bind msg.kind ≡ true
        → bind_to_function setup w msg false ≡ ok (hooked w1)
        → process setup w msg ≡ ok (processed "" w1)
    unfolding process
    process-bind w w1 msg no_flush binds e = rw (process, no_flush, binds, e) refl

    binding :
        (thread_idx rounds : ℕ) (s : Scheduler) (requests : List Message) (msg : Message)
        (r : setup.redis.Server) (m m1 : setup.hooks.Module)
        → s.bind_queue ≡ msg ∷ requests
        → type_is_flush msg.kind ≡ false
        → type_is_bind msg.kind ≡ true
        → ((s2 : Scheduler) (r2 : setup.redis.Server)
            → setup.hooks.post_bind (m, s2, r2) msg false ≡ hooked (m1, s2, r2))
        → run setup (suc rounds) (record {
          executor = new_executor setup thread_idx;
          scheduler = s;
          server = r;
          module_state = m;
        })
          ≡ run setup rounds (bound_worker thread_idx s requests msg r m1)
    unfolding run dequeue new_executor same bind_to_function
    binding thread_idx rounds s requests msg r m m1 asks no_flush binds hook =
        let s1 : Scheduler = record s { bind_queue = requests } in
        let w : W = record {
          executor = new_executor setup thread_idx;
          scheduler = s;
          server = r;
          module_state = m;
        } in
        let taken : dequeue of_binds s ≡ some (msg, s1) = rw (dequeue, asks) refl in
        let bound : bind_to_function setup (record w { scheduler = s1 }) msg false
            ≡ ok (hooked (bound_worker thread_idx s requests msg r m1)) =
          rw (bind_to_function, hook (get_function_queue s1 (func_to_string msg)) r) refl in
        let processes : process setup (record w { scheduler = s1 }) msg
            ≡ ok (processed "" (bound_worker thread_idx s requests msg r m1)) =
          process-bind (record w { scheduler = s1 }) (bound_worker thread_idx s requests msg r m1)
            msg no_flush binds bound in
        rw (run, process_lem setup w msg s1 taken, processes) refl

    -- A batch that is forced to run on this host, for one function that needs no snapshot, that has no
    -- more faaslets than messages in flight and nothing queued, when the bind queue is empty; a new
    -- executor on the same host whose hook binds; calls that all succeed; hooks that leave the scheduler and
    -- Redis alone; and enough rounds. Then `callFunctions` returns, and the run of the executor returns
    -- bound to the function, with every message of the batch executed once and in order, the queue of the
    -- function empty, the results set in Redis in the same order, and the function and the host with as many
    -- calls in flight as before.
    pub batch_served :
        (s : Scheduler) (batch : BatchExecuteType) (first_msg : Message) (rest done : List Message)
        (thread_idx rounds : ℕ) (r : setup.redis.Server) (m m1 m2 : setup.hooks.Module)
        → snapshot_needed batch ≡ false
        → same first_msg.master_host "" ≡ false
        → same s.this_host "" ≡ false
        → AllFor (func_to_string first_msg) rest
        → at 0 s.faaslet_counts (func_to_string first_msg)
          ≤ at 0 s.in_flight_counts (func_to_string first_msg)
        → s.bind_queue ≡ []
        → at [] s.queue_map (func_to_string first_msg) ≡ []
        → 0 < setup.bound_timeout
        → ((s2 : Scheduler) (r2 : setup.redis.Server)
            → setup.hooks.post_bind (m, s2, r2) (bind_message s first_msg) false
              ≡ hooked (m1, s2, r2))
        → Succeed setup (func_to_string first_msg) m1 (first_msg ∷ rest) done m2
        → suc (length (first_msg ∷ rest)) < rounds
        → (s1 : Scheduler) × (executed : List String) × (w1 : W) × (call_functions test_mode
              get_host_resources available_hosts has_snapshot s
              (record { batch = batch; messages = first_msg ∷ rest })
              true
            ≡ ok (s1, executed))
          × (run setup rounds (record {
            executor = new_executor setup thread_idx;
            scheduler = s1;
            server = r;
            module_state = m;
          })
              ≡ ok w1)
          × (w1.executor.current_queue ≡ of_function (func_to_string first_msg))
          × (w1.executor.execution_count ≡ length (first_msg ∷ rest))
          × (at [] w1.scheduler.queue_map (func_to_string first_msg) ≡ [])
          × (w1.server ≡ published setup r done 0)
          × (at 0 w1.scheduler.in_flight_counts (func_to_string first_msg)
              ≡ at 0 s.in_flight_counts (func_to_string first_msg))
          × (w1.scheduler.this_host_resources.functions_in_flight
              ≡ s.this_host_resources.functions_in_flight)
    unfolding bind_message new_executor get_function_queue func_to_string type_is_flush type_is_bind
    batch_served s batch first_msg rest done thread_idx rounds r m m1 m2 without mastered hosted all
          few no_binds no_calls waits hook succeed enough =
        let func = func_to_string first_msg in
        let messages = first_msg ∷ rest in
        let msg = bind_message s first_msg in
        let (s1, called, queued, flights, busy, _) =
          forced_call test_mode get_host_resources available_hosts has_snapshot s batch first_msg
            rest without mastered all in
        let (more, asked) = forced_asks s s1 batch first_msg rest _ without mastered few called in
        let front : s1.bind_queue ≡ msg ∷ more =
          asked ∙ ap (λ (q : List Message). (q ++ msg ∷ []) ++ more) no_binds in
        let w : W = bound_worker thread_idx s1 more msg r m1 in
        let queue : at [] w.scheduler.queue_map func ≡ messages =
          at-put [] s1.queue_map func (at [] s1.queue_map func)
          ∙ queued
          ∙ ap (λ (q : List Message). q ++ messages) no_calls in
        let (w1, runs, left, did) =
          run_executes_all setup func w messages done m2 (rounds - 1) waits refl refl hosted queue
            succeed (omega arith) in
        let one : rounds ≡ suc (rounds - 1) = omega arith in
        (
          s1,
          _,
          w1,
          called,
          ap
                (λ (n : ℕ). run setup n (record {
                  executor = new_executor setup thread_idx;
                  scheduler = s1;
                  server = r;
                  module_state = m;
                }))
                one
              ∙ binding thread_idx (rounds - 1) s1 more msg r m m1 front refl refl hook
              ∙ runs,
          ap (λ (e : FaabricExecutor). e.current_queue) did.executed,
          ap (λ (e : FaabricExecutor). e.execution_count) did.executed ∙ omega arith,
          left,
          did.results,
          omega (arith, did.in_flight, flights),
          omega (arith, did.busy, busy),
        )
