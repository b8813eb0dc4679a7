-- ===== src/Faabric/Executor/Ends.antt =====
-- faasm/faabric, src/executor/FaabricExecutor.cpp: what one message changes of a worker, as far
-- as its hooks let it.
use tpfaas.Base.{
  ℕ, suc, ◌+◌, ◌<◌, ◌≡◌, refl, sym, subst, Bool, true, false, Bool-cases, Option-cases, inl, inr,
  String, arith, ltb, if◌then◌else◌, Outcome, ok, fault, thrown, ◌>>=◌,
}
use tpfaas.Faabric.Maps.{joined, same}
use tpfaas.Faabric.Scheduler.{
  Message, Scheduler, func_to_string, get_function_queue, notify_call_finished,
  notify_faaslet_finished,
}
use tpfaas.Faabric.Scheduler.Results.{set_function_result}
use tpfaas.Faabric.Executor.{
  Hooked, hooked, invalid_function, broken, Setup, ExecutorState, Hosted, hosted, with_hosted, Next,
  processed, timed_out, told_to_finish, dequeue, type_is_flush, type_is_bind, bind_to_function,
  finish_call, execute_call, with_error, process, process_next_message, run, finish,
}
use tpfaas.Faabric.Executor.Messages.{process_lem}
use tpfaas.Faabric.Executor.Effects.{
  Ends, Ends-bind, Ends-mono, queued, OnSome, queued-dequeue, Evolves, Executed-cases, Hooked-cases,
  Flushed-cases, counted, binds, OnExecuted, OnHooked, OnFlushed, HooksDo, Fewer, Relates,
  Fewer-Relates,
}

module _ (setup : Setup) where
  abbrev W : Type 0
  W = ExecutorState setup

  set_function_result-Ends :
      (r : setup.redis.Server) (msg : Message) (n : ℕ)
      → Ends
          (λ _. Unit {0})
          (set_function_result setup.protobuf setup.redis setup.endpoint_host r msg n)
  unfolding set_function_result
  set_function_result-Ends r msg n = elim (Bool-cases (same msg.result_key "")) [
    | inl no_key ↦ rw no_key tt
    | inr keyed ↦ elim (Bool-cases (same msg.status_key "")) [
      | inl no_status ↦ rw (keyed, no_status) tt
      | inr status ↦ rw (keyed, status) tt
    ]
  ]

  module _ (G : Scheduler → Scheduler → Type 0) (relates : Relates G) (does : HooksDo setup G) where
    -- A worker whose scheduler is related and whose executor has taken one step.
    abbrev pub Later : W → W → Type 0
    Later w w1 = G w.scheduler w1.scheduler × Evolves w.executor w1.executor

    abbrev pub AfterMessage : W → Next setup → Type 0
    AfterMessage w (processed error_message w1) = Later w w1
    AfterMessage w timed_out = Unit {0}
    AfterMessage w (told_to_finish w1) = Later w w1

    finish_call-Ends :
        (w : W) (msg : Message) (success : Bool) (error_message : String)
        → Ends (Later w) (finish_call setup w msg success error_message)
    unfolding finish_call set_function_result with_error notify_call_finished
    finish_call-Ends w msg success error_message =
        let left = does.finishing (hosted setup w) msg success error_message in
        elim (Option-cases
          (setup.hooks.pre_finish_call (hosted setup w) msg success error_message)) [
            | inl breaks ↦ rw (finish_call, breaks) tt
            | inr ((msg1, x), e) ↦
                let msg2 = with_error setup success error_message msg1 in
                let n = w.executor.execution_count in
                let g : G w.scheduler x.1 =
                  subst (OnSome (λ (y : Message × Hosted setup). G w.scheduler y.1.1)) e left in
                rw (finish_call, e)
                  (Ends-bind (λ _. Unit {0}) (Later w)
                    (set_function_result setup.protobuf setup.redis setup.endpoint_host x.2 msg2
                      (setup.now n))
                    _ (set_function_result-Ends x.2 msg2 (setup.now n))
                    (λ server _. (relates.then_finished w.scheduler x.1 msg2 g, counted (n + 1))))
          ]

    -- What follows from a state that the hooks have left.
    after_hook :
        (w : W) (x : Hosted setup) (w1 : W)
        → G w.scheduler x.1
        → Later (with_hosted setup w x) w1
        → Later w w1
    after_hook w x w1 g later = (relates.joins w.scheduler x.1 w1.scheduler g later.0, later.1)

    execute_call-Ends :
        (w : W) (msg : Message) → Ends (λ (x : String × W). Later w x.1) (execute_call setup w msg)
    unfolding execute_call
    execute_call-Ends w msg =
        let left = does.executing (hosted setup w) msg in
        let OnCall = OnExecuted (λ (y : Hosted setup). G w.scheduler y.1) in
        elim (Executed-cases (setup.hooks.do_execute (hosted setup w) msg)) [
          | inl (success, msg1, x, e) ↦
              let w1 = with_hosted setup w x in
              rw (execute_call, e)
                (Ends-bind (Later w1) _ (finish_call setup w1 msg1 success _) _
                  (finish_call-Ends w1 msg1 success _)
                  (λ w2 later. after_hook w x w2 (subst OnCall e left) later))
          | inr (what, msg1, x, e) ↦
              let w1 = with_hosted setup w x in
              let msg2 : Message = record msg1 { return_value = 1 } in
              rw (execute_call, e)
                (Ends-bind (Later w1) _ (finish_call setup w1 msg2 false (joined "Error: " what)) _
                  (finish_call-Ends w1 msg2 false (joined "Error: " what))
                  (λ w2 later. after_hook w x w2 (subst OnCall e left) later))
        ]

    -- Binding ends, and only an executor that was not bound returns from it.
    abbrev AfterBind : W → Hooked W → Type 0
    AfterBind w (hooked w1) = Later w w1
    AfterBind w (invalid_function w1) = Later w w1
    AfterBind w broken = Unit {0}

    bind_to_function-Ends :
        (w : W) (msg : Message) → Ends (AfterBind w) (bind_to_function setup w msg false)
    unfolding bind_to_function
    bind_to_function-Ends w msg = elim (Bool-cases w.executor.is_bound) [
      | inl bound ↦ simp (bind_to_function, bound) tt
      | inr free ↦
          let func = func_to_string msg in
          let s1 = get_function_queue w.scheduler func in
          let x0 : Hosted setup = (w.module_state, s1, w.server) in
          let left = does.binding x0 msg false in
          let OnBind = OnHooked (λ (y : Hosted setup). G s1 y.1) in
          elim (Hooked-cases (setup.hooks.post_bind x0 msg false)) [
            | inl (x, e) ↦
                simp (bind_to_function, free, e)
                  (relates.after_queue w.scheduler x.1 func (subst OnBind e left), binds msg free)
            | inr (inl (x, e)) ↦
                simp (bind_to_function, free, e)
                  (relates.after_queue w.scheduler x.1 func (subst OnBind e left), binds msg free)
            | inr (inr e) ↦ simp (bind_to_function, free, e) tt
          ]
    ]

    -- What `processNextMessage` makes of a binding.
    abbrev next_of : Message → Hooked W → Outcome (Next setup)
    next_of msg (hooked w1) = ok (processed "" w1)
    next_of msg (invalid_function w1) =
        ok (processed (joined "Invalid function: " (func_to_string msg)) w1)
    next_of msg broken = fault thrown

    bound_next :
        (w : W) (msg : Message) (x : Hooked W)
        → AfterBind w x
        → Ends (AfterMessage w) (next_of msg x)
    bound_next w msg (hooked w1) later = later
    bound_next w msg (invalid_function w1) later = later
    bound_next w msg broken later = tt

    pub process-Ends : (w : W) (msg : Message) → Ends (AfterMessage w) (process setup w msg)
    unfolding process
    process-Ends w msg =
        let left = does.flushing (hosted setup w) in
        let OnFlush = OnFlushed (λ (y : Hosted setup). G w.scheduler y.1) in
        elim (Bool-cases (type_is_flush msg.kind)) [
          | inl flushes ↦ elim (Flushed-cases (setup.hooks.flush (hosted setup w))) [
            | inl (x, e) ↦
                rw (process, flushes, e) (subst OnFlush e left, counted w.executor.execution_count)
            | inr (x, e) ↦
                rw (process, flushes, e) (subst OnFlush e left, counted w.executor.execution_count)
          ]
          | inr no_flush ↦ elim (Bool-cases (type_is_bind msg.kind)) [
            | inl binding ↦
                rw (process, no_flush, binding)
                  (Ends-bind (AfterBind w) (AfterMessage w) (bind_to_function setup w msg false) _
                    (bind_to_function-Ends w msg) (bound_next w msg))
            | inr calling ↦
                rw (process, no_flush, calling)
                  (Ends-bind (λ (x : String × W). Later w x.1) (AfterMessage w)
                    (execute_call setup w msg) _ (execute_call-Ends w msg) (λ x later. later))
          ]
        ]

  pub finish-Ends : (w : W) → Ends (λ (w1 : W). w1.executor ≡ w.executor) (finish setup w)
  unfolding finish notify_faaslet_finished
  finish-Ends w = elim (Bool-cases w.executor.is_bound) [
    | inl bound ↦ elim (Bool-cases (same w.executor.bound_message.master_host "")) [
      | inl no_master ↦ simp (finish, bound, no_master) tt
      | inr mastered ↦ simp (finish, bound, mastered) refl
    ]
    | inr free ↦ simp (finish, free) refl
  ]

  -- What a round of the loop makes of the message that it processes.
  abbrev pub round : ℕ → W → Next setup → Outcome W
  round rounds w (processed error_message w1) =
      let rest = run setup rounds w1 in if same error_message "" then rest else finish setup w1
  round rounds w timed_out = finish setup w
  round rounds w (told_to_finish w1) = finish setup w1

  pub run-round :
      (rounds : ℕ) (w : W)
      → run setup (suc rounds) w ≡ (process_next_message setup w >>= round rounds w)
  unfolding run
  run-round rounds w = refl

  abbrev pub AfterNext : W → Next setup → Type 0
  AfterNext w (processed error_message w1) =
      (queued w1.scheduler < queued w.scheduler) × Evolves w.executor w1.executor
  AfterNext w timed_out = Unit {0}
  AfterNext w (told_to_finish w1) =
      (queued w1.scheduler < queued w.scheduler) × Evolves w.executor w1.executor

  pub next_later :
      (quiet : HooksDo setup Fewer) (w : W) (s : Scheduler)
      → suc (queued s) ≡ queued w.scheduler
      → (next : Next setup)
      → AfterMessage Fewer Fewer-Relates quiet (record w { scheduler = s }) next
      → AfterNext w next
  next_later quiet w s e (processed error_message w1) later = (omega (arith, later.0), later.1)
  next_later quiet w s e timed_out later = tt
  next_later quiet w s e (told_to_finish w1) later = (omega (arith, later.0), later.1)

  pub process_next_message-Ends :
      (quiet : HooksDo setup Fewer) (w : W)
      → 0 < setup.bound_timeout
      → 0 < setup.unbound_timeout
      → Ends (AfterNext w) (process_next_message setup w)
  unfolding process_next_message
  process_next_message-Ends quiet w waits waits_unbound =
      let long : ltb 0 setup.bound_timeout ≡ true = ground arith in
      let long_unbound : ltb 0 setup.unbound_timeout ≡ true = ground arith in
      elim (Option-cases (dequeue w.executor.current_queue w.scheduler)) [
        | inl nothing ↦ elim (Bool-cases w.executor.is_bound) [
          | inl bound ↦ simp (process_next_message, nothing, bound, long) tt
          | inr free ↦ simp (process_next_message, nothing, free, long_unbound) tt
        ]
        | inr ((msg, s), e) ↦
            let fewer =
              subst (OnSome (λ (x : Message × Scheduler). suc (queued x.1) ≡ queued w.scheduler)) e
                (queued-dequeue w.executor.current_queue w.scheduler) in
            let w1 : W = record w { scheduler = s } in
            subst (Ends (AfterNext w)) (sym (process_lem setup w msg s e)) (
              Ends-mono (AfterMessage Fewer Fewer-Relates quiet w1) (AfterNext w)
                (process setup w1 msg) (process-Ends Fewer Fewer-Relates quiet w1 msg)
                (next_later quiet w s fewer))
      ]
