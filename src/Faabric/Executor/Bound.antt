-- ===== src/Faabric/Executor/Bound.antt =====
-- faasm/faabric, `run` of src/executor/FaabricExecutor.cpp: that it ends, and what it never changes.
use tpfaas.Base.{
  ℕ, zero, suc, ◌<◌, ◌≡◌, ◌≢◌, refl, ap, subst, sym, true, Bool-cases, Option-cases, inl, inr,
  arith, ltb, if◌then◌else◌, Outcome, ok, fault, stuck,
}
use tpfaas.Faabric.Maps.{same}
use tpfaas.Faabric.Scheduler.{func_to_string}
use tpfaas.Faabric.Scheduler.Kept.{Holds, Holds-bind}
use tpfaas.Faabric.Executor.{
  FaabricExecutor, CurrentQueue, of_binds, of_function, Setup, ExecutorState, Next, processed,
  timed_out, told_to_finish, dequeue, process, process_next_message, run, finish,
}
use tpfaas.Faabric.Executor.Messages.{with_count, process_lem}
use tpfaas.Faabric.Executor.Effects.{
  Ends, Ends-bind, Ends-mono, Evolves, counted, binds, queued, HooksDo, Fewer, Anything,
  Anything-Relates, hooks-Anything,
}
use tpfaas.Faabric.Executor.Ends.{
  AfterMessage, AfterNext, finish-Ends, round, run-round, process_next_message-Ends, process-Ends,
}

Ends-Holds : {T : Type 0} (Q : T → Type 0) (m : Outcome T) → Ends Q m → Holds Q m
Ends-Holds Q (ok t) h = h
Ends-Holds Q (fault _) h = tt

-- The queue that an executor has to listen to.
abbrev own_queue : FaabricExecutor → CurrentQueue
own_queue e = if e.is_bound then of_function (func_to_string e.bound_message) else of_binds

abbrev pub Listens : FaabricExecutor → Type 0
Listens e = e.current_queue ≡ own_queue e

Listens-kept : (e e1 : FaabricExecutor) → Evolves e e1 → Listens e → Listens e1
Listens-kept e _ (counted n) listens = listens
Listens-kept e _ (binds msg free) listens = refl

abbrev StillBound : FaabricExecutor → FaabricExecutor → Type 0
StillBound e e1 = (e1.is_bound ≡ true) × (e1 ≡ with_count e e1.execution_count)

still_bound : (e e1 e2 : FaabricExecutor) → Evolves e1 e2 → StillBound e e1 → StillBound e e2
still_bound e e1 _ (counted n) (bound, path) =
    (bound, ap (λ (x : FaabricExecutor). with_count x n) path)
still_bound e e1 _ (binds msg free) (bound, path) = cc

module _ (setup : Setup) where
  abbrev W : Type 0
  W = ExecutorState setup

  finished_lem : (w : W) → Ends (λ (_ : W). Unit {0}) (finish setup w)
  finished_lem w =
      Ends-mono (λ (w1 : W). w1.executor ≡ w.executor) (λ (_ : W). Unit {0}) (finish setup w)
        (finish-Ends setup w) (λ w1 e. tt)

  round-Ends :
      (rounds : ℕ) (w : W)
      → ((w1 : W) → queued w1.scheduler < rounds → Ends (λ (_ : W). Unit {0}) (run setup rounds w1))
      → queued w.scheduler < suc rounds
      → (next : Next setup) → AfterNext setup w next
      → Ends (λ (_ : W). Unit {0}) (round setup rounds w next)
  round-Ends rounds w ih enough (processed error_message w1) later =
      elim (Bool-cases (same error_message "")) [
        | inl no_error ↦ rw no_error (ih w1 (omega arith))
        | inr stop ↦ rw stop (finished_lem w1)
      ]
  round-Ends rounds w ih enough timed_out later = finished_lem w
  round-Ends rounds w ih enough (told_to_finish w1) later = finished_lem w1

  run_lem :
      (quiet : HooksDo setup Fewer) (rounds : ℕ) (w : W)
      → 0 < setup.bound_timeout
      → 0 < setup.unbound_timeout
      → queued w.scheduler < rounds
      → Ends (λ (_ : W). Unit {0}) (run setup rounds w)
  run_lem quiet zero w waits waits_unbound enough = absurd (omega arith)
  run_lem quiet (suc rounds) w waits waits_unbound enough =
      subst (Ends (λ (_ : W). Unit {0})) (sym (run-round setup rounds w)) (
        Ends-bind (AfterNext setup w) (λ (_ : W). Unit {0}) (process_next_message setup w)
          (round setup rounds w) (process_next_message-Ends setup quiet w waits waits_unbound)
          (round-Ends rounds w (λ w1 few. run_lem quiet rounds w1 waits waits_unbound few) enough))

  -- With timeouts, with hooks that put no messages into the queues of the host, and with more rounds than
  -- messages stand in them, the run of an executor does not wait for ever, whatever the messages are.
  pub run_ends :
      (quiet : HooksDo setup Fewer) (rounds : ℕ) (w : W)
      → 0 < setup.bound_timeout
      → 0 < setup.unbound_timeout
      → queued w.scheduler < rounds
      → run setup rounds w ≢ fault stuck
  run_ends quiet rounds w waits waits_unbound enough e =
      let ends = run_lem quiet rounds w waits waits_unbound enough in
      cc (subst (Ends (λ (_ : W). Unit {0})) e ends)

  module _ (P : FaabricExecutor → Type 0)
      (keeps : (e e1 : FaabricExecutor) → Evolves e e1 → P e → P e1) where
    abbrev Keeps : Next setup → Type 0
    Keeps (processed error_message w1) = P w1.executor
    Keeps timed_out = Unit {0}
    Keeps (told_to_finish w1) = P w1.executor

    message_lem :
        (w : W)
        → P w.executor
        → (next : Next setup)
        → AfterMessage setup Anything Anything-Relates (hooks-Anything setup) w next
        → Ends Keeps (ok next)
    message_lem w p (processed error_message w1) later = keeps w.executor w1.executor later.1 p
    message_lem w p timed_out later = tt
    message_lem w p (told_to_finish w1) later = keeps w.executor w1.executor later.1 p

    process_next_message-Keeps : (w : W) → P w.executor → Holds Keeps (process_next_message setup w)
    unfolding process_next_message
    process_next_message-Keeps w p =
        elim (Option-cases (dequeue w.executor.current_queue w.scheduler)) [
          | inl nothing ↦
              elim (Bool-cases (
                ltb 0
                  (if w.executor.is_bound then setup.bound_timeout else setup.unbound_timeout))) [
                    | inl long ↦ simp (process_next_message, nothing, long) tt
                    | inr endless ↦ simp (process_next_message, nothing, endless) tt
                  ]
          | inr ((msg, s), e) ↦
              let w1 : W = record w { scheduler = s } in
              subst (Holds Keeps) (sym (process_lem setup w msg s e)) (
                Ends-Holds Keeps (process setup w1 msg) (
                  Ends-mono (AfterMessage setup Anything Anything-Relates (hooks-Anything setup) w1)
                    Keeps (process setup w1 msg)
                    (process-Ends setup Anything Anything-Relates (hooks-Anything setup) w1 msg)
                    (message_lem w1 p)))
        ]

    finish_keeps : (w : W) → P w.executor → Holds (λ (w1 : W). P w1.executor) (finish setup w)
    finish_keeps w p =
        Ends-Holds (λ (w1 : W). P w1.executor) (finish setup w)
          (Ends-mono (λ (w1 : W). w1.executor ≡ w.executor) (λ (w1 : W). P w1.executor)
            (finish setup w) (finish-Ends setup w) (λ w1 e. subst P (sym e) p))

    round-Keeps :
        (rounds : ℕ) (w : W)
        → ((w1 : W) → P w1.executor → Holds (λ (w2 : W). P w2.executor) (run setup rounds w1))
        → P w.executor
        → (next : Next setup) → Keeps next
        → Holds (λ (w1 : W). P w1.executor) (round setup rounds w next)
    round-Keeps rounds w ih p (processed error_message w1) kept =
        elim (Bool-cases (same error_message "")) [
          | inl no_error ↦ rw no_error (ih w1 kept)
          | inr stop ↦ rw stop (finish_keeps w1 kept)
        ]
    round-Keeps rounds w ih p timed_out kept = finish_keeps w p
    round-Keeps rounds w ih p (told_to_finish w1) kept = finish_keeps w1 kept

    run_keeps :
        (rounds : ℕ) (w : W) → P w.executor → Holds (λ (w1 : W). P w1.executor) (run setup rounds w)
    unfolding run
    run_keeps zero w p = tt
    run_keeps (suc rounds) w p =
        subst (Holds (λ (w1 : W). P w1.executor)) (sym (run-round setup rounds w)) (
          Holds-bind Keeps (λ (w1 : W). P w1.executor) (process_next_message setup w)
            (round setup rounds w) (process_next_message-Keeps w p)
            (round-Keeps rounds w (λ w1 q. run_keeps rounds w1 q) p))

  -- An executor that is bound stays bound to the same message, listens to the same queue, and keeps its
  -- id and index, whatever a run of it processes.
  pub bound_once :
      (rounds : ℕ) (w w1 : W)
      → w.executor.is_bound ≡ true
      → run setup rounds w ≡ ok w1
      → w1.executor ≡ with_count w.executor w1.executor.execution_count
  bound_once rounds w w1 bound e =
      (subst (Holds (λ (x : W). StillBound w.executor x.executor)) e
        (run_keeps (StillBound w.executor) (still_bound w.executor) rounds w (bound, refl))).1

  -- After a run, as before it, the executor listens to the queue of the function that it is bound to, and
  -- to the bind queue if it is not bound.
  pub run-Listens :
      (rounds : ℕ) (w w1 : W)
      → Listens w.executor
      → run setup rounds w ≡ ok w1
      → Listens w1.executor
  run-Listens rounds w w1 listens e =
      subst (Holds (λ (x : W). Listens x.executor)) e
        (run_keeps Listens Listens-kept rounds w listens)
