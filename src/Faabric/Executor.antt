-- ===== src/Faabric/Executor.antt =====
-- faasm/faabric: src/executor/FaabricExecutor.cpp and include/faabric/executor/FaabricExecutor.h. An
-- executor runs on the state of the scheduler of its host and of Redis. The hooks that a derived class
-- overrides are parameters that act on a state of its own (its module), on the scheduler and on Redis;
-- `postFinishCall` and `postFinish`, which hand nothing on to a message or the scheduler, are left out. What
-- other threads do between two messages is not part of a run.
pub mod Messages
pub mod Runs
pub mod Failed
pub mod Effects
pub mod Ends
pub mod Bound
pub mod Batch
use tpfaas.Base.{
  ℕ, suc, zero, ◌+◌, ◌-◌, ◌^◌, Bool, true, false, not, ◌&&◌, ◌||◌, String, List, [], ◌∷◌, Option,
  none, some, arith, ltb, if◌then◌else◌, Outcome, ok, fault, thrown, stuck, ◌>>=◌, ◌>>◌,
  throw_unless,
}
use tpfaas.Faabric.Maps.{joined, to_string, same, at, put}
use tpfaas.Faabric.Scheduler.{
  Message, MessageType, Scheduler, func_to_string, get_function_queue, notify_call_finished,
  notify_faaslet_finished,
}
use tpfaas.Faabric.Scheduler.Results.{Protobuf, RedisStore, set_function_result, blank}

-- `currentQueue`: the bind queue of the scheduler, or the queue of a function.
pub data CurrentQueue : Type 0 where
  of_binds : CurrentQueue
  of_function : String → CurrentQueue

pub record FaabricExecutor : Type 0 where
  pub thread_idx : ℕ
  pub id : String
  pub is_bound : Bool
  pub bound_message : Message
  pub current_queue : CurrentQueue
  pub execution_count : ℕ

-- How `doExecute` ends, with the call and the state that it leaves: it returns whether the function
-- succeeded, or a `std::exception` leaves it.
pub data Executed (S : Type 0) : Type 0 where
  returned : (success : Bool) (msg : Message) (m : S) → Executed S
  raised : (what : String) (msg : Message) (m : S) → Executed S

-- How `postBind` ends: it returns, an `InvalidFunctionException` leaves it, or another exception.
pub data Hooked (S : Type 0) : Type 0 where
  hooked : (m : S) → Hooked S
  invalid_function : (m : S) → Hooked S
  broken : Hooked S

-- How `flush` ends: it returns, or an `ExecutorFinishedException` leaves it.
pub data Flushed (S : Type 0) : Type 0 where
  flushed : (m : S) → Flushed S
  flushed_out : (m : S) → Flushed S

-- The hooks may call the scheduler and Redis, as a function does that chains calls. `preFinishCall` has
-- no result if an exception leaves it.
pub record Hooks (Server : Type 0) : Type 1 where
  pub Module : Type 0
  pub do_execute : Module × Scheduler × Server → Message → Executed (Module × Scheduler × Server)
  pub post_bind :
      Module × Scheduler × Server → Message → Bool → Hooked (Module × Scheduler × Server)
  pub pre_finish_call :
      Module × Scheduler × Server
      → Message
      → Bool
      → String
      → Option (Message × (Module × Scheduler × Server))
  pub flush : Module × Scheduler × Server → Flushed (Module × Scheduler × Server)

-- What the executors of a host share: the hooks, protobuf and Redis, the configuration, and the clock,
-- which is read by the number of calls executed.
pub record Setup : Type 1 where
  pub protobuf : Protobuf
  pub redis : RedisStore protobuf.Bytes
  pub hooks : Hooks redis.Server
  pub endpoint_host : String
  pub bound_timeout : ℕ
  pub unbound_timeout : ℕ
  pub now : ℕ → ℕ

-- What `std::to_string` makes of an `int32_t`, given by its 32 bits.
unfoldable pub int_to_string : ℕ → String
unfolding to_string
int_to_string n = if ltb n (2 ^ 31) then to_string n else joined "-" (to_string (2 ^ 32 - n))

-- The front of the queue that the executor listens to, and the scheduler without it.
unfoldable pub dequeue : CurrentQueue → Scheduler → Option (Message × Scheduler)
unfolding at put
dequeue of_binds s = elim s.bind_queue [
  | [] ↦ none
  | msg ∷ rest ↦ some (msg, record s { bind_queue = rest })
]
dequeue (of_function func) s = elim (at [] s.queue_map func) [
  | [] ↦ none
  | msg ∷ rest ↦ some (msg, record s { queue_map = put s.queue_map func rest })
]

unfoldable pub type_is_flush : MessageType → Bool
type_is_flush MessageType.flush = true
type_is_flush MessageType.call = false
type_is_flush MessageType.bind = false
type_is_flush MessageType.kill = false
type_is_flush MessageType.empty = false

unfoldable pub type_is_bind : MessageType → Bool
type_is_bind MessageType.bind = true
type_is_bind MessageType.call = false
type_is_bind MessageType.flush = false
type_is_bind MessageType.kill = false
type_is_bind MessageType.empty = false

module _ (setup : Setup) where
  -- An executor with what it works on.
  pub record ExecutorState : Type 0 where
    pub executor : FaabricExecutor
    pub scheduler : Scheduler
    pub server : setup.redis.Server
    pub module_state : setup.hooks.Module

  -- What the hooks act on, and an executor with what they leave.
  abbrev pub Hosted : Type 0
  Hosted = setup.hooks.Module × Scheduler × setup.redis.Server

  abbrev pub hosted : ExecutorState → Hosted
  hosted w = (w.module_state, w.scheduler, w.server)

  abbrev pub with_hosted : ExecutorState → Hosted → ExecutorState
  with_hosted w x = record w { module_state = x.0; scheduler = x.1; server = x.2 }

  -- How `processNextMessage` ends: it returns an error message, which is empty for none, or throws
  -- that it waited in vain, or that the executor is finished.
  pub data Next : Type 0 where
    processed : (error_message : String) (w : ExecutorState) → Next
    timed_out : Next
    told_to_finish : (w : ExecutorState) → Next

  -- `FaabricExecutor::FaabricExecutor`
  unfoldable pub new_executor : ℕ → FaabricExecutor
  unfolding to_string
  new_executor thread_idx = record {
    thread_idx = thread_idx;
    id = joined (joined setup.endpoint_host "_") (to_string thread_idx);
    is_bound = false;
    bound_message = blank MessageType.call;
    current_queue = of_binds;
    execution_count = 0;
  }

  -- `bindToFunction`, up to what `postBind` leaves.
  unfoldable pub bind_to_function : ExecutorState → Message → Bool → Outcome (Hooked ExecutorState)
  unfolding same func_to_string get_function_queue
  bind_to_function w msg force = do
    throw_unless (
        not w.executor.is_bound
        || force
          && (same msg.user w.executor.bound_message.user
              && same msg.function w.executor.bound_message.function))
    let w1 : ExecutorState = record w {
      executor = record (w.executor) {
        bound_message = msg;
        is_bound = true;
        current_queue = of_function (func_to_string msg);
      };
      scheduler = get_function_queue w.scheduler (func_to_string msg);
    }
    ok (elim (setup.hooks.post_bind (hosted w1) msg force) [
      | hooked x ↦ hooked (with_hosted w1 x)
      | invalid_function x ↦ invalid_function (with_hosted w1 x)
      | broken ↦ broken
    ])

  -- `finish`
  unfoldable pub finish : ExecutorState → Outcome ExecutorState
  unfolding notify_faaslet_finished
  finish w =
      if w.executor.is_bound
      then (do
        s ← notify_faaslet_finished w.scheduler w.executor.bound_message
        ok (record w { scheduler = s }))
      else ok w

  -- What a call that failed carries in place of its output.
  unfoldable pub with_error : Bool → String → Message → Message
  with_error true error_message msg = msg
  with_error false error_message msg = record msg { output_data = error_message }

  -- `finishCall`: the counts go down before the result is set.
  unfoldable pub finish_call : ExecutorState → Message → Bool → String → Outcome ExecutorState
  unfolding with_error notify_call_finished set_function_result
  finish_call w msg success error_message =
      elim (setup.hooks.pre_finish_call (hosted w) msg success error_message) [
        | none ↦ fault thrown
        | some (msg1, x) ↦
            let w1 = with_hosted w x in
            let msg2 = with_error success error_message msg1 in
            let n = w1.executor.execution_count in
            do
              server ←
                  set_function_result setup.protobuf setup.redis setup.endpoint_host w1.server msg2
                    (setup.now n)
              ok (record w1 {
                executor = record (w1.executor) { execution_count = n + 1 };
                scheduler = notify_call_finished w1.scheduler msg2;
                server = server;
              })
      ]

  -- The error message of a call that `doExecute` returned from.
  unfoldable pub failure_message : Bool → Message → String
  unfolding int_to_string
  failure_message true msg = ""
  failure_message false msg =
      joined (joined "Call failed (return value=" (int_to_string msg.return_value)) ")"

  -- `executeCall`, with the error message that it returns.
  unfoldable pub execute_call : ExecutorState → Message → Outcome (String × ExecutorState)
  unfolding finish_call failure_message
  execute_call w msg = elim (setup.hooks.do_execute (hosted w) msg) [
    | returned success msg1 x ↦ do
      w1 ← finish_call (with_hosted w x) msg1 success (failure_message success msg1)
      ok (failure_message success msg1, w1)
    | raised what msg1 x ↦ do
      w1 ←
          finish_call (with_hosted w x) (record msg1 { return_value = 1 }) false
            (joined "Error: " what)
      ok (joined "Error: " what, w1)
  ]

  -- The part of `processNextMessage` after the wait.
  unfoldable pub process : ExecutorState → Message → Outcome Next
  unfolding type_is_flush type_is_bind bind_to_function execute_call func_to_string
  process w msg =
      if type_is_flush msg.kind
      then ok (elim (setup.hooks.flush (hosted w)) [
        | flushed x ↦ processed "" (with_hosted w x)
        | flushed_out x ↦ told_to_finish (with_hosted w x)
      ])
      else if type_is_bind msg.kind
      then (do
        w1 ← bind_to_function w msg false
        elim w1 [
          | hooked w2 ↦ ok (processed "" w2)
          | invalid_function w2 ↦
              ok (processed (joined "Invalid function: " (func_to_string msg)) w2)
          | broken ↦ fault thrown
        ])
      else (do (error_message, w1) ← execute_call w msg; ok (processed error_message w1))

  -- `processNextMessage`: a wait without a timeout does not end when nothing comes.
  unfoldable pub process_next_message : ExecutorState → Outcome Next
  unfolding dequeue process
  process_next_message w =
      let timeout_ms = if w.executor.is_bound then setup.bound_timeout else setup.unbound_timeout in
      elim (dequeue w.executor.current_queue w.scheduler) [
        | none ↦ if ltb 0 timeout_ms then ok timed_out else fault stuck
        | some (msg, s) ↦ process (record w { scheduler = s }) msg
      ]

  -- `run`, with that many rounds of its loop.
  unfoldable pub run : ℕ → ExecutorState → Outcome ExecutorState
  unfolding process_next_message finish same
  run zero w = fault stuck
  run (suc rounds) w = do
    next ← process_next_message w
    elim next [
      | processed error_message w1 ↦
          let rest = run rounds w1 in if same error_message "" then rest else finish w1
      | timed_out ↦ finish w
      | told_to_finish w1 ↦ finish w1
    ]
