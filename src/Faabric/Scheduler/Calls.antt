-- ===== src/Faabric/Scheduler/Calls.antt =====
-- faasm/faabric: `callFunctions` of src/scheduler/Scheduler.cpp and what it calls. The resources that
-- another host answers with, the hosts that Redis knows and the snapshots that are registered are
-- parameters.
use tpfaas.Base.{
  ℕ, zero, suc, ◌-◌, Bool, true, false, not, ◌&&◌, ◌||◌, String, List, [], ◌∷◌, ◌++◌, length, take,
  drop, slice, replicate, ◌==◌, if◌then◌else◌, min, Outcome, ok, fault, assert_failed, ◌>>=◌, ◌>>◌,
  throw_unless,
}
use tpfaas.Faabric.Maps.{same, at, put, has, insert}
use tpfaas.Faabric.Scheduler.{
  Message, BatchExecuteType, functions, threads, processes, BatchExecuteRequest, HostResources,
  Scheduler, execute_functions, push_snapshot, send, func_to_string, get_function_queue,
  enqueue_message, increment_in_flight_count, add_faaslets,
}

unfoldable pub set_at {ℓ} : {A : Type ℓ} → List A → ℕ → A → List A
set_at [] i a = []
set_at (x ∷ xs) zero a = a ∷ xs
set_at (x ∷ xs) (suc i) a = x ∷ set_at xs i a

-- The loop that fills the records of a batch with the host that it goes to.
unfoldable pub record_batch : List String → ℕ → ℕ → String → List String
unfolding set_at
record_batch records offset zero host = records
record_batch records offset (suc n) host =
    record_batch (set_at records offset host) (suc offset) n host

unfoldable pub is_threads : BatchExecuteType → Bool
is_threads threads = true
is_threads functions = false
is_threads processes = false

-- Threads and processes run on a snapshot.
unfoldable pub snapshot_needed : BatchExecuteType → Bool
snapshot_needed functions = false
snapshot_needed threads = true
snapshot_needed processes = true

-- One round of the loop of a forced local execution.
unfoldable pub forced_round : String → Scheduler → Message → Scheduler
unfolding enqueue_message increment_in_flight_count add_faaslets
forced_round func s msg =
    add_faaslets (increment_in_flight_count (enqueue_message s func msg) msg) msg

-- One round of a loop over the messages that are run on this host. Threads are only counted: the
-- caller runs them.
unfoldable pub local_round : String → Bool → Scheduler → Message → Scheduler
unfolding enqueue_message increment_in_flight_count add_faaslets
local_round func true s msg = increment_in_flight_count s msg
local_round func false s msg =
    add_faaslets (enqueue_message (increment_in_flight_count s msg) func msg) msg

unfoldable pub run_locally :
    (Scheduler → Message → Scheduler) → Scheduler → List Message → Scheduler
run_locally round s [] = s
run_locally round s (msg ∷ msgs) = run_locally round (round s msg) msgs

module _ (test_mode : Bool) (get_host_resources : String → HostResources)
    (available_hosts : List String) (has_snapshot : String → Bool) where
  -- What a batch needs before it can go to another host.
  unfoldable pub push_snapshot_if_needed :
      Scheduler → String → BatchExecuteType → Message → Outcome Scheduler
  unfolding snapshot_needed
  push_snapshot_if_needed s host batch first_msg =
      if snapshot_needed batch
      then (do
        throw_unless (has_snapshot first_msg.snapshot_key)
        ok (send s (push_snapshot host first_msg.snapshot_key)))
      else ok s

  -- `scheduleFunctionsOnHost`, with the records and the number of messages that go to the host.
  unfoldable pub schedule_functions_on_host :
      Scheduler
      → String
      → BatchExecuteRequest
      → Message
      → List String
      → ℕ
      → Outcome (Scheduler × List String × ℕ)
  unfolding push_snapshot_if_needed record_batch
  schedule_functions_on_host s host req first_msg records offset =
      let remainder = length req.messages - offset in
      let r = get_host_resources host in
      let available = r.cores - r.functions_in_flight in
      let n_on_this_host = min available remainder in
      if available == 0 then ok (s, records, 0) else (do
        s1 ← push_snapshot_if_needed s host req.batch first_msg
        let msgs = slice req.messages offset n_on_this_host
        ok (
          send s1 (execute_functions host (record { batch = req.batch; messages = msgs })),
          record_batch records offset n_on_this_host host,
          n_on_this_host,
        ))

  -- The loop over the hosts that are registered for the function, as long as messages remain.
  unfoldable pub registered_loop :
      List String
      → Scheduler
      → BatchExecuteRequest
      → Message
      → List String
      → ℕ
      → ℕ
      → Outcome (Scheduler × List String × ℕ)
  unfolding schedule_functions_on_host
  registered_loop [] s req first_msg executed next_idx remainder = ok (s, executed, remainder)
  registered_loop (host ∷ hosts) s req first_msg executed next_idx remainder = do
    (s1, executed1, n) ← schedule_functions_on_host s host req first_msg executed next_idx
    if remainder - n == 0
        then ok (s1, executed1, 0)
        else registered_loop hosts s1 req first_msg executed1 next_idx (remainder - n)

  -- The hosts that are neither registered nor this one.
  unfoldable pub target_hosts : String → List String → List String → List String
  unfolding same has insert
  target_hosts this_host registered [] = []
  target_hosts this_host registered (host ∷ hosts) =
      let rest = target_hosts this_host registered hosts in
      if has registered host || same host this_host then rest else host ∷ rest

  unfoldable pub register_host : Scheduler → String → String → Scheduler
  unfolding at put insert
  register_host s func host = record s {
    registered_hosts = put s.registered_hosts func (insert (at [] s.registered_hosts func) host);
  }

  -- The loop over these hosts: one that takes messages is registered.
  unfoldable pub target_loop :
      String
      → List String
      → Scheduler
      → BatchExecuteRequest
      → Message
      → List String
      → ℕ
      → ℕ
      → Outcome (Scheduler × List String × ℕ)
  unfolding schedule_functions_on_host register_host
  target_loop func [] s req first_msg executed next_idx remainder = ok (s, executed, remainder)
  target_loop func (host ∷ hosts) s req first_msg executed next_idx remainder = do
    (s1, executed1, n) ← schedule_functions_on_host s host req first_msg executed next_idx
    let s2 = if n == 0 then s1 else register_host s1 func host
    if remainder - n == 0
        then ok (s2, executed1, 0)
        else target_loop func hosts s2 req first_msg executed1 next_idx (remainder - n)

  -- What is left after the hosts is run here, behind the messages that were local from the start.
  unfoldable pub run_leftover :
      String → Scheduler → BatchExecuteRequest → List String → ℕ → ℕ → Scheduler × List String
  unfolding run_locally local_round record_batch is_threads
  run_leftover func s req executed next_idx remainder =
      let threads_only = is_threads req.batch in
      let host = if threads_only then "" else s.this_host in
      if remainder == 0 then (s, executed) else (
        run_locally (local_round func threads_only) s (drop next_idx req.messages),
        record_batch executed next_idx (length req.messages - next_idx) host,
      )

  -- The branch of the master host that is not forced to run everything itself.
  unfoldable pub distribute :
      String
      → Scheduler
      → BatchExecuteRequest
      → Message
      → List String
      → Outcome (Scheduler × List String)
  unfolding run_locally local_round record_batch is_threads registered_loop target_hosts target_loop
      run_leftover at
  distribute func s req first_msg executed =
      let n_messages = length req.messages in
      let available = s.this_host_resources.cores - s.this_host_resources.functions_in_flight in
      let n_locally = min available n_messages in
      let threads_only = is_threads req.batch in
      let s1 = run_locally (local_round func threads_only) s (take n_locally req.messages) in
      let executed1 =
        if threads_only then executed else record_batch executed 0 n_locally s.this_host in
      let remainder = n_messages - n_locally in
      do
        (s2, executed2, remainder2) ←
            (if remainder == 0
              then ok (s1, executed1, 0)
              else registered_loop (at [] s1.registered_hosts func) s1 req first_msg executed1
                  n_locally remainder)
        (s3, executed3, remainder3) ←
            (if remainder2 == 0
              then ok (s2, executed2, 0)
              else target_loop func
                  (target_hosts s2.this_host (at [] s2.registered_hosts func) available_hosts) s2
                  req first_msg executed2 n_locally remainder2)
        ok (run_leftover func s3 req executed3 n_locally remainder3)

  -- The accounting of the test mode.
  unfoldable pub account : Scheduler → List Message → List String → Scheduler
  unfolding same
  account s [] executed = s
  account s (msg ∷ msgs) [] = s
  account s (msg ∷ msgs) (host ∷ executed) =
      let s1 = record s { recorded_messages_all = s.recorded_messages_all ++ msg.id ∷ [] } in
      let s2 =
        (if same host "" || same host s.this_host
          then record s1 { recorded_messages_local = s.recorded_messages_local ++ msg.id ∷ [] }
          else record s1 {
            recorded_messages_shared = s.recorded_messages_shared ++ (host, msg.id) ∷ [];
          }) in
      account (if test_mode then s2 else s) msgs executed

  -- The three ways in which `callFunctions` treats a request, between the checks and the accounting.
  unfoldable pub dispatch :
      String → Scheduler → BatchExecuteRequest → Message → Bool → Outcome (Scheduler × List String)
  unfolding run_locally forced_round distribute same
  dispatch func s req first_msg force_local =
      let executed = replicate (length req.messages) "" in
      if force_local
      then ok (
        run_locally (forced_round func) s req.messages,
        replicate (length req.messages) s.this_host,
      )
      else if not (same first_msg.master_host s.this_host)
      then ok (send s (execute_functions first_msg.master_host req), executed)
      else distribute func s req first_msg executed

  -- `callFunctions`: protobuf's `at(0)` of no messages aborts.
  unfoldable pub call_functions :
      Scheduler → BatchExecuteRequest → Bool → Outcome (Scheduler × List String)
  unfolding snapshot_needed func_to_string get_function_queue dispatch account same
  call_functions s req force_local = elim req.messages [
    | [] ↦ fault assert_failed
    | first_msg ∷ rest ↦ do
      throw_unless (not (same first_msg.master_host ""))
      throw_unless (
          not (snapshot_needed req.batch)
          || not (same first_msg.snapshot_key "") && has_snapshot first_msg.snapshot_key)
      (s1, executed) ←
          dispatch (func_to_string first_msg) (get_function_queue s (func_to_string first_msg)) req
            first_msg force_local
      ok (account s1 req.messages executed, executed)
  ]

  -- `callFunction`
  unfoldable pub call_function : Scheduler → Message → Bool → Outcome (Scheduler × List String)
  unfolding call_functions
  call_function s msg force_local =
      call_functions s (record { batch = functions; messages = msg ∷ [] }) force_local
