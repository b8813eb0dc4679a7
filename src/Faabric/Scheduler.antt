-- ===== src/Faabric/Scheduler.antt =====
-- faasm/faabric: src/scheduler/Scheduler.cpp and include/faabric/scheduler/Scheduler.h, with the
-- messages of src/proto/faabric.proto. A scheduler is its state; the calls of other hosts stand in a
-- list in the order in which they are made.
pub mod Calls
pub mod Kept
pub mod Counts
pub mod Lost
pub mod Running
pub mod Flush
pub mod Results
pub mod Places
use tpfaas.Base.{
  ℕ, zero, suc, ◌+◌, ◌-◌, Bool, true, false, not, ◌&&◌, String, List, [], ◌∷◌, ◌++◌, arith, ltb,
  leb, ◌==◌, if◌then◌else◌, min, Outcome, ok, fault, thrown, ◌>>=◌, ◌>>◌, throw_unless,
}
use tpfaas.Faabric.Maps.{joined, to_string, same, at, put, has, insert, erase}

-- `Message::MessageType`
pub data MessageType : Type 0 where
  call bind kill empty flush : MessageType

-- `Message`, less the fields that no part of the scheduler reads. The value that a function returned
-- is given by its 32 bits.
pub record Message : Type 0 where
  pub user : String
  pub function : String
  pub id : ℕ
  pub kind : MessageType
  pub master_host : String
  pub snapshot_key : String
  pub is_python : Bool
  pub is_typescript : Bool
  pub python_user : String
  pub python_function : String
  pub result_key : String
  pub status_key : String
  pub return_value : ℕ
  pub output_data : String
  pub executed_host : String
  pub finish_timestamp : ℕ

pub data BatchExecuteType : Type 0 where
  functions threads processes : BatchExecuteType

pub record BatchExecuteRequest : Type 0 where
  pub batch : BatchExecuteType
  pub messages : List Message

pub record HostResources : Type 0 where
  pub cores : ℕ
  pub functions_in_flight : ℕ
  pub bound_executors : ℕ

-- The calls of `FunctionCallClient` and `SnapshotClient`, each with the host that it goes to.
pub data Rpc : Type 0 where
  execute_functions : (host : String) (req : BatchExecuteRequest) → Rpc
  unregister : (host : String) (this_host : String) (msg : Message) → Rpc
  send_flush : (host : String) → Rpc
  push_snapshot delete_snapshot : (host : String) (key : String) → Rpc

pub record Scheduler : Type 0 where
  pub this_host : String
  pub this_host_resources : HostResources
  pub queue_map : List (String × List Message)
  pub bind_queue : List Message
  pub registered_hosts : List (String × List String)
  pub faaslet_counts : List (String × ℕ)
  pub in_flight_counts : List (String × ℕ)
  pub recorded_messages_all : List ℕ
  pub recorded_messages_local : List ℕ
  pub recorded_messages_shared : List (String × ℕ)
  pub sent : List Rpc
  pub next_id : ℕ

-- `funcToString` without the id
unfoldable pub func_to_string : Message → String
func_to_string msg = joined (joined msg.user "/") msg.function

unfoldable pub decrement_above_zero : ℕ → ℕ
decrement_above_zero input = input - 1

-- A scheduler that has sent one more call.
abbrev pub send : Scheduler → Rpc → Scheduler
send s rpc = record s { sent = s.sent ++ rpc ∷ [] }

unfoldable pub get_function_in_flight_count : Scheduler → Message → ℕ
unfolding func_to_string at
get_function_in_flight_count s msg = at 0 s.in_flight_counts (func_to_string msg)

unfoldable pub get_function_faaslet_count : Scheduler → Message → ℕ
unfolding func_to_string at
get_function_faaslet_count s msg = at 0 s.faaslet_counts (func_to_string msg)

unfoldable pub get_function_registered_hosts : Scheduler → Message → List String
unfolding func_to_string at
get_function_registered_hosts s msg = at [] s.registered_hosts (func_to_string msg)

unfoldable pub remove_registered_host : Scheduler → String → Message → Scheduler
unfolding func_to_string at put erase
remove_registered_host s host msg =
    let func = func_to_string msg in
    record s {
      registered_hosts = put s.registered_hosts func (erase (at [] s.registered_hosts func) host);
    }

-- `getFunctionQueue` makes a queue that is not there yet; the queue itself is read from the map.
unfoldable pub get_function_queue : Scheduler → String → Scheduler
unfolding at put
get_function_queue s func = record s { queue_map = put s.queue_map func (at [] s.queue_map func) }

-- `enqueue` on the queue of a function
unfoldable pub enqueue_message : Scheduler → String → Message → Scheduler
unfolding at put
enqueue_message s func msg = record s {
  queue_map = put s.queue_map func (at [] s.queue_map func ++ msg ∷ []);
}

-- `incrementInFlightCount`
unfoldable pub increment_in_flight_count : Scheduler → Message → Scheduler
unfolding func_to_string at put
increment_in_flight_count s msg =
    let func = func_to_string msg in
    let r = s.this_host_resources in
    record s {
      in_flight_counts = put s.in_flight_counts func (at 0 s.in_flight_counts func + 1);
      this_host_resources = record r { functions_in_flight = r.functions_in_flight + 1 };
    }

unfoldable pub result_key_from_message_id : ℕ → String
unfolding to_string
result_key_from_message_id mid = joined "result_" (to_string mid)

unfoldable pub status_key_from_message_id : ℕ → String
unfolding to_string
status_key_from_message_id mid = joined "status_" (to_string mid)

-- The message that asks for a new faaslet; `messageFactory` gives it a fresh id.
unfoldable pub bind_message : Scheduler → Message → Message
unfolding result_key_from_message_id status_key_from_message_id
bind_message s msg = record {
  user = msg.user;
  function = msg.function;
  id = s.next_id;
  kind = bind;
  master_host = s.this_host;
  snapshot_key = "";
  is_python = msg.is_python;
  is_typescript = msg.is_typescript;
  python_user = msg.python_user;
  python_function = msg.python_function;
  result_key = result_key_from_message_id s.next_id;
  status_key = status_key_from_message_id s.next_id;
  return_value = 0;
  output_data = "";
  executed_host = "";
  finish_timestamp = 0;
}

-- `addFaaslets`
unfoldable pub add_faaslets : Scheduler → Message → Scheduler
unfolding func_to_string at put bind_message
add_faaslets s msg =
    let func = func_to_string msg in
    let n_faaslets = at 0 s.faaslet_counts func in
    let r = s.this_host_resources in
    if ltb n_faaslets (at 0 s.in_flight_counts func)
    then record s {
      faaslet_counts = put s.faaslet_counts func (n_faaslets + 1);
      this_host_resources = record r { bound_executors = r.bound_executors + 1 };
      bind_queue = s.bind_queue ++ bind_message s msg ∷ [];
      next_id = s.next_id + 1;
    }
    else s

-- `notifyCallFinished`
unfoldable pub notify_call_finished : Scheduler → Message → Scheduler
unfolding func_to_string at put decrement_above_zero
notify_call_finished s msg =
    let func = func_to_string msg in
    let r = s.this_host_resources in
    record s {
      in_flight_counts =
          put s.in_flight_counts func (decrement_above_zero (at 0 s.in_flight_counts func));
      this_host_resources = record r {
        functions_in_flight = decrement_above_zero r.functions_in_flight;
      };
    }

-- The part of `notifyFaasletFinished` for a function that has faaslets; the last one unregisters this
-- host with the master.
unfoldable pub drop_faaslet : Scheduler → Message → Scheduler
unfolding func_to_string at put same
drop_faaslet s msg =
    let func = func_to_string msg in
    let new_count = at 0 s.faaslet_counts func - 1 in
    let s1 = record s { faaslet_counts = put s.faaslet_counts func new_count } in
    if new_count == 0 && not (same s.this_host msg.master_host)
    then send s1 (unregister msg.master_host s.this_host msg)
    else s1

-- `notifyFaasletFinished`
unfoldable pub notify_faaslet_finished : Scheduler → Message → Outcome Scheduler
unfolding drop_faaslet func_to_string at same decrement_above_zero
notify_faaslet_finished s msg = do
  throw_unless (not (same msg.master_host ""))
  let s1 = if ltb 0 (at 0 s.faaslet_counts (func_to_string msg)) then drop_faaslet s msg else s
  let r = s1.this_host_resources
  ok (record s1 {
    this_host_resources = record r { bound_executors = decrement_above_zero r.bound_executors };
  })
