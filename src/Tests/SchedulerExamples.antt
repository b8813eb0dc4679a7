-- ===== src/Tests/SchedulerExamples.antt =====
-- Runs of the model of faasm/faabric's scheduler.
use tpfaas.Base.{
  ℕ, ◌≡◌, refl, ap, Option, none, some, Bool, true, false, String, List, [], ◌∷◌, ◌++◌, arith,
  Outcome, ok, fault,
}
use tpfaas.Faabric.Maps.{same, at, at-put, put}
use tpfaas.Faabric.Scheduler.{
  result_key_from_message_id, Message, MessageType, functions, BatchExecuteRequest, HostResources,
  Scheduler, Rpc, func_to_string,
}
use tpfaas.Faabric.Scheduler.Calls.{call_functions, snapshot_needed, is_threads, dispatch, account}
use tpfaas.Faabric.Scheduler.Counts.{Counted, Scaled, call_functions_counts, call_functions_scale}
use tpfaas.Faabric.Scheduler.Places.{forced_agrees}
use tpfaas.Faabric.Scheduler.Running.{forced_call}
use tpfaas.Faabric.Scheduler.Results.{
  Protobuf, RedisStore, set_function_result, get_message_status, status_only_once,
}
use tpfaas.Faabric.Scheduler.Lost.{Prefixes, last_message_lost}

abbrev pub echo : ℕ → Message
echo id = record {
  user = "demo";
  function = "echo";
  id = id;
  kind = MessageType.call;
  master_host = "a";
  snapshot_key = "";
  is_python = false;
  is_typescript = false;
  python_user = "";
  python_function = "";
  result_key = "";
  status_key = "";
  return_value = 0;
  output_data = "done";
  executed_host = "";
  finish_timestamp = 0;
}

-- The host "a" with some cores, and one message of "demo/echo" in flight.
abbrev pub host_a : ℕ → Scheduler
host_a cores = record {
  this_host = "a";
  this_host_resources = record { cores = cores; functions_in_flight = 1; bound_executors = 1 };
  queue_map = [];
  bind_queue = [];
  registered_hosts = ("demo/echo", "b" ∷ "c" ∷ []) ∷ [];
  faaslet_counts = ("demo/echo", 1) ∷ [];
  in_flight_counts = ("demo/echo", 1) ∷ [];
  recorded_messages_all = [];
  recorded_messages_local = [];
  recorded_messages_shared = [];
  sent = [];
  next_id = 7;
}

abbrev pub one_core : String → HostResources
one_core host = record { cores = 1; functions_in_flight = 0; bound_executors = 0 }

abbrev pub no_snapshot : String → Bool
no_snapshot key = false

abbrev two_calls : BatchExecuteRequest
two_calls = record { batch = functions; messages = echo 1 ∷ echo 2 ∷ [] }

abbrev called : Scheduler → Bool → Outcome (Scheduler × List String)
called s force_local =
    call_functions false one_core ("a" ∷ "b" ∷ "c" ∷ []) no_snapshot s two_calls force_local

abbrev left_by : Outcome (Scheduler × List String) → Scheduler
left_by (ok (s, executed)) = s
left_by (fault _) = host_a 0

host_a-Counted : Counted (host_a 4)
host_a-Counted = record { in_flight = refl; bound = refl }

host_a-Scaled : Scaled (host_a 4)
unfolding at
host_a-Scaled func = omega arith

call_functions_counts_example : Counted (left_by (called (host_a 4) true))
unfolding call_functions func_to_string same snapshot_needed dispatch account
call_functions_counts_example =
    call_functions_counts false one_core ("a" ∷ "b" ∷ "c" ∷ []) no_snapshot (host_a 4)
      (left_by (called (host_a 4) true)) two_calls true ("a" ∷ "a" ∷ []) refl host_a-Counted

call_functions_scale_example : Scaled (left_by (called (host_a 4) true))
unfolding call_functions func_to_string same snapshot_needed dispatch account is_threads
call_functions_scale_example =
    call_functions_scale false one_core ("a" ∷ "b" ∷ "c" ∷ []) no_snapshot (host_a 4)
      (left_by (called (host_a 4) true)) two_calls true ("a" ∷ "a" ∷ []) refl refl host_a-Scaled

forced_agrees_example : called (host_a 4) false ≡ called (host_a 4) true
unfolding same is_threads
forced_agrees_example =
    forced_agrees false one_core ("a" ∷ "b" ∷ "c" ∷ []) no_snapshot (host_a 4) functions (echo 1)
      (echo 2 ∷ []) refl refl (omega arith)

forced_call_example :
    (s1 : Scheduler) × (called (host_a 4) true ≡ ok (s1, "a" ∷ "a" ∷ []))
    × (at [] s1.queue_map "demo/echo" ≡ echo 1 ∷ echo 2 ∷ [])
    × (at 0 s1.in_flight_counts "demo/echo" ≡ 3)
    × (s1.this_host_resources.functions_in_flight ≡ 3)
    × (s1.sent ≡ [])
unfolding same at func_to_string snapshot_needed
forced_call_example =
    forced_call false one_core ("a" ∷ "b" ∷ "c" ∷ []) no_snapshot (host_a 4) functions (echo 1)
      (echo 2 ∷ []) refl refl (refl, tt)

last_message_lost_example :
    (s1 : Scheduler) × (rpcs : List Rpc) × (ys : List String) × (called (host_a 1) false
      ≡ ok (s1, ys ++ "" ∷ []))
    × (s1.sent ≡ rpcs)
    × Prefixes (echo 1 ∷ echo 2 ∷ []) rpcs
    × (at [] s1.queue_map "demo/echo" ≡ [])
unfolding same at func_to_string
last_message_lost_example =
    last_message_lost false one_core ("a" ∷ "b" ∷ "c" ∷ []) no_snapshot (host_a 1) (echo 1)
      (echo 2 ∷ []) refl refl (omega arith) (omega arith, (omega arith, tt)) (omega arith)

-- Vectors of bytes as the messages that they stand for.
abbrev pub as_messages : Protobuf
as_messages = record {
  Bytes = Message;
  is_empty = λ msg. same msg.result_key "";
  message_to_bytes = λ msg. msg;
  parse = λ msg. msg;
  parse-message_to_bytes = λ msg. refl;
  is_empty-message_to_bytes = λ msg keyed. keyed;
}

abbrev first_of :
    List Message
    → List (String × List Message)
    → String
    → Option Message × List (String × List Message)
first_of [] r key = (none, r)
first_of (msg ∷ rest) r key = (some msg, put r key rest)

-- The lists in Redis; what SET stores is not read here.
abbrev pub lists_only : RedisStore Message
lists_only = record {
  Server = List (String × List Message);
  queue = λ r key. at [] r key;
  enqueue_bytes = λ r key bytes. put r key (at [] r key ++ bytes ∷ []);
  dequeue_bytes = λ r key. first_of (at [] r key) r key;
  set = λ r key bytes. r;
  queue-enqueue_bytes = λ r key bytes. at-put [] r key (at [] r key ++ bytes ∷ []);
  queue-set = λ r key other bytes apart. refl;
  dequeue_bytes-nil = λ r key e. ap (λ (q : List Message). first_of q r key) e;
  dequeue_bytes-cons = λ r key bytes rest e.
      (put r key rest, ap (λ (q : List Message). first_of q r key) e, at-put [] r key rest);
}

abbrev first_echo : Message
first_echo = record (echo 1) { result_key = "result_1"; status_key = "status_1" }

status_only_once_example :
    (r1 r2 : List (String × List Message)) × (set_function_result as_messages lists_only "a" []
        first_echo 5
      ≡ ok r1)
    × (get_message_status as_messages lists_only "a" r1 1 ≡ ok ("SUCCESS: done", r2))
    × (get_message_status as_messages lists_only "a" r2 1 ≡ ok ("RUNNING", r2))
unfolding same at result_key_from_message_id
status_only_once_example =
    status_only_once as_messages lists_only "a" [] first_echo 5 refl refl refl refl refl refl refl
