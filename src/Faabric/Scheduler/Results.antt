-- ===== src/Faabric/Scheduler/Results.antt =====
-- faasm/faabric, src/scheduler/Scheduler.cpp: the results of calls, which go through Redis as the bytes
-- of messages. Redis and protobuf are parameters; that keys expire is not modelled.
use tpfaas.Base.{
  ℕ, ◌≡◌, refl, ap, ◌∙◌, subst, Bool-cases, inl, inr, Bool, true, false, not, String, List, [], ◌∷◌,
  ◌++◌, Option, none, some, ltb, ◌==◌, if◌then◌else◌, Outcome, ok, fault, thrown, ◌>>=◌, ◌>>◌,
  throw_unless,
}
use tpfaas.Faabric.Maps.{joined, same}
use tpfaas.Faabric.Scheduler.{
  Message, MessageType, bind, call, empty, flush, kill, result_key_from_message_id,
}

-- `SerializeToArray` and `ParseFromArray`, and vectors of bytes.
pub record Protobuf : Type 1 where
  pub Bytes : Type 0
  pub is_empty : Bytes → Bool
  pub message_to_bytes : Message → Bytes
  pub parse : Bytes → Message
  pub parse-message_to_bytes : (msg : Message) → parse (message_to_bytes msg) ≡ msg
  pub is_empty-message_to_bytes :
      (msg : Message) → same msg.result_key "" ≡ false → is_empty (message_to_bytes msg) ≡ false

-- Lists of byte strings and strings in Redis: RPUSH, LPOP and SET. `none` is no response.
pub record RedisStore (Bytes : Type 0) : Type 1 where
  pub Server : Type 0
  pub queue : Server → String → List Bytes
  pub enqueue_bytes : Server → String → Bytes → Server
  pub dequeue_bytes : Server → String → Option Bytes × Server
  pub set : Server → String → Bytes → Server
  pub queue-enqueue_bytes :
      (r : Server) (key : String) (bytes : Bytes)
      → queue (enqueue_bytes r key bytes) key ≡ queue r key ++ bytes ∷ []
  pub queue-set :
      (r : Server) (key other : String) (bytes : Bytes)
      → same key other ≡ false
      → queue (set r key bytes) other ≡ queue r other
  pub dequeue_bytes-nil :
      (r : Server) (key : String) → queue r key ≡ [] → dequeue_bytes r key ≡ (none, r)
  pub dequeue_bytes-cons :
      (r : Server) (key : String) (bytes : Bytes) (rest : List Bytes)
      → queue r key ≡ bytes ∷ rest
      → (r1 : Server) × (dequeue_bytes r key ≡ (some bytes, r1)) × (queue r1 key ≡ rest)

unfoldable pub type_is_empty : MessageType → Bool
type_is_empty empty = true
type_is_empty call = false
type_is_empty bind = false
type_is_empty kill = false
type_is_empty flush = false

-- A message without content but its type.
abbrev pub blank : MessageType → Message
blank kind = record {
  user = "";
  function = "";
  id = 0;
  kind = kind;
  master_host = "";
  snapshot_key = "";
  is_python = false;
  is_typescript = false;
  python_user = "";
  python_function = "";
  result_key = "";
  status_key = "";
  return_value = 0;
  output_data = "";
  executed_host = "";
  finish_timestamp = 0;
}

module _ (protobuf : Protobuf) (redis : RedisStore protobuf.Bytes) (endpoint_host : String) where
  -- What `setFunctionResult` makes of the message at a time.
  abbrev pub finished : Message → ℕ → Message
  finished msg now = record msg { executed_host = endpoint_host; finish_timestamp = now }

  -- `setFunctionResult`
  unfoldable pub set_function_result : redis.Server → Message → ℕ → Outcome redis.Server
  unfolding same
  set_function_result r msg now = do
    throw_unless (not (same msg.result_key ""))
    let bytes = protobuf.message_to_bytes (finished msg now)
    let r1 = redis.enqueue_bytes r msg.result_key bytes
    throw_unless (not (same msg.status_key ""))
    ok (redis.set r1 msg.status_key bytes)

  -- The message of a response, where none is an empty one.
  unfoldable pub parse_response : Option protobuf.Bytes → Message
  parse_response none = blank empty
  parse_response (some bytes) =
      if protobuf.is_empty bytes then blank empty else protobuf.parse bytes

  -- `getFunctionResult`; a blocking call that gets no response in time throws.
  unfoldable pub get_function_result : redis.Server → ℕ → ℕ → Outcome (Message × redis.Server)
  unfolding result_key_from_message_id parse_response
  get_function_result r message_id timeout_ms = do
    throw_unless (not (message_id == 0))
    let (response, r1) = redis.dequeue_bytes r (result_key_from_message_id message_id)
    if ltb 0 timeout_ms
        then elim response [ none ↦ fault thrown | some bytes ↦ ok (protobuf.parse bytes, r1) ]
        else ok (parse_response response, r1)

  -- `getMessageStatus`
  unfoldable pub get_message_status : redis.Server → ℕ → Outcome (String × redis.Server)
  unfolding get_function_result type_is_empty
  get_message_status r message_id = do
    (result, r1) ← get_function_result r message_id 0
    if type_is_empty result.kind
        then ok ("RUNNING", r1)
        else if result.return_value == 0
        then ok (joined "SUCCESS: " result.output_data, r1)
        else ok (joined "FAILED: " result.output_data, r1)

  parse_response_lem :
      (msg : Message)
      → same msg.result_key "" ≡ false
      → parse_response (some (protobuf.message_to_bytes msg)) ≡ msg
  unfolding parse_response
  parse_response_lem msg keyed =
      rw (protobuf.is_empty-message_to_bytes msg keyed) (protobuf.parse-message_to_bytes msg)

  none_left :
      (r : redis.Server) (id : ℕ)
      → (id == 0) ≡ false
      → redis.dequeue_bytes r (result_key_from_message_id id) ≡ (none, r)
      → get_message_status r id ≡ ok ("RUNNING", r)
  unfolding get_message_status get_function_result type_is_empty parse_response
  none_left r id known second = rw (known, second) refl

  -- What `getMessageStatus` says to a response.
  status_of :
      (r1 r2 : redis.Server) (id : ℕ) (bytes : protobuf.Bytes) (sent : Message)
      → (id == 0) ≡ false
      → redis.dequeue_bytes r1 (result_key_from_message_id id) ≡ (some bytes, r2)
      → parse_response (some bytes) ≡ sent
      → type_is_empty sent.kind ≡ false
      → get_message_status r1 id
        ≡ ok (
          joined (if sent.return_value == 0 then "SUCCESS: " else "FAILED: ") sent.output_data,
          r2,
        )
  unfolding get_message_status get_function_result
  status_of r1 r2 id bytes sent known first parsed called =
      elim (Bool-cases (sent.return_value == 0)) [
        | inl succeeded ↦ rw (known, first, parsed, called, succeeded) refl
        | inr failed ↦ rw (known, first, parsed, called, failed) refl
      ]

  -- After `setFunctionResult` of a call with its own result key, another status key, and no result queued
  -- before: the first `getMessageStatus` tells the output and whether the call failed, and the second one
  -- says that the call is running, since the first one takes the result away.
  pub status_only_once :
      (r : redis.Server) (msg : Message) (now : ℕ)
      → (msg.id == 0) ≡ false
      → msg.result_key ≡ result_key_from_message_id msg.id
      → same msg.result_key "" ≡ false
      → same msg.status_key "" ≡ false
      → same msg.status_key msg.result_key ≡ false
      → msg.kind ≡ call
      → redis.queue r msg.result_key ≡ []
      → (r1 r2 : redis.Server) × (set_function_result r msg now ≡ ok r1)
        × (get_message_status r1 msg.id
            ≡ ok (
              joined (if msg.return_value == 0 then "SUCCESS: " else "FAILED: ") msg.output_data,
              r2,
            ))
        × (get_message_status r2 msg.id ≡ ok ("RUNNING", r2))
  unfolding set_function_result get_message_status get_function_result type_is_empty
  status_only_once r msg now known own_key keyed status_keyed apart called none_queued =
      let bytes = protobuf.message_to_bytes (finished msg now) in
      let r1 = redis.set (redis.enqueue_bytes r msg.result_key bytes) msg.status_key bytes in
      let sent = finished msg now in
      let one : redis.queue r1 msg.result_key ≡ bytes ∷ [] =
        redis.queue-set (redis.enqueue_bytes r msg.result_key bytes) msg.status_key msg.result_key
          bytes apart
        ∙ redis.queue-enqueue_bytes r msg.result_key bytes
        ∙ ap (λ (q : List protobuf.Bytes). q ++ bytes ∷ []) none_queued in
      let (r2, first, left) = redis.dequeue_bytes-cons r1 msg.result_key bytes [] one in
      let second =
        subst (λ (k : String). redis.dequeue_bytes r2 k ≡ (none, r2)) own_key
          (redis.dequeue_bytes-nil r2 msg.result_key left) in
      let parsed : parse_response (some bytes) ≡ sent = parse_response_lem sent keyed in
      (
        r1,
        r2,
        rw (keyed, status_keyed) refl,
        status_of r1 r2 msg.id bytes sent known
            (subst (λ (k : String). redis.dequeue_bytes r1 k ≡ (some bytes, r2)) own_key first)
            parsed (ap type_is_empty called),
        none_left r2 msg.id known second,
      )
