-- ===== src/Faabric/Scheduler/Lost.antt =====
-- faasm/faabric, `callFunctions` of src/scheduler/Scheduler.cpp: every host gets the messages from the
-- same index on, so that the last one may go nowhere.
use mathlib.Core.List.{append_assoc}
use tpfaas.Base.{
  ℕ, zero, suc, ◌+◌, ◌-◌, ◌≤◌, ◌<◌, ◌≡◌, refl, ap, ◌∙◌, Bool, true, false, ◌||◌, Bool-cases, inl,
  inr, String, List, [], ◌∷◌, ◌++◌, length, take, replicate, length-replicate, sum_by, arith, ◌==◌,
  min, ok,
}
use tpfaas.Faabric.Maps.{same, at, at-put}
use tpfaas.Faabric.Scheduler.{
  Message, functions, HostResources, Scheduler, Rpc, execute_functions, func_to_string,
  get_function_queue,
}
use tpfaas.Faabric.Scheduler.Calls.{
  set_at, record_batch, is_threads, snapshot_needed, run_locally, push_snapshot_if_needed,
  schedule_functions_on_host, registered_loop, run_leftover, distribute, account, dispatch,
  call_functions,
}

set_at-end :
    (xs : List String) (b : String) (i : ℕ) (host : String)
    → i < length xs
    → set_at (xs ++ b ∷ []) i host ≡ set_at xs i host ++ b ∷ []
unfolding set_at
set_at-end [] b i host lt = absurd (omega arith)
set_at-end (x ∷ xs) b zero host lt = refl
set_at-end (x ∷ xs) b (suc i) host lt = ap (◌∷◌ x) (set_at-end xs b i host (omega arith))

length-set_at : (xs : List String) (i : ℕ) (host : String) → length (set_at xs i host) ≡ length xs
unfolding set_at
length-set_at [] i host = refl
length-set_at (x ∷ xs) zero host = refl
length-set_at (x ∷ xs) (suc i) host = omega (arith, length-set_at xs i host)

length-record_batch :
    (xs : List String) (offset n : ℕ) (host : String)
    → length (record_batch xs offset n host) ≡ length xs
unfolding record_batch
length-record_batch xs offset zero host = refl
length-record_batch xs offset (suc n) host =
    length-record_batch (set_at xs offset host) (suc offset) n host ∙ length-set_at xs offset host

record_batch-end :
    (xs : List String) (b : String) (offset n : ℕ) (host : String)
    → offset + n ≤ length xs
    → record_batch (xs ++ b ∷ []) offset n host ≡ record_batch xs offset n host ++ b ∷ []
unfolding record_batch
record_batch-end xs b offset zero host le = refl
record_batch-end xs b offset (suc n) host le =
    ap (λ (l : List String). record_batch l (suc offset) n host)
      (set_at-end xs b offset host (omega arith))
    ∙ record_batch-end (set_at xs offset host) b (suc offset) n host
        (omega (arith, length-set_at xs offset host))

-- Every call sends a batch that begins with the first message and ends before the last one.
abbrev pub Prefixes : List Message → List Rpc → Type 0
Prefixes messages [] = Unit {0}
Prefixes messages (rpc ∷ rpcs) =
    ((host : String) × (k : ℕ) × (suc k ≤ length messages)
      × (rpc ≡ execute_functions host (record { batch = functions; messages = take k messages })))
    × Prefixes messages rpcs

record SameQueues (s t : Scheduler) : Type 0 where
  queues : t.queue_map ≡ s.queue_map
  calls : t.sent ≡ s.sent

module _ (test_mode : Bool) (get_host_resources : String → HostResources)
    (available_hosts : List String) (has_snapshot : String → Bool) where
  -- The free cores of another host.
  abbrev pub free_cores : String → ℕ
  free_cores host = (get_host_resources host).cores - (get_host_resources host).functions_in_flight

  -- No host alone has cores for all.
  abbrev pub NoneEnough : ℕ → List String → Type 0
  NoneEnough n [] = Unit {0}
  NoneEnough n (host ∷ hosts) = (free_cores host < n) × NoneEnough n hosts

  lost_loop :
      (hosts : List String) (s : Scheduler) (messages : List Message) (first_msg : Message)
      (xs : List String) (remainder : ℕ)
      → length messages ≡ suc (length xs)
      → NoneEnough (length messages) hosts
      → 0 < remainder
      → remainder ≤ sum_by free_cores hosts
      → (rpcs : List Rpc) × (ys : List String) × (registered_loop test_mode get_host_resources
            available_hosts has_snapshot hosts s
            (record { batch = functions; messages = messages })
            first_msg
            (xs ++ "" ∷ [])
            0
            remainder
          ≡ ok (record s { sent = s.sent ++ rpcs }, ys ++ "" ∷ [], 0))
        × Prefixes messages rpcs
  unfolding registered_loop schedule_functions_on_host push_snapshot_if_needed
  lost_loop [] s messages first_msg xs remainder len few some_left enough = absurd (omega arith)
  lost_loop (host ∷ hosts) s messages first_msg xs remainder len few some_left enough =
      let k = free_cores host in
      let rpc = execute_functions host (record { batch = functions; messages = take k messages }) in
      let s1 : Scheduler = record s { sent = s.sent ++ rpc ∷ [] } in
      let xs1 = record_batch xs 0 k host in
      let all_free : min k (length messages - 0) ≡ k = omega (arith, few.0) in
      let kept = record_batch-end xs "" 0 k host (omega (arith, len, few.0)) in
      let head : (h : String) × (j : ℕ) × (suc j ≤ length messages)
          × (rpc ≡ execute_functions h (record { batch = functions; messages = take j messages })) =
        (host, k, omega (arith, few.0), refl) in
      elim (Bool-cases (k == 0)) [
        | inl full ↦
            let z : remainder - 0 ≡ remainder = omega arith in
            let more : (remainder == 0) ≡ false = ground arith in
            let (rpcs, ys, e, ok_rpcs) =
              lost_loop hosts s messages first_msg xs remainder len few.1 some_left
                (ground (arith, enough, full)) in
            rw (full, z, more, e) (rpcs, ys, refl, ok_rpcs)
        | inr free ↦ elim (Bool-cases (remainder - k == 0)) [
          | inl all_sent ↦ rw (free, all_free, kept, all_sent) (rpc ∷ [], xs1, refl, (head, tt))
          | inr more ↦
              let (rpcs, ys, e, ok_rpcs) =
                lost_loop hosts s1 messages first_msg xs1 (remainder - k)
                  (omega (arith, len, length-record_batch xs 0 k host)) few.1 (ground (arith, more))
                  (omega (arith, enough)) in
              rw (free, all_free, kept, more, e)
                (
                  rpc ∷ rpcs,
                  ys,
                  ap (λ (l : List Rpc). ok (record s { sent = l }, ys ++ "" ∷ [], 0))
                      (append_assoc s.sent (rpc ∷ []) rpcs),
                  (head, ok_rpcs),
                )
        ]
      ]

  account_lem :
      (s t : Scheduler) (msgs : List Message) (executed : List String)
      → SameQueues s t
      → SameQueues s
          (account test_mode get_host_resources available_hosts has_snapshot t msgs executed)
  unfolding account
  account_lem s t [] executed r = r
  account_lem s t (msg ∷ msgs) [] r = r
  account_lem s t (msg ∷ msgs) (host ∷ executed) r = elim (Bool-cases test_mode) [
    | inl testing ↦ elim (Bool-cases (same host "" || same host t.this_host)) [
      | inl here ↦
          rw (testing, here)
            (account_lem s _ msgs executed (record { queues = r.queues; calls = r.calls }))
      | inr there ↦
          rw (testing, there)
            (account_lem s _ msgs executed (record { queues = r.queues; calls = r.calls }))
    ]
    | inr live ↦ rw live (account_lem s t msgs executed r)
  ]

  -- Without a core here, only the registered hosts are asked if they take as many as there are.
  distribute-away :
      (func : String) (s s1 : Scheduler) (messages : List Message) (first_msg : Message)
      (executed executed1 : List String)
      → 0 < length messages
      → s.this_host_resources.cores ≤ s.this_host_resources.functions_in_flight
      → registered_loop test_mode get_host_resources available_hosts has_snapshot
          (at [] s.registered_hosts func)
          s
          (record { batch = functions; messages = messages })
          first_msg
          executed
          0
          (length messages)
        ≡ ok (s1, executed1, 0)
      → distribute test_mode get_host_resources available_hosts has_snapshot func s
          (record { batch = functions; messages = messages })
          first_msg
          executed
        ≡ ok (s1, executed1)
  unfolding distribute run_locally record_batch run_leftover is_threads
  distribute-away func s s1 messages first_msg executed executed1 nonempty busy e =
      let none_here : min (s.this_host_resources.cores - s.this_host_resources.functions_in_flight)
            (length messages)
          ≡ 0 =
        omega (arith, busy) in
      let z : length messages - 0 ≡ length messages = omega arith in
      let left : (length messages == 0) ≡ false = ground (arith, nonempty) in
      rw (none_here, z, left, e) refl

  distribute-lost :
      (func : String) (s : Scheduler) (messages : List Message) (first_msg : Message) (n : ℕ)
      → length messages ≡ suc n
      → s.this_host_resources.cores ≤ s.this_host_resources.functions_in_flight
      → NoneEnough (length messages) (at [] s.registered_hosts func)
      → length messages ≤ sum_by free_cores (at [] s.registered_hosts func)
      → (rpcs : List Rpc) × (ys : List String) × (distribute test_mode get_host_resources
            available_hosts has_snapshot func s
            (record { batch = functions; messages = messages })
            first_msg
            (replicate n "" ++ "" ∷ [])
          ≡ ok (record s { sent = s.sent ++ rpcs }, ys ++ "" ∷ []))
        × Prefixes messages rpcs
  distribute-lost func s messages first_msg n len busy few enough =
      let (rpcs, ys, e, prefixes) =
        lost_loop (at [] s.registered_hosts func) s messages first_msg (replicate n "")
          (length messages) (omega (arith, len, length-replicate {A = String} n "")) few
          (omega (arith, len)) enough in
      (
        rpcs,
        ys,
        distribute-away func s _ messages first_msg _ _ (omega (arith, len)) busy e,
        prefixes,
      )

  replicate-end :
      (n : ℕ) → replicate {A = String} (suc n) "" ≡ replicate {A = String} n "" ++ "" ∷ []
  replicate-end zero = refl
  replicate-end (suc n) = ap (◌∷◌ "") (replicate-end n)

  -- On the master host without a free core of its own, if the hosts that are registered for the function
  -- have free cores enough together but none of them alone: `callFunctions` returns, every batch that it
  -- sends ends before the last message, that message is queued nowhere, and its record stays empty.
  pub last_message_lost :
      (s : Scheduler) (first_msg : Message) (rest : List Message)
      → same first_msg.master_host "" ≡ false
      → same first_msg.master_host s.this_host ≡ true
      → s.this_host_resources.cores ≤ s.this_host_resources.functions_in_flight
      → NoneEnough (length (first_msg ∷ rest)) (at [] s.registered_hosts (func_to_string first_msg))
      → length (first_msg ∷ rest)
        ≤ sum_by free_cores (at [] s.registered_hosts (func_to_string first_msg))
      → (s1 : Scheduler) × (rpcs : List Rpc) × (ys : List String) × (call_functions test_mode
            get_host_resources available_hosts has_snapshot s
            (record { batch = functions; messages = first_msg ∷ rest })
            false
          ≡ ok (s1, ys ++ "" ∷ []))
        × (s1.sent ≡ s.sent ++ rpcs)
        × Prefixes (first_msg ∷ rest) rpcs
        × (at [] s1.queue_map (func_to_string first_msg)
            ≡ at [] s.queue_map (func_to_string first_msg))
  unfolding call_functions dispatch get_function_queue snapshot_needed
  last_message_lost s first_msg rest mastered master busy few enough =
      let func = func_to_string first_msg in
      let messages = first_msg ∷ rest in
      let s0 = get_function_queue s func in
      let (rpcs, ys, e, prefixes) =
        distribute-lost func s0 messages first_msg (length rest) refl busy few enough in
      let s2 : Scheduler = record s0 { sent = s0.sent ++ rpcs } in
      let kept =
        account_lem s2 s2 messages (ys ++ "" ∷ []) (record { queues = refl; calls = refl }) in
      (
        account test_mode get_host_resources available_hosts has_snapshot s2 messages
            (ys ++ "" ∷ []),
        rpcs,
        ys,
        rw (mastered, master, replicate-end (length rest), e) refl,
        kept.calls,
        prefixes,
        ap (λ (q : List (String × List Message)). at [] q func) kept.queues
            ∙ at-put [] s.queue_map func (at [] s.queue_map func),
      )
