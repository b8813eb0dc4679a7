-- ===== src/Faabric/Scheduler/Kept.antt =====
-- What `callFunctions` keeps if the loops over local messages keep it: calls of other hosts, queues,
-- registrations and records do not touch the counts.
use tpfaas.Base.{
  ℕ, ◌-◌, ◌≡◌, refl, Bool, true, false, not, ◌&&◌, ◌||◌, Bool-cases, inl, inr, String, List, [],
  ◌∷◌, length, take, drop, ◌==◌, if◌then◌else◌, min, Outcome, ok, fault, ◌>>=◌, ◌>>◌, throw_unless,
}
use tpfaas.Faabric.Maps.{same}
use tpfaas.Faabric.Scheduler.{
  Message, BatchExecuteType, BatchExecuteRequest, HostResources, Scheduler, func_to_string,
  get_function_queue,
}
use tpfaas.Faabric.Scheduler.Calls.{
  is_threads, snapshot_needed, forced_round, local_round, run_locally, push_snapshot_if_needed,
  schedule_functions_on_host, registered_loop, register_host, target_loop, run_leftover, distribute,
  account, dispatch, call_functions,
}

-- A statement on what is returned, if anything is.
abbrev pub Holds : {T : Type 0} → (T → Type 0) → Outcome T → Type 0
Holds Q (ok t) = Q t
Holds Q (fault _) = Unit {0}

pub Holds-bind :
    {T U : Type 0} (Q : T → Type 0) (R : U → Type 0) (m : Outcome T) (k : T → Outcome U)
    → Holds Q m
    → ((t : T) → Q t → Holds R (k t))
    → Holds R (m >>= k)
Holds-bind Q R (ok t) k h f = f t h
Holds-bind Q R (fault _) k h f = tt

pub Holds-throw_unless :
    {T : Type 0} (Q : T → Type 0) (b : Bool) (m : Outcome T)
    → Holds Q m
    → Holds Q (throw_unless b >> m)
Holds-throw_unless Q true m h = h
Holds-throw_unless Q false m h = tt

Holds-if :
    {T : Type 0} (Q : T → Type 0) (b : Bool) (m n : Outcome T)
    → Holds Q m
    → Holds Q n
    → Holds Q (if b then m else n)
Holds-if Q true m n h g = h
Holds-if Q false m n h g = g

-- The results of `callFunctions` and of the loops in it.
abbrev pub OfPair : (Scheduler → Type 0) → (Scheduler × List String) → Type 0
OfPair P x = P x.0

abbrev pub OfTriple : (Scheduler → Type 0) → (Scheduler × List String × ℕ) → Type 0
OfTriple P x = P x.0

-- Two schedulers with the same counts.
abbrev pub SameCounts : Scheduler → Scheduler → Type 0
SameCounts s t =
    (s.this_host_resources ≡ t.this_host_resources)
    × (s.in_flight_counts ≡ t.in_flight_counts)
    × (s.faaslet_counts ≡ t.faaslet_counts)

pub run_locally-keeps :
    (P : Scheduler → Type 0) (round : Scheduler → Message → Scheduler)
    → ((s : Scheduler) (msg : Message) → P s → P (round s msg))
    → (s : Scheduler) (msgs : List Message) → P s
    → P (run_locally round s msgs)
unfolding run_locally
run_locally-keeps P round keeps s [] h = h
run_locally-keeps P round keeps s (msg ∷ msgs) h =
    run_locally-keeps P round keeps (round s msg) msgs (keeps s msg h)

module _ (P : Scheduler → Type 0) (stable : (s t : Scheduler) → SameCounts s t → P s → P t)
    (test_mode : Bool) (get_host_resources : String → HostResources) (available_hosts : List String)
    (has_snapshot : String → Bool) where
  account-keeps :
      (s : Scheduler) (msgs : List Message) (executed : List String)
      → P s
      → P (account test_mode get_host_resources available_hosts has_snapshot s msgs executed)
  unfolding account
  account-keeps s [] executed h = h
  account-keeps s (msg ∷ msgs) [] h = h
  account-keeps s (msg ∷ msgs) (host ∷ executed) h = elim (Bool-cases test_mode) [
    | inl testing ↦ elim (Bool-cases (same host "" || same host s.this_host)) [
      | inl here ↦
          rw (testing, here) (account-keeps _ msgs executed (stable s _ (refl, refl, refl) h))
      | inr there ↦
          rw (testing, there) (account-keeps _ msgs executed (stable s _ (refl, refl, refl) h))
    ]
    | inr live ↦ rw live (account-keeps s msgs executed h)
  ]

  schedule-keeps :
      (s : Scheduler) (host : String) (req : BatchExecuteRequest) (first_msg : Message)
      (records : List String) (offset : ℕ)
      → P s
      → Holds (OfTriple P) (
          schedule_functions_on_host test_mode get_host_resources available_hosts has_snapshot s
            host req first_msg records offset)
  unfolding schedule_functions_on_host push_snapshot_if_needed
  schedule-keeps s host req first_msg records offset h =
      let r = get_host_resources host in
      elim (Bool-cases (r.cores - r.functions_in_flight == 0)) [
        | inl full ↦ rw full h
        | inr free ↦ elim (Bool-cases (snapshot_needed req.batch)) [
          | inl needed ↦ elim (Bool-cases (has_snapshot first_msg.snapshot_key)) [
            | inl there ↦ rw (free, needed, there) (stable s _ (refl, refl, refl) h)
            | inr missing ↦ rw (free, needed, missing) tt
          ]
          | inr without ↦ rw (free, without) (stable s _ (refl, refl, refl) h)
        ]
      ]

  registered_loop-keeps :
      (hosts : List String) (s : Scheduler) (req : BatchExecuteRequest) (first_msg : Message)
      (executed : List String) (next_idx remainder : ℕ)
      → P s
      → Holds (OfTriple P) (
          registered_loop test_mode get_host_resources available_hosts has_snapshot hosts s req
            first_msg executed next_idx remainder)
  unfolding registered_loop
  registered_loop-keeps [] s req first_msg executed next_idx remainder h = h
  registered_loop-keeps (host ∷ hosts) s req first_msg executed next_idx remainder h =
      Holds-bind (OfTriple P) (OfTriple P)
        (schedule_functions_on_host test_mode get_host_resources available_hosts has_snapshot s host
          req first_msg executed next_idx)
        _ (schedule-keeps s host req first_msg executed next_idx h)
        (λ (s1, executed1, n) h1.
          Holds-if (OfTriple P) (remainder - n == 0) _ _ h1
            (registered_loop-keeps hosts s1 req first_msg executed1 next_idx (remainder - n) h1))

  registered_keeps :
      (func host : String) (s : Scheduler) (n : ℕ)
      → P s
      → P (
          if n == 0
          then s
          else register_host test_mode get_host_resources available_hosts has_snapshot s func host)
  unfolding register_host
  registered_keeps func host s n h = elim (Bool-cases (n == 0)) [
    | inl none_taken ↦ rw none_taken h
    | inr taken ↦ rw taken (stable s _ (refl, refl, refl) h)
  ]

  target_loop-keeps :
      (func : String) (hosts : List String) (s : Scheduler) (req : BatchExecuteRequest)
      (first_msg : Message) (executed : List String) (next_idx remainder : ℕ)
      → P s
      → Holds (OfTriple P) (
          target_loop test_mode get_host_resources available_hosts has_snapshot func hosts s req
            first_msg executed next_idx remainder)
  unfolding target_loop register_host
  target_loop-keeps func [] s req first_msg executed next_idx remainder h = h
  target_loop-keeps func (host ∷ hosts) s req first_msg executed next_idx remainder h =
      Holds-bind (OfTriple P) (OfTriple P)
        (schedule_functions_on_host test_mode get_host_resources available_hosts has_snapshot s host
          req first_msg executed next_idx)
        _ (schedule-keeps s host req first_msg executed next_idx h)
        (λ (s1, executed1, n) h1.
          let s2 =
            if n == 0
            then s1
            else register_host test_mode get_host_resources available_hosts has_snapshot s1 func
                host in
          let h2 : P s2 = registered_keeps func host s1 n h1 in
          Holds-if (OfTriple P) (remainder - n == 0) _ _ h2
            (target_loop-keeps func hosts s2 req first_msg executed1 next_idx (remainder - n) h2))

  module _ (func : String) (batch : BatchExecuteType)
      (local_keeps : (s : Scheduler) (msg : Message)
        → P s
        → P (local_round func (is_threads batch) s msg)) where
    leftover_keeps :
        (s : Scheduler) (messages : List Message) (executed : List String) (next_idx remainder : ℕ)
        → P s
        → P
            (run_leftover test_mode get_host_resources available_hosts has_snapshot func s
              (record { batch = batch; messages = messages })
              executed
              next_idx
              remainder).0
    unfolding run_leftover
    leftover_keeps s messages executed next_idx remainder h = elim (Bool-cases (remainder == 0)) [
      | inl all_done ↦ rw all_done h
      | inr left ↦ rw left (
          run_locally-keeps P (local_round func (is_threads batch)) local_keeps s
            (drop next_idx messages) h)
    ]

    distribute-keeps :
        (s : Scheduler) (messages : List Message) (first_msg : Message) (executed : List String)
        → P s
        → Holds (OfPair P) (
            distribute test_mode get_host_resources available_hosts has_snapshot func s
              (record { batch = batch; messages = messages })
              first_msg
              executed)
    unfolding distribute
    distribute-keeps s messages first_msg executed h =
        let n_locally =
          min (s.this_host_resources.cores - s.this_host_resources.functions_in_flight)
            (length messages) in
        let round = local_round func (is_threads batch) in
        let req : BatchExecuteRequest = record { batch = batch; messages = messages } in
        let h1 = run_locally-keeps P round local_keeps s (take n_locally messages) h in
        Holds-bind (OfTriple P) (OfPair P) _ _
          (Holds-if (OfTriple P) (length messages - n_locally == 0) _ _ h1
            (registered_loop-keeps _ _ req first_msg _ n_locally (length messages - n_locally) h1))
          (λ (s2, executed2, remainder2) h2.
            Holds-bind (OfTriple P) (OfPair P) _ _
              (Holds-if (OfTriple P) (remainder2 == 0) _ _ h2
                (target_loop-keeps func _ s2 req first_msg executed2 n_locally remainder2 h2))
              (λ (s3, executed3, remainder3) h3.
                leftover_keeps s3 messages executed3 n_locally remainder3 h3))

    dispatch-keeps :
        ((s : Scheduler) (msg : Message) → P s → P (forced_round func s msg))
        → (s : Scheduler) (messages : List Message) (first_msg : Message) (force_local : Bool) → P s
        → Holds (OfPair P) (
            dispatch test_mode get_host_resources available_hosts has_snapshot func s
              (record { batch = batch; messages = messages })
              first_msg
              force_local)
    unfolding dispatch
    dispatch-keeps forced_keeps s messages first_msg true h =
        run_locally-keeps P (forced_round func) forced_keeps s messages h
    dispatch-keeps forced_keeps s messages first_msg false h =
        Holds-if (OfPair P) (not (same first_msg.master_host s.this_host)) _ _
          (stable s _ (refl, refl, refl) h) (distribute-keeps s messages first_msg _ h)

  pub call_functions-keeps :
      (batch : BatchExecuteType)
      → ((func : String) (s : Scheduler) (msg : Message)
          → P s
          → P (local_round func (is_threads batch) s msg))
      → ((func : String) (s : Scheduler) (msg : Message) → P s → P (forced_round func s msg))
      → (s : Scheduler) (messages : List Message) (force_local : Bool) → P s
      → Holds (OfPair P) (
          call_functions test_mode get_host_resources available_hosts has_snapshot s
            (record { batch = batch; messages = messages })
            force_local)
  unfolding call_functions get_function_queue
  call_functions-keeps batch local_keeps forced_keeps s [] force_local h = tt
  call_functions-keeps batch local_keeps forced_keeps s (first_msg ∷ rest) force_local h =
      let func = func_to_string first_msg in
      let messages = first_msg ∷ rest in
      let req : BatchExecuteRequest = record { batch = batch; messages = messages } in
      let ran =
        dispatch test_mode get_host_resources available_hosts has_snapshot func
          (get_function_queue s func) req first_msg force_local in
      let finish : Scheduler × List String → Outcome (Scheduler × List String) = λ x.
        ok (
          account test_mode get_host_resources available_hosts has_snapshot x.0 messages x.1,
          x.1,
        ) in
      let with_snapshot =
        not (snapshot_needed batch)
        || not (same first_msg.snapshot_key "") && has_snapshot first_msg.snapshot_key in
      Holds-throw_unless (OfPair P) (not (same first_msg.master_host ""))
        (throw_unless with_snapshot >> (ran >>= finish))
        (Holds-throw_unless (OfPair P) with_snapshot (ran >>= finish) (
          Holds-bind (OfPair P) (OfPair P) ran finish
            (dispatch-keeps func batch (local_keeps func) (forced_keeps func)
              (get_function_queue s func) messages first_msg force_local
              (stable s _ (refl, refl, refl) h))
            (λ (s1, executed) h1. account-keeps s1 messages executed h1)))
