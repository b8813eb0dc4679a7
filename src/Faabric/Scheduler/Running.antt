-- ===== src/Faabric/Scheduler/Running.antt =====
-- faasm/faabric, `callFunctions` of src/scheduler/Scheduler.cpp: what a batch leaves that is run on this
-- host.
use mathlib.Core.List.{append_assoc, append-nil}
use tpfaas.Base.{
  ◌+◌, ◌≡◌, refl, sym, ap, ◌∙◌, Bool, true, false, ◌||◌, Bool-cases, inl, inr, String, List, [],
  ◌∷◌, ◌++◌, length, replicate, arith, ltb, ok,
}
use tpfaas.Faabric.Maps.{same, at, at-put}
use tpfaas.Faabric.Scheduler.{
  Message, BatchExecuteType, HostResources, Scheduler, func_to_string, get_function_queue,
  enqueue_message, increment_in_flight_count, add_faaslets,
}
use tpfaas.Faabric.Scheduler.Calls.{
  snapshot_needed, forced_round, run_locally, account, dispatch, call_functions,
}

-- All messages are for one function.
abbrev pub AllFor : String → List Message → Type 0
AllFor func [] = Unit {0}
AllFor func (msg ∷ msgs) = (func_to_string msg ≡ func) × AllFor func msgs

-- The messages are queued once each and in order, and counted; nothing is sent.
record Ran (func : String) (msgs : List Message) (s t : Scheduler) : Type 0 where
  queued : at [] t.queue_map func ≡ at [] s.queue_map func ++ msgs
  counted : at 0 t.in_flight_counts func ≡ at 0 s.in_flight_counts func + length msgs
  busy :
      t.this_host_resources.functions_in_flight
      ≡ s.this_host_resources.functions_in_flight + length msgs
  nothing_sent : t.sent ≡ s.sent
  host : t.this_host ≡ s.this_host

forced_round-Ran :
    (func : String) (s : Scheduler) (msg : Message)
    → func_to_string msg ≡ func
    → Ran func (msg ∷ []) s (forced_round func s msg)
unfolding forced_round enqueue_message increment_in_flight_count add_faaslets
forced_round-Ran func s msg e =
    let queue = at-put [] s.queue_map func (at [] s.queue_map func ++ msg ∷ []) in
    let flights = at-put 0 s.in_flight_counts func (at 0 s.in_flight_counts func + 1) in
    elim (Bool-cases (ltb (at 0 s.faaslet_counts func) (at 0 s.in_flight_counts func + 1))) [
      | inl short ↦
          rw (e, flights, short)
            (record {
              queued = queue;
              counted = flights;
              busy = refl;
              nothing_sent = refl;
              host = refl;
            })
      | inr enough ↦
          rw (e, flights, enough)
            (record {
              queued = queue;
              counted = flights;
              busy = refl;
              nothing_sent = refl;
              host = refl;
            })
    ]

run_locally-Ran :
    (func : String) (s : Scheduler) (msgs : List Message)
    → AllFor func msgs
    → Ran func msgs s (run_locally (forced_round func) s msgs)
unfolding run_locally
run_locally-Ran func s [] all = record {
  queued = sym (append-nil (at [] s.queue_map func));
  counted = omega arith;
  busy = omega arith;
  nothing_sent = refl;
  host = refl;
}
run_locally-Ran func s (msg ∷ msgs) all =
    let s1 = forced_round func s msg in
    let a = forced_round-Ran func s msg all.0 in
    let b = run_locally-Ran func s1 msgs all.1 in
    record {
      queued =
          b.queued
          ∙ ap (λ (q : List Message). q ++ msgs) a.queued
          ∙ append_assoc (at [] s.queue_map func) (msg ∷ []) msgs;
      counted = omega (arith, a.counted, b.counted);
      busy = omega (arith, a.busy, b.busy);
      nothing_sent = b.nothing_sent ∙ a.nothing_sent;
      host = b.host ∙ a.host;
    }

module _ (test_mode : Bool) (get_host_resources : String → HostResources)
    (available_hosts : List String) (has_snapshot : String → Bool) where
  account-Ran :
      (func : String) (ran msgs : List Message) (s t : Scheduler) (executed : List String)
      → Ran func ran s t
      → Ran func ran s
          (account test_mode get_host_resources available_hosts has_snapshot t msgs executed)
  unfolding account
  account-Ran func ran [] s t executed r = r
  account-Ran func ran (msg ∷ msgs) s t [] r = r
  account-Ran func ran (msg ∷ msgs) s t (host ∷ executed) r = elim (Bool-cases test_mode) [
    | inl testing ↦ elim (Bool-cases (same host "" || same host t.this_host)) [
      | inl here ↦
          rw (testing, here)
            (account-Ran func ran msgs s _ executed (record {
              queued = r.queued;
              counted = r.counted;
              busy = r.busy;
              nothing_sent = r.nothing_sent;
              host = r.host;
            }))
      | inr there ↦
          rw (testing, there)
            (account-Ran func ran msgs s _ executed (record {
              queued = r.queued;
              counted = r.counted;
              busy = r.busy;
              nothing_sent = r.nothing_sent;
              host = r.host;
            }))
    ]
    | inr live ↦ rw live (account-Ran func ran msgs s t executed r)
  ]

  -- `callFunctions` forced to run a batch on this host, with a master host given and for one function
  -- that needs no snapshot, returns this host for every message; all messages stand once each and in
  -- order behind what was queued for the function, the function and the host count them as in flight,
  -- and nothing is sent to other hosts.
  pub forced_call :
      (s : Scheduler) (batch : BatchExecuteType) (first_msg : Message) (rest : List Message)
      → snapshot_needed batch ≡ false
      → same first_msg.master_host "" ≡ false
      → AllFor (func_to_string first_msg) rest
      → (s1 : Scheduler) × (call_functions test_mode get_host_resources available_hosts has_snapshot
            s
            (record { batch = batch; messages = first_msg ∷ rest })
            true
          ≡ ok (s1, replicate (length (first_msg ∷ rest)) s.this_host))
        × (at [] s1.queue_map (func_to_string first_msg)
            ≡ at [] s.queue_map (func_to_string first_msg) ++ first_msg ∷ rest)
        × (at 0 s1.in_flight_counts (func_to_string first_msg)
            ≡ at 0 s.in_flight_counts (func_to_string first_msg) + length (first_msg ∷ rest))
        × (s1.this_host_resources.functions_in_flight
            ≡ s.this_host_resources.functions_in_flight + length (first_msg ∷ rest))
        × (s1.sent ≡ s.sent)
  unfolding call_functions dispatch get_function_queue
  forced_call s batch first_msg rest without mastered all =
      let func = func_to_string first_msg in
      let messages = first_msg ∷ rest in
      let s0 = get_function_queue s func in
      let executed = replicate (length messages) s.this_host in
      let r =
        account-Ran func messages messages s0 _ executed
          (run_locally-Ran func s0 messages (refl, all)) in
      let queue = at-put [] s.queue_map func (at [] s.queue_map func) in
      rw (mastered, without)
        (
          account test_mode get_host_resources available_hosts has_snapshot
              (run_locally (forced_round func) s0 messages) messages executed,
          refl,
          r.queued ∙ ap (λ (q : List Message). q ++ messages) queue,
          r.counted,
          r.busy,
          r.nothing_sent,
        )
