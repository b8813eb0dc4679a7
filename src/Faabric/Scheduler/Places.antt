-- ===== src/Faabric/Scheduler/Places.antt =====
-- faasm/faabric, `callFunctions` of src/scheduler/Scheduler.cpp: where the messages of a batch end up.
use mathlib.Core.List.{append_assoc}
use tpfaas.Base.{
  ℕ, zero, suc, ◌-◌, ◌≤◌, ◌≡◌, refl, sym, ap, ◌∙◌, Bool, true, false, String, List, [], ◌∷◌, ◌++◌,
  length, length-append, replicate, take_all, length-replicate, arith, ◌==◌, min, ok,
}
use tpfaas.Faabric.Maps.{same}
use tpfaas.Faabric.Scheduler.{
  Message, BatchExecuteType, BatchExecuteRequest, HostResources, Scheduler, func_to_string,
  get_function_queue,
}
use tpfaas.Faabric.Scheduler.Calls.{
  set_at, record_batch, is_threads, forced_round, local_round, run_locally, run_leftover,
  distribute, dispatch, call_functions,
}
use tpfaas.Faabric.Scheduler.Counts.{local_round-forced}

run_locally-forced :
    (func : String) (s : Scheduler) (msgs : List Message)
    → run_locally (local_round func false) s msgs ≡ run_locally (forced_round func) s msgs
unfolding run_locally
run_locally-forced func s [] = refl
run_locally-forced func s (msg ∷ msgs) =
    rw (local_round-forced func s msg) (run_locally-forced func (forced_round func s msg) msgs)

set_at-append :
    (front : List String) (b : String) (back : List String) (host : String)
    → set_at (front ++ b ∷ back) (length front) host ≡ (front ++ host ∷ []) ++ back
unfolding set_at
set_at-append [] b back host = refl
set_at-append (f ∷ front) b back host = ap (◌∷◌ f) (set_at-append front b back host)

-- Filling all records with one host.
record_batch-front :
    (host : String) (front back : List String) (n : ℕ)
    → length back ≡ n
    → record_batch (front ++ back) (length front) n host ≡ front ++ replicate n host
unfolding record_batch set_at
record_batch-front host front [] zero e = refl
record_batch-front host front [] (suc n) e = absurd (omega arith)
record_batch-front host front (b ∷ back) zero e = absurd (omega arith)
record_batch-front host front (b ∷ back) (suc n) e =
    let one = set_at-append front b back host in
    let len : length (front ++ host ∷ []) ≡ suc (length front) =
      omega (arith, length-append front (host ∷ [])) in
    ap (λ (l : List String). record_batch l (suc (length front)) n host) one
    ∙ ap (λ (k : ℕ). record_batch ((front ++ host ∷ []) ++ back) k n host) (sym len)
    ∙ record_batch-front host (front ++ host ∷ []) back n (omega arith)
    ∙ append_assoc front (host ∷ []) (replicate n host)

module _ (test_mode : Bool) (get_host_resources : String → HostResources)
    (available_hosts : List String) (has_snapshot : String → Bool) where
  distribute-forced :
      (func : String) (s : Scheduler) (req : BatchExecuteRequest) (first_msg : Message)
      → is_threads req.batch ≡ false
      → length req.messages
        ≤ s.this_host_resources.cores - s.this_host_resources.functions_in_flight
      → distribute test_mode get_host_resources available_hosts has_snapshot func s req first_msg
          (replicate (length req.messages) "")
        ≡ ok (
          run_locally (forced_round func) s req.messages,
          replicate (length req.messages) s.this_host,
        )
  unfolding distribute run_leftover
  distribute-forced func s req first_msg whole room =
      let n = length req.messages in
      let all_here : min (s.this_host_resources.cores - s.this_host_resources.functions_in_flight) n
          ≡ n =
        omega arith in
      let none_left : (n - n == 0) ≡ true = ground arith in
      rw
        (
          all_here,
          none_left,
          whole,
          take_all n req.messages (omega arith),
          run_locally-forced func s req.messages,
          record_batch-front s.this_host [] (replicate n "") n (length-replicate n ""),
        )
        refl

  -- For a batch that is not one of threads, on its master host, with a free core for every message:
  -- distributing it gives the same scheduler and the same records, or the same error, as forcing it to
  -- run here.
  pub forced_agrees :
      (s : Scheduler) (batch : BatchExecuteType) (first_msg : Message) (rest : List Message)
      → is_threads batch ≡ false
      → same first_msg.master_host s.this_host ≡ true
      → length (first_msg ∷ rest)
        ≤ s.this_host_resources.cores - s.this_host_resources.functions_in_flight
      → call_functions test_mode get_host_resources available_hosts has_snapshot s
          (record { batch = batch; messages = first_msg ∷ rest })
          false
        ≡ call_functions test_mode get_host_resources available_hosts has_snapshot s
            (record { batch = batch; messages = first_msg ∷ rest })
            true
  unfolding call_functions dispatch get_function_queue
  forced_agrees s batch first_msg rest whole master room =
      let func = func_to_string first_msg in
      let req : BatchExecuteRequest = record { batch = batch; messages = first_msg ∷ rest } in
      rw (master, distribute-forced func (get_function_queue s func) req first_msg whole room) refl
