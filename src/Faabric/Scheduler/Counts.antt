-- ===== src/Faabric/Scheduler/Counts.antt =====
-- faasm/faabric, src/scheduler/Scheduler.cpp: the counts of a host and of its functions.
use tpfaas.Base.{
  ◌+◌, ◌-◌, ◌≤◌, ◌<◌, ◌≡◌, ◌↔◌, refl, sym, subst, Bool, true, false, not, ◌&&◌, Bool-cases, inl,
  inr, String, List, arith, ltb, ◌==◌, ok,
}
use tpfaas.Faabric.Maps.{same, at, at-put, at-put_other, same-path, put, total, total-put}
use tpfaas.Faabric.Scheduler.{
  Message, BatchExecuteRequest, HostResources, Scheduler, func_to_string, enqueue_message,
  increment_in_flight_count, add_faaslets, decrement_above_zero, notify_call_finished,
  notify_faaslet_finished, drop_faaslet, get_function_in_flight_count, get_function_faaslet_count,
}
use tpfaas.Faabric.Scheduler.Calls.{is_threads, forced_round, local_round, call_functions}
use tpfaas.Faabric.Scheduler.Kept.{Holds, OfPair, SameCounts, call_functions-keeps}

-- The counts of the host are the sums of the counts of the functions.
pub record Counted (s : Scheduler) : Type 0 where
  pub in_flight : s.this_host_resources.functions_in_flight ≡ total s.in_flight_counts
  pub bound : s.this_host_resources.bound_executors ≡ total s.faaslet_counts

-- Every message in flight has a faaslet of its function.
abbrev pub Scaled : Scheduler → Type 0
Scaled s = (func : String) → at 0 s.in_flight_counts func ≤ at 0 s.faaslet_counts func

Counted-stable : (s t : Scheduler) → SameCounts s t → Counted s → Counted t
Counted-stable s t e c = record {
  in_flight = rw (e.0, e.1) at c.in_flight;
  bound = rw (e.0, e.2) at c.bound;
}

Scaled-stable : (s t : Scheduler) → SameCounts s t → Scaled s → Scaled t
Scaled-stable s t e c func = rw (e.1, e.2) at (c func)

increment-Counted :
    (s : Scheduler) (msg : Message) → Counted s → Counted (increment_in_flight_count s msg)
unfolding increment_in_flight_count
increment-Counted s msg c = record {
  in_flight = omega (
    arith,
    c.in_flight,
    total-put s.in_flight_counts (func_to_string msg)
        (at 0 s.in_flight_counts (func_to_string msg) + 1),
  );
  bound = c.bound;
}

add_faaslets-Counted : (s : Scheduler) (msg : Message) → Counted s → Counted (add_faaslets s msg)
unfolding add_faaslets
add_faaslets-Counted s msg c =
    let func = func_to_string msg in
    elim (Bool-cases (ltb (at 0 s.faaslet_counts func) (at 0 s.in_flight_counts func))) [
      | inl short ↦ rw short (record {
        in_flight = c.in_flight;
        bound =
            omega
              (arith, c.bound, total-put s.faaslet_counts func (at 0 s.faaslet_counts func + 1));
      })
      | inr enough ↦ rw enough c
    ]

local_round-Counted :
    (func : String) (threads_only : Bool) (s : Scheduler) (msg : Message)
    → Counted s
    → Counted (local_round func threads_only s msg)
unfolding local_round enqueue_message
local_round-Counted func true s msg c = increment-Counted s msg c
local_round-Counted func false s msg c =
    let s1 = increment_in_flight_count s msg in
    add_faaslets-Counted (enqueue_message s1 func msg) msg
      (Counted-stable s1 _ (refl, refl, refl) (increment-Counted s msg c))

forced_round-Counted :
    (func : String) (s : Scheduler) (msg : Message) → Counted s → Counted (forced_round func s msg)
unfolding forced_round enqueue_message
forced_round-Counted func s msg c =
    let s1 = enqueue_message s func msg in
    add_faaslets-Counted (increment_in_flight_count s1 msg) msg
      (increment-Counted s1 msg (Counted-stable s s1 (refl, refl, refl) c))

-- One more message in flight, and one more faaslet if there are too few.
add_faaslets-Scaled :
    (s : Scheduler) (msg : Message)
    → Scaled s
    → Scaled (add_faaslets (increment_in_flight_count s msg) msg)
unfolding add_faaslets increment_in_flight_count
add_faaslets-Scaled s msg c j =
    let func = func_to_string msg in
    let a = at 0 s.in_flight_counts func in
    let b = at 0 s.faaslet_counts func in
    let got = at-put 0 s.in_flight_counts func (a + 1) in
    elim (Bool-cases (ltb b (a + 1))) [
      | inl short ↦ elim (Bool-cases (same func j)) [
        | inl hit ↦
            rw (got, short, sym (same-path func j hit), got, at-put 0 s.faaslet_counts func (b + 1))
              (omega (arith, c func))
        | inr miss ↦
            rw
              (
                got,
                short,
                at-put_other 0 s.in_flight_counts func j (a + 1) miss,
                at-put_other 0 s.faaslet_counts func j (b + 1) miss,
              )
              (c j)
      ]
      | inr enough ↦ elim (Bool-cases (same func j)) [
        | inl hit ↦ rw (got, enough, sym (same-path func j hit), got) (ground arith)
        | inr miss ↦ rw (got, enough, at-put_other 0 s.in_flight_counts func j (a + 1) miss) (c j)
      ]
    ]

forced_round-Scaled :
    (func : String) (s : Scheduler) (msg : Message) → Scaled s → Scaled (forced_round func s msg)
unfolding forced_round enqueue_message
forced_round-Scaled func s msg c = add_faaslets-Scaled (enqueue_message s func msg) msg c

-- It does not matter whether a message is counted before it is queued.
pub local_round-forced :
    (func : String) (s : Scheduler) (msg : Message)
    → local_round func false s msg ≡ forced_round func s msg
unfolding local_round forced_round enqueue_message increment_in_flight_count
local_round-forced func s msg = refl

module _ (test_mode : Bool) (get_host_resources : String → HostResources)
    (available_hosts : List String) (has_snapshot : String → Bool) where
  -- Whenever `callFunctions` returns, for any kind of batch and any answers of the other hosts, the
  -- counts of this host are the sums of the counts of its functions, if they were before.
  pub call_functions_counts :
      (s s1 : Scheduler) (req : BatchExecuteRequest) (force_local : Bool) (executed : List String)
      → call_functions test_mode get_host_resources available_hosts has_snapshot s req force_local
        ≡ ok (s1, executed)
      → Counted s
      → Counted s1
  call_functions_counts s s1 req force_local executed e c = subst (Holds (OfPair Counted)) e (
      call_functions-keeps Counted Counted-stable test_mode get_host_resources available_hosts
        has_snapshot req.batch (λ func. local_round-Counted func (is_threads req.batch))
        forced_round-Counted s req.messages force_local c)

  -- Whenever `callFunctions` returns for a batch that is not one of threads, every function has at
  -- least as many faaslets as messages in flight, if it had before.
  pub call_functions_scale :
      (s s1 : Scheduler) (req : BatchExecuteRequest) (force_local : Bool) (executed : List String)
      → is_threads req.batch ≡ false
      → call_functions test_mode get_host_resources available_hosts has_snapshot s req force_local
        ≡ ok (s1, executed)
      → Scaled s
      → Scaled s1
  call_functions_scale s s1 req force_local executed whole e c = subst (Holds (OfPair Scaled)) e (
      call_functions-keeps Scaled Scaled-stable test_mode get_host_resources available_hosts
        has_snapshot req.batch
        (λ func t msg d.
          rw (whole, local_round-forced func t msg) (forced_round-Scaled func t msg d))
        forced_round-Scaled s req.messages force_local c)

-- With messages in flight on the host, `notifyCallFinished` keeps the host's count of them the sum
-- over the functions just if the function of the message has some in flight.
pub call_finished_counts :
    (s : Scheduler) (msg : Message)
    → Counted s
    → 0 < s.this_host_resources.functions_in_flight
    → Counted (notify_call_finished s msg) ↔ (0 < get_function_in_flight_count s msg)
unfolding notify_call_finished get_function_in_flight_count decrement_above_zero
call_finished_counts s msg c busy =
    let func = func_to_string msg in
    let sum = total-put s.in_flight_counts func (at 0 s.in_flight_counts func - 1) in
    (
      λ kept. ground (arith, sum, c.in_flight, kept.in_flight),
      λ some_left. record {
        in_flight = omega (arith, sum, c.in_flight, some_left);
        bound = c.bound;
      },
    )

-- Whether or not the host unregisters, one faaslet less is counted.
drop_faaslet_lem :
    (s : Scheduler) (msg : Message)
    → ((drop_faaslet s msg).faaslet_counts
        ≡ put s.faaslet_counts
            (func_to_string msg)
            (at 0 s.faaslet_counts (func_to_string msg) - 1))
      × ((drop_faaslet s msg).this_host_resources ≡ s.this_host_resources)
      × ((drop_faaslet s msg).in_flight_counts ≡ s.in_flight_counts)
unfolding drop_faaslet
drop_faaslet_lem s msg =
    elim (Bool-cases (
      at 0 s.faaslet_counts (func_to_string msg) - 1 == 0
      && not (same s.this_host msg.master_host))) [
        | inl last ↦ rw last (refl, refl, refl)
        | inr others ↦ rw others (refl, refl, refl)
      ]

-- `notifyFaasletFinished` for a message with a master host returns; with executors bound on the host,
-- it keeps their number the sum of the faaslets over the functions just if the function of the message
-- has a faaslet.
pub faaslet_finished_counts :
    (s : Scheduler) (msg : Message)
    → same msg.master_host "" ≡ false
    → Counted s
    → 0 < s.this_host_resources.bound_executors
    → (s1 : Scheduler) × (notify_faaslet_finished s msg ≡ ok s1)
      × (Counted s1 ↔ (0 < get_function_faaslet_count s msg))
unfolding notify_faaslet_finished get_function_faaslet_count decrement_above_zero
faaslet_finished_counts s msg mastered c busy =
    let func = func_to_string msg in
    let (counts, resources, flights) = drop_faaslet_lem s msg in
    let sum = total-put s.faaslet_counts func (at 0 s.faaslet_counts func - 1) in
    elim (Bool-cases (ltb 0 (at 0 s.faaslet_counts func))) [
      | inl bound ↦
          rw (mastered, bound)
            (
              _,
              refl,
              (
                λ _. ground (arith, bound),
                λ some_left. record {
                  in_flight = rw (resources, flights) c.in_flight;
                  bound = rw (resources, counts) (omega (arith, sum, c.bound, some_left));
                },
              ),
            )
      | inr unbound ↦
          rw (mastered, unbound)
            (
              _,
              refl,
              (
                λ kept. absurd (omega (arith, kept.bound, c.bound, busy)),
                λ some_left. absurd (ground (arith, unbound, some_left)),
              ),
            )
    ]
