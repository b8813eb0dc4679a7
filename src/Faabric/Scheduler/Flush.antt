-- ===== src/Faabric/Scheduler/Flush.antt =====
-- faasm/faabric, src/scheduler/Scheduler.cpp: the start, `reset`, and the calls that go to every host.
use tpfaas.Base.{
  ℕ, zero, suc, ◌≡◌, refl, subst, Bool, String, List, [], ◌∷◌, map, replicate, arith, if◌then◌else◌,
  Outcome, ok, fault, dangling, ◌>>=◌, ◌>>◌, throw_unless,
}
use tpfaas.Faabric.Maps.{at, put, has, erase}
use tpfaas.Faabric.Scheduler.{
  Message, flush, Scheduler, send, send_flush, delete_snapshot, func_to_string,
}
use tpfaas.Faabric.Scheduler.Results.{blank}
use tpfaas.Faabric.Scheduler.Kept.{Holds, Holds-bind, Holds-throw_unless}
use tpfaas.Faabric.Scheduler.Counts.{Counted, Scaled}

module _ (usable_cores : ℕ) (endpoint_host : String) where
  -- The constructor
  abbrev pub new_scheduler : Scheduler
  new_scheduler = record {
    this_host = endpoint_host;
    this_host_resources = record {
      cores = usable_cores;
      functions_in_flight = 0;
      bound_executors = 0;
    };
    queue_map = [];
    bind_queue = [];
    registered_hosts = [];
    faaslet_counts = [];
    in_flight_counts = [];
    recorded_messages_all = [];
    recorded_messages_local = [];
    recorded_messages_shared = [];
    sent = [];
    next_id = 0;
  }

  -- `reset`; the calls that were made and the ids that were given are not taken back.
  unfoldable pub reset_scheduler : Scheduler → Scheduler
  reset_scheduler s = record new_scheduler { sent = s.sent; next_id = s.next_id }

  -- With no messages in flight and no faaslets, the counts agree.
  pub reset_counts : (s : Scheduler) → Counted (reset_scheduler s) × Scaled (reset_scheduler s)
  unfolding reset_scheduler at
  reset_counts s = (record { in_flight = refl; bound = refl }, λ func. omega arith)

-- `broadcastSnapshotDelete`, one call for each registered host
unfoldable pub snapshot_delete_loop : List String → String → Scheduler → Scheduler
snapshot_delete_loop [] key s = s
snapshot_delete_loop (host ∷ hosts) key s =
    snapshot_delete_loop hosts key (send s (delete_snapshot host key))

unfoldable pub broadcast_snapshot_delete : Scheduler → Message → String → Scheduler
unfolding snapshot_delete_loop func_to_string at
broadcast_snapshot_delete s msg key =
    snapshot_delete_loop (at [] s.registered_hosts (func_to_string msg)) key s

-- The first loop of `flushLocally`: a flush message for each faaslet in place of what was queued. A
-- function without a queue has a null pointer in the map.
unfoldable pub flush_faaslets : List (String × ℕ) → Scheduler → Outcome Scheduler
unfolding has put
flush_faaslets [] s = ok s
flush_faaslets ((func, zero) ∷ counts) s = flush_faaslets counts s
flush_faaslets ((func, suc n) ∷ counts) s =
    let s1 : Scheduler = record s {
      queue_map = put s.queue_map func (replicate (suc n) (blank flush));
    } in
    let rest = flush_faaslets counts s1 in
    if has (map (λ e. e.0) s.queue_map) func then rest else fault dangling

-- The second loop: every queue drains in time, which its faaslets decide, or the wait throws; then it
-- is emptied.
unfoldable pub drain_queues :
    (String → Bool) → List (String × List Message) → Outcome (List (String × List Message))
drain_queues drained [] = ok []
drain_queues drained ((func, queue) ∷ queues) = do
  throw_unless (drained func)
  rest ← drain_queues drained queues
  ok ((func, []) ∷ rest)

-- `flushLocally`
unfoldable pub flush_locally : (String → Bool) → Scheduler → Outcome Scheduler
unfolding flush_faaslets drain_queues
flush_locally drained s = do
  s1 ← flush_faaslets s.faaslet_counts s
  queues ← drain_queues drained s1.queue_map
  ok (record s1 { queue_map = queues })

unfoldable pub send_flushes : List String → Scheduler → Scheduler
send_flushes [] s = s
send_flushes (host ∷ hosts) s = send_flushes hosts (send s (send_flush host))

-- `broadcastFlush`
unfoldable pub broadcast_flush : (String → Bool) → List String → Scheduler → Outcome Scheduler
unfolding send_flushes flush_locally erase
broadcast_flush drained available_hosts s =
    flush_locally drained (send_flushes (erase available_hosts s.this_host) s)

always : {T : Type 0} (m : Outcome T) → Holds (λ _. Unit {0}) m
always (ok t) = tt
always (fault _) = tt

-- Each queue is empty in the map that is left, if one is left.
drain_queues-empties :
    (drained : String → Bool) (func : String) (queues : List (String × List Message))
    → Holds
        (λ (emptied : List (String × List Message)). at [] emptied func ≡ [])
        (drain_queues drained queues)
unfolding drain_queues at
drain_queues-empties drained func [] = refl
drain_queues-empties drained func ((f, queue) ∷ queues) =
    let Empty = λ (emptied : List (String × List Message)). at [] emptied func ≡ [] in
    let finish = λ (rest : List (String × List Message)). ok ((f, []) ∷ rest) in
    Holds-throw_unless Empty (drained f) (drain_queues drained queues >>= finish) (
      Holds-bind Empty Empty (drain_queues drained queues) finish
        (drain_queues-empties drained func queues) (λ rest e. ground (arith, e)))

-- When `flushLocally` returns, no function has a message queued, whatever was queued before.
pub flush_locally-empties :
    (drained : String → Bool) (s s1 : Scheduler) (func : String)
    → flush_locally drained s ≡ ok s1
    → at [] s1.queue_map func ≡ []
unfolding flush_locally
flush_locally-empties drained s s1 func e =
    let Empty = λ (t : Scheduler). at [] t.queue_map func ≡ [] in
    let finish = λ (t : Scheduler).
      drain_queues drained t.queue_map >>= (λ queues. ok (record t { queue_map = queues })) in
    subst (Holds Empty) e (
      Holds-bind (λ _. Unit {0}) Empty (flush_faaslets s.faaslet_counts s) finish
        (always (flush_faaslets s.faaslet_counts s))
        (λ t _.
          Holds-bind (λ (m : List (String × List Message)). at [] m func ≡ []) Empty
            (drain_queues drained t.queue_map) (λ queues. ok (record t { queue_map = queues }))
            (drain_queues-empties drained func t.queue_map) (λ queues empty_queues. empty_queues)))
