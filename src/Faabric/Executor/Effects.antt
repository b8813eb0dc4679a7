-- ===== src/Faabric/Executor/Effects.antt =====
-- faasm/faabric, src/executor/FaabricExecutor.cpp: how the queues count messages, and the two things
-- that a message may do to an executor.
use tpfaas.Base.{
  ◌≤◌, ℕ, suc, ◌+◌, ◌≡◌, refl, ap, Bool, true, false, inl, inr, String, List, [], ◌∷◌, length,
  sum_by, arith, Option, none, some, ◌⊎◌, Outcome, ok, fault, assert_failed, dangling,
  out_of_bounds, thrown, overflow, stuck, ◌>>=◌,
}
use tpfaas.Faabric.Maps.{at, put}
use tpfaas.Faabric.Scheduler.{
  notify_call_finished, get_function_queue, Message, Scheduler, func_to_string,
}
use tpfaas.Faabric.Executor.{
  Hosted, Setup, FaabricExecutor, CurrentQueue, of_binds, of_function, Hooked, hooked,
  invalid_function, broken, Flushed, flushed, flushed_out, Executed, returned, raised, dequeue,
}
use tpfaas.Faabric.Executor.Messages.{with_count}

-- A statement on what is returned, by code that does not wait for ever.
abbrev pub Ends : {T : Type 0} → (T → Type 0) → Outcome T → Type 0
Ends Q (ok t) = Q t
Ends Q (fault stuck) = true ≡ false
Ends Q (fault assert_failed) = Unit {0}
Ends Q (fault dangling) = Unit {0}
Ends Q (fault out_of_bounds) = Unit {0}
Ends Q (fault thrown) = Unit {0}
Ends Q (fault overflow) = Unit {0}

pub Ends-bind :
    {T U : Type 0} (Q : T → Type 0) (R : U → Type 0) (m : Outcome T) (k : T → Outcome U)
    → Ends Q m
    → ((t : T) → Q t → Ends R (k t))
    → Ends R (m >>= k)
Ends-bind Q R (ok t) k h f = f t h
Ends-bind Q R (fault stuck) k h f = h
Ends-bind Q R (fault assert_failed) k h f = tt
Ends-bind Q R (fault dangling) k h f = tt
Ends-bind Q R (fault out_of_bounds) k h f = tt
Ends-bind Q R (fault thrown) k h f = tt
Ends-bind Q R (fault overflow) k h f = tt

pub Ends-mono :
    {T : Type 0} (Q R : T → Type 0) (m : Outcome T)
    → Ends Q m
    → ((t : T) → Q t → Ends R (ok t))
    → Ends R m
Ends-mono Q R (ok t) h f = f t h
Ends-mono Q R (fault stuck) h f = h
Ends-mono Q R (fault assert_failed) h f = tt
Ends-mono Q R (fault dangling) h f = tt
Ends-mono Q R (fault out_of_bounds) h f = tt
Ends-mono Q R (fault thrown) h f = tt
Ends-mono Q R (fault overflow) h f = tt

-- The messages that stand in the queues of a host.
abbrev pub queued : Scheduler → ℕ
queued s = length s.bind_queue + sum_by (λ e. length e.1) s.queue_map

pub queued-put :
    (m : List (String × List Message)) (k : String) (v : List Message)
    → sum_by (λ e. length e.1) (put m k v) + length (at [] m k)
      ≡ sum_by (λ e. length e.1) m + length v
unfolding at put
queued-put [] k v = omega arith
queued-put ((j, w) ∷ m) k v = ground (arith, queued-put m k v)

-- A statement on what an option holds.
abbrev pub OnSome : {T : Type 0} → (T → Type 0) → Option T → Type 0
OnSome Q none = Unit {0}
OnSome Q (some t) = Q t

List-cases : (l : List Message) → (l ≡ []) ⊎ ((x : Message) × (r : List Message) × (l ≡ x ∷ r))
List-cases [] = inl refl
List-cases (x ∷ r) = inr (x, r, refl)

pub queued-dequeue :
    (queue : CurrentQueue) (s : Scheduler)
    → OnSome (λ (x : Message × Scheduler). suc (queued x.1) ≡ queued s) (dequeue queue s)
unfolding dequeue
queued-dequeue of_binds s = elim (List-cases s.bind_queue) [
  | inl nothing ↦ rw (dequeue, nothing) tt
  | inr (msg, rest, e) ↦ rw (dequeue, e) (omega (arith, ap (λ (l : List Message). length l) e))
]
queued-dequeue (of_function func) s = elim (List-cases (at [] s.queue_map func)) [
  | inl nothing ↦ rw (dequeue, nothing) tt
  | inr (msg, rest, e) ↦
      rw (dequeue, e)
        (omega (arith, queued-put s.queue_map func rest, ap (λ (l : List Message). length l) e))
]

-- The executor that is bound to the function of a message.
abbrev pub bound_to : FaabricExecutor → Message → FaabricExecutor
bound_to e msg = record e {
  bound_message = msg;
  is_bound = true;
  current_queue = of_function (func_to_string msg);
}

-- What a message may do to an executor: it counts one more call, or binds it if it was not bound.
pub data Evolves (e : FaabricExecutor) : FaabricExecutor → Type 0 where
  counted : (n : ℕ) → Evolves e (with_count e n)
  binds : (msg : Message) → e.is_bound ≡ false → Evolves e (bound_to e msg)

pub Executed-cases :
    {M : Type 0} (x : Executed M)
    → ((success : Bool) × (msg : Message) × (m : M) × (x ≡ returned success msg m))
      ⊎ ((what : String) × (msg : Message) × (m : M) × (x ≡ raised what msg m))
Executed-cases (returned success msg m) = inl (success, msg, m, refl)
Executed-cases (raised what msg m) = inr (what, msg, m, refl)

pub Hooked-cases :
    {M : Type 0} (x : Hooked M)
    → ((m : M) × (x ≡ hooked m)) ⊎ ((m : M) × (x ≡ invalid_function m)) ⊎ (x ≡ broken)
Hooked-cases (hooked m) = inl (m, refl)
Hooked-cases (invalid_function m) = inr (inl (m, refl))
Hooked-cases broken = inr (inr refl)

pub Flushed-cases :
    {M : Type 0} (x : Flushed M) → ((m : M) × (x ≡ flushed m)) ⊎ ((m : M) × (x ≡ flushed_out m))
Flushed-cases (flushed m) = inl (m, refl)
Flushed-cases (flushed_out m) = inr (m, refl)

-- A statement on the state that a hook leaves.
abbrev pub OnExecuted : {S : Type 0} → (S → Type 0) → Executed S → Type 0
OnExecuted Q (returned success msg x) = Q x
OnExecuted Q (raised what msg x) = Q x

abbrev pub OnHooked : {S : Type 0} → (S → Type 0) → Hooked S → Type 0
OnHooked Q (hooked x) = Q x
OnHooked Q (invalid_function x) = Q x
OnHooked Q broken = Unit {0}

abbrev pub OnFlushed : {S : Type 0} → (S → Type 0) → Flushed S → Type 0
OnFlushed Q (flushed x) = Q x
OnFlushed Q (flushed_out x) = Q x

OnExecuted-any : {S : Type 0} (x : Executed S) → OnExecuted (λ _. Unit {0}) x
OnExecuted-any (returned success msg x) = tt
OnExecuted-any (raised what msg x) = tt

OnHooked-any : {S : Type 0} (x : Hooked S) → OnHooked (λ _. Unit {0}) x
OnHooked-any (hooked x) = tt
OnHooked-any (invalid_function x) = tt
OnHooked-any broken = tt

OnFlushed-any : {S : Type 0} (x : Flushed S) → OnFlushed (λ _. Unit {0}) x
OnFlushed-any (flushed x) = tt
OnFlushed-any (flushed_out x) = tt

OnSome-any : {S : Type 0} (x : Option S) → OnSome (λ _. Unit {0}) x
OnSome-any none = tt
OnSome-any (some x) = tt

-- What the hooks of an executor do to the scheduler.
pub record HooksDo (setup : Setup) (G : Scheduler → Scheduler → Type 0) : Type 0 where
  pub executing :
      (x : Hosted setup) (msg : Message)
      → OnExecuted (λ (y : Hosted setup). G x.1 y.1) (setup.hooks.do_execute x msg)
  pub binding :
      (x : Hosted setup) (msg : Message) (force : Bool)
      → OnHooked (λ (y : Hosted setup). G x.1 y.1) (setup.hooks.post_bind x msg force)
  pub finishing :
      (x : Hosted setup) (msg : Message) (success : Bool) (error_message : String)
      → OnSome
          (λ (y : Message × Hosted setup). G x.1 y.1.1)
          (setup.hooks.pre_finish_call x msg success error_message)
  pub flushing :
      (x : Hosted setup) → OnFlushed (λ (y : Hosted setup). G x.1 y.1) (setup.hooks.flush x)

-- No hook puts a message into a queue of this host.
abbrev pub Fewer : Scheduler → Scheduler → Type 0
Fewer s s1 = queued s1 ≤ queued s

abbrev pub Anything : Scheduler → Scheduler → Type 0
Anything s s1 = Unit {0}

pub hooks-Anything : (setup : Setup) → HooksDo setup Anything
hooks-Anything setup = record {
  executing = λ x msg. OnExecuted-any (setup.hooks.do_execute x msg);
  binding = λ x msg force. OnHooked-any (setup.hooks.post_bind x msg force);
  finishing = λ x msg success error_message.
      OnSome-any (setup.hooks.pre_finish_call x msg success error_message);
  flushing = λ x. OnFlushed-any (setup.hooks.flush x);
}

-- A relation between schedulers that one message of an executor keeps if its hooks do.
pub record Relates (G : Scheduler → Scheduler → Type 0) : Type 0 where
  pub stays : (s : Scheduler) → G s s
  pub then_finished :
      (s s1 : Scheduler) (msg : Message) → G s s1 → G s (notify_call_finished s1 msg)
  pub after_queue : (s s1 : Scheduler) (func : String) → G (get_function_queue s func) s1 → G s s1
  pub joins : (s s1 s2 : Scheduler) → G s s1 → G s1 s2 → G s s2

pub Anything-Relates : Relates Anything
Anything-Relates = record {
  stays = λ s. tt;
  then_finished = λ s s1 msg g. tt;
  after_queue = λ s s1 func g. tt;
  joins = λ s s1 s2 g h. tt;
}

queued-notify_call_finished :
    (s : Scheduler) (msg : Message) → queued (notify_call_finished s msg) ≡ queued s
unfolding notify_call_finished
queued-notify_call_finished s msg = refl

queued-get_function_queue :
    (s : Scheduler) (func : String) → queued (get_function_queue s func) ≡ queued s
unfolding get_function_queue
queued-get_function_queue s func =
    omega (arith, queued-put s.queue_map func (at [] s.queue_map func))

pub Fewer-Relates : Relates Fewer
Fewer-Relates = record {
  stays = λ s. omega arith;
  then_finished = λ s s1 msg g. omega (arith, queued-notify_call_finished s1 msg);
  after_queue = λ s s1 func g. omega (arith, queued-get_function_queue s func);
  joins = λ s s1 s2 g h. omega arith;
}
