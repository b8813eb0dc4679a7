-- ===== src/Main/Requests.antt =====
-- The run of `main` from the start of the process, as long as no thread moves.
use tpfaas.Base.{
  subst, Outcome, ◌<◌, ℕ, zero, suc, ◌+◌, ◌*◌, ◌≡◌, ◌≢◌, refl, ap, ◌∙◌, true, false, [], ◌∷◌, ◌++◌,
  none, arith, ◌==◌, ok,
}
use tpfaas.Utils.Queue
use tpfaas.Rfit.Function.{F, null, is_concurrency, new_f}
use tpfaas.Rfit.Resource.{default_resource}
use tpfaas.Rfit.World.{Platform, World, set_r, update}
use tpfaas.Rfit.World.Registry.{get_f, register_f, construct_f, get_unique_r, new_r}
use tpfaas.Rfit.World.Requests.{bind_os_thread}
use tpfaas.Rfit.World.Life.{direct_world, make_request_direct}
use tpfaas.Main.{request_loop, main_direct}
use tpfaas.Main.Served.{
  HasThread, FreeFrom, direct_world-FreeFrom, direct_world-idle, loop-HasThread,
}

module _ (p : Platform) where
  same_world : (w1 w2 : World p) (m : Outcome (World p)) → m ≡ ok w1 → m ≡ ok w2 → w2 ≡ w1
  same_world w1 w2 m e f = cc

  -- Requests at different addresses have different hashes.
  module _ (injective : (i j : ℕ) → p.hashing.hash i ≡ p.hashing.hash j → i ≡ j) where
    direct_world-functions :
        (w : World p) (fa i : ℕ) → (direct_world p w fa i).functions ≡ w.functions
    unfolding bind_os_thread
    direct_world-functions w fa i = refl

    pub request_loop_returns :
        (n : ℕ) (w : World p) (fa i : ℕ)
        → is_concurrency (w.functions fa) ≡ false
        → (w.resources (w.functions fa).r).idle_task.mq ≡ []
        → FreeFrom p injective w (w.functions fa).r i
        → (w1 : World p) × (request_loop p n w fa i ≡ ok w1)
          × (w1.functions ≡ w.functions)
          × (w1.next ≡ w.next + 2 * n)
    unfolding request_loop bind_os_thread
    request_loop_returns zero w fa i alone idle free = (w, refl, refl, omega arith)
    request_loop_returns (suc n) w fa i alone idle free =
        let v = direct_world p w fa i in
        let (w1, runs, same, used) =
          request_loop_returns n v fa (suc i) alone (direct_world-idle p injective w fa i)
            (direct_world-FreeFrom p injective w fa i free) in
        (
          w1,
          rw (make_request_direct p w fa i alone idle (free i (omega arith))) runs,
          same,
          omega (arith, used),
        )

    -- The memory of a process that has registered its first function.
    abbrev with_task_b : World p → ℕ → World p
    with_task_b w task_t =
        let fa = suc w.next in
        let r = new_r p (default_resource p.hashing) in
        record w {
          functions = update w.functions fa (new_f "taskB" task_t w.next 1 (p.uninitialised fa));
          resources =
              update (update w.resources w.next r) w.next
                (record r { functions = r.functions ++ fa ∷ [] });
          resource_map = p.hm.add w.resource_map (default_resource p.hashing).hash w.next;
          function_map = p.sm.add w.function_map "taskB" fa;
          next = suc fa;
        }

    new_unique :
        (w : World p)
        → p.hm.get w.resource_map (default_resource p.hashing).hash ≡ none
        → get_unique_r p w (default_resource p.hashing) ≡ (
          w.next,
          record (set_r p w w.next (new_r p (default_resource p.hashing))) {
            resource_map = p.hm.add w.resource_map (default_resource p.hashing).hash w.next;
            next = suc w.next;
          },
        )
    unfolding get_unique_r
    new_unique w no_r = rw (no_r, get_unique_r) refl

    construct_task_b :
        (w : World p) (task_t : ℕ)
        → p.hm.get w.resource_map (default_resource p.hashing).hash ≡ none
        → construct_f p w "taskB" task_t (default_resource p.hashing) 1
          ≡ (suc w.next, record (with_task_b w task_t) { function_map = w.function_map })
    unfolding construct_f
    construct_task_b w task_t no_r =
        let here : (w.next == w.next) ≡ true = ground arith in
        rw (new_unique w no_r, here, construct_f) refl

    register_task_b :
        (w : World p) (task_t : ℕ)
        → p.sm.get w.function_map "taskB" ≡ none
        → p.hm.get w.resource_map (default_resource p.hashing).hash ≡ none
        → task_t ≢ null
        → register_f p w "taskB" task_t (default_resource p.hashing) 1 ≡ ok (with_task_b w task_t)
    unfolding register_f
    register_task_b w task_t fresh no_r some_t =
        let some_entry : (task_t == null) ≡ false = ground (arith, some_t) in
        rw (fresh, some_entry, construct_task_b w task_t no_r, register_f) refl

    found_task_b :
        (w : World p) (task_t : ℕ)
        → p.sm.get w.function_map "taskB" ≡ none
        → get_f p (with_task_b w task_t) "taskB" ≡ suc w.next
    unfolding get_f
    found_task_b w task_t fresh =
        rw (p.sm.get_add w.function_map "taskB" (suc w.next) fresh, get_f) refl

    -- Where the name and the default limits are new to the caches, the entry point is not null,
    -- the hashes of addresses are distinct, and no thread moves meanwhile, `main` makes all its
    -- requests, and the function that it registers is as its constructor left it. The k-th request
    -- then has an instance at the k-th of the new pairs of addresses, alive and made for it, and the
    -- thread behind it in the pair is busy with this instance, works for this function and stands in
    -- the busy map under its own hash, which is made of the address of the request.
    pub main_direct_returns :
        (w : World p) (task_t q_count k : ℕ)
        → p.sm.get w.function_map "taskB" ≡ none
        → p.hm.get w.resource_map (default_resource p.hashing).hash ≡ none
        → task_t ≢ null
        → k < q_count
        → (w1 : World p) × (main_direct p w task_t q_count ≡ ok w1)
          × (w1.functions (suc w.next)
              ≡ new_f "taskB" task_t w.next 1 (p.uninitialised (suc w.next)))
          × (w1.next ≡ w.next + 2 + 2 * q_count)
          × HasThread p w1 (suc w.next) (1 + k) (w.next + 2 + 2 * k) (suc (w.next + 2 + 2 * k))
    unfolding main_direct new_r is_concurrency new_f Queue.new_queue
    main_direct_returns w task_t q_count k fresh no_r some_t below =
        let v = with_task_b w task_t in
        let free : FreeFrom p injective v (v.functions (suc w.next)).r 1 =
          λ j le. ground (arith, p.hm.get_empty (p.hashing.hash (p.hashing.hash j))) in
        let (w1, runs, same, used) =
          request_loop_returns q_count v (suc w.next) 1 (ground arith) (ground arith) free in
        let (w2, runs2, has) =
          loop-HasThread p injective q_count v (suc w.next) 1 k (ground arith) (ground arith) free
            below in
        let one : w2 ≡ w1 = same_world w1 w2 (request_loop p q_count v (suc w.next) 1) runs runs2 in
        (
          w1,
          rw (register_task_b w task_t fresh no_r some_t, found_task_b w task_t fresh, main_direct)
              runs,
          ap (λ (g : ℕ → F). g (suc w.next)) same ∙ ground arith,
          omega (arith, used),
          subst
              (λ (x : World p).
                HasThread p x (suc w.next) (1 + k) (w.next + 2 + 2 * k) (suc (w.next + 2 + 2 * k)))
              one
              (subst (λ (n : ℕ). HasThread p w2 (suc w.next) (1 + k) (n + 2 * k) (suc (n + 2 * k)))
                {x = v.next} {y = w.next + 2} (omega arith) has),
        )
