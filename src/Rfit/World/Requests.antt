-- ===== src/Rfit/World/Requests.antt =====
-- src/RFIT/I/instance.cpp, and of src/RFIT/T/task.cpp what gives an instance a thread:
-- `T::get_T_for_I`, the constructor of `T` and `bind_os_thread`; src/utils/sync.cpp.
use tpfaas.Base.{
  ℕ, zero, suc, ◌+◌, ◌-◌, Bool, true, false, not, pos, ◌==◌, if◌then◌else◌, Outcome, ok, fault,
  dangling, ◌>>=◌,
}
use tpfaas.Rfit.Function.{null, is_concurrency, add_i2f, try_scale_down_cap, scale_cap, to_iptr}
use tpfaas.Rfit.Task.{T, TStatus}
use tpfaas.Rfit.World.{Platform, World, update, set_f, set_t}
use tpfaas.Rfit.World.Threads.{get_idle_t, put_t2_busy}

-- TRY_COUNT
abbrev pub try_count : ℕ
try_count = 3

-- The loop of `bind_os_thread`: `create k` is what the k-th call of `pthread_create` returns; the
-- result comes with the number of the next call. `try_c` is counted down by each new try.
unfoldable pub bind_loop : (ℕ → ℕ) → ℕ → ℕ → Bool × ℕ
bind_loop create zero k = if create k == 0 then (true, suc k) else (false, suc k)
bind_loop create (suc try_c) k =
    let again = bind_loop create try_c (suc k) in if create k == 0 then (true, suc k) else again

module _ (p : Platform) where
  -- `T::bind_os_thread`
  unfoldable pub bind_os_thread : World p → ℕ → Bool × World p
  bind_os_thread w t =
      let (bound, k) = bind_loop p.pthread_create try_count w.creations in
      (
        bound,
        record w {
          creations = k;
          started = (if bound then update w.started t true else w.started);
        },
      )

  -- `thread_wake_up_one`
  unfoldable pub thread_wake_up_one : World p → ℕ → World p
  thread_wake_up_one w t =
      set_t p w t (record (w.threads t) { sem_word = (w.threads t).sem_word + 1 })

  -- the constructor of `I`
  unfoldable pub new_i : World p → ℕ → ℕ → ℕ × World p
  new_i w f request = (
    w.next,
    record w {
      instances =
          update w.instances w.next
            (record { hash = p.hashing.hash request; f = f; request = request });
      live = update w.live w.next true;
      next = suc w.next;
    },
  )

  -- `I::release_instance_space`
  unfoldable pub release_instance_space : World p → ℕ → World p
  release_instance_space w i = record w { live = update w.live i false }

  -- the constructor of `T`, for the instance `i`; its hash is read from `i`
  unfoldable pub new_t : World p → ℕ → ℕ → Outcome (World p)
  new_t w f i =
      if not (w.live i)
      then fault dangling
      else (let direct = not (is_concurrency (w.functions f)) in
          let t : T p.hm = record {
            hash = p.hashing.hash (w.instances i).hash;
            sem_word = 0;
            work_for = f;
            deal_with = (if direct then i else null);
            direct_run = direct;
            local_i_map = p.hm.empty;
            status = TStatus.none;
          } in
          do
            w1 ←
                put_t2_busy p (record (set_t p w w.next t) { next = suc w.next }) (w.functions f).r
                  w.next
            ok (bind_os_thread w1 w.next).1)

  -- `T::get_T_for_I`
  unfoldable pub get_t_for_i : World p → ℕ → ℕ → Outcome (World p)
  get_t_for_i w i f =
      let (t, w1) = get_idle_t p w (w.functions f).r in
      if t == null
      then new_t w1 f i
      else (let direct = not (is_concurrency (w1.functions f)) in
          let w2 = set_t p w1 t (record (w1.threads t) {
            deal_with = (if direct then i else (w1.threads t).deal_with);
            direct_run = (if direct then true else (w1.threads t).direct_run);
            work_for = f;
          }) in
          do w3 ← put_t2_busy p w2 (w2.functions f).r t; ok (thread_wake_up_one w3 t))

  -- `I::addI2F`: whether a thread has to be woken or started
  unfoldable pub add_i_to_f : World p → ℕ → ℕ → Outcome (Bool × World p)
  add_i_to_f w i fa =
      if not (is_concurrency (w.functions fa))
      then ok (true, w)
      else (let f1 = add_i2f (w.functions fa) i in
          do
            (taken, f2) ← try_scale_down_cap f1 (pos 1)
            if taken then ok (false, set_f p w fa f2) else (do
              (_, f3) ← scale_cap f2 (to_iptr (f2.concurrency_limit - 1))
              ok (true, set_f p w fa f3)))

  -- `I::make_request`
  unfoldable pub make_request : World p → ℕ → ℕ → Outcome (World p)
  make_request w f request =
      let (i, w1) = new_i w f request in
      do (needed, w2) ← add_i_to_f w1 i f; if needed then get_t_for_i w2 i f else ok w2
