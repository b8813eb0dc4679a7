-- ===== src/Rfit/World/Life.antt =====
-- The life of a request to a function that is not concurrent.
use tpfaas.Base.{ℕ, suc, ◌≡◌, ◌≢◌, true, false, [], ◌∷◌, none, arith, ok}
use tpfaas.Utils.Queue
use tpfaas.Rfit.Function.{null, is_concurrency}
use tpfaas.Rfit.Task.{TStatus}
use tpfaas.Rfit.World.{Platform, World, update, set_t}
use tpfaas.Rfit.World.Requests.{
  make_request, new_i, add_i_to_f, get_t_for_i, bind_os_thread, release_instance_space,
}
use tpfaas.Rfit.World.Search.{finish_instance, task_done}
use tpfaas.Rfit.World.Moves.{in_busy}
use tpfaas.Rfit.World.Serving.{none_idle, get_idle_t_none}
use tpfaas.Rfit.World.Direct.{
  Serves, with_thread, gone_idle, new_t_direct, in_busy-Serves, get_instance_direct, finish_direct,
  get_instance_after, direct_off,
}

module _ (p : Platform) where
  -- The memory with the new instance, and with its thread.
  abbrev pub with_instance : World p → ℕ → ℕ → World p
  with_instance w fa request = record w {
    instances =
        update w.instances w.next
          (record { hash = p.hashing.hash request; f = fa; request = request });
    live = update w.live w.next true;
    next = suc w.next;
  }

  abbrev pub ready_world : World p → ℕ → ℕ → World p
  ready_world w fa request = none_idle p (with_instance w fa request) (w.functions fa).r

  abbrev pub direct_world : World p → ℕ → ℕ → World p
  direct_world w fa request =
      let v = ready_world w fa request in
      (bind_os_thread p (in_busy p (with_thread p v fa w.next) (w.functions fa).r (suc w.next))
        (suc w.next)).1

  pub make_request_direct :
      (w : World p) (fa request : ℕ)
      → is_concurrency (w.functions fa) ≡ false
      → (w.resources (w.functions fa).r).idle_task.mq ≡ []
      → p.hm.get
          (w.resources (w.functions fa).r).busy_task
          (p.hashing.hash (p.hashing.hash request))
        ≡ none
      → make_request p w fa request ≡ ok (direct_world w fa request)
  unfolding make_request new_i add_i_to_f get_t_for_i
  make_request_direct w fa request alone idle fresh = rw (
    alone,
    get_idle_t_none p (with_instance w fa request) (w.functions fa).r idle,
    new_t_direct p (ready_world w fa request) fa w.next (ground arith) (omega arith)
        (ground (arith, fresh)),
  )

  pub direct_world-Serves :
      (w : World p) (fa request : ℕ)
      → is_concurrency (w.functions fa) ≡ false
      → p.hm.get
          (w.resources (w.functions fa).r).busy_task
          (p.hashing.hash (p.hashing.hash request))
        ≡ none
      → Serves p (direct_world w fa request) (suc w.next) w.next fa true
  direct_world-Serves w fa request alone fresh =
      in_busy-Serves p (ready_world w fa request) fa w.next alone (ground (arith, fresh))

  release-Serves :
      (w : World p) (t i fa : ℕ)
      → Serves p w t i fa false
      → Serves p (release_instance_space p w i) t i fa false
  unfolding release_instance_space
  release-Serves w t i fa s = record {
    status = s.status;
    deal_with = s.deal_with;
    work_for = s.work_for;
    direct_run = s.direct_run;
    registered = s.registered;
    alone = s.alone;
  }

  task_done_direct :
      (w : World p) (t i fa : ℕ)
      → t ≢ null
      → i ≢ null
      → fa ≢ null
      → p.steal_instance ≡ false
      → Serves p w t i fa false
      → task_done p w t
        ≡ ok (false, gone_idle p (release_instance_space p w i) (w.functions fa).r t)
  unfolding task_done release_instance_space
  task_done_direct w t i fa some_t some_i some_f off s = rw (
    finish_direct p w t i fa some_i some_f s,
    get_instance_after p (release_instance_space p w i) t i fa some_t some_f off
        (release-Serves w t i fa s),
    s.work_for,
  )

  -- A new thread has nothing to release before its first instance.
  first_task_done :
      (w : World p) (t i fa : ℕ)
      → i ≢ null
      → fa ≢ null
      → Serves p w t i fa true
      → task_done p w t ≡ ok (true, set_t p w t (record (w.threads t) { direct_run = false }))
  unfolding task_done finish_instance
  first_task_done w t i fa some_i some_f s =
      rw (s.direct_run, finish_instance) (get_instance_direct p w t i fa some_i some_f s)

  -- What is left of the thread once it has gone idle.
  gone_idle_lem :
      (w : World p) (ra t : ℕ)
      → (w.resources ra).idle_task.mq ≡ []
      → let v = gone_idle p w ra t in
        ((v.threads t).status ≡ TStatus.idle)
        × ((v.resources ra).idle_task.mq ≡ t ∷ [])
        × (p.hm.get (v.resources ra).busy_task (v.threads t).hash ≡ none)
  unfolding Queue.enqueue
  gone_idle_lem w ra t e = (
    ground arith,
    ground arith,
    ground (arith, p.hm.get_remove (w.resources ra).busy_task (w.threads t).hash),
  )

  -- A request to a function that is not concurrent, where no thread is idle, the hash of the new
  -- thread is free and the build has no stealing: the thread made for it starts `task_done` with
  -- the instance of this request, and behind the return of the function `task_done` deletes the
  -- instance and the thread sleeps, idle and out of the busy map.
  pub direct_life :
      (w : World p) (fa request : ℕ)
      → fa ≢ null
      → w.next ≢ null
      → p.steal_instance ≡ false
      → is_concurrency (w.functions fa) ≡ false
      → (w.resources (w.functions fa).r).idle_task.mq ≡ []
      → p.hm.get
          (w.resources (w.functions fa).r).busy_task
          (p.hashing.hash (p.hashing.hash request))
        ≡ none
      → let i = w.next in
        let t = suc w.next in
        let ra = (w.functions fa).r in
        (w1 : World p) × (w2 : World p) × (w3 : World p) × (make_request p w fa request ≡ ok w1)
        × (task_done p w1 t ≡ ok (true, w2))
        × ((w2.threads t).deal_with ≡ i)
        × ((w2.instances i).request ≡ request)
        × (task_done p w2 t ≡ ok (false, w3))
        × (w3.live i ≡ false)
        × ((w3.threads t).status ≡ TStatus.idle)
        × ((w3.resources ra).idle_task.mq ≡ t ∷ [])
        × (p.hm.get (w3.resources ra).busy_task (w3.threads t).hash ≡ none)
  unfolding bind_os_thread release_instance_space Queue.enqueue
  direct_life w fa request some_f some_n off alone idle fresh =
      let t = suc w.next in
      let ra = (w.functions fa).r in
      let w1 = direct_world w fa request in
      let s1 = direct_world-Serves w fa request alone fresh in
      let w2 = set_t p w1 t (record (w1.threads t) { direct_run = false }) in
      let s2 = direct_off p w1 t w.next fa s1 in
      let v = release_instance_space p w2 w.next in
      let after = gone_idle_lem v ra t (ground arith) in
      (
        w1,
        w2,
        gone_idle p v ra t,
        make_request_direct w fa request alone idle fresh,
        first_task_done w1 t w.next fa some_n some_f s1,
        s2.deal_with,
        ground arith,
        task_done_direct w2 t w.next fa (omega arith) some_n some_f off s2,
        ground arith,
        after.0,
        after.1,
        after.2,
      )
