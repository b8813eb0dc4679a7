-- ===== src/Rfit/World/Moves.antt =====
-- What the moves of a thread between the idle queue and the busy map come to, where their
-- assertions hold.
use tpfaas.Base.{ℕ, ◌≡◌, ◌≢◌, false, none, some, arith, ok}
use tpfaas.Utils.Queue
use tpfaas.Rfit.Function.{null}
use tpfaas.Rfit.Task.{TStatus}
use tpfaas.Rfit.World.{Platform, World, set_r, set_t}
use tpfaas.Rfit.World.Threads.{put_t2_busy, remove_t_from_busy, put_t2_idle}

module _ (p : Platform) where
  abbrev pub in_busy : World p → ℕ → ℕ → World p
  in_busy w ra t =
      let w1 = set_t p w t (record (w.threads t) { status = TStatus.busy }) in
      let r = w1.resources ra in
      set_r p w1 ra (record r { busy_task = p.hm.add r.busy_task (w1.threads t).hash t })

  pub put_t2_busy_ok :
      (w : World p) (ra t : ℕ)
      → t ≢ null
      → (w.threads t).status ≡ TStatus.none
      → p.hm.get (w.resources ra).busy_task (w.threads t).hash ≡ none
      → put_t2_busy p w ra t ≡ ok (in_busy w ra t)
  unfolding put_t2_busy
  put_t2_busy_ok w ra t some_t status free = ground arith

  abbrev pub off_busy : World p → ℕ → ℕ → World p
  off_busy w ra t =
      let w1 = set_t p w t (record (w.threads t) { status = TStatus.none }) in
      let r = w1.resources ra in
      let w2 =
        set_r p w1 ra (record r { busy_task = p.hm.remove r.busy_task (w1.threads t).hash }) in
      set_t p w2 t (record (w2.threads t) { work_for = null; direct_run = false })

  pub remove_t_from_busy_ok :
      (w : World p) (ra t other : ℕ)
      → t ≢ null
      → (w.threads t).status ≡ TStatus.busy
      → p.hm.get (w.resources ra).busy_task (w.threads t).hash ≡ some other
      → remove_t_from_busy p w ra t ≡ ok (off_busy w ra t)
  unfolding remove_t_from_busy
  remove_t_from_busy_ok w ra t other some_t status there = ground arith

  abbrev pub in_idle : World p → ℕ → ℕ → World p
  in_idle w ra t =
      let w1 = set_t p w t (record (w.threads t) { status = TStatus.idle }) in
      let r = w1.resources ra in
      set_r p w1 ra (record r { idle_task = Queue.enqueue r.idle_task t })

  pub put_t2_idle_ok :
      (w : World p) (ra t : ℕ)
      → t ≢ null
      → (w.threads t).status ≡ TStatus.none
      → put_t2_idle p w ra t ≡ ok (in_idle w ra t)
  unfolding put_t2_idle
  put_t2_idle_ok w ra t some_t status = ground arith
