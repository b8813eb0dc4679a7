-- ===== src/Rfit/World/Threads.antt =====
-- src/RFIT/R/resource.cpp on the threads: the idle queue and the busy map of an `R`.
use tpfaas.Base.{
  ℕ, Bool, true, false, not, ◌&&◌, List, [], ◌∷◌, ◌==◌, if◌then◌else◌, Outcome, ok, ◌>>=◌, ◌>>◌,
  assert,
}
use tpfaas.Utils.Queue
use tpfaas.Wavm.{add_or_fail, remove_or_fail}
use tpfaas.Rfit.Function.{null}
use tpfaas.Rfit.Task.{TStatus}
use tpfaas.Rfit.World.{Platform, World, set_r, set_t}

-- `t->getStatus() == s`
abbrev pub status_is : TStatus → TStatus → Bool
status_is TStatus.idle TStatus.idle = true
status_is TStatus.busy TStatus.busy = true
status_is TStatus.none TStatus.none = true
status_is _ _ = false

module _ (p : Platform) where
  -- `getTFromIdle`
  unfoldable pub get_t_from_idle : World p → ℕ → ℕ × World p
  get_t_from_idle w ra =
      let r = w.resources ra in
      let (t, q) = Queue.try_dequeue r.idle_task null in
      let w1 = set_r p w ra (record r { idle_task = q }) in
      if t == null
      then (t, w1)
      else (t, set_t p w1 t (record (w1.threads t) { status = TStatus.none }))

  -- `putT2Idle`
  unfoldable pub put_t2_idle : World p → ℕ → ℕ → Outcome (World p)
  put_t2_idle w ra t = do
    assert (not (t == null) && status_is (w.threads t).status TStatus.none)
    let w1 = set_t p w t (record (w.threads t) { status = TStatus.idle })
    let r = w1.resources ra
    ok (set_r p w1 ra (record r { idle_task = Queue.enqueue r.idle_task t }))

  -- `removeTFromBusy`
  unfoldable pub remove_t_from_busy : World p → ℕ → ℕ → Outcome (World p)
  remove_t_from_busy w ra t = do
    assert (not (t == null) && status_is (w.threads t).status TStatus.busy)
    let w1 = set_t p w t (record (w.threads t) { status = TStatus.none })
    let r = w1.resources ra
    m ← remove_or_fail p.hm r.busy_task (w1.threads t).hash
    let w2 = set_r p w1 ra (record r { busy_task = m })
    ok (set_t p w2 t (record (w2.threads t) { work_for = null; direct_run = false }))

  -- `putT2Busy`
  unfoldable pub put_t2_busy : World p → ℕ → ℕ → Outcome (World p)
  put_t2_busy w ra t = do
    assert (not (t == null) && status_is (w.threads t).status TStatus.none)
    let w1 = set_t p w t (record (w.threads t) { status = TStatus.busy })
    let r = w1.resources ra
    m ← add_or_fail p.hm r.busy_task (w1.threads t).hash t
    ok (set_r p w1 ra (record r { busy_task = m }))

  -- the loop of `getIdleTFromOtherR` over the cache
  unfoldable pub idle_from_others : World p → ℕ → List (ℕ × ℕ) → ℕ × World p
  idle_from_others w own [] = (null, w)
  idle_from_others w own ((key, value) ∷ rest) =
      let skip = idle_from_others w own rest in
      let (t, w1) = get_t_from_idle w value in
      let next = idle_from_others w1 own rest in
      if key == own then skip else if t == null then next else (t, w1)

  -- `getIdleTFromOtherR`
  unfoldable pub get_idle_t_from_other_r : World p → ℕ → ℕ × World p
  get_idle_t_from_other_r w ra =
      idle_from_others w (w.resources ra).r.hash (p.hm.entries w.resource_map)

  -- `getIdleT`
  unfoldable pub get_idle_t : World p → ℕ → ℕ × World p
  get_idle_t w ra = get_t_from_idle w ra
