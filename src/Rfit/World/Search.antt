-- ===== src/Rfit/World/Search.antt =====
-- src/RFIT/T/task.cpp, what a thread does: `getInstance` with the two ways to get an instance from
-- elsewhere, and `task_done`. A method takes the address `t` of the thread that runs it.
use tpfaas.Base.{
  ℕ, ◌-◌, ◌/◌, Bool, true, false, not, ◌&&◌, ◌||◌, List, [], ◌∷◌, ltb, leb, pos, ◌==◌,
  if◌then◌else◌, Outcome, ok, fault, dangling, ◌>>=◌, ◌>>◌, assert,
}
use tpfaas.Wavm.{map_size}
use tpfaas.Rfit.Function.{null, is_concurrency, scale_cap}
use tpfaas.Rfit.Task.{
  local_count, take_i_from_i_local_map, try_get_i_from_f2t, attach_to_f, get_i_and_supply,
  try_get_i_from_other_t2t,
}
use tpfaas.Rfit.World.{Platform, World, hash_of, set_f, set_t}
use tpfaas.Rfit.World.Threads.{remove_t_from_busy, put_t2_idle}
use tpfaas.Rfit.World.Requests.{release_instance_space}

module _ (p : Platform) where
  -- What both searches end with: an instance from the thread's own map, and the thread attached to
  -- the function at `fa`.
  unfoldable pub take_and_attach : World p → ℕ → ℕ → Outcome (ℕ × World p)
  take_and_attach w t fa =
      let (i, _, t1) = take_i_from_i_local_map p.hm (w.threads t) in
      do
        assert (not (i == null))
        (t2, f1) ← attach_to_f p.hm t1 fa (w.functions fa)
        ok (i, set_f p (set_t p w t t2) fa f1)

  -- The loop of `get_instance_form_R_all_F_global_queue`. `tryGetIFromF2T_safe` pulls from the
  -- function that the thread works for, whichever function the loop is at.
  unfoldable pub search_functions : World p → ℕ → List ℕ → Outcome (ℕ × World p)
  search_functions w t [] = ok (null, w)
  search_functions w t (fa ∷ rest) =
      let skip = search_functions w t rest in
      let own = (w.threads t).work_for in
      let half = (w.functions fa).concurrency_limit / 2 in
      let (pulled, t1, f1) =
        try_get_i_from_f2t p.hm (hash_of p w) (w.threads t) (w.functions own) half in
      let w1 = set_f p (set_t p w t t1) own f1 in
      let next = search_functions w1 t rest in
      if is_concurrency (w.functions fa)
      then (if pulled == 0 then next else take_and_attach w1 t fa)
      else skip

  -- `get_instance_form_R_all_F_global_queue`
  unfoldable pub get_instance_from_functions : World p → ℕ → Outcome (ℕ × World p)
  get_instance_from_functions w t =
      search_functions w t (w.resources (w.functions (w.threads t).work_for).r).functions

  -- The loop of `steal_instance_form_R_all_busy_T_local_queue` over the busy threads.
  unfoldable pub search_busy : World p → ℕ → List (ℕ × ℕ) → Outcome (ℕ × World p)
  search_busy w t [] = ok (null, w)
  search_busy w t ((_, other) ∷ rest) =
      let skip = search_busy w t rest in
      let other_t = w.threads other in
      let fa = other_t.work_for in
      let f = w.functions fa in
      let (pulled, t1, _) = try_get_i_from_other_t2t p.hm (hash_of p w) (w.threads t) other_t f in
      let w1 = set_t p w t t1 in
      let next = search_busy w1 t rest in
      let count = local_count p.hm other_t in
      if fa == null
      then fault dangling
      else if is_concurrency f && leb f.concurrency_limit count && ltb 0 (count / 2)
      then (if pulled == 0 then next else take_and_attach w1 t fa)
      else skip

  -- `steal_instance_form_R_all_busy_T_local_queue`
  unfoldable pub steal_instance_from_busy : World p → ℕ → Outcome (ℕ × World p)
  steal_instance_from_busy w t =
      let busy = (w.resources (w.functions (w.threads t).work_for).r).busy_task in
      if map_size p.hm busy == 0 then ok (null, w) else search_busy w t (p.hm.entries busy)

  -- The searches that `STEAL_INSTANCE` builds in, after an empty hand.
  unfoldable pub search_elsewhere : World p → ℕ → ℕ → Outcome (ℕ × World p)
  search_elsewhere w t i = if not p.steal_instance || not (i == null) then ok (i, w) else (do
    (i1, w1) ← get_instance_from_functions w t
    if i1 == null then steal_instance_from_busy w1 t else ok (i1, w1))

  -- What becomes of the thread: it deals with the instance, or it goes idle. The result says
  -- whether `getInstance` returns; if not, the thread waits at its semaphore.
  unfoldable pub settle : World p → ℕ → ℕ → Outcome (Bool × World p)
  settle w t i =
      if not (i == null)
      then ok
          (true, set_t p w t (record (w.threads t) { work_for = (w.instances i).f; deal_with = i }))
      else (let ra = (w.functions (w.threads t).work_for).r in
          do w1 ← remove_t_from_busy p w ra t; w2 ← put_t2_idle p w1 ra t; ok (false, w2))

  -- `!workFor->isConcurrency() && directRun`, with an instance at hand
  abbrev pub runs_directly : World p → ℕ → Bool
  runs_directly w t =
      let th = w.threads t in
      not (th.deal_with == null)
      && (not (th.work_for == null)
          && (not (is_concurrency (w.functions th.work_for)) && th.direct_run))

  -- `getInstance` from its start, or from `find:`, up to its return or to `thread_sleep`
  unfoldable pub get_instance : World p → ℕ → Outcome (Bool × World p)
  get_instance w t =
      let th = w.threads t in
      let fa = th.work_for in
      if runs_directly w t
      then ok (true, set_t p w t (record th { direct_run = false }))
      else if fa == null
      then fault dangling
      else (do
        (i, t1, f1) ← get_i_and_supply p.hm (hash_of p w) th (w.functions fa)
        (i1, w1) ← search_elsewhere (set_f p (set_t p w t t1) fa f1) t i
        settle w1 t i1)

  -- `thread_sleep` that returns, and `goto find`
  unfoldable pub sleep_and_find : World p → ℕ → Outcome (Bool × World p)
  sleep_and_find w t =
      let th = w.threads t in
      if th.sem_word == 0
      then ok (false, w)
      else get_instance (set_t p w t (record th { sem_word = th.sem_word - 1 })) t

  -- The part of `task_done` between the saved context and `getInstance`: the instance that has been
  -- run is released, and its place given back.
  unfoldable pub finish_instance : World p → ℕ → Outcome (World p)
  finish_instance w t =
      let th = w.threads t in
      let fa = th.work_for in
      if th.direct_run || th.deal_with == null
      then ok w
      else if fa == null
      then fault dangling
      else if is_concurrency (w.functions fa)
      then (do
        (_, f1) ← scale_cap (w.functions fa) (pos 1)
        ok (release_instance_space p (set_f p w fa f1) th.deal_with))
      else ok (release_instance_space p w th.deal_with)

  -- `task_done` from the saved context, to which each function that a thread has run returns
  unfoldable pub task_done : World p → ℕ → Outcome (Bool × World p)
  task_done w t = do w1 ← finish_instance w t; get_instance w1 t
