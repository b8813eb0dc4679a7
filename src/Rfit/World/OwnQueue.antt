-- ===== src/Rfit/World/OwnQueue.antt =====
-- From which queues `get_instance_form_R_all_F_global_queue` pulls.
use tpfaas.Base.{
  bind-ok, ℕ, ◌≡◌, ◌≢◌, refl, ◌∙◌, inl, inr, not, List, [], ◌∷◌, arith, ◌==◌, Bool-cases, assert,
  ok, ◌/◌,
}
use tpfaas.Utils.Queue
use tpfaas.Utils.Queue.{Queue}
use tpfaas.Rfit.Function.{F, null, is_concurrency, scale_cap, get_i_count}
use tpfaas.Rfit.World.Direct.{set_same}
use tpfaas.Rfit.Task.{T, take_i_from_i_local_map, try_get_i_from_f2t, attach_to_f, add_multi_i}
use tpfaas.Rfit.World.{Platform, World, set_f, set_t, hash_of}
use tpfaas.Rfit.World.Search.{take_and_attach, search_functions, get_instance_from_functions}

module _ (p : Platform) where
  attach-queue :
      (t t2 : T p.hm) (fa : ℕ) (f f1 : F)
      → attach_to_f p.hm t fa f ≡ ok (t2, f1)
      → f1.global_i_queue ≡ f.global_i_queue
  unfolding attach_to_f scale_cap
  attach-queue t t2 fa f f1 e = ground arith

  take_and_attach-queue :
      (w w1 : World p) (t fa i other : ℕ)
      → take_and_attach p w t fa ≡ ok (i, w1)
      → (w1.functions other).global_i_queue ≡ (w.functions other).global_i_queue
  unfolding take_and_attach
  take_and_attach-queue w w1 t fa i other e =
      let (i1, count, t1) = take_i_from_i_local_map p.hm (w.threads t) in
      let (u, _, e1) = bind-ok (assert (not (i1 == null))) _ (i, w1) e in
      let (a, e2, e3) = bind-ok (attach_to_f p.hm t1 fa (w.functions fa)) _ (i, w1) e1 in
      ground (arith, attach-queue t1 a.0 fa (w.functions fa) a.1 e2, e3)

  work_for-try_get :
      (t : T p.hm) (f : F) (n : ℕ) (h : ℕ → ℕ)
      → (try_get_i_from_f2t p.hm h t f n).1.work_for ≡ t.work_for
  unfolding try_get_i_from_f2t add_multi_i
  work_for-try_get t f n h = ground arith

  search_functions-queue :
      (fs : List ℕ) (w w1 : World p) (t i other : ℕ)
      → other ≢ (w.threads t).work_for
      → search_functions p w t fs ≡ ok (i, w1)
      → (w1.functions other).global_i_queue ≡ (w.functions other).global_i_queue
  unfolding search_functions
  search_functions-queue [] w w1 t i other apart e = ground arith
  search_functions-queue (fa ∷ rest) w w1 t i other apart e =
      let own = (w.threads t).work_for in
      let half = (w.functions fa).concurrency_limit / 2 in
      let (pulled, t1, f1) =
        try_get_i_from_f2t p.hm (hash_of p w) (w.threads t) (w.functions own) half in
      let w2 = set_f p (set_t p w t t1) own f1 in
      let kept : (w2.functions other).global_i_queue ≡ (w.functions other).global_i_queue =
        ground (arith, apart) in
      let works : (w2.threads t).work_for ≡ own =
        ground (arith, work_for-try_get (w.threads t) (w.functions own) half (hash_of p w)) in
      elim (Bool-cases (is_concurrency (w.functions fa))) [
        | inr off ↦ search_functions-queue rest w w1 t i other apart (rw off at e)
        | inl on ↦ elim (Bool-cases (pulled == 0)) [
          | inl nothing ↦
              search_functions-queue rest w2 w1 t i other (rw works apart) (rw (on, nothing) at e)
              ∙ kept
          | inr some_pulled ↦
              take_and_attach-queue w2 w1 t fa i other (rw (on, some_pulled) at e) ∙ kept
        ]
      ]

  -- Whatever the search for another function's instance finds, the global queue of every function
  -- but the one that the thread works for is as before.
  pub only_own_queue :
      (w w1 : World p) (t i other : ℕ)
      → other ≢ (w.threads t).work_for
      → get_instance_from_functions p w t ≡ ok (i, w1)
      → (w1.functions other).global_i_queue ≡ (w.functions other).global_i_queue
  unfolding get_instance_from_functions
  only_own_queue w w1 t i other apart e =
      search_functions-queue (w.resources (w.functions (w.threads t).work_for).r).functions w w1 t i
        other apart e

  try_get_nothing :
      (t : T p.hm) (f : F) (n : ℕ) (h : ℕ → ℕ)
      → f.global_i_queue.mq ≡ []
      → try_get_i_from_f2t p.hm h t f n ≡ (0, t, f)
  unfolding try_get_i_from_f2t get_i_count Queue.size
  try_get_nothing t f n h e = rw (e, try_get_i_from_f2t)

  search_nothing :
      (fs : List ℕ) (w : World p) (t : ℕ)
      → (w.functions (w.threads t).work_for).global_i_queue.mq ≡ []
      → search_functions p w t fs ≡ ok (null, w)
  unfolding search_functions
  search_nothing [] w t e = refl
  search_nothing (fa ∷ rest) w t e =
      let own = (w.threads t).work_for in
      let again = search_nothing rest w t e in
      elim (Bool-cases (is_concurrency (w.functions fa))) [
        | inr off ↦ rw off again
        | inl on ↦
            rw
              (
                on,
                try_get_nothing (w.threads t) (w.functions own)
                    ((w.functions fa).concurrency_limit / 2) (hash_of p w) e,
                set_same p w t own,
              )
              again
      ]

  -- Where the global queue of the thread's own function is empty, the search over all functions of
  -- the resource ends with the null pointer and changes nothing, whatever the queues of the others
  -- hold.
  pub search_in_vain :
      (w : World p) (t : ℕ)
      → (w.functions (w.threads t).work_for).global_i_queue.mq ≡ []
      → get_instance_from_functions p w t ≡ ok (null, w)
  unfolding get_instance_from_functions
  search_in_vain w t e =
      search_nothing (w.resources (w.functions (w.threads t).work_for).r).functions w t e
