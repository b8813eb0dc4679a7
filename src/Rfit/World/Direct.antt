-- ===== src/Rfit/World/Direct.antt =====
-- A thread that serves an instance of a function that is not concurrent.
use tpfaas.Base.{
  ℕ, suc, ◌≡◌, ◌≢◌, subst, sym, ◌∙◌, Bool, true, false, not, none, some, arith, ◌==◌, if◌then◌else◌,
  ok,
}
use mathlib.Core.Path.{fun_ext}
use tpfaas.Rfit.Function.{F, null, is_concurrency}
use tpfaas.Rfit.Task.{T, TStatus, get_i_and_supply}
use tpfaas.Rfit.World.{Platform, World, update, set_f, set_t, hash_of}
use tpfaas.Rfit.World.Requests.{new_t, bind_os_thread, release_instance_space}
use tpfaas.Rfit.World.Search.{
  get_instance, runs_directly, finish_instance, search_elsewhere, settle,
}
use tpfaas.Rfit.World.Moves.{
  in_busy, off_busy, in_idle, put_t2_busy_ok, remove_t_from_busy_ok, put_t2_idle_ok,
}

update_same {ℓ} : {A : Type ℓ} (g : ℕ → A) (a : ℕ) → update g a (g a) ≡ g
update_same g a = fun_ext λ q. ground arith

module _ (p : Platform) where
  -- The thread `t` is busy with the instance `i` of the function at `fa`.
  pub record Serves (w : World p) (t i fa : ℕ) (direct : Bool) : Type 0 where
    pub status : (w.threads t).status ≡ TStatus.busy
    pub deal_with : (w.threads t).deal_with ≡ i
    pub work_for : (w.threads t).work_for ≡ fa
    pub direct_run : (w.threads t).direct_run ≡ direct
    pub registered : p.hm.get (w.resources (w.functions fa).r).busy_task (w.threads t).hash ≡ some t
    pub alone : is_concurrency (w.functions fa) ≡ false

  -- The thread that a new instance gets, before it is put into the busy map.
  abbrev pub thread_for : World p → ℕ → ℕ → T p.hm
  thread_for w fa i =
      let direct = not (is_concurrency (w.functions fa)) in
      record {
        hash = p.hashing.hash (w.instances i).hash;
        sem_word = 0;
        work_for = fa;
        deal_with = (if direct then i else null);
        direct_run = direct;
        local_i_map = p.hm.empty;
        status = TStatus.none;
      }

  abbrev pub with_thread : World p → ℕ → ℕ → World p
  with_thread w fa i = record (set_t p w w.next (thread_for w fa i)) { next = suc w.next }

  pub new_t_direct :
      (w : World p) (fa i : ℕ)
      → w.live i ≡ true
      → w.next ≢ null
      → p.hm.get (w.resources (w.functions fa).r).busy_task (p.hashing.hash (w.instances i).hash)
        ≡ none
      → new_t p w fa i
        ≡ ok (bind_os_thread p (in_busy p (with_thread w fa i) (w.functions fa).r w.next) w.next).1
  unfolding new_t
  new_t_direct w fa i alive there fresh = rw (
    alive,
    put_t2_busy_ok p (with_thread w fa i) (w.functions fa).r w.next there (ground arith)
        (ground arith),
  )

  pub in_busy-Serves :
      (w : World p) (fa i : ℕ)
      → is_concurrency (w.functions fa) ≡ false
      → p.hm.get (w.resources (w.functions fa).r).busy_task (p.hashing.hash (w.instances i).hash)
        ≡ none
      → Serves
          (bind_os_thread p (in_busy p (with_thread w fa i) (w.functions fa).r w.next) w.next).1
          w.next
          i
          fa
          true
  unfolding bind_os_thread
  in_busy-Serves w fa i alone fresh =
      let added =
        p.hm.get_add (w.resources (w.functions fa).r).busy_task
          (p.hashing.hash (w.instances i).hash) w.next fresh in
      record {
        status = ground arith;
        deal_with = ground arith;
        work_for = ground arith;
        direct_run = ground arith;
        registered = ground (arith, added);
        alone = alone;
      }

  pub get_instance_direct :
      (w : World p) (t i fa : ℕ)
      → i ≢ null
      → fa ≢ null
      → Serves w t i fa true
      → get_instance p w t ≡ ok (true, set_t p w t (record (w.threads t) { direct_run = false }))
  unfolding get_instance
  get_instance_direct w t i fa some_i some_f s = ground arith

  pub finish_direct :
      (w : World p) (t i fa : ℕ)
      → i ≢ null
      → fa ≢ null
      → Serves w t i fa false
      → finish_instance p w t ≡ ok (release_instance_space p w i)
  unfolding finish_instance
  finish_direct w t i fa some_i some_f s = ground arith

  abbrev pub gone_idle : World p → ℕ → ℕ → World p
  gone_idle w ra t = in_idle p (off_busy p w ra t) ra t

  settle_direct :
      (w : World p) (t i fa : ℕ)
      → t ≢ null
      → Serves w t i fa false
      → settle p w t null ≡ ok (false, gone_idle w (w.functions (w.threads t).work_for).r t)
  unfolding settle
  settle_direct w t i fa some_t s =
      let ra = (w.functions (w.threads t).work_for).r in
      rw (
        remove_t_from_busy_ok p w ra t t some_t s.status (
            subst
              (λ (a : ℕ).
                p.hm.get (w.resources (w.functions a).r).busy_task (w.threads t).hash ≡ some t)
              (sym s.work_for) s.registered),
        put_t2_idle_ok p (off_busy p w ra t) ra t some_t (ground arith),
      )

  get_i_none :
      (h : ℕ → ℕ) (t : T p.hm) (f : F)
      → is_concurrency f ≡ false
      → get_i_and_supply p.hm h t f ≡ ok (null, t, f)
  unfolding get_i_and_supply
  get_i_none h t f alone = rw (alone, get_i_and_supply)

  search_off :
      (w : World p) (t i : ℕ) → p.steal_instance ≡ false → search_elsewhere p w t i ≡ ok (i, w)
  unfolding search_elsewhere
  search_off w t i off = rw (off, search_elsewhere)

  pub set_same :
      (w : World p) (t fa : ℕ) → set_f p (set_t p w t (w.threads t)) fa (w.functions fa) ≡ w
  set_same w t fa = λ i. record w {
    threads = update_same w.threads t i;
    functions = update_same w.functions fa i;
  }

  get_instance_search :
      (w : World p) (t : ℕ)
      → runs_directly p w t ≡ false
      → ((w.threads t).work_for == null) ≡ false
      → is_concurrency (w.functions (w.threads t).work_for) ≡ false
      → p.steal_instance ≡ false
      → get_instance p w t ≡ settle p w t null
  unfolding get_instance
  get_instance_search w t searches works alone off =
      rw (searches, get_instance)
        (rw (works) (
          rw (
            get_i_none (hash_of p w) (w.threads t) (w.functions (w.threads t).work_for) alone,
            search_off
                (set_f p (set_t p w t (w.threads t)) (w.threads t).work_for
                  (w.functions (w.threads t).work_for))
                t null off,
            set_same w t (w.threads t).work_for,
          )))

  -- What the thread finds in its searches: nothing, and without STEAL_INSTANCE it looks no further.
  pub get_instance_after :
      (w : World p) (t i fa : ℕ)
      → t ≢ null
      → fa ≢ null
      → p.steal_instance ≡ false
      → Serves w t i fa false
      → get_instance p w t ≡ ok (false, gone_idle w (w.functions (w.threads t).work_for).r t)
  get_instance_after w t i fa some_t some_f off s =
      get_instance_search w t (ground (arith, s.direct_run)) (ground (arith, s.work_for))
        (subst (λ (a : ℕ). is_concurrency (w.functions a) ≡ false) (sym s.work_for) s.alone) off
      ∙ settle_direct w t i fa some_t s

  pub direct_off :
      (w : World p) (t i fa : ℕ)
      → Serves w t i fa true
      → Serves (set_t p w t (record (w.threads t) { direct_run = false })) t i fa false
  direct_off w t i fa s = record {
    status = ground (arith, s.status);
    deal_with = ground (arith, s.deal_with);
    work_for = ground (arith, s.work_for);
    direct_run = ground arith;
    registered = ground (arith, s.registered);
    alone = s.alone;
  }
