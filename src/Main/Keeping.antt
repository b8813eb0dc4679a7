-- ===== src/Main/Keeping.antt =====
-- What the requests of `main` leave of the functions.
use tpfaas.Base.{
  ℕ, zero, suc, ◌≡◌, ap, ◌∙◌, true, false, not, arith, ◌==◌, if◌then◌else◌, ok, bind-ok, Bool-cases,
  inl, inr,
}
use tpfaas.Rfit.Function.{F, null, is_concurrency}
use tpfaas.Rfit.World.{Platform, World, set_t}
use tpfaas.Rfit.World.Threads.{put_t2_busy, get_idle_t, get_t_from_idle}
use tpfaas.Rfit.World.Requests.{
  make_request, new_i, add_i_to_f, get_t_for_i, new_t, bind_os_thread, thread_wake_up_one,
}
use tpfaas.Rfit.World.Direct.{with_thread}
use tpfaas.Main.{request_loop}

module _ (p : Platform) where
  put_t2_busy-functions :
      (w w1 : World p) (ra t : ℕ) → put_t2_busy p w ra t ≡ ok w1 → w1.functions ≡ w.functions
  unfolding put_t2_busy
  put_t2_busy-functions w w1 ra t e = ground arith

  get_idle_t-functions : (w : World p) (ra : ℕ) → (get_idle_t p w ra).1.functions ≡ w.functions
  unfolding get_idle_t get_t_from_idle
  get_idle_t-functions w ra = ground arith

  new_t-functions :
      (w w1 : World p) (fa i : ℕ) → new_t p w fa i ≡ ok w1 → w1.functions ≡ w.functions
  unfolding new_t bind_os_thread
  new_t-functions w w1 fa i e = elim (Bool-cases (w.live i)) [
    | inr dead ↦ cc (rw dead at e)
    | inl alive ↦
        let v = with_thread p w fa i in
        let (w2, put, rest) =
          bind-ok (put_t2_busy p v (w.functions fa).r w.next) _ w1 (rw alive at e) in
        ground (arith, put_t2_busy-functions v w2 (w.functions fa).r w.next put, rest)
  ]

  get_t_for_i-functions :
      (w w1 : World p) (i fa : ℕ) → get_t_for_i p w i fa ≡ ok w1 → w1.functions ≡ w.functions
  unfolding get_t_for_i thread_wake_up_one
  get_t_for_i-functions w w1 i fa e =
      let (t, v) = get_idle_t p w (w.functions fa).r in
      let same = get_idle_t-functions w (w.functions fa).r in
      elim (Bool-cases (t == null)) [
        | inl nobody ↦ new_t-functions v w1 fa i (rw nobody at e) ∙ same
        | inr somebody ↦
            let direct = not (is_concurrency (v.functions fa)) in
            let w2 = set_t p v t (record (v.threads t) {
              deal_with = (if direct then i else (v.threads t).deal_with);
              direct_run = (if direct then true else (v.threads t).direct_run);
              work_for = fa;
            }) in
            let (w3, put, rest) =
              bind-ok (put_t2_busy p w2 (w2.functions fa).r t) _ w1 (rw somebody at e) in
            ground (arith, put_t2_busy-functions w2 w3 (w2.functions fa).r t put, rest, same)
      ]

  make_request-functions :
      (w w1 : World p) (fa request : ℕ)
      → is_concurrency (w.functions fa) ≡ false
      → make_request p w fa request ≡ ok w1
      → w1.functions ≡ w.functions
  unfolding make_request new_i add_i_to_f
  make_request-functions w w1 fa request alone e =
      get_t_for_i-functions (new_i p w fa request).1 w1 w.next fa (rw alone at e)

  -- Requests to a function that is not concurrent change no function, whatever state the threads
  -- are in, if the loop over them returns: no instance is queued, and no place is counted.
  pub request_loop-functions :
      (n : ℕ) (w w1 : World p) (fa i : ℕ)
      → is_concurrency (w.functions fa) ≡ false
      → request_loop p n w fa i ≡ ok w1
      → w1.functions ≡ w.functions
  unfolding request_loop
  request_loop-functions zero w w1 fa i alone e = ground arith
  request_loop-functions (suc n) w w1 fa i alone e =
      let (w2, made, rest) = bind-ok (make_request p w fa i) _ w1 e in
      let same = make_request-functions w w2 fa i alone made in
      request_loop-functions n w2 w1 fa (suc i)
        (ap (λ (g : ℕ → F). is_concurrency (g fa)) same ∙ alone) rest
      ∙ same
