-- ===== src/Rfit/World/Serving.antt =====
-- What a new thread needs when `make_request` finds no idle one.
use tpfaas.Base.{ℕ, ◌≡◌, ◌≢◌, true, [], some, arith, fault, assert_failed}
use tpfaas.Utils.Queue
use tpfaas.Rfit.Function.{null}
use tpfaas.Rfit.World.{Platform, World, set_r}
use tpfaas.Rfit.World.Threads.{get_idle_t, get_t_from_idle, put_t2_busy}
use tpfaas.Rfit.World.Requests.{get_t_for_i, new_t}

module _ (p : Platform) where
  -- With no idle thread `getIdleT` gives the null pointer.
  abbrev pub none_idle : World p → ℕ → World p
  none_idle w ra = set_r p w ra (record (w.resources ra) { idle_task = record { mq = [] } })

  pub get_idle_t_none :
      (w : World p) (ra : ℕ)
      → (w.resources ra).idle_task.mq ≡ []
      → get_idle_t p w ra ≡ (null, none_idle w ra)
  unfolding get_idle_t get_t_from_idle Queue.try_dequeue
  get_idle_t_none w ra e = rw (e, get_t_from_idle)

  new_t_collision :
      (w : World p) (fa i t : ℕ)
      → w.live i ≡ true
      → w.next ≢ null
      → p.hm.get (w.resources (w.functions fa).r).busy_task (p.hashing.hash (w.instances i).hash)
        ≡ some t
      → new_t p w fa i ≡ fault assert_failed
  unfolding new_t put_t2_busy
  new_t_collision w fa i t alive there same = rw (alive, new_t) (ground arith)

  -- Where no thread is idle and a busy one has the hash that the new thread gets, which is so for
  -- two requests at one address, `addOrFail` fails.
  pub get_t_for_i_collision :
      (w : World p) (i fa t : ℕ)
      → (w.resources (w.functions fa).r).idle_task.mq ≡ []
      → w.live i ≡ true
      → w.next ≢ null
      → p.hm.get (w.resources (w.functions fa).r).busy_task (p.hashing.hash (w.instances i).hash)
        ≡ some t
      → get_t_for_i p w i fa ≡ fault assert_failed
  unfolding get_t_for_i
  get_t_for_i_collision w i fa t idle alive there same =
      rw (get_idle_t_none w (w.functions fa).r idle, get_t_for_i)
        (new_t_collision (none_idle w (w.functions fa).r) fa i t alive there (ground arith))
