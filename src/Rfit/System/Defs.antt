-- ===== src/Rfit/System/Defs.antt =====
-- The states and the steps.
use tpfaas.Base.{ℕ, suc, ◌-◌, ◌<◌, ◌≡◌, true, false, List, [], ◌∷◌, ◌==◌, if◌then◌else◌, pos, ok, ℤ}
use tpfaas.Wavm.{HashMap}
use tpfaas.Rfit.Function.{F, null, add_i2f, try_scale_down_cap, scale_cap, to_iptr}
use tpfaas.Rfit.Task.{T, TStatus, fetch_i, leave_from_f}
use tpfaas.Rfit.World.{update}

-- Where a thread stands: before a fetch, in an instance, before `leaveFromF_safe`, or between
-- there and its next use (in `removeTFromBusy`, `putT2Idle`, `thread_sleep`).
pub data Pc : Type 0 where
  finding : Pc
  running : (i : ℕ) → Pc
  leaving : Pc
  detached : Pc

-- Where `make_request` stands: between two requests, behind `addI2F` with the instance queued,
-- behind a `tryScaleDownCap` that found no place, or before `get_T_for_I`.
pub data Client : Type 0 where
  ready : Client
  queued short calling : (i : ℕ) → Client

module _ (hm : HashMap ℕ) where
  pub record Worker : Type 0 where
    pub t : T hm
    pub pc : Pc

  pub record System : Type 0 where
    pub f : F
    pub workers : ℕ → Worker
    -- the threads that exist are those below `count`
    pub count : ℕ
    pub client : Client
    -- the address of the next instance; those in use begin at 1
    pub next : ℕ
    -- the instances that `release_instance_space` has deleted
    pub released : List ℕ

  -- A thread as its constructor leaves it, for the function at the address `fp`.
  unfoldable pub new_worker : ℕ → ℕ → Worker
  new_worker fp hash = record {
    t = record {
      hash = hash;
      sem_word = 0;
      work_for = fp;
      deal_with = null;
      direct_run = false;
      local_i_map = hm.empty;
      status = TStatus.busy;
    };
    pc = finding;
  }

  abbrev pub after_fetch : ℕ → Pc
  after_fetch i = if i == null then leaving else running i

  abbrev pub set_worker : System → ℕ → T hm → Pc → F → System
  set_worker s k t pc f = record s {
    f = f;
    workers = update s.workers k (record { t = t; pc = pc });
  }

  module _ (h : ℕ → ℕ) (fp : ℕ) where
    pub data Step (s : System) : System → Type 0 where
      -- `new I` and `F::addI2F`
      request :
          s.client ≡ ready
          → Step s (record s { f = add_i2f s.f s.next; client = queued s.next; next = suc s.next })
      take_place :
          {i : ℕ} {f1 : F}
          → s.client ≡ queued i
          → try_scale_down_cap s.f (pos 1) ≡ ok (true, f1)
          → Step s (record s { f = f1; client = ready })
      no_place :
          {i : ℕ} {f1 : F}
          → s.client ≡ queued i
          → try_scale_down_cap s.f (pos 1) ≡ ok (false, f1)
          → Step s (record s { f = f1; client = short i })
      add_places :
          {i : ℕ} {c : ℤ} {f1 : F}
          → s.client ≡ short i
          → scale_cap s.f (to_iptr (s.f.concurrency_limit - 1)) ≡ ok (c, f1)
          → Step s (record s { f = f1; client = calling i })
      -- `get_T_for_I` with no idle thread, or with one
      start :
          {i : ℕ} (hash : ℕ)
          → s.client ≡ calling i
          → Step s (record s {
            client = ready;
            workers = update s.workers s.count (new_worker fp hash);
            count = suc s.count;
          })
      wake :
          {i : ℕ} (k : ℕ)
          → s.client ≡ calling i
          → k < s.count
          → (s.workers k).pc ≡ detached
          → Step s
              (record (set_worker s k (record ((s.workers k).t) { work_for = fp }) finding s.f) {
                client = ready;
              })
      fetch :
          (k : ℕ) {i : ℕ} {t1 : T hm} {f1 : F}
          → k < s.count
          → (s.workers k).pc ≡ finding
          → fetch_i hm h (s.workers k).t s.f ≡ ok (i, t1, f1)
          → Step s (set_worker s k t1 (after_fetch i) f1)
      leave :
          (k : ℕ) {f1 : F}
          → k < s.count
          → (s.workers k).pc ≡ leaving
          → leave_from_f hm (s.workers k).t s.f ≡ ok f1
          → Step s (set_worker s k (s.workers k).t detached f1)
      -- the function returns: `scaleCap(1)`, and the instance is deleted
      finish :
          (k : ℕ) {i : ℕ} {c : ℤ} {f1 : F}
          → k < s.count
          → (s.workers k).pc ≡ running i
          → scale_cap s.f (pos 1) ≡ ok (c, f1)
          → Step s
              (record (set_worker s k (s.workers k).t finding f1) { released = i ∷ s.released })

    -- Before the first request: no thread, and the count as memory had it.
    abbrev pub init : F → System
    init f = record {
      f = f;
      workers = λ k. new_worker fp 0;
      count = 0;
      client = ready;
      next = 1;
      released = [];
    }

    pub data Reach (f : F) : System → Type 0 where
      begin : Reach f (init f)
      next_step : {s u : System} → Reach f s → Step s u → Reach f u
