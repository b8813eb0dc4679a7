-- ===== src/Tests/WorldRuns.antt =====
-- A platform, and memories of a process at which the theorems on the whole memory are applied.
use text.Mathlib.TextEquality.{eq_iff}
use text.Mathlib.Text.{◌==◌}
use mathlib.Core.Bool.{false≢true}
use mathlib.Core.Logic.{◌≢◌}
use tpfaas.Base.{ℕ, Bool, false, String, [], ◌∷◌, pos, ℕ_discrete, Bool-cases, inl, inr}
use tpfaas.Wavm.Assoc.{assoc_map}
use tpfaas.Rfit.Function.{null}
use tpfaas.Rfit.Resource.{Resource}
use tpfaas.Rfit.Task.{T, TStatus}
use tpfaas.Rfit.World.{Platform, World}

pub String_discrete : Discrete String
String_discrete s t = elim (Bool-cases (s == t)) [
  | inl same ↦ yes ((eq_iff s t).0 same)
  | inr other ↦ no (λ e. cc (other, (eq_iff s t).1 e))
]

-- `pthread_create` always succeeds, an address is its own hash, and `STEAL_INSTANCE` is off.
unfoldable pub platform : Platform
unfolding assoc_map
platform = record {
  hm = assoc_map ℕ_discrete;
  sm = assoc_map String_discrete;
  hashing = record { hash = λ x. x; hash_seeded = λ x y. x };
  pthread_create = λ _. 0;
  uninitialised = λ _. pos 0;
  steal_instance = false;
}

abbrev pub limits : Resource
limits = record {
  hash = 77;
  cpu = record { hash = 5; cpu_shares = 1024; cfs_quota_us = pos 0; cfs_period_us = pos 100000 };
  mem = record { hash = 6; mem_soft_limit = pos 0; mem_hard_limit = pos 0 };
}

abbrev pub thread_at : ℕ → T (platform.hm)
thread_at hash = record {
  hash = hash;
  sem_word = 0;
  work_for = null;
  deal_with = null;
  direct_run = false;
  local_i_map = platform.hm.empty;
  status = TStatus.none;
}

-- Two functions at the addresses 2 and 3 with the `R` at 1, whose limits on concurrency are 4 and
-- 1; the instance at 5 has been made for the request at 9, and `alive` says whether it is still
-- there.
abbrev pub memory : platform.hm.Map → Bool → World platform
memory busy alive = record {
  functions = λ a. record {
    name = "taskA";
    entry_addr = 100;
    r = 1;
    concurrency_limit = elim (ℕ_discrete a 2) [ yes _ ↦ 4 | no _ ↦ 1 ];
    global_i_queue = record { mq = [] };
    rest_cap = pos 3;
  };
  resources = λ a. record {
    r = limits;
    functions = 2 ∷ 3 ∷ [];
    idle_task = record { mq = [] };
    busy_task = busy;
  };
  instances = λ a. record { hash = 9; f = 2; request = 9 };
  threads = λ a. thread_at a;
  live = λ a. alive;
  started = λ _. false;
  creations = 0;
  next = 10;
  function_map = platform.sm.empty;
  resource_map = platform.hm.empty;
}

pub names_apart : ◌≢◌ {A = String} "taskA" "taskB"
names_apart e = false≢true ((eq_iff "taskA" "taskB").1 e)
