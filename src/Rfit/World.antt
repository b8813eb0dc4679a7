-- ===== src/Rfit/World.antt =====
-- The memory of the process: the objects at their addresses, the two global caches, and the
-- primitive reads and writes. Functions, resources and threads are never deleted, so each has a
-- value at every address that the code hands out; an instance is deleted, so `live` says whether
-- its address may still be read.
pub mod Threads
pub mod Registry
pub mod Requests
pub mod Search
pub mod Registration
pub mod Binding
pub mod Serving
pub mod Moves
pub mod Direct
pub mod OwnQueue
pub mod Life
use tpfaas.Base.{
  ℕ, suc, ◌+◌, Bool, true, false, String, ◌==◌, if◌then◌else◌, ℤ, Outcome, ok, fault, dangling,
}
use tpfaas.Wavm.{HashMap, Hashing}
use tpfaas.Rfit.Function.{F}
use tpfaas.Rfit.Resource.{R}
use tpfaas.Rfit.Task.{T}

-- `class I`, without the context that it runs in and its timer.
pub record I : Type 0 where
  pub hash : ℕ
  pub f : ℕ
  pub request : ℕ

-- What the program runs on, and the build option `STEAL_INSTANCE`.
pub record Platform : Type 1 where
  pub hm : HashMap ℕ
  pub sm : HashMap String
  pub hashing : Hashing
  -- what the n-th call of `pthread_create` returns
  pub pthread_create : ℕ → ℕ
  -- what the memory of a new function's `restCap.count` holds
  pub uninitialised : ℕ → ℤ
  pub steal_instance : Bool

abbrev pub update {ℓ} : {A : Type ℓ} → (ℕ → A) → ℕ → A → ℕ → A
update heap p a q = if p == q then a else heap q

pub record World (p : Platform) : Type 0 where
  pub functions : ℕ → F
  pub resources : ℕ → R p.hm
  pub instances : ℕ → I
  pub threads : ℕ → T p.hm
  pub live : ℕ → Bool
  -- which threads have an operating system thread under them
  pub started : ℕ → Bool
  pub creations : ℕ
  -- the addresses below this one are in use
  pub next : ℕ
  -- `FunctionCache` and `ResourceCache`
  pub function_map : p.sm.Map
  pub resource_map : p.hm.Map

module _ (p : Platform) where
  abbrev pub set_f : World p → ℕ → F → World p
  set_f w a f = record w { functions = update w.functions a f }

  abbrev pub set_r : World p → ℕ → R p.hm → World p
  set_r w a r = record w { resources = update w.resources a r }

  abbrev pub set_t : World p → ℕ → T p.hm → World p
  set_t w a t = record w { threads = update w.threads a t }

  -- `i->getHash()`, `item->getHash()` on a live instance
  abbrev pub hash_of : World p → ℕ → ℕ
  hash_of w i = (w.instances i).hash
