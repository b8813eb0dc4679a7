-- ===== src/Rfit/Resource.antt =====
-- include/RFIT/R/resource.h: the limits that a function runs under, each with the hash that the
-- constructor computes, and the record `R` that the functions of equal limits share.
use tpfaas.Base.{ℕ, ◌-◌, ◌%◌, ◌^◌, Bool, List, ◌==◌, ℤ, pos, negsuc}
use tpfaas.Utils.Queue.{Queue}
use tpfaas.Wavm.{HashMap, Hashing}

-- The conversion of an `Iptr` to `Uptr`, as a key of `Hash<Uptr>`.
unfoldable pub to_uptr : ℤ → ℕ
to_uptr (pos n) = n % 2 ^ 64
to_uptr (negsuc n) = (2 ^ 64 - 1 - n) % 2 ^ 64

pub record CpuResource : Type 0 where
  pub hash : ℕ
  pub cpu_shares : ℕ
  pub cfs_quota_us : ℤ
  pub cfs_period_us : ℤ

pub record MemResource : Type 0 where
  pub hash : ℕ
  pub mem_soft_limit : ℤ
  pub mem_hard_limit : ℤ

pub record Resource : Type 0 where
  pub hash : ℕ
  pub cpu : CpuResource
  pub mem : MemResource

abbrev pub cpu_default_shares : ℕ
cpu_default_shares = 1024

abbrev pub cpu_default_cfs_quota_us : ℤ
cpu_default_cfs_quota_us = negsuc 0

abbrev pub cpu_default_cfs_period_us : ℤ
cpu_default_cfs_period_us = pos 100000

abbrev pub mem_default_soft_limit : ℤ
mem_default_soft_limit = negsuc 0

abbrev pub mem_default_hard_limit : ℤ
mem_default_hard_limit = negsuc 0

module _ (h : Hashing) where
  open h use {hash_seeded}

  -- `CpuResource::Impl::Impl`
  unfoldable pub new_cpu_resource : ℕ → ℤ → ℤ → CpuResource
  unfolding to_uptr
  new_cpu_resource cpu_shares cfs_quota_us cfs_period_us =
      let first = hash_seeded cpu_shares (to_uptr cfs_quota_us) in
      record {
        hash = hash_seeded first (to_uptr cfs_period_us);
        cpu_shares = cpu_shares;
        cfs_quota_us = cfs_quota_us;
        cfs_period_us = cfs_period_us;
      }

  -- `MemResource::Impl::Impl`
  unfoldable pub new_mem_resource : ℤ → ℤ → MemResource
  unfolding to_uptr
  new_mem_resource mem_soft_limit mem_hard_limit = record {
    hash = hash_seeded (to_uptr mem_soft_limit) (to_uptr mem_hard_limit);
    mem_soft_limit = mem_soft_limit;
    mem_hard_limit = mem_hard_limit;
  }

  -- `Resource::Impl::Impl`
  unfoldable pub new_resource : CpuResource → MemResource → Resource
  new_resource cpu mem = record { hash = hash_seeded cpu.hash mem.hash; cpu = cpu; mem = mem }

  -- `Resource()`
  unfoldable pub default_resource : Resource
  unfolding new_cpu_resource new_mem_resource new_resource
  default_resource =
      new_resource
        (new_cpu_resource cpu_default_shares cpu_default_cfs_quota_us cpu_default_cfs_period_us)
        (new_mem_resource mem_default_soft_limit mem_default_hard_limit)

-- `operator==` of `CpuResource` and of `MemResource`
unfoldable pub cpu_eq : CpuResource → CpuResource → Bool
cpu_eq left right = left.hash == right.hash

unfoldable pub mem_eq : MemResource → MemResource → Bool
mem_eq left right = left.hash == right.hash

pub record R (hm : HashMap ℕ) : Type 0 where
  pub r : Resource
  pub functions : List ℕ
  pub idle_task : Queue ℕ
  pub busy_task : hm.Map
