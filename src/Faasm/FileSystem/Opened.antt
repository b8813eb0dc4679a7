-- ===== src/Faasm/FileSystem/Opened.antt =====
-- faasm, src/storage/FileSystem.cpp with `pathOpen` of src/storage/FileDescriptor.cpp: what opening a
-- descriptor keeps of it.
use tpfaas.Base.{
  ℕ, negsuc, ◌%◌, ◌^◌, ◌==◌, ◌≡◌, refl, subst, Bool, false, Bool-cases, inl, inr, String,
  if◌then◌else◌, Outcome, ok, fault, ◌>>=◌,
}
use tpfaas.Faabric.Scheduler.Kept.{Holds, Holds-bind, Holds-throw_unless}
use tpfaas.Faasm.Bits.{bit_or}
use tpfaas.Faasm.Host.{Constants, SysResult, done, failed, Os, StorageConf}
use tpfaas.Faasm.SharedFiles.{Store, is_path_shared, sync_shared_file, real_path_for_shared_file}
use tpfaas.Faasm.FileDescriptor.{
  FileDescriptor, errno_to_wasi, opened, open_real_path, open_path, path_open, get_open_mode,
  get_rw_type, access_flags, mode_flags, wasi_fd_flags_to_linux, prepend_runtime_root,
}

-- Opening keeps the rights, the path and the kind of a descriptor.
pub record Kept (d d1 : FileDescriptor) : Type 0 where
  pub base : d1.actual_rights_base ≡ d.actual_rights_base
  pub inheriting : d1.actual_rights_inheriting ≡ d.actual_rights_inheriting
  pub preopen : d1.wasi_preopen_type ≡ d.wasi_preopen_type
  pub path : d1.path ≡ d.path

abbrev same_kept : (d : FileDescriptor) → Kept d d
same_kept d = record { base = refl; inheriting = refl; preopen = refl; path = refl }

always : {T : Type 0} (m : Outcome T) → Holds (λ _. Unit {0}) m
always (ok t) = tt
always (fault _) = tt

module _ (c : Constants) (os : Os) (conf : StorageConf) where
  abbrev KeptBy : FileDescriptor → Bool × FileDescriptor × Store os → Type 0
  KeptBy d x = Kept d x.1

  opened-keeps :
      (d0 d : FileDescriptor) (w : Store os) (result : SysResult ℕ)
      → Kept d0 d
      → Holds (KeptBy d0) (opened c os conf d w result)
  unfolding opened
  opened-keeps d0 d w (done fd) k = record {
    base = k.base;
    inheriting = k.inheriting;
    preopen = k.preopen;
    path = k.path;
  }
  opened-keeps d0 d w (failed errno) k =
      Holds-bind (λ _. Unit {0}) (KeptBy d0) (errno_to_wasi c errno) _
        (always (errno_to_wasi c errno))
        (λ e _. record {
          base = k.base;
          inheriting = k.inheriting;
          preopen = k.preopen;
          path = k.path;
        })

  open_real_path-keeps :
      (d0 d : FileDescriptor) (w : Store os) (real_path : String)
      → Kept d0 d
      → Holds (KeptBy d0) (open_real_path c os conf d w real_path)
  unfolding open_real_path
  open_real_path-keeps d0 d w real_path k = opened-keeps d0 d _ _ k

  -- What `pathOpen` does after the synchronisation of a shared file.
  abbrev after_sync :
      FileDescriptor → Outcome ℕ → Store os → Outcome (Bool × FileDescriptor × Store os)
  after_sync d synced w1 = do
    errno ← synced
    if errno == 0
        then open_real_path c os conf (record d { linux_errno = 0 }) w1
            (real_path_for_shared_file c os conf d.path)
        else (do
          e ← errno_to_wasi c errno
          ok (false, record d { linux_errno = errno; linux_fd = negsuc 0; wasi_errno = e }, w1))

  after_sync-keeps :
      (d0 d : FileDescriptor) (synced : Outcome ℕ) (w1 : Store os)
      → Kept d0 d
      → Holds (KeptBy d0) (after_sync d synced w1)
  after_sync-keeps d0 d (fault e) w1 k = tt
  after_sync-keeps d0 d (ok errno) w1 k = elim (Bool-cases (errno == 0)) [
    | inl fine ↦ rw fine (
        open_real_path-keeps d0 (record d { linux_errno = 0 }) w1
          (real_path_for_shared_file c os conf d.path)
          (record { base = k.base; inheriting = k.inheriting; preopen = k.preopen; path = k.path }))
    | inr wrong ↦ rw wrong (
        Holds-bind (λ _. Unit {0}) (KeptBy d0) (errno_to_wasi c errno) _
          (always (errno_to_wasi c errno))
          (λ e _. record {
            base = k.base;
            inheriting = k.inheriting;
            preopen = k.preopen;
            path = k.path;
          }))
  ]

  open_path-keeps :
      (d0 d : FileDescriptor) (w : Store os)
      → Kept d0 d
      → Holds (KeptBy d0) (open_path c os conf d w)
  unfolding open_path
  open_path-keeps d0 d w k = elim (Bool-cases (is_path_shared d.path)) [
    | inl shared ↦
        let x = sync_shared_file c os conf w d.path "" in
        simp (open_path, shared) (after_sync-keeps d0 d x.0 x.1 k)
    | inr own ↦
        simp (open_path, own)
          (open_real_path-keeps d0 d w (prepend_runtime_root c os conf d.path) k)
  ]

  path_open-keeps :
      (d : FileDescriptor) (w : Store os) (open_flags fd_flags : ℕ)
      → Holds (KeptBy d) (path_open c os conf d w open_flags fd_flags)
  unfolding path_open
  path_open-keeps d w open_flags fd_flags = Holds-throw_unless (KeptBy d) d.rights_set _ (
      Holds-bind (λ _. Unit {0}) (KeptBy d) (get_open_mode c (open_flags % 2 ^ 16)) _ (always _)
        (λ mode _.
          Holds-bind (λ _. Unit {0}) (KeptBy d)
            (access_flags c mode (get_rw_type c d.actual_rights_base)) _ (always _)
            (λ access _.
              Holds-bind (λ _. Unit {0}) (KeptBy d) (wasi_fd_flags_to_linux c fd_flags) _ (always _)
                (λ more _.
                  open_path-keeps d
                    (record d {
                      linux_flags = bit_or 64 (mode_flags c mode access).0 more;
                      linux_mode = (mode_flags c mode access).1;
                    })
                    w (record { base = refl; inheriting = refl; preopen = refl; path = refl })))))

  -- What a successful opening kept.
  pub path_open_kept :
      (d d1 : FileDescriptor) (w w1 : Store os) (open_flags fd_flags : ℕ) (success : Bool)
      → path_open c os conf d w open_flags fd_flags ≡ ok (success, d1, w1)
      → Kept d d1
  path_open_kept d d1 w w1 open_flags fd_flags success e =
      subst (Holds (KeptBy d)) e (path_open-keeps d w open_flags fd_flags)
