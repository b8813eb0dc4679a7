-- ===== src/Faasm/FileDescriptor/Paths.antt =====
-- faasm: the operations of src/storage/FileDescriptor.cpp on the paths below a descriptor.
use tpfaas.Base.{
  ℕ, ℤ, pos, Bool, true, false, not, ◌||◌, String, List, ◌==◌, if◌then◌else◌, Outcome, ok, fault,
  thrown, ◌>>=◌, ◌>>◌, throw_unless,
}
use tpfaas.Faabric.Maps.{same}
use tpfaas.Faasm.Host.{Constants, SysResult, done, failed, NativeStat, Os, StorageConf}
use tpfaas.Faasm.SharedFiles.{Store, is_path_shared, real_path_for_shared_file, sync_shared_file}
use tpfaas.Faasm.FileDescriptor.{FileDescriptor, errno_to_wasi, prepend_runtime_root}

-- `Stat`, where it has not failed.
pub record Stat : Type 0 where
  pub wasi_filetype : ℕ
  pub native : NativeStat

-- `Stat`: failed, with an error number, or not.
pub data StatResult : Type 0 where
  stat_failed : (wasi_errno : ℕ) → StatResult
  stat_done : Stat → StatResult

abbrev is_std_fd : ℤ → Bool
is_std_fd (pos fd) = fd == 1 || fd == 0 || fd == 2
is_std_fd _ = false

module _ (c : Constants) (os : Os) (conf : StorageConf) where
  -- `absPath`
  unfoldable pub abs_path : FileDescriptor → String → String
  unfolding same
  abs_path d relative_path =
      if same relative_path ""
      then d.path
      else os.append_path (if same d.path "." then "" else d.path) relative_path

  -- What `mkdir`, `unlink` and `rmdir` keep of the result of the call.
  unfoldable pub succeeded :
      FileDescriptor
      → Store os
      → SysResult (Unit {0}) × os.World
      → Outcome (Bool × FileDescriptor × Store os)
  unfolding errno_to_wasi
  succeeded d w (done _, world) = ok (true, d, record w { world = world })
  succeeded d w (failed errno, world) = do
    e ← errno_to_wasi c errno
    ok (false, record d { wasi_errno = e }, record w { world = world })

  -- `FileDescriptor::mkdir`, which does not look at the path of the descriptor
  unfoldable pub mkdir :
      FileDescriptor → Store os → String → Outcome (Bool × FileDescriptor × Store os)
  unfolding succeeded prepend_runtime_root
  mkdir d w dir_path =
      succeeded d w (os.mkdir w.world (prepend_runtime_root c os conf dir_path) 493)

  -- `FileDescriptor::unlink`
  unfoldable pub unlink :
      FileDescriptor → Store os → String → Outcome (Bool × FileDescriptor × Store os)
  unfolding succeeded prepend_runtime_root abs_path
  unlink d w relative_path =
      succeeded d w (os.unlink w.world (prepend_runtime_root c os conf (abs_path d relative_path)))

  -- `FileDescriptor::rmdir`
  unfoldable pub rmdir :
      FileDescriptor → Store os → String → Outcome (Bool × FileDescriptor × Store os)
  unfolding succeeded prepend_runtime_root abs_path
  rmdir d w relative_path =
      succeeded d w (os.rmdir w.world (prepend_runtime_root c os conf (abs_path d relative_path)))

  -- `FileDescriptor::rename`: a failing call returns -1, and `-1 * res` is taken for its error number.
  unfoldable pub rename :
      FileDescriptor → Store os → String → String → Outcome (Bool × FileDescriptor × Store os)
  unfolding errno_to_wasi prepend_runtime_root abs_path
  rename d w new_path relative_path =
      let (result, world) =
        os.rename w.world (prepend_runtime_root c os conf (abs_path d relative_path))
          (prepend_runtime_root c os conf new_path) in
      elim result [
        | done _ ↦ ok (true, d, record w { world = world })
        | failed errno ↦ do
          e ← errno_to_wasi c 1
          ok (false, record d { wasi_errno = e }, record w { world = world })
      ]

  -- The kind of file that `stat` reports.
  unfoldable pub file_type : Bool → ℕ → Outcome ℕ
  file_type is_std st_mode =
      if is_std
      then ok c.filetype_character_device
      else if c.s_isreg st_mode
      then ok c.filetype_regular_file
      else if c.s_isblk st_mode
      then ok c.filetype_block_device
      else if c.s_isdir st_mode
      then ok c.filetype_directory
      else if c.s_islnk st_mode
      then ok c.filetype_symbolic_link
      else if c.s_ischr st_mode
      then ok c.filetype_character_device
      else fault thrown

  -- The second half of `FileDescriptor::stat`, on the result of the call.
  unfoldable pub stat_result : Bool → SysResult NativeStat → Outcome StatResult
  unfolding errno_to_wasi file_type
  stat_result is_std (failed errno) = do e ← errno_to_wasi c errno; ok (stat_failed e)
  stat_result is_std (done native) = do
    t ← file_type is_std native.st_mode
    ok (stat_done (record { wasi_filetype = t; native = native }))

  -- `FileDescriptor::stat`, for real paths that are not empty
  unfoldable pub stat : FileDescriptor → Store os → String → Outcome StatResult × Store os
  unfolding stat_result abs_path is_path_shared sync_shared_file real_path_for_shared_file
      prepend_runtime_root
  stat d w relative_path =
      let stat_path = abs_path d relative_path in
      if is_std_fd d.linux_fd
      then (stat_result true (os.fstat w.world d.linux_fd), w)
      else if is_path_shared stat_path
      then (let (synced, w1) = sync_shared_file c os conf w stat_path "" in
          let result = (do
            errno ← synced
            stat_result false (
                if errno == 0
                then os.stat w1.world (real_path_for_shared_file c os conf stat_path)
                else failed errno)) in
          (result, w1))
      else (stat_result false (os.stat w.world (prepend_runtime_root c os conf stat_path)), w)

  -- `readLink`: the test for shared files sees the path with the root before it.
  unfoldable pub read_link : FileDescriptor → Store os → String → ℕ → Outcome (SysResult (List ℕ))
  unfolding abs_path prepend_runtime_root is_path_shared
  read_link d w relative_path buffer_len =
      let link_path = prepend_runtime_root c os conf (abs_path d relative_path) in
      do
        throw_unless (not (is_path_shared link_path))
        ok (os.readlink w.world link_path buffer_len)
