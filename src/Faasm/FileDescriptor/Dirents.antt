-- ===== src/Faasm/FileDescriptor/Dirents.antt =====
-- faasm: the directory iterator of src/storage/FileDescriptor.cpp, and `copyDirentsToWasiBuffer`. A
-- buffer is the bytes that were copied into it; `__wasi_dirent_t` and its size are parameters.
pub mod Rounds
pub mod Pages
pub mod Listing
use tpfaas.Base.{
  ℕ, zero, suc, ◌+◌, ◌-◌, ◌<◌, ◌≡◌, ltb, leb, ◌==◌, Bool, true, false, not, ◌&&◌, String, List, [],
  ◌∷◌, ◌++◌, length, arith, Option, none, some, if◌then◌else◌, drop, Outcome, ok, fault, thrown,
  stuck, ◌>>=◌, ◌>>◌, throw_unless,
}
use tpfaas.Faasm.Host.{Constants, NativeDirent, Os, StorageConf}
use tpfaas.Faasm.SharedFiles.{Store, is_path_shared, real_path_for_shared_file, sync_shared_file}
use tpfaas.Faasm.FileDescriptor.{FileDescriptor, DirEnt, prepend_runtime_root}

-- The header of an entry in a buffer: its bytes, which are as many for every entry.
pub record WasiDirent : Type 0 where
  pub size : ℕ
  pub bytes : DirEnt → List ℕ
  pub length-bytes : (d : DirEnt) → length (bytes d) ≡ size
  pub size_positive : 0 < size

-- The loop over the entries, numbered from the next index on.
unfoldable pub number_entries : ℕ → List NativeDirent → List DirEnt
number_entries next_idx [] = []
number_entries next_idx (e ∷ entries) =
    (record { next = suc next_idx; type = e.d_type; ino = e.d_ino; path = e.d_name })
    ∷ number_entries (suc next_idx) entries

-- `iterReset`
unfoldable pub iter_reset : FileDescriptor → FileDescriptor
iter_reset d = record d { dir_contents_loaded = false; dir_contents_idx = 0; dir_contents = [] }

-- `iterBack`
unfoldable pub iter_back : FileDescriptor → Outcome FileDescriptor
iter_back d = do
  throw_unless d.dir_contents_loaded
  throw_unless (not (d.dir_contents_idx == 0))
  ok (record d { dir_contents_idx = d.dir_contents_idx - 1 })

-- `iterStarted`
unfoldable pub iter_started : FileDescriptor → Bool
iter_started d = d.dir_contents_loaded

-- `iterFinished`
unfoldable pub iter_finished : FileDescriptor → Bool
iter_finished d = d.dir_contents_loaded && leb (length d.dir_contents) d.dir_contents_idx

module _ (c : Constants) (os : Os) (conf : StorageConf) (dirent : WasiDirent) where
  -- The second half of `loadDirContents`.
  unfoldable pub load_real_path :
      FileDescriptor → Store os → String → Outcome (FileDescriptor × Store os)
  unfolding number_entries
  load_real_path d w real_path = elim (os.read_dir w.world real_path) [
    | none ↦ fault thrown
    | some entries ↦ ok (
      record d {
        dir_contents = d.dir_contents ++ number_entries 0 entries;
        dir_contents_loaded = true;
      },
      w,
    )
  ]

  -- `loadDirContents`
  unfoldable pub load_dir_contents : FileDescriptor → Store os → Outcome (FileDescriptor × Store os)
  unfolding is_path_shared sync_shared_file real_path_for_shared_file prepend_runtime_root
      load_real_path
  load_dir_contents d w =
      if is_path_shared d.path
      then (let (synced, w1) = sync_shared_file c os conf w d.path "" in
          do
            errno ← synced
            throw_unless (errno == 0)
            load_real_path d w1 (real_path_for_shared_file c os conf d.path))
      else load_real_path d w (prepend_runtime_root c os conf d.path)

  -- `iterNext`
  unfoldable pub iter_next :
      FileDescriptor → Store os → Outcome (DirEnt × FileDescriptor × Store os)
  unfolding load_dir_contents iter_finished
  iter_next d w = do
    (d1, w1) ← (if d.dir_contents_loaded then ok (d, w) else load_dir_contents d w)
    elim (drop d1.dir_contents_idx d1.dir_contents) [
      | [] ↦ fault thrown
      | entry ∷ rest ↦ ok (entry, record d1 { dir_contents_idx = d1.dir_contents_idx + 1 }, w1)
    ]

  -- The loop of `copyDirentsToWasiBuffer`, with that many rounds at most: whether the buffer is full, the
  -- bytes that are left in it, and what was copied.
  unfoldable pub copy_loop :
      ℕ
      → FileDescriptor
      → Store os
      → ℕ
      → List ℕ
      → Outcome (Bool × ℕ × List ℕ × FileDescriptor × Store os)
  unfolding iter_finished iter_next
  copy_loop zero d w bytes_left buffer = fault stuck
  copy_loop (suc rounds) d w bytes_left buffer =
      if iter_finished d then ok (false, bytes_left, buffer, d, w) else (do
        (entry, d1, w1) ← iter_next d w
        let header = buffer ++ dirent.bytes entry
        let left = bytes_left - dirent.size
        let rest = copy_loop rounds d1 w1 (left - length entry.path) (header ++ entry.path)
        if ltb bytes_left dirent.size
            then ok (true, bytes_left, buffer, d1, w1)
            else if ltb left (length entry.path)
            then ok (true, left, header, d1, w1)
            else rest)

  -- `copyDirentsToWasiBuffer`: the result, what was copied, and the descriptor. Every round but the last
  -- one copies a header.
  unfoldable pub copy_dirents_to_wasi_buffer :
      FileDescriptor → Store os → ℕ → Outcome (ℕ × List ℕ × FileDescriptor × Store os)
  unfolding copy_loop iter_back
  copy_dirents_to_wasi_buffer d w buffer_len = do
    (is_buffer_full, bytes_left, buffer, d1, w1) ←
        copy_loop (suc (suc buffer_len)) d w buffer_len []
    if is_buffer_full
        then (do d2 ← iter_back d1; ok (buffer_len, buffer, d2, w1))
        else ok (buffer_len - bytes_left, buffer, d1, w1)
