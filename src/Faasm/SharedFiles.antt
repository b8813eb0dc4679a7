-- ===== src/Faasm/SharedFiles.antt =====
-- faasm: src/storage/SharedFiles.cpp, with the file system and the loader as parameters.
pub mod Again
use text.Mathlib.Text.{starts_with}
use tpfaas.Base.{
  ℕ, Bool, true, false, ltb, String, List, [], ◌∷◌, ◌≡◌, refl, if◌then◌else◌, Outcome, ok, fault,
  thrown, Bool-cases, inl, inr,
}
use tpfaas.Faabric.Maps.{same, at, put, at-put}
use tpfaas.Faasm.Host.{Constants, Loaded, loaded, is_a_directory, load_failed, Os, StorageConf}

-- `FileState`; `absent` stands for a path that is not in the map.
pub data FileState : Type 0 where
  absent not_checked not_exists exists_dir exists : FileState

-- What the file descriptors share: the map of shared files, and the operating system.
pub record Store (os : Os) : Type 0 where
  pub shared_file_map : List (String × FileState)
  pub world : os.World

-- `SHARED_FILE_PREFIX`
unfoldable pub shared_file_prefix : String
shared_file_prefix = "faasm://"

-- `isPathShared`
unfoldable pub is_path_shared : String → Bool
unfolding shared_file_prefix
is_path_shared p = starts_with p shared_file_prefix

-- `getReturnValueForSharedFileState`, less the entry that `operator[]` makes, since both of its callers
-- have one.
unfoldable pub return_value_for_state : Constants → FileState → ℕ
return_value_for_state constants absent = constants.enoent
return_value_for_state constants not_checked = constants.enoent
return_value_for_state constants not_exists = constants.enoent
return_value_for_state constants exists_dir = 0
return_value_for_state constants exists = 0

unfoldable pub is_absent : FileState → Bool
is_absent absent = true
is_absent not_checked = false
is_absent not_exists = false
is_absent exists_dir = false
is_absent exists = false

module _ (constants : Constants) (os : Os) (conf : StorageConf) where
  -- `prependSharedRoot`
  unfoldable pub prepend_shared_root : String → String
  prepend_shared_root path = os.append_path conf.shared_files_dir path

  -- `realPathForSharedFile`
  unfoldable pub real_path_for_shared_file : String → String
  unfolding prepend_shared_root
  real_path_for_shared_file path = prepend_shared_root (os.remove_prefix path)

  -- The state of a file that is not on the host, when the loader has answered, and what is written.
  unfoldable pub fetch_file : os.World → String → Loaded → Outcome (FileState × os.World)
  fetch_file world real_path is_a_directory = ok (exists_dir, os.create_directories world real_path)
  fetch_file world real_path (loaded []) = ok (not_exists, world)
  fetch_file world real_path (loaded (b ∷ bytes)) =
      ok (exists, os.write_bytes (os.create_parents world real_path) real_path (b ∷ bytes))
  fetch_file world real_path load_failed = fault thrown

  -- The state of a file that was not checked before.
  unfoldable pub check_file : os.World → String → String → Outcome (FileState × os.World)
  unfolding fetch_file
  check_file world shared_path real_path =
      if os.exists world real_path
      then ok (if os.is_directory world real_path then exists_dir else exists, world)
      else fetch_file world real_path (os.load_shared_file world (os.remove_prefix shared_path))

  -- What a check leaves: an exception leaves the entry that was made before it.
  unfoldable pub after_check :
      Store os → String → Outcome (FileState × os.World) → Outcome ℕ × Store os
  unfolding put return_value_for_state
  after_check s shared_path (ok (state, world)) = (
    ok (return_value_for_state constants state),
    record { shared_file_map = put s.shared_file_map shared_path state; world = world },
  )
  after_check s shared_path (fault e) =
      (fault e, record s { shared_file_map = put s.shared_file_map shared_path not_checked })

  -- `syncSharedFile`: the error number, or the exception, and the store.
  unfoldable pub sync_shared_file : Store os → String → String → Outcome ℕ × Store os
  unfolding at is_absent return_value_for_state prepend_shared_root check_file after_check same
  sync_shared_file s shared_path local_path =
      let state = at absent s.shared_file_map shared_path in
      let real_path =
        if same local_path ""
        then prepend_shared_root (os.remove_prefix shared_path)
        else local_path in
      if is_absent state
      then after_check s shared_path (check_file s.world shared_path real_path)
      else (ok (return_value_for_state constants state), s)

  -- `clear`, and `clearSharedFiles` of src/storage/FileSystem.cpp.
  unfoldable pub clear_shared_files : Store os → Store os
  clear_shared_files s = record {
    shared_file_map = [];
    world = os.remove_all s.world conf.shared_files_dir;
  }
