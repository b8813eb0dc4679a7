-- ===== src/Faasm/SharedFiles/Again.antt =====
-- faasm, `syncSharedFile` of src/storage/SharedFiles.cpp: a file that was synchronised before.
use tpfaas.Base.{
  ℕ, ◌≡◌, refl, ◌∙◌, true, false, Bool-cases, inl, inr, String, [], ◌∷◌, if◌then◌else◌, Outcome, ok,
  fault,
}
use tpfaas.Faabric.Maps.{same, at, at-put}
use tpfaas.Faabric.Scheduler.Kept.{Holds}
use tpfaas.Faasm.Host.{Constants, Loaded, loaded, is_a_directory, load_failed, Os, StorageConf}
use tpfaas.Faasm.SharedFiles.{
  FileState, absent, not_checked, Store, return_value_for_state, is_absent, fetch_file, check_file,
  after_check, sync_shared_file, prepend_shared_root,
}

module _ (c : Constants) (os : Os) (conf : StorageConf) where
  abbrev Known : FileState × os.World → Type 0
  Known x = is_absent x.0 ≡ false

  fetch_file-Known :
      (world : os.World) (real_path : String) (l : Loaded)
      → Holds Known (fetch_file c os conf world real_path l)
  unfolding fetch_file is_absent
  fetch_file-Known world real_path is_a_directory = refl
  fetch_file-Known world real_path (loaded []) = refl
  fetch_file-Known world real_path (loaded (b ∷ bytes)) = refl
  fetch_file-Known world real_path load_failed = tt

  check_file-Known :
      (world : os.World) (shared_path real_path : String)
      → Holds Known (check_file c os conf world shared_path real_path)
  unfolding check_file is_absent
  check_file-Known world shared_path real_path = elim (Bool-cases (os.exists world real_path)) [
    | inl there ↦ elim (Bool-cases (os.is_directory world real_path)) [
      | inl dir ↦ rw (there, dir) refl
      | inr file ↦ rw (there, file) refl
    ]
    | inr missing ↦ rw missing (
        fetch_file-Known world real_path (os.load_shared_file world (os.remove_prefix shared_path)))
  ]

  -- What a second call finds.
  known_lem :
      (s : Store os) (shared_path local_path : String) (state : FileState)
      → at absent s.shared_file_map shared_path ≡ state
      → is_absent state ≡ false
      → sync_shared_file c os conf s shared_path local_path
        ≡ (ok (return_value_for_state c state), s)
  unfolding sync_shared_file
  known_lem s shared_path local_path state e known = rw (sync_shared_file, e, known) refl

  -- The answer for a file that was asked for before: after an exception, that it does not exist.
  abbrev pub again : Outcome ℕ → Outcome ℕ
  again (ok errno) = ok errno
  again (fault _) = ok c.enoent

  checked_lem :
      (s s2 : Store os) (shared_path local_path : String) (x : Outcome (FileState × os.World))
      → Holds Known x
      → at absent s2.shared_file_map shared_path
        ≡ at absent (after_check c os conf s shared_path x).1.shared_file_map shared_path
      → sync_shared_file c os conf s2 shared_path local_path
        ≡ (again (after_check c os conf s shared_path x).0, s2)
  unfolding after_check return_value_for_state is_absent
  checked_lem s s2 shared_path local_path (ok (state, world)) known kept =
      known_lem s2 shared_path local_path state
        (kept ∙ at-put absent s.shared_file_map shared_path state) known
  checked_lem s s2 shared_path local_path (fault f) known kept =
      known_lem s2 shared_path local_path not_checked
        (kept ∙ at-put absent s.shared_file_map shared_path not_checked) refl

  -- What a first call does.
  new_lem :
      (s : Store os) (shared_path local_path : String)
      → is_absent (at absent s.shared_file_map shared_path) ≡ true
      → sync_shared_file c os conf s shared_path local_path
        ≡ after_check c os conf s shared_path (
            check_file c os conf s.world shared_path (
              if same local_path ""
              then prepend_shared_root c os conf (os.remove_prefix shared_path)
              else local_path))
  unfolding sync_shared_file
  new_lem s shared_path local_path new = rw (sync_shared_file, new) refl

  -- A second `syncSharedFile` of a path, with whatever local path and whatever became of the files and of
  -- the entries of other paths since the first one, as long as the path has the entry that the first one
  -- left: it changes nothing and gives the answer of the first one; if an exception left the first one, it
  -- says that there is no file.
  pub synced_again :
      (s s2 : Store os) (shared_path local_path other_path : String)
      → at absent s2.shared_file_map shared_path
        ≡ at absent
            (sync_shared_file c os conf s shared_path local_path).1.shared_file_map
            shared_path
      → sync_shared_file c os conf s2 shared_path other_path
        ≡ (again (sync_shared_file c os conf s shared_path local_path).0, s2)
  synced_again s s2 shared_path local_path other_path =
      let state = at absent s.shared_file_map shared_path in
      elim (Bool-cases (is_absent state)) [
        | inl new ↦
            let real_path =
              if same local_path ""
              then prepend_shared_root c os conf (os.remove_prefix shared_path)
              else local_path in
            let first = new_lem s shared_path local_path new in
            rw first (
              checked_lem s s2 shared_path other_path
                (check_file c os conf s.world shared_path real_path)
                (check_file-Known s.world shared_path real_path))
        | inr known ↦
            let first = known_lem s shared_path local_path state refl known in
            rw first (λ kept. known_lem s2 shared_path other_path state kept known)
      ]
