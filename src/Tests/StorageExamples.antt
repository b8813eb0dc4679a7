-- ===== src/Tests/StorageExamples.antt =====
-- Runs of the model of faasm's storage.
use tpfaas.Base.{
  ℕ, pos, ◌+◌, ◌/◌, ◌==◌, ◌≡◌, refl, arith, true, false, List, [], ◌∷◌, ◌++◌, length, replicate,
  none, some, ok,
}
use tpfaas.Faabric.Maps.{joined, same, at, put}
use tpfaas.Faasm.Bits.{bit}
use tpfaas.Faasm.Host.{Constants, done, failed, load_failed, Os, StorageConf}
use tpfaas.Faasm.SharedFiles.{Store, sync_shared_file}
use tpfaas.Faasm.SharedFiles.Again.{again, synced_again}
use tpfaas.Faasm.FileDescriptor.{FileDescriptor, DirEnt, new_descriptor, duplicate}
use tpfaas.Faasm.FileDescriptor.Dirents.{WasiDirent, copy_dirents_to_wasi_buffer}
use tpfaas.Faasm.FileDescriptor.Dirents.Rounds.{with_idx}
use tpfaas.Faasm.FileDescriptor.Dirents.Pages.{Page, copy_dirents_to_wasi_buffer-Page}
use tpfaas.Faasm.FileDescriptor.Dirents.Listing.{read_listing, Pages, listing_completes}
use tpfaas.Faasm.FileSystem.{
  FileSystem, descriptor_at, dup_descriptor, get_file_descriptor, descriptor_or_new, put_descriptor,
  tear_down, dups, FileSteps, no_step, one_step,
}
use tpfaas.Faasm.FileSystem.Rights.{rights_never_grow, AllLack}
use tpfaas.Faasm.FileSystem.Numbers.{descriptors_stay, never_closed}

-- The numbers of wasi-libc and of Linux on x86-64, with few rights for directories.
abbrev linux : Constants
linux = record {
  fdflag_rsync = 8;
  fdflag_append = 1;
  fdflag_dsync = 2;
  fdflag_sync = 16;
  fdflag_nonblock = 4;
  wasi_o_creat = 1;
  wasi_o_directory = 2;
  wasi_o_trunc = 8;
  wasi_o_excl = 4;
  o_rsync = 1052672;
  o_append = 1024;
  o_dsync = 4096;
  o_sync = 1052672;
  o_nonblock = 2048;
  o_creat = 64;
  o_directory = 65536;
  o_trunc = 512;
  o_excl = 128;
  o_rdonly = 0;
  o_rdwr = 2;
  o_wronly = 1;
  s_irwxu = 448;
  s_irgrp = 32;
  s_iroth = 4;
  right_fd_datasync = 1;
  right_fd_write = 64;
  right_fd_allocate = 256;
  right_fd_filestat_set_size = 4194304;
  right_path_create_file = 1024;
  right_fd_readdir = 16384;
  right_fd_read = 2;
  right_fd_seek = 4;
  right_fd_tell = 32;
  right_path_open = 8192;
  right_fd_fdstat_set_flags = 8;
  right_fd_filestat_get = 2097152;
  right_poll_fd_readwrite = 134217728;
  directory_rights = 8192;
  inheriting_directory_rights = 66;
  preopentype_dir = 0;
  eperm = 1;
  enoent = 2;
  eio = 5;
  ebadf = 9;
  enomem = 12;
  eacces = 13;
  eexist = 17;
  enotdir = 20;
  eisdir = 21;
  einval = 22;
  emfile = 24;
  wasi_eperm = 63;
  wasi_enoent = 44;
  wasi_eio = 29;
  wasi_ebadf = 8;
  wasi_enomem = 48;
  wasi_eacces = 2;
  wasi_eexist = 20;
  wasi_enotdir = 54;
  wasi_eisdir = 31;
  wasi_einval = 28;
  wasi_emfile = 33;
  whence_set = 0;
  whence_cur = 1;
  whence_end = 2;
  seek_set = 0;
  seek_cur = 1;
  seek_end = 2;
  filetype_character_device = 2;
  filetype_regular_file = 4;
  filetype_block_device = 1;
  filetype_directory = 3;
  filetype_symbolic_link = 7;
  s_isreg = λ mode. mode / 4096 == 8;
  s_isblk = λ mode. mode / 4096 == 6;
  s_isdir = λ mode. mode / 4096 == 4;
  s_islnk = λ mode. mode / 4096 == 10;
  s_ischr = λ mode. mode / 4096 == 2;
}

-- An operating system that opens everything with the next number, and has one file in each directory.
abbrev small_os : Os
small_os = record {
  World = ℕ;
  open_file = λ w path flags mode. (done w, w + 1);
  close = λ w fd. w;
  dup = λ w fd. (done w, w + 1);
  read_dir = λ w path. some (record { d_type = 8; d_ino = 5; d_name = 97 ∷ [] } ∷ []);
  mkdir = λ w path mode. (done tt, w);
  set_flags = λ w fd flags. (done tt, w);
  unlink = λ w path. (done tt, w);
  rmdir = λ w path. (done tt, w);
  rename = λ w from to. (failed 2, w);
  fstat = λ w fd. failed 9;
  stat = λ w path. failed 2;
  lseek = λ w fd offset whence. (done 0, w);
  readlink = λ w path len. failed 22;
  exists = λ w path. false;
  is_directory = λ w path. false;
  create_directories = λ w path. w;
  create_parents = λ w path. w;
  write_bytes = λ w path bytes. w;
  remove_all = λ w path. w;
  load_shared_file = λ w path. load_failed;
  append_path = λ base path. joined (joined base "/") path;
  remove_prefix = λ path. path;
}

abbrev conf : StorageConf
conf = record { runtime_files_dir = "/runtime"; shared_files_dir = "/shared" }

abbrev start : Store small_os
start = record { shared_file_map = []; world = 7 }

abbrev root_dir : FileDescriptor
root_dir = record new_descriptor {
  path = ".";
  rights_set = true;
  actual_rights_base = 8192;
  actual_rights_inheriting = 66;
  linux_fd = pos 6;
}

abbrev two_roots : FileSystem
two_roots = record { next_fd = 5; file_descriptors = (4, root_dir) ∷ [] }

-- The store after a first call, when the world is another one and a second file has been asked for.
abbrev later_store : Store small_os
later_store =
    let s1 = (sync_shared_file linux small_os conf start "faasm://a" "").1 in
    let s2 = (sync_shared_file linux small_os conf s1 "faasm://b" "").1 in record s2 { world = 99 }

synced_again_example : sync_shared_file linux small_os conf later_store "faasm://a" "/tmp" ≡ (
  again linux small_os conf (sync_shared_file linux small_os conf start "faasm://a" "").0,
  later_store,
)
unfolding sync_shared_file same at put
synced_again_example = synced_again linux small_os conf start later_store "faasm://a" "" "/tmp" refl

-- A header with its numbers and twenty bytes of 0.
abbrev header : WasiDirent
header = record {
  size = 24;
  bytes = λ d. d.next ∷ d.ino ∷ length d.path ∷ d.type ∷ replicate 20 0;
  length-bytes = λ d. refl;
  size_positive = omega arith;
}

abbrev entry : ℕ → DirEnt
entry n = record { next = n; type = 8; ino = n; path = 97 ∷ [] }

abbrev listed : FileDescriptor
listed = record root_dir {
  dir_contents_loaded = true;
  dir_contents = entry 1 ∷ entry 2 ∷ entry 3 ∷ [];
}

copy_dirents_to_wasi_buffer-Page_example :
    (front rest : List DirEnt) × (result : ℕ) × (copied : List ℕ) × (copy_dirents_to_wasi_buffer
        linux small_os conf header listed start 60
      ≡ ok (result, copied, with_idx listed (0 + length front), start))
    × (entry 1 ∷ entry 2 ∷ entry 3 ∷ [] ≡ front ++ rest)
    × Page linux small_os conf header 60 front rest result copied
unfolding new_descriptor
copy_dirents_to_wasi_buffer-Page_example =
    copy_dirents_to_wasi_buffer-Page linux small_os conf header listed start 60 refl

listing_completes_example :
    (pages : List (List ℕ)) × (read_listing linux small_os conf header 4 listed start 60
      ≡ ok (pages, with_idx listed 3, start))
    × Pages linux small_os conf header 60 (entry 1 ∷ entry 2 ∷ entry 3 ∷ []) pages
unfolding new_descriptor
listing_completes_example =
    listing_completes linux small_os conf header 4 listed start 60 refl (omega arith)
      (omega arith, (omega arith, (omega arith, tt))) (omega arith)

abbrev dup_of_root : FileDescriptor
dup_of_root = record root_dir { linux_fd = pos 7 }

abbrev two_dirs : FileSystem
two_dirs = record { next_fd = 6; file_descriptors = (4, root_dir) ∷ (5, dup_of_root) ∷ [] }

abbrev after_dup : Store small_os
after_dup = record { shared_file_map = []; world = 8 }

dup_of_root_lem : dup_descriptor linux small_os conf two_roots start 4 ≡ (ok 5, two_dirs, after_dup)
unfolding dup_descriptor get_file_descriptor descriptor_at descriptor_or_new new_descriptor
    duplicate put_descriptor
dup_of_root_lem = refl

one_dup : FileSteps linux small_os conf (two_roots, start) (two_dirs, after_dup)
one_dup =
    one_step (two_roots, start) (two_dirs, after_dup) (two_dirs, after_dup)
      (dups two_roots two_dirs start after_dup 4 (ok 5) dup_of_root_lem)
      (no_step (two_dirs, after_dup))

rights_never_grow_example : AllLack linux small_os conf 2 two_dirs.file_descriptors
unfolding bit
rights_never_grow_example =
    rights_never_grow linux small_os conf 2 (two_roots, start) (two_dirs, after_dup) one_dup
      ((refl, refl), tt)

descriptors_stay_example :
    (descriptor_at two_dirs.file_descriptors 6 ≡ none)
    × (descriptor_at two_dirs.file_descriptors 4 ≡ some root_dir)
unfolding descriptor_at
descriptors_stay_example =
    descriptors_stay linux small_os conf (two_roots, start) (two_dirs, after_dup) 4 root_dir
      (omega arith, tt) refl one_dup

never_closed_example :
    tear_down linux small_os conf two_dirs start ≡ tear_down linux small_os conf two_roots start
never_closed_example =
    never_closed linux small_os conf (two_roots, start) (two_dirs, after_dup) start refl
      (omega arith, tt) one_dup

-- What is left when "a" is opened below the root, with the right to read.
abbrev opened_a : FileDescriptor
opened_a = record new_descriptor {
  path = "a";
  rights_set = true;
  actual_rights_base = 2;
  actual_rights_inheriting = 2;
  linux_fd = pos 7;
  linux_mode = 0;
  linux_flags = 65536;
}
