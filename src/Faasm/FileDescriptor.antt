-- ===== src/Faasm/FileDescriptor.antt =====
-- faasm: src/storage/FileDescriptor.cpp and include/storage/FileDescriptor.h: a descriptor, the flags and
-- the modes, and opening and changing what it stands for. Its directory iterator is in Dirents, the
-- operations on paths are in Paths.
pub mod Dirents
pub mod Modes
pub mod Paths
use tpfaas.Base.{
  ℕ, ℤ, pos, negsuc, ltb, ◌-◌, ◌^◌, ◌%◌, ◌==◌, Bool, true, false, not, ◌&&◌, String, List, [], ◌∷◌,
  arith, if◌then◌else◌, Outcome, ok, fault, thrown, ◌>>=◌, ◌>>◌, throw_unless, ltb_ℤ,
}
use tpfaas.Faabric.Maps.{same}
use tpfaas.Faasm.Bits.{bit_or, has_bits}
use tpfaas.Faasm.Host.{Constants, SysResult, done, failed, Os, StorageConf}
use tpfaas.Faasm.SharedFiles.{Store, is_path_shared, real_path_for_shared_file, sync_shared_file}

pub data OpenMode : Type 0 where
  create directory excl trunc no_mode : OpenMode

pub data ReadWriteType : Type 0 where
  read_only read_write write_only no_read_write custom : ReadWriteType

pub record DirEnt : Type 0 where
  pub next : ℕ
  pub type : ℕ
  pub ino : ℕ
  pub path : List ℕ

-- The `int`s `linuxMode` and `linuxFlags` are their 32 bits.
pub record FileDescriptor : Type 0 where
  pub path : String
  pub wasi_preopen_type : ℕ
  pub rights_set : Bool
  pub actual_rights_base : ℕ
  pub actual_rights_inheriting : ℕ
  pub linux_fd : ℤ
  pub linux_mode : ℕ
  pub linux_flags : ℕ
  pub linux_errno : ℕ
  pub wasi_errno : ℕ
  pub dir_contents_loaded : Bool
  pub dir_contents : List DirEnt
  pub dir_contents_idx : ℕ

-- -1 as an `int`
abbrev minus_one : ℕ
minus_one = 2 ^ 32 - 1

-- A descriptor that is made by `FileDescriptor()`, whose members without an initialiser are 0.
unfoldable pub new_descriptor : FileDescriptor
new_descriptor = record {
  path = "";
  wasi_preopen_type = 0;
  rights_set = false;
  actual_rights_base = 0;
  actual_rights_inheriting = 0;
  linux_fd = negsuc 0;
  linux_mode = minus_one;
  linux_flags = minus_one;
  linux_errno = 0;
  wasi_errno = 0;
  dir_contents_loaded = false;
  dir_contents = [];
  dir_contents_idx = 0;
}

-- `setActualRights`
unfoldable pub set_actual_rights : FileDescriptor → ℕ → ℕ → FileDescriptor
set_actual_rights d rights inheriting = record d {
  actual_rights_base = rights;
  actual_rights_inheriting = inheriting;
  rights_set = true;
}

-- `a | b` on 64 bits
abbrev or : ℕ → ℕ → ℕ
or a b = bit_or 64 a b

module _ (c : Constants) where
  abbrev rights_write : ℕ
  rights_write = or c.right_fd_datasync (
      or c.right_fd_write
        (or c.right_fd_allocate (or c.right_fd_filestat_set_size c.right_path_create_file)))

  abbrev rights_read : ℕ
  rights_read =
      or c.right_fd_readdir
        (or c.right_fd_read (or c.right_fd_seek (or c.right_fd_tell c.right_path_open)))

  abbrev known_fd_flags : ℕ
  known_fd_flags =
      or c.fdflag_rsync
        (or c.fdflag_append (or c.fdflag_dsync (or c.fdflag_sync c.fdflag_nonblock)))

  -- `if (fdFlags & flag) result |= linuxFlag;`
  unfoldable pub add_flag : ℕ → ℕ → ℕ → ℕ → ℕ
  unfolding has_bits bit_or
  add_flag fd_flags flag linux_flag result =
      if has_bits fd_flags flag then bit_or 64 result linux_flag else result

  -- `wasiFdFlagsToLinux`
  unfoldable pub wasi_fd_flags_to_linux : ℕ → Outcome ℕ
  unfolding add_flag has_bits bit_or
  wasi_fd_flags_to_linux fd_flags =
      if fd_flags == 0
      then ok 0
      else if has_bits fd_flags known_fd_flags
      then ok (
          add_flag fd_flags c.fdflag_nonblock c.o_nonblock (
            add_flag fd_flags c.fdflag_sync c.o_sync (
              add_flag fd_flags c.fdflag_dsync c.o_dsync (
                add_flag fd_flags c.fdflag_append c.o_append
                  (add_flag fd_flags c.fdflag_rsync c.o_rsync 0)))))
      else fault thrown

  -- `getOpenMode`
  unfoldable pub get_open_mode : ℕ → Outcome OpenMode
  unfolding has_bits
  get_open_mode open_flags =
      if has_bits open_flags c.wasi_o_creat
      then ok create
      else if has_bits open_flags c.wasi_o_directory
      then ok directory
      else if has_bits open_flags c.wasi_o_trunc
      then ok trunc
      else if has_bits open_flags c.wasi_o_excl
      then ok excl
      else if open_flags == 0
      then ok no_mode
      else fault thrown

  -- `getRwType`
  unfoldable pub get_rw_type : ℕ → ReadWriteType
  unfolding has_bits bit_or
  get_rw_type rights =
      let can_read = has_bits rights rights_read in
      let can_write = has_bits rights rights_write in
      if can_read && can_write
      then read_write
      else if can_read
      then read_only
      else if not can_read && can_write
      then write_only
      else if rights == 0
      then no_read_write
      else custom

  -- `errnoToWasi`
  unfoldable pub errno_to_wasi : ℕ → Outcome ℕ
  errno_to_wasi e =
      if e == c.eperm
      then ok c.wasi_eperm
      else if e == c.enoent
      then ok c.wasi_enoent
      else if e == c.eio
      then ok c.wasi_eio
      else if e == c.ebadf
      then ok c.wasi_ebadf
      else if e == c.enomem
      then ok c.wasi_enomem
      else if e == c.eacces
      then ok c.wasi_eacces
      else if e == c.eexist
      then ok c.wasi_eexist
      else if e == c.enotdir
      then ok c.wasi_enotdir
      else if e == c.eisdir
      then ok c.wasi_eisdir
      else if e == c.einval
      then ok c.wasi_einval
      else if e == c.emfile
      then ok c.wasi_emfile
      else fault thrown

  -- `stdFdFactory`, with what its preopen type happens to hold.
  unfoldable pub std_fd_factory : ℕ → ℕ → String → FileDescriptor
  unfolding new_descriptor set_actual_rights bit_or
  std_fd_factory garbage std_fd dev_path =
      let rights = or c.right_fd_read (
        or c.right_fd_fdstat_set_flags
          (or c.right_fd_write (or c.right_fd_filestat_get c.right_poll_fd_readwrite))) in
      record (set_actual_rights (record new_descriptor { path = dev_path }) rights rights) {
        linux_fd = pos std_fd;
        wasi_preopen_type = garbage;
      }

  -- The access mode with which `pathOpen` opens.
  unfoldable pub access_flags : OpenMode → ReadWriteType → Outcome ℕ
  access_flags directory rw = ok c.o_rdonly
  access_flags mode read_write = ok c.o_rdwr
  access_flags mode write_only = ok c.o_wronly
  access_flags mode read_only = ok c.o_rdonly
  access_flags mode no_read_write = ok 0
  access_flags mode custom = fault thrown

  -- The flags and the mode of the file that the open mode asks for.
  unfoldable pub mode_flags : OpenMode → ℕ → ℕ × ℕ
  unfolding bit_or
  mode_flags create access = (or access c.o_creat, or c.s_irwxu (or c.s_irgrp c.s_iroth))
  mode_flags directory access = (or access c.o_directory, 0)
  mode_flags trunc access = (or access c.o_trunc, 0)
  mode_flags excl access = (or access c.o_excl, 0)
  mode_flags no_mode access = (access, 0)

module _ (c : Constants) (os : Os) (conf : StorageConf) where
  -- `prependRuntimeRoot`
  unfoldable pub prepend_runtime_root : String → String
  prepend_runtime_root path = os.append_path conf.runtime_files_dir path

  -- What `pathOpen` keeps of the result of `open`.
  unfoldable pub opened :
      FileDescriptor → Store os → SysResult ℕ → Outcome (Bool × FileDescriptor × Store os)
  unfolding errno_to_wasi
  opened d w (done fd) = ok (true, record d { linux_fd = pos fd }, w)
  opened d w (failed errno) = do
    e ← errno_to_wasi c errno
    ok (false, record d { linux_fd = negsuc 0; linux_errno = errno; wasi_errno = e }, w)

  -- The call of `open` in `pathOpen`, and what it leaves.
  unfoldable pub open_real_path :
      FileDescriptor → Store os → String → Outcome (Bool × FileDescriptor × Store os)
  unfolding opened same
  open_real_path d w real_path =
      let (result, world) =
        if same real_path "/dev/urandom"
        then os.open_file w.world "/dev/urandom" 0 0
        else if same real_path "/dev/null"
        then os.open_file w.world "/dev/null" 0 0
        else os.open_file w.world real_path d.linux_flags d.linux_mode in
      opened d (record w { world = world }) result

  -- The part of `pathOpen` that finds the local file.
  unfoldable pub open_path : FileDescriptor → Store os → Outcome (Bool × FileDescriptor × Store os)
  unfolding is_path_shared sync_shared_file real_path_for_shared_file prepend_runtime_root
      errno_to_wasi open_real_path
  open_path d w =
      if is_path_shared d.path
      then (let (synced, w1) = sync_shared_file c os conf w d.path "" in
          do
            errno ← synced
            if errno == 0
                then open_real_path (record d { linux_errno = 0 }) w1
                    (real_path_for_shared_file c os conf d.path)
                else (do
                  e ← errno_to_wasi c errno
                  ok (
                    false,
                    record d { linux_errno = errno; linux_fd = negsuc 0; wasi_errno = e },
                    w1,
                  )))
      else open_real_path d w (prepend_runtime_root d.path)

  -- `pathOpen`; the lookup flags are not read.
  unfoldable pub path_open :
      FileDescriptor → Store os → ℕ → ℕ → Outcome (Bool × FileDescriptor × Store os)
  unfolding get_open_mode get_rw_type access_flags mode_flags wasi_fd_flags_to_linux open_path
      bit_or
  path_open d w open_flags fd_flags = do
    throw_unless d.rights_set
    mode ← get_open_mode c (open_flags % 2 ^ 16)
    access ← access_flags c mode (get_rw_type c d.actual_rights_base)
    let (flags, linux_mode) = mode_flags c mode access
    more ← wasi_fd_flags_to_linux c fd_flags
    open_path (record d { linux_flags = or flags more; linux_mode = linux_mode }) w

  -- `updateFlags`
  unfoldable pub update_flags :
      FileDescriptor → Store os → ℕ → Outcome (Bool × FileDescriptor × Store os)
  unfolding wasi_fd_flags_to_linux errno_to_wasi bit_or
  update_flags d w fd_flags = do
    new_flags ← wasi_fd_flags_to_linux c fd_flags
    let (result, world) = os.set_flags w.world d.linux_fd new_flags
    elim result [
      | done _ ↦
          ok (
            true,
            record d { linux_flags = or d.linux_flags new_flags },
            record w { world = world },
          )
      | failed errno ↦ do
        e ← errno_to_wasi c errno
        ok (false, record d { wasi_errno = e }, record w { world = world })
    ]

  -- `close`
  unfoldable pub close_descriptor : FileDescriptor → Store os → Store os
  close_descriptor d w =
      if ltb_ℤ (pos 0) d.linux_fd then record w { world = os.close w.world d.linux_fd } else w

  -- `duplicate`: the descriptor that is made of another one. A failing `dup` leaves -1.
  unfoldable pub duplicate : FileDescriptor → FileDescriptor → Store os → FileDescriptor × Store os
  duplicate d other w =
      let (result, world) = os.dup w.world other.linux_fd in
      (
        record other {
          wasi_preopen_type = d.wasi_preopen_type;
          wasi_errno = d.wasi_errno;
          linux_fd = elim result [ done fd ↦ pos fd | failed _ ↦ negsuc 0 ];
        },
        record w { world = world },
      )

  -- `seek`: the error number for the caller, and the new offset.
  unfoldable pub seek : FileDescriptor → Store os → ℤ → ℕ → ℕ → Outcome (ℕ × ℕ × Store os)
  unfolding errno_to_wasi
  seek d w offset wasi_whence old_offset = do
    linux_whence ←
        (if wasi_whence == c.whence_set
          then ok c.seek_set
          else if wasi_whence == c.whence_cur
          then ok c.seek_cur
          else if wasi_whence == c.whence_end
          then ok c.seek_end
          else fault thrown)
    let (result, world) = os.lseek w.world d.linux_fd offset linux_whence
    elim result [
      | done new_offset ↦ ok (0, new_offset, record w { world = world })
      | failed errno ↦ do e ← errno_to_wasi c errno; ok (e, old_offset, record w { world = world })
    ]
