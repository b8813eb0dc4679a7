-- ===== src/Faasm/Host.antt =====
-- What the storage of faasm takes from outside of the repository: the numbers of the WASI and of the
-- Linux interface, the calls of the operating system with boost's paths, and the loader of shared files.
use tpfaas.Base.{ℕ, ℤ, Bool, String, List, Option}

-- The constants of WASI (WASIABI.h, WASIPrivate.h) and of Linux (fcntl.h, errno.h, sys/stat.h).
pub record Constants : Type 0 where
  pub fdflag_rsync : ℕ
  pub fdflag_append : ℕ
  pub fdflag_dsync : ℕ
  pub fdflag_sync : ℕ
  pub fdflag_nonblock : ℕ
  pub wasi_o_creat : ℕ
  pub wasi_o_directory : ℕ
  pub wasi_o_trunc : ℕ
  pub wasi_o_excl : ℕ
  pub o_rsync : ℕ
  pub o_append : ℕ
  pub o_dsync : ℕ
  pub o_sync : ℕ
  pub o_nonblock : ℕ
  pub o_creat : ℕ
  pub o_directory : ℕ
  pub o_trunc : ℕ
  pub o_excl : ℕ
  pub o_rdonly : ℕ
  pub o_rdwr : ℕ
  pub o_wronly : ℕ
  pub s_irwxu : ℕ
  pub s_irgrp : ℕ
  pub s_iroth : ℕ
  pub right_fd_datasync : ℕ
  pub right_fd_write : ℕ
  pub right_fd_allocate : ℕ
  pub right_fd_filestat_set_size : ℕ
  pub right_path_create_file : ℕ
  pub right_fd_readdir : ℕ
  pub right_fd_read : ℕ
  pub right_fd_seek : ℕ
  pub right_fd_tell : ℕ
  pub right_path_open : ℕ
  pub right_fd_fdstat_set_flags : ℕ
  pub right_fd_filestat_get : ℕ
  pub right_poll_fd_readwrite : ℕ
  pub directory_rights : ℕ
  pub inheriting_directory_rights : ℕ
  pub preopentype_dir : ℕ
  pub eperm : ℕ
  pub enoent : ℕ
  pub eio : ℕ
  pub ebadf : ℕ
  pub enomem : ℕ
  pub eacces : ℕ
  pub eexist : ℕ
  pub enotdir : ℕ
  pub eisdir : ℕ
  pub einval : ℕ
  pub emfile : ℕ
  pub wasi_eperm : ℕ
  pub wasi_enoent : ℕ
  pub wasi_eio : ℕ
  pub wasi_ebadf : ℕ
  pub wasi_enomem : ℕ
  pub wasi_eacces : ℕ
  pub wasi_eexist : ℕ
  pub wasi_enotdir : ℕ
  pub wasi_eisdir : ℕ
  pub wasi_einval : ℕ
  pub wasi_emfile : ℕ
  pub whence_set : ℕ
  pub whence_cur : ℕ
  pub whence_end : ℕ
  pub seek_set : ℕ
  pub seek_cur : ℕ
  pub seek_end : ℕ
  pub filetype_character_device : ℕ
  pub filetype_regular_file : ℕ
  pub filetype_block_device : ℕ
  pub filetype_directory : ℕ
  pub filetype_symbolic_link : ℕ
  pub s_isreg : ℕ → Bool
  pub s_isblk : ℕ → Bool
  pub s_isdir : ℕ → Bool
  pub s_islnk : ℕ → Bool
  pub s_ischr : ℕ → Bool

-- The result of a call of the operating system: a value, or the error number that it leaves.
pub data SysResult {ℓ} (A : Type ℓ) : Type ℓ where
  done : A → SysResult A
  failed : (errno : ℕ) → SysResult A

-- `struct stat`, with its times in nanoseconds.
pub record NativeStat : Type 0 where
  pub st_dev : ℕ
  pub st_ino : ℕ
  pub st_nlink : ℕ
  pub st_size : ℕ
  pub st_mode : ℕ
  pub st_atim : ℕ
  pub st_mtim : ℕ
  pub st_ctim : ℕ

-- `struct dirent`
pub record NativeDirent : Type 0 where
  pub d_type : ℕ
  pub d_ino : ℕ
  pub d_name : List ℕ

-- What `loadSharedFile` does: it returns bytes, says that the file is a directory, or throws something
-- else.
pub data Loaded : Type 0 where
  loaded : (bytes : List ℕ) → Loaded
  is_a_directory : Loaded
  load_failed : Loaded

-- The operating system, its state being `World`.
pub record Os : Type 1 where
  pub World : Type 0
  pub open_file : World → String → ℕ → ℕ → SysResult ℕ × World
  pub close : World → ℤ → World
  pub dup : World → ℤ → SysResult ℕ × World
  pub read_dir : World → String → Option (List NativeDirent)
  pub mkdir : World → String → ℕ → SysResult (Unit {0}) × World
  pub set_flags : World → ℤ → ℕ → SysResult (Unit {0}) × World
  pub unlink : World → String → SysResult (Unit {0}) × World
  pub rmdir : World → String → SysResult (Unit {0}) × World
  pub rename : World → String → String → SysResult (Unit {0}) × World
  pub fstat : World → ℤ → SysResult NativeStat
  pub stat : World → String → SysResult NativeStat
  pub lseek : World → ℤ → ℤ → ℕ → SysResult ℕ × World
  pub readlink : World → String → ℕ → SysResult (List ℕ)
  pub exists : World → String → Bool
  pub is_directory : World → String → Bool
  pub create_directories : World → String → World
  pub create_parents : World → String → World
  pub write_bytes : World → String → List ℕ → World
  pub remove_all : World → String → World
  pub load_shared_file : World → String → Loaded
  pub append_path : String → String → String
  pub remove_prefix : String → String

-- The configuration that the storage reads.
pub record StorageConf : Type 0 where
  pub runtime_files_dir : String
  pub shared_files_dir : String
