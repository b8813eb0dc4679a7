-- ===== src/Faasm/FileSystem.antt =====
-- faasm: src/storage/FileSystem.cpp and include/storage/FileSystem.h, the descriptors of a module. A number
-- that a function passes for a descriptor is its 32 bits; `nextFd` has no bound.
pub mod Opened
pub mod Rights
pub mod Numbers
use tpfaas.Base.{
  ℕ, suc, ℤ, pos, negsuc, sub_ℕ, ◌+◌, ◌-◌, ◌==◌, Bool, true, false, not, String, List, [], ◌∷◌,
  ◌++◌, Option, none, some, is_some, if◌then◌else◌, Outcome, Fault, ok, fault, thrown, ◌>>=◌, ◌>>◌,
  throw_unless, ◌≡◌,
}
use tpfaas.Faabric.Maps.{same}
use tpfaas.Faasm.Bits.{bit_and}
use tpfaas.Faasm.Host.{Constants, Os, StorageConf}
use tpfaas.Faasm.SharedFiles.{Store, is_path_shared}
use tpfaas.Faasm.FileDescriptor.{
  FileDescriptor, new_descriptor, set_actual_rights, std_fd_factory, path_open, close_descriptor,
  duplicate,
}

abbrev pub Descriptors : Type 0
Descriptors = List (ℕ × FileDescriptor)

pub record FileSystem : Type 0 where
  pub next_fd : ℕ
  pub file_descriptors : Descriptors

-- `fileDescriptors` at a key, if it is there.
unfoldable pub descriptor_at : Descriptors → ℕ → Option FileDescriptor
descriptor_at [] fd = none
descriptor_at ((k, d) ∷ rest) fd = if k == fd then some d else descriptor_at rest fd

-- `emplace`: a key that is there keeps its descriptor.
unfoldable pub emplace : Descriptors → ℕ → FileDescriptor → Descriptors
unfolding descriptor_at
emplace ds fd d = if is_some (descriptor_at ds fd) then ds else ds ++ (fd, d) ∷ []

-- The descriptor at a key is changed, or made.
unfoldable pub put_descriptor : Descriptors → ℕ → FileDescriptor → Descriptors
put_descriptor [] fd d = (fd, d) ∷ []
put_descriptor ((k, e) ∷ rest) fd d =
    let changed = put_descriptor rest fd d in if k == fd then (k, d) ∷ rest else (k, e) ∷ changed

-- `fileDescriptorExists`
unfoldable pub file_descriptor_exists : FileSystem → ℕ → Bool
unfolding descriptor_at
file_descriptor_exists fs fd = is_some (descriptor_at fs.file_descriptors fd)

-- `getFileDescriptor`
unfoldable pub get_file_descriptor : FileSystem → ℕ → Outcome FileDescriptor
unfolding descriptor_at
get_file_descriptor fs fd = elim (descriptor_at fs.file_descriptors fd) [
  | none ↦ fault thrown
  | some d ↦ ok d
]

-- `getPathForFd`
unfoldable pub get_path_for_fd : FileSystem → ℕ → String
unfolding descriptor_at
get_path_for_fd fs fd = elim (descriptor_at fs.file_descriptors fd) [ none ↦ "" | some d ↦ d.path ]

-- `fileDescriptors[thisFd]`: the descriptor there, or a new one.
unfoldable pub descriptor_or_new : Descriptors → ℕ → FileDescriptor
unfolding descriptor_at new_descriptor
descriptor_or_new ds fd = elim (descriptor_at ds fd) [ none ↦ new_descriptor | some d ↦ d ]

module _ (c : Constants) (os : Os) (conf : StorageConf) where
  -- The path that `openFileDescriptor` opens.
  unfoldable pub full_path : FileDescriptor → String → String
  unfolding is_path_shared same
  full_path root relative_path =
      if is_path_shared relative_path
      then relative_path
      else if same root.path "."
      then relative_path
      else os.append_path root.path relative_path

  -- `createPreopenedFileDescriptor`
  unfoldable pub create_preopened_file_descriptor :
      FileSystem → Store os → ℕ → String → Outcome (FileSystem × Store os)
  unfolding new_descriptor set_actual_rights path_open emplace
  create_preopened_file_descriptor fs w fd path = do
    (success, d, w1) ←
        path_open c os conf
          (set_actual_rights (record new_descriptor { path = path }) c.directory_rights
            c.inheriting_directory_rights)
          w c.wasi_o_directory 0
    throw_unless success
    ok (
      record fs {
        file_descriptors =
            emplace fs.file_descriptors fd (record d { wasi_preopen_type = c.preopentype_dir });
      },
      w1,
    )

  -- `prepareFilesystem`, with what the preopen types of the standard descriptors happen to hold.
  unfoldable pub prepare_filesystem : ℕ → FileSystem → Store os → Outcome (FileSystem × Store os)
  unfolding emplace std_fd_factory create_preopened_file_descriptor
  prepare_filesystem garbage fs w = do
    let ds0 = emplace fs.file_descriptors 0 (std_fd_factory c garbage 0 "/dev/stdin")
    let ds1 = emplace ds0 1 (std_fd_factory c garbage 1 "/dev/stdout")
    let ds2 = emplace ds1 2 (std_fd_factory c garbage 2 "/dev/stderr")
    (fs1, w1) ← create_preopened_file_descriptor (record fs { file_descriptors = ds2 }) w 3 "/"
    (fs2, w2) ← create_preopened_file_descriptor fs1 w1 4 "."
    ok (record fs2 { next_fd = 5 }, w2)

  -- The descriptor that `openFileDescriptor` opens.
  unfoldable pub descriptor_to_open : FileSystem → FileDescriptor → String → ℕ → ℕ → FileDescriptor
  unfolding descriptor_or_new set_actual_rights full_path bit_and
  descriptor_to_open fs root relative_path rights_base rights_inheriting =
      set_actual_rights
        (record (descriptor_or_new fs.file_descriptors fs.next_fd) {
          path = full_path root relative_path;
        })
        (bit_and 64 rights_base root.actual_rights_inheriting)
        (bit_and 64 rights_inheriting root.actual_rights_inheriting)

  -- `openFileDescriptor`: the new number, or the error number below 0.
  unfoldable pub open_file_descriptor :
      FileSystem → Store os → ℕ → String → ℕ → ℕ → ℕ → ℕ → Outcome (ℤ × FileSystem × Store os)
  unfolding get_file_descriptor descriptor_to_open path_open put_descriptor
  open_file_descriptor fs w root_fd relative_path rights_base rights_inheriting open_flags
        fd_flags =
      do
        root ← get_file_descriptor fs root_fd
        (success, d, w1) ←
            path_open c os conf
              (descriptor_to_open fs root relative_path rights_base rights_inheriting) w open_flags
              fd_flags
        let fs1 : FileSystem = record {
          next_fd = fs.next_fd + 1;
          file_descriptors = put_descriptor fs.file_descriptors fs.next_fd d;
        }
        ok (if success then pos fs.next_fd else sub_ℕ 0 d.wasi_errno, fs1, w1)

  -- `FileSystem::dup`, with what it leaves: the number is taken before the descriptor is looked up.
  unfoldable pub dup_descriptor : FileSystem → Store os → ℕ → Outcome ℕ × FileSystem × Store os
  unfolding get_file_descriptor descriptor_or_new duplicate put_descriptor
  dup_descriptor fs w fd =
      let fs1 : FileSystem = record fs { next_fd = fs.next_fd + 1 } in
      elim (get_file_descriptor fs fd) [
        | fault f ↦ (fault f, fs1, w)
        | ok original ↦
            let (d, w1) =
              duplicate c os conf (descriptor_or_new fs.file_descriptors fs.next_fd) original w in
            (
              ok fs.next_fd,
              record fs1 { file_descriptors = put_descriptor fs.file_descriptors fs.next_fd d },
              w1,
            )
      ]

  -- The loop of `tearDown`.
  unfoldable pub close_all : Descriptors → Store os → Store os
  unfolding close_descriptor
  close_all [] w = w
  close_all ((fd, d) ∷ rest) w =
      close_all rest
        (if d.wasi_preopen_type == c.preopentype_dir then w else close_descriptor c os conf d w)

  -- `tearDown`
  unfoldable pub tear_down : FileSystem → Store os → Store os
  unfolding close_all
  tear_down fs w = close_all fs.file_descriptors w

  -- What an exception in `pathOpen` leaves of the descriptor: its path, its rights and its kind.
  pub record Partly (d d1 : FileDescriptor) : Type 0 where
    pub base : d1.actual_rights_base ≡ d.actual_rights_base
    pub inheriting : d1.actual_rights_inheriting ≡ d.actual_rights_inheriting
    pub preopen : d1.wasi_preopen_type ≡ d.wasi_preopen_type
    pub path : d1.path ≡ d.path

  -- What a function does to the descriptors that have rights: it opens one below another, or duplicates
  -- one, with a result or an exception. When `pathOpen` throws, the new descriptor stays, and nothing is
  -- said of its flags, error numbers and Linux descriptor.
  pub data FileStep : FileSystem × Store os → FileSystem × Store os → Type 0 where
    opens :
        (fs fs1 : FileSystem) (w w1 : Store os)
        (root_fd rights_base rights_inheriting open_flags fd_flags : ℕ) (relative_path : String)
        (result : ℤ)
        → open_file_descriptor fs w root_fd relative_path rights_base rights_inheriting open_flags
            fd_flags
          ≡ ok (result, fs1, w1)
        → FileStep (fs, w) (fs1, w1)
    opening_throws :
        (fs : FileSystem) (w w1 : Store os) (root d : FileDescriptor)
        (root_fd rights_base rights_inheriting open_flags fd_flags : ℕ) (relative_path : String)
        (f : Fault)
        → get_file_descriptor fs root_fd ≡ ok root
        → path_open c os conf
            (descriptor_to_open fs root relative_path rights_base rights_inheriting)
            w
            open_flags
            fd_flags
          ≡ fault f
        → Partly (descriptor_to_open fs root relative_path rights_base rights_inheriting) d
        → FileStep
            (fs, w)
            (
              record {
                next_fd = fs.next_fd + 1;
                file_descriptors = put_descriptor fs.file_descriptors fs.next_fd d;
              },
              w1,
            )
    dups :
        (fs fs1 : FileSystem) (w w1 : Store os) (fd : ℕ) (result : Outcome ℕ)
        → dup_descriptor fs w fd ≡ (result, fs1, w1)
        → FileStep (fs, w) (fs1, w1)

  -- Any number of these.
  pub data FileSteps : FileSystem × Store os → FileSystem × Store os → Type 0 where
    no_step : (x : FileSystem × Store os) → FileSteps x x
    one_step : (x y z : FileSystem × Store os) → FileStep x y → FileSteps y z → FileSteps x z
