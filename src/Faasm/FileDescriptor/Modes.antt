-- ===== src/Faasm/FileDescriptor/Modes.antt =====
-- faasm, `pathOpen` of src/storage/FileDescriptor.cpp: what it makes of open flags that are combined.
use tpfaas.Base.{
  ℕ, ◌%◌, ◌^◌, ◌≡◌, refl, ap, ◌∙◌, sym, Bool, true, Outcome, ok, ◌>>=◌, ◌>>◌, throw_unless,
}
use tpfaas.Faasm.Bits.{bit_or, has_bits}
use tpfaas.Faasm.Host.{Constants, Os, StorageConf}
use tpfaas.Faasm.SharedFiles.{Store}
use tpfaas.Faasm.FileDescriptor.{
  FileDescriptor, OpenMode, create, get_open_mode, path_open, access_flags, get_rw_type, mode_flags,
  wasi_fd_flags_to_linux, open_path,
}

create_lem :
    (c : Constants) (open_flags : ℕ)
    → has_bits open_flags c.wasi_o_creat ≡ true
    → get_open_mode c open_flags ≡ ok create
unfolding get_open_mode
create_lem c open_flags creates = rw (get_open_mode, creates) refl

module _ (c : Constants) (os : Os) (conf : StorageConf) where
  -- `pathOpen` once it knows the open mode.
  abbrev open_in_mode :
      FileDescriptor → Store os → ℕ → OpenMode → Outcome (Bool × FileDescriptor × Store os)
  open_in_mode d w fd_flags mode = do
    access ← access_flags c mode (get_rw_type c d.actual_rights_base)
    let (flags, linux_mode) = mode_flags c mode access
    more ← wasi_fd_flags_to_linux c fd_flags
    open_path c os conf (record d { linux_flags = bit_or 64 flags more; linux_mode = linux_mode }) w

  mode_lem :
      (d : FileDescriptor) (w : Store os) (open_flags fd_flags : ℕ)
      → has_bits (open_flags % 2 ^ 16) c.wasi_o_creat ≡ true
      → path_open c os conf d w open_flags fd_flags
        ≡ (throw_unless d.rights_set >> open_in_mode d w fd_flags create)
  unfolding path_open
  mode_lem d w open_flags fd_flags creates =
      ap (λ (m : Outcome OpenMode). throw_unless d.rights_set >> (m >>= open_in_mode d w fd_flags))
        (create_lem c (open_flags % 2 ^ 16) creates)

  -- Two sets of open flags that both ask to create the file open it alike: whether they ask to truncate
  -- it, to fail if it is there, or for a directory, makes no difference.
  pub create_hides_the_rest :
      (d : FileDescriptor) (w : Store os) (open_flags other_flags fd_flags : ℕ)
      → has_bits (open_flags % 2 ^ 16) c.wasi_o_creat ≡ true
      → has_bits (other_flags % 2 ^ 16) c.wasi_o_creat ≡ true
      → path_open c os conf d w open_flags fd_flags ≡ path_open c os conf d w other_flags fd_flags
  create_hides_the_rest d w open_flags other_flags fd_flags creates other_creates =
      mode_lem d w open_flags fd_flags creates
      ∙ sym (mode_lem d w other_flags fd_flags other_creates)
