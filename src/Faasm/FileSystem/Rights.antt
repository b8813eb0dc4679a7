-- ===== src/Faasm/FileSystem/Rights.antt =====
-- faasm, src/storage/FileSystem.cpp: the rights of the descriptors that a function opens.
use tpfaas.Base.{
  ℕ, ℤ, ◌+◌, ◌==◌, ◌≤◌, ◌≡◌, refl, sym, ap, subst, ◌∙◌, arith, false, Bool-cases, inl, inr, ◌⊎◌,
  Option-cases, String, [], ◌∷◌, Option, none, some, Outcome, ok, fault, thrown, bind-ok,
}
use tpfaas.Faasm.Bits.{bit, bit_and, bit-bit_and}
use tpfaas.Faasm.Host.{Constants, Os, StorageConf}
use tpfaas.Faasm.SharedFiles.{Store}
use tpfaas.Faasm.FileDescriptor.{FileDescriptor, path_open, set_actual_rights, duplicate}
use tpfaas.Faasm.FileSystem.{
  Descriptors, FileSystem, descriptor_at, put_descriptor, get_file_descriptor, descriptor_to_open,
  descriptor_or_new, open_file_descriptor, dup_descriptor, FileStep, Partly, opens, opening_throws,
  dups, FileSteps, no_step, one_step,
}
use tpfaas.Faasm.FileSystem.Opened.{path_open_kept}

-- Looking up where a descriptor was put, and elsewhere.
pub descriptor_at-put_descriptor :
    (ds : Descriptors) (fd : ℕ) (d : FileDescriptor)
    → descriptor_at (put_descriptor ds fd d) fd ≡ some d
unfolding descriptor_at put_descriptor
descriptor_at-put_descriptor [] fd d = ground arith
descriptor_at-put_descriptor ((k, e) ∷ rest) fd d =
    ground (arith, descriptor_at-put_descriptor rest fd d)

pub put_descriptor_elsewhere :
    (ds : Descriptors) (fd k : ℕ) (d : FileDescriptor)
    → (fd == k) ≡ false
    → descriptor_at (put_descriptor ds fd d) k ≡ descriptor_at ds k
unfolding descriptor_at put_descriptor
put_descriptor_elsewhere [] fd k d h = ground arith
put_descriptor_elsewhere ((j, e) ∷ rest) fd k d h = elim (Bool-cases (j == fd)) [
  | inl hit ↦
      let other : (j == k) ≡ false = ground (arith, hit, h) in rw (hit, descriptor_at, other) refl
  | inr miss ↦ ground (arith, put_descriptor_elsewhere rest fd k d h)
]

module _ (c : Constants) (os : Os) (conf : StorageConf) where
  -- What a successful call of `openFileDescriptor` has done.
  pub record Opens (fs : FileSystem) (root_fd rights_base rights_inheriting : ℕ) (fs1 : FileSystem)
      : Type 0 where
    pub root : FileDescriptor
    pub root_there : descriptor_at fs.file_descriptors root_fd ≡ some root
    pub new : FileDescriptor
    pub base : new.actual_rights_base ≡ bit_and 64 rights_base root.actual_rights_inheriting
    pub inheriting :
        new.actual_rights_inheriting ≡ bit_and 64 rights_inheriting root.actual_rights_inheriting
    pub kind :
        new.wasi_preopen_type ≡ (descriptor_or_new fs.file_descriptors fs.next_fd).wasi_preopen_type
    pub next : fs1.next_fd ≡ fs.next_fd + 1
    pub table : fs1.file_descriptors ≡ put_descriptor fs.file_descriptors fs.next_fd new

  -- The file system that is returned.
  abbrev fs_of : {R : Type 0} → FileSystem → Outcome (R × FileSystem × Store os) → FileSystem
  fs_of fs (ok (_, fs1, _)) = fs1
  fs_of fs (fault _) = fs

  found_lem :
      (o : Option FileDescriptor) (d : FileDescriptor)
      → (elim o [ none ↦ fault thrown | some d1 ↦ ok d1 ]) ≡ ok d
      → o ≡ some d
  found_lem none d e = cc
  found_lem (some d1) d e = cc

  pub opens_lem :
      (fs fs1 : FileSystem) (w w1 : Store os)
      (root_fd rights_base rights_inheriting open_flags fd_flags : ℕ) (relative_path : String)
      (result : ℤ)
      → open_file_descriptor c os conf fs w root_fd relative_path rights_base rights_inheriting
          open_flags fd_flags
        ≡ ok (result, fs1, w1)
      → Opens fs root_fd rights_base rights_inheriting fs1
  unfolding open_file_descriptor get_file_descriptor descriptor_to_open set_actual_rights
  opens_lem fs fs1 w w1 root_fd rights_base rights_inheriting open_flags fd_flags relative_path
        result e =
      let (root, found, opened) = bind-ok (get_file_descriptor fs root_fd) _ (result, fs1, w1) e in
      let ((success, d, w2), opening, finishes) =
        bind-ok
          (path_open c os conf
            (descriptor_to_open c os conf fs root relative_path rights_base rights_inheriting) w
            open_flags fd_flags)
          _ (result, fs1, w1) opened in
      let kept =
        path_open_kept c os conf
          (descriptor_to_open c os conf fs root relative_path rights_base rights_inheriting) d w w2
          open_flags fd_flags success opening in
      let same_fs = ap (fs_of fs) finishes in
      record {
        root = root;
        root_there = found_lem (descriptor_at fs.file_descriptors root_fd) root found;
        new = d;
        base = kept.base;
        inheriting = kept.inheriting;
        kind = kept.preopen;
        next = ap (λ (x : FileSystem). x.next_fd) (sym same_fs);
        table = ap (λ (x : FileSystem). x.file_descriptors) (sym same_fs);
      }

  -- What is there after an exception in `pathOpen`.
  pub throws_lem :
      (fs : FileSystem) (root d : FileDescriptor) (root_fd rights_base rights_inheriting : ℕ)
      (relative_path : String)
      → get_file_descriptor fs root_fd ≡ ok root
      → Partly c os conf
          (descriptor_to_open c os conf fs root relative_path rights_base rights_inheriting)
          d
      → Opens fs root_fd rights_base rights_inheriting (record {
        next_fd = fs.next_fd + 1;
        file_descriptors = put_descriptor fs.file_descriptors fs.next_fd d;
      })
  unfolding get_file_descriptor descriptor_to_open set_actual_rights
  throws_lem fs root d root_fd rights_base rights_inheriting relative_path found left = record {
    root = root;
    root_there = found_lem (descriptor_at fs.file_descriptors root_fd) root found;
    new = d;
    base = left.base;
    inheriting = left.inheriting;
    kind = left.preopen;
    next = refl;
    table = refl;
  }

  -- What a call of `dup` that returns has done.
  pub record Dups (fs : FileSystem) (fd : ℕ) (fs1 : FileSystem) : Type 0 where
    pub original : FileDescriptor
    pub original_there : descriptor_at fs.file_descriptors fd ≡ some original
    pub new : FileDescriptor
    pub base : new.actual_rights_base ≡ original.actual_rights_base
    pub inheriting : new.actual_rights_inheriting ≡ original.actual_rights_inheriting
    pub kind :
        new.wasi_preopen_type ≡ (descriptor_or_new fs.file_descriptors fs.next_fd).wasi_preopen_type
    pub next : fs1.next_fd ≡ fs.next_fd + 1
    pub table : fs1.file_descriptors ≡ put_descriptor fs.file_descriptors fs.next_fd new

  abbrev fs_in : Outcome ℕ × FileSystem × Store os → FileSystem
  fs_in x = x.1

  -- A call of `dup` adds a descriptor, or only uses up a number.
  pub dups_lem :
      (fs fs1 : FileSystem) (w w1 : Store os) (fd : ℕ) (result : Outcome ℕ)
      → dup_descriptor c os conf fs w fd ≡ (result, fs1, w1)
      → Dups fs fd fs1 ⊎ (fs1 ≡ record fs { next_fd = fs.next_fd + 1 })
  unfolding dup_descriptor get_file_descriptor duplicate
  dups_lem fs fs1 w w1 fd result e = elim (Option-cases (descriptor_at fs.file_descriptors fd)) [
    | inl missing ↦ inr (sym (ap fs_in (rw (dup_descriptor, missing) at e)))
    | inr (original, there) ↦
        let same_fs = ap fs_in (rw (dup_descriptor, there) at e) in
        inl (record {
          original = original;
          original_there = there;
          new =
              (duplicate c os conf (descriptor_or_new fs.file_descriptors fs.next_fd) original w).0;
          base = refl;
          inheriting = refl;
          kind = refl;
          next = ap (λ (x : FileSystem). x.next_fd) (sym same_fs);
          table = ap (λ (x : FileSystem). x.file_descriptors) (sym same_fs);
        })
  ]

  -- When `openFileDescriptor` returns, with a number or an error, a descriptor stands at the next number;
  -- each of its rights, and of those that it passes on, is one that the descriptor that it was opened
  -- below passes on.
  pub opened_rights :
      (fs fs1 : FileSystem) (w w1 : Store os)
      (root_fd rights_base rights_inheriting open_flags fd_flags i : ℕ) (relative_path : String)
      (result : ℤ) (root : FileDescriptor)
      → descriptor_at fs.file_descriptors root_fd ≡ some root
      → open_file_descriptor c os conf fs w root_fd relative_path rights_base rights_inheriting
          open_flags fd_flags
        ≡ ok (result, fs1, w1)
      → (d : FileDescriptor) × (descriptor_at fs1.file_descriptors fs.next_fd ≡ some d)
        × (bit i d.actual_rights_base ≤ bit i root.actual_rights_inheriting)
        × (bit i d.actual_rights_inheriting ≤ bit i root.actual_rights_inheriting)
  opened_rights fs fs1 w w1 root_fd rights_base rights_inheriting open_flags fd_flags i
        relative_path result root there e =
      let o =
        opens_lem fs fs1 w w1 root_fd rights_base rights_inheriting open_flags fd_flags
          relative_path result e in
      let same_root : o.root ≡ root = cc (o.root_there, there) in
      let inh = ap (λ (d : FileDescriptor). d.actual_rights_inheriting) same_root in
      (
        o.new,
        ap (λ (ds : Descriptors). descriptor_at ds fs.next_fd) o.table
            ∙ descriptor_at-put_descriptor fs.file_descriptors fs.next_fd o.new,
        subst (λ (n : ℕ). bit i o.new.actual_rights_base ≤ bit i n) inh
            (subst (λ (n : ℕ). bit i n ≤ bit i o.root.actual_rights_inheriting) (sym o.base)
              (bit-bit_and 64 i rights_base o.root.actual_rights_inheriting)),
        subst (λ (n : ℕ). bit i o.new.actual_rights_inheriting ≤ bit i n) inh
            (subst (λ (n : ℕ). bit i n ≤ bit i o.root.actual_rights_inheriting) (sym o.inheriting)
              (bit-bit_and 64 i rights_inheriting o.root.actual_rights_inheriting)),
      )

  -- No descriptor has the right, or passes it on.
  abbrev pub Lacks : ℕ → FileDescriptor → Type 0
  Lacks i d = (bit i d.actual_rights_base ≡ 0) × (bit i d.actual_rights_inheriting ≡ 0)

  abbrev pub AllLack : ℕ → Descriptors → Type 0
  AllLack i [] = Unit {0}
  AllLack i ((fd, d) ∷ rest) = Lacks i d × AllLack i rest

  AllLack-put_descriptor :
      (i : ℕ) (ds : Descriptors) (fd : ℕ) (d : FileDescriptor)
      → Lacks i d
      → AllLack i ds
      → AllLack i (put_descriptor ds fd d)
  unfolding put_descriptor
  AllLack-put_descriptor i [] fd d lacks all = (lacks, tt)
  AllLack-put_descriptor i ((k, e) ∷ rest) fd d lacks all = elim (Bool-cases (k == fd)) [
    | inl hit ↦ rw hit (lacks, all.1)
    | inr miss ↦ rw miss (all.0, AllLack-put_descriptor i rest fd d lacks all.1)
  ]

  some_inj : (x d : FileDescriptor) → some x ≡ some d → x ≡ d
  some_inj x d e = cc

  AllLack-descriptor_at :
      (i : ℕ) (ds : Descriptors) (fd : ℕ) (d : FileDescriptor)
      → descriptor_at ds fd ≡ some d
      → AllLack i ds
      → Lacks i d
  unfolding descriptor_at
  AllLack-descriptor_at i [] fd d e all = cc
  AllLack-descriptor_at i ((k, x) ∷ rest) fd d e all = elim (Bool-cases (k == fd)) [
    | inl hit ↦ let found : x ≡ d = some_inj x d (rw hit at e) in subst (Lacks i) found all.0
    | inr miss ↦ AllLack-descriptor_at i rest fd d (rw miss at e) all.1
  ]

  Opens-AllLack :
      (i : ℕ) (fs fs1 : FileSystem) (root_fd rights_base rights_inheriting : ℕ)
      → Opens fs root_fd rights_base rights_inheriting fs1
      → AllLack i fs.file_descriptors
      → AllLack i fs1.file_descriptors
  Opens-AllLack i fs fs1 root_fd rights_base rights_inheriting o all =
      let root_lacks =
        AllLack-descriptor_at i fs.file_descriptors root_fd o.root o.root_there all in
      let none_of : (requested : ℕ)
          → bit i (bit_and 64 requested o.root.actual_rights_inheriting) ≡ 0 =
        λ requested.
          omega (arith, bit-bit_and 64 i requested o.root.actual_rights_inheriting, root_lacks.1) in
      subst (AllLack i) (sym o.table) (
        AllLack-put_descriptor i fs.file_descriptors fs.next_fd o.new
          (
            ap (bit i) o.base ∙ none_of rights_base,
            ap (bit i) o.inheriting ∙ none_of rights_inheriting,
          )
          all)

  FileStep-AllLack :
      (i : ℕ) (x y : FileSystem × Store os)
      → FileStep c os conf x y
      → AllLack i x.0.file_descriptors
      → AllLack i y.0.file_descriptors
  FileStep-AllLack i _ _
        (opens fs fs1 w w1 root_fd rights_base rights_inheriting open_flags fd_flags relative_path
          result e)
        all =
      Opens-AllLack i fs fs1 root_fd rights_base rights_inheriting
        (opens_lem fs fs1 w w1 root_fd rights_base rights_inheriting open_flags fd_flags
          relative_path result e)
        all
  FileStep-AllLack i _ _
        (opening_throws fs w w1 root d root_fd rights_base rights_inheriting open_flags fd_flags
          relative_path f found _ left)
        all =
      Opens-AllLack i fs _ root_fd rights_base rights_inheriting
        (throws_lem fs root d root_fd rights_base rights_inheriting relative_path found left) all
  FileStep-AllLack i _ _ (dups fs fs1 w w1 fd result e) all =
      elim (dups_lem fs fs1 w w1 fd result e) [
        | inl o ↦
            let lacks =
              AllLack-descriptor_at i fs.file_descriptors fd o.original o.original_there all in
            subst (AllLack i) (sym o.table) (
              AllLack-put_descriptor i fs.file_descriptors fs.next_fd o.new
                (ap (bit i) o.base ∙ lacks.0, ap (bit i) o.inheriting ∙ lacks.1) all)
        | inr skipped ↦ subst (λ (x : FileSystem). AllLack i x.file_descriptors) (sym skipped) all
      ]

  -- A right that no descriptor has or passes on is one that no descriptor ever has or passes on, whatever a
  -- function opens and duplicates, with results or exceptions, and whatever rights it asks for.
  pub rights_never_grow :
      (i : ℕ) (x y : FileSystem × Store os)
      → FileSteps c os conf x y
      → AllLack i x.0.file_descriptors
      → AllLack i y.0.file_descriptors
  rights_never_grow i x _ (no_step _) all = all
  rights_never_grow i x z (one_step _ y _ step steps) all =
      rights_never_grow i y z steps (FileStep-AllLack i x y step all)
