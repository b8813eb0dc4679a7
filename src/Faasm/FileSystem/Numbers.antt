-- ===== src/Faasm/FileSystem/Numbers.antt =====
-- faasm, src/storage/FileSystem.cpp: the numbers of the descriptors, and what is closed in the end.
use tpfaas.Base.{
  ℕ, ◌+◌, ◌==◌, ◌<◌, ◌≡◌, refl, sym, ap, subst, ◌∙◌, arith, true, false, Bool-cases, inl, inr, ◌⊎◌,
  [], ◌∷◌, ◌++◌, none, some,
}
use tpfaas.Faasm.Host.{Constants, Os, StorageConf}
use tpfaas.Faasm.SharedFiles.{Store}
use tpfaas.Faasm.FileDescriptor.{FileDescriptor, new_descriptor}
use tpfaas.Faasm.FileSystem.{
  Descriptors, FileSystem, descriptor_at, put_descriptor, descriptor_or_new, close_all, tear_down,
  FileStep, opens, opening_throws, dups, FileSteps, no_step, one_step,
}
use tpfaas.Faasm.FileSystem.Rights.{opens_lem, throws_lem, dups_lem, put_descriptor_elsewhere}

-- All numbers in use are below this one.
abbrev pub Below : ℕ → Descriptors → Type 0
Below n [] = Unit {0}
Below n ((fd, d) ∷ rest) = (fd < n) × Below n rest

descriptor_at-Below : (n : ℕ) (ds : Descriptors) → Below n ds → descriptor_at ds n ≡ none
unfolding descriptor_at
descriptor_at-Below n [] below = refl
descriptor_at-Below n ((fd, d) ∷ rest) below =
    ground (arith, below.0, descriptor_at-Below n rest below.1)

Below-suc : (n : ℕ) (ds : Descriptors) → Below n ds → Below (n + 1) ds
Below-suc n [] below = tt
Below-suc n ((fd, d) ∷ rest) below = (omega (arith, below.0), Below-suc n rest below.1)

-- A descriptor with the next number comes behind the others.
put_descriptor-Below :
    (n : ℕ) (ds : Descriptors) (d : FileDescriptor)
    → Below n ds
    → (put_descriptor ds n d ≡ ds ++ (n, d) ∷ []) × Below (n + 1) (ds ++ (n, d) ∷ [])
unfolding put_descriptor
put_descriptor-Below n [] d below = (refl, (omega arith, tt))
put_descriptor-Below n ((fd, e) ∷ rest) d below =
    let other : (fd == n) ≡ false = ground (arith, below.0) in
    let (path, all) = put_descriptor-Below n rest d below.1 in
    (rw (put_descriptor, other) (ap (◌∷◌ (fd, e)) path), (omega (arith, below.0), all))

module _ (c : Constants) (os : Os) (conf : StorageConf) where
  -- A step that has put a new descriptor behind the others, of the kind 0.
  record Added (x y : FileSystem × Store os) : Type 0 where
    new : FileDescriptor
    kind : new.wasi_preopen_type ≡ 0
    next : y.0.next_fd ≡ x.0.next_fd + 1
    table : y.0.file_descriptors ≡ put_descriptor x.0.file_descriptors x.0.next_fd new

  -- A step that has only used up a number.
  record Skipped (x y : FileSystem × Store os) : Type 0 where
    next : y.0.next_fd ≡ x.0.next_fd + 1
    table : y.0.file_descriptors ≡ x.0.file_descriptors

  kind_lem :
      (fs : FileSystem)
      → Below fs.next_fd fs.file_descriptors
      → (descriptor_or_new fs.file_descriptors fs.next_fd).wasi_preopen_type ≡ 0
  unfolding descriptor_or_new new_descriptor
  kind_lem fs below =
      rw (descriptor_or_new, descriptor_at-Below fs.next_fd fs.file_descriptors below) refl

  FileStep-Added :
      (x y : FileSystem × Store os)
      → FileStep c os conf x y
      → Below x.0.next_fd x.0.file_descriptors
      → Added x y ⊎ Skipped x y
  FileStep-Added _ _
        (opens fs fs1 w w1 root_fd rights_base rights_inheriting open_flags fd_flags relative_path
          result e)
        below =
      let o =
        opens_lem c os conf fs fs1 w w1 root_fd rights_base rights_inheriting open_flags fd_flags
          relative_path result e in
      inl
        (record { new = o.new; kind = o.kind ∙ kind_lem fs below; next = o.next; table = o.table })
  FileStep-Added _ _
        (opening_throws fs w w1 root d root_fd rights_base rights_inheriting open_flags fd_flags
          relative_path f found _ left)
        below =
      let o =
        throws_lem c os conf fs root d root_fd rights_base rights_inheriting relative_path found
          left in
      inl
        (record { new = o.new; kind = o.kind ∙ kind_lem fs below; next = o.next; table = o.table })
  FileStep-Added _ _ (dups fs fs1 w w1 fd result e) below =
      elim (dups_lem c os conf fs fs1 w w1 fd result e) [
        | inl o ↦ inl (record {
          new = o.new;
          kind = o.kind ∙ kind_lem fs below;
          next = o.next;
          table = o.table;
        })
        | inr skipped ↦ inr (record {
          next = ap (λ (x : FileSystem). x.next_fd) skipped;
          table = ap (λ (x : FileSystem). x.file_descriptors) skipped;
        })
      ]

  FileStep-Below :
      (x y : FileSystem × Store os)
      → FileStep c os conf x y
      → Below x.0.next_fd x.0.file_descriptors
      → Below y.0.next_fd y.0.file_descriptors
  FileStep-Below x y step below = elim (FileStep-Added x y step below) [
    | inl a ↦
        let (path, all) = put_descriptor-Below x.0.next_fd x.0.file_descriptors a.new below in
        subst (λ (n : ℕ). Below n y.0.file_descriptors) (sym a.next)
          (subst (Below (x.0.next_fd + 1)) (sym (a.table ∙ path)) all)
    | inr a ↦
        subst (λ (n : ℕ). Below n y.0.file_descriptors) (sym a.next)
          (subst (Below (x.0.next_fd + 1)) (sym a.table)
            (Below-suc x.0.next_fd x.0.file_descriptors below))
  ]

  FileStep-stays :
      (x y : FileSystem × Store os) (fd : ℕ) (d : FileDescriptor)
      → FileStep c os conf x y
      → Below x.0.next_fd x.0.file_descriptors
      → descriptor_at x.0.file_descriptors fd ≡ some d
      → descriptor_at y.0.file_descriptors fd ≡ some d
  FileStep-stays x y fd d step below there = elim (FileStep-Added x y step below) [
    | inl a ↦ elim (Bool-cases (x.0.next_fd == fd)) [
      | inl hit ↦
          let same_fd : x.0.next_fd ≡ fd = ground (arith, hit) in
          let none_there =
            subst (λ (n : ℕ). descriptor_at x.0.file_descriptors n ≡ none) same_fd
              (descriptor_at-Below x.0.next_fd x.0.file_descriptors below) in
          absurd (cc (none_there, there))
      | inr miss ↦
          ap (λ (ds : Descriptors). descriptor_at ds fd) a.table
          ∙ put_descriptor_elsewhere x.0.file_descriptors x.0.next_fd fd a.new miss
          ∙ there
    ]
    | inr a ↦ ap (λ (ds : Descriptors). descriptor_at ds fd) a.table ∙ there
  ]

  -- If all numbers in use are below the next one, then whatever a function opens and duplicates, with
  -- results or exceptions, the next number is not in use, and every descriptor stays as it was.
  pub descriptors_stay :
      (x y : FileSystem × Store os) (fd : ℕ) (d : FileDescriptor)
      → Below x.0.next_fd x.0.file_descriptors
      → descriptor_at x.0.file_descriptors fd ≡ some d
      → FileSteps c os conf x y
      → (descriptor_at y.0.file_descriptors y.0.next_fd ≡ none)
        × (descriptor_at y.0.file_descriptors fd ≡ some d)
  descriptors_stay x _ fd d below there (no_step _) =
      (descriptor_at-Below x.0.next_fd x.0.file_descriptors below, there)
  descriptors_stay x z fd d below there (one_step _ y _ step steps) =
      descriptors_stay y z fd d (FileStep-Below x y step below)
        (FileStep-stays x y fd d step below there) steps

  close_all-end :
      (ds : Descriptors) (fd : ℕ) (d : FileDescriptor) (w : Store os)
      → c.preopentype_dir ≡ 0
      → d.wasi_preopen_type ≡ 0
      → close_all c os conf (ds ++ (fd, d) ∷ []) w ≡ close_all c os conf ds w
  unfolding close_all
  close_all-end [] fd d w dir kind =
      let skipped : (d.wasi_preopen_type == c.preopentype_dir) ≡ true = ground (arith, dir, kind) in
      rw (close_all, skipped) refl
  close_all-end ((k, e) ∷ ds) fd d w dir kind = close_all-end ds fd d _ dir kind

  -- Where the number of the preopened kind is 0, as in WASI: `tearDown` closes just what it would have
  -- closed before a function opened and duplicated descriptors, with results or exceptions, and none of
  -- theirs.
  pub never_closed :
      (x y : FileSystem × Store os) (w : Store os)
      → c.preopentype_dir ≡ 0
      → Below x.0.next_fd x.0.file_descriptors
      → FileSteps c os conf x y
      → tear_down c os conf y.0 w ≡ tear_down c os conf x.0 w
  unfolding tear_down
  never_closed x _ w dir below (no_step _) = refl
  never_closed x z w dir below (one_step _ y _ step steps) =
      let rest = never_closed y z w dir (FileStep-Below x y step below) steps in
      elim (FileStep-Added x y step below) [
        | inl a ↦
            let path = (put_descriptor-Below x.0.next_fd x.0.file_descriptors a.new below).0 in
            rest
            ∙ ap (λ (ds : Descriptors). close_all c os conf ds w) (a.table ∙ path)
            ∙ close_all-end x.0.file_descriptors x.0.next_fd a.new w dir a.kind
        | inr a ↦ rest ∙ ap (λ (ds : Descriptors). close_all c os conf ds w) a.table
      ]
