-- ===== src/Faasm/FileDescriptor/Dirents/Rounds.antt =====
-- faasm, `copyDirentsToWasiBuffer` of src/storage/FileDescriptor.cpp: one round of its loop.
use mathlib.Core.List.{append_assoc, append-nil}
use tpfaas.Base.{
  ℕ, zero, suc, ◌+◌, ◌-◌, ◌≡◌, refl, sym, ap, ◌∙◌, ltb, Bool, true, false, List, [], ◌∷◌, ◌++◌,
  length, length-drop, drop, arith, if◌then◌else◌, Outcome, ok, fault, thrown, ◌>>=◌,
}
use tpfaas.Faasm.Host.{Constants, Os, StorageConf}
use tpfaas.Faasm.SharedFiles.{Store}
use tpfaas.Faasm.FileDescriptor.{FileDescriptor, DirEnt}
use tpfaas.Faasm.FileDescriptor.Dirents.{
  WasiDirent, iter_finished, iter_next, load_dir_contents, copy_loop,
}

-- The descriptor at another entry.
abbrev pub with_idx : FileDescriptor → ℕ → FileDescriptor
with_idx d n = record d { dir_contents_idx = n }

-- The entries from the current one on.
abbrev pub remaining : FileDescriptor → List DirEnt
remaining d = drop d.dir_contents_idx d.dir_contents

drop-suc :
    {A : Type 0} (n : ℕ) (xs : List A) (x : A) (rest : List A)
    → drop n xs ≡ x ∷ rest
    → drop (suc n) xs ≡ rest
drop-suc zero [] x rest e = cc
drop-suc (suc n) [] x rest e = cc
drop-suc zero (y ∷ xs) x rest e = cc
drop-suc (suc n) (y ∷ xs) x rest e = drop-suc n xs x rest e

pub drop-next :
    {A : Type 0} (n : ℕ) (xs : List A) (x : A) (rest : List A)
    → drop n xs ≡ x ∷ rest
    → drop (n + 1) xs ≡ rest
drop-next n xs x rest e =
    ap (λ (k : ℕ). drop k xs) {y = suc n} (omega arith) ∙ drop-suc n xs x rest e

module _ (c : Constants) (os : Os) (conf : StorageConf) (dirent : WasiDirent) where
  -- What `iterNext` does with contents that are there.
  abbrev entry_of : FileDescriptor × Store os → Outcome (DirEnt × FileDescriptor × Store os)
  entry_of (d1, w1) = elim (drop d1.dir_contents_idx d1.dir_contents) [
    | [] ↦ fault thrown
    | entry ∷ rest ↦ ok (entry, record d1 { dir_contents_idx = d1.dir_contents_idx + 1 }, w1)
  ]

  entry_lem :
      (d : FileDescriptor) (w : Store os) (e : DirEnt) (rest : List DirEnt)
      → remaining d ≡ e ∷ rest
      → entry_of (d, w) ≡ ok (e, with_idx d (d.dir_contents_idx + 1), w)
  entry_lem d w e rest left = rw (entry_of, left) refl

  next_lem :
      (d : FileDescriptor) (w : Store os) (e : DirEnt) (rest : List DirEnt)
      → d.dir_contents_loaded ≡ true
      → remaining d ≡ e ∷ rest
      → iter_next c os conf dirent d w ≡ ok (e, with_idx d (d.dir_contents_idx + 1), w)
  unfolding iter_next
  next_lem d w e rest is_loaded left =
      ap
        (λ (b : Bool).
          (if b then ok (d, w) else load_dir_contents c os conf dirent d w) >>= entry_of)
        is_loaded
      ∙ entry_lem d w e rest left

  finished_lem :
      (d : FileDescriptor)
      → d.dir_contents_loaded ≡ true
      → (remaining d ≡ [])
      → iter_finished d ≡ true
  unfolding iter_finished
  finished_lem d is_loaded nothing = ground (
    arith,
    is_loaded,
    length-drop d.dir_contents_idx d.dir_contents,
    ap (λ (l : List DirEnt). length l) nothing,
  )

  unfinished_lem :
      (d : FileDescriptor) (e : DirEnt) (rest : List DirEnt)
      → d.dir_contents_loaded ≡ true
      → (remaining d ≡ e ∷ rest)
      → iter_finished d ≡ false
  unfolding iter_finished
  unfinished_lem d e rest is_loaded left = ground (
    arith,
    is_loaded,
    length-drop d.dir_contents_idx d.dir_contents,
    ap (λ (l : List DirEnt). length l) left,
  )

  -- What one round does with an entry.
  abbrev entry_round :
      ℕ
      → ℕ
      → List ℕ
      → DirEnt × FileDescriptor × Store os
      → Outcome (Bool × ℕ × List ℕ × FileDescriptor × Store os)
  entry_round rounds bytes_left buffer (entry, d1, w1) =
      let header = buffer ++ dirent.bytes entry in
      let left = bytes_left - dirent.size in
      let rest =
        copy_loop c os conf dirent rounds d1 w1 (left - length entry.path) (header ++ entry.path) in
      if ltb bytes_left dirent.size
      then ok (true, bytes_left, buffer, d1, w1)
      else if ltb left (length entry.path)
      then ok (true, left, header, d1, w1)
      else rest

  pub loop-finished :
      (rounds : ℕ) (d : FileDescriptor) (w : Store os) (left : ℕ) (buffer : List ℕ)
      → d.dir_contents_loaded ≡ true
      → remaining d ≡ []
      → copy_loop c os conf dirent (suc rounds) d w left buffer
        ≡ ok (false, left, buffer ++ [], with_idx d (d.dir_contents_idx + 0 + 0), w)
  unfolding copy_loop
  loop-finished rounds d w left buffer is_loaded e =
      let fin = finished_lem d is_loaded e in
      rw (copy_loop, fin)
        (ap (λ (b : List ℕ). ok (false, left, b, d, w)) (sym (append-nil buffer))
          ∙ ap (λ (k : ℕ). ok (false, left, buffer ++ [], with_idx d k, w)) (omega arith))

  pub loop-entry :
      (rounds : ℕ) (d : FileDescriptor) (w : Store os) (left : ℕ) (buffer : List ℕ) (x : DirEnt)
      (entries : List DirEnt)
      → d.dir_contents_loaded ≡ true
      → remaining d ≡ x ∷ entries
      → copy_loop c os conf dirent (suc rounds) d w left buffer
        ≡ entry_round rounds left buffer (x, with_idx d (d.dir_contents_idx + 1), w)
  unfolding copy_loop
  loop-entry rounds d w left buffer x entries is_loaded e =
      ap
        (λ (b : Bool).
          if b
          then ok (false, left, buffer, d, w)
          else iter_next c os conf dirent d w >>= entry_round rounds left buffer)
        (unfinished_lem d x entries is_loaded e)
      ∙ ap
          (λ (m : Outcome (DirEnt × FileDescriptor × Store os)).
            m >>= entry_round rounds left buffer)
          (next_lem d w x entries is_loaded e)

  pub round-copied :
      (rounds left : ℕ) (buffer : List ℕ) (x : DirEnt) (d1 : FileDescriptor) (w : Store os)
      → ltb left dirent.size ≡ false
      → ltb (left - dirent.size) (length x.path) ≡ false
      → entry_round rounds left buffer (x, d1, w)
        ≡ copy_loop c os conf dirent rounds d1 w
            (left - dirent.size - length x.path)
            (buffer ++ (dirent.bytes x ++ x.path))
  round-copied rounds left buffer x d1 w header name =
      rw (entry_round, header, name)
        (ap
          (λ (b : List ℕ).
            copy_loop c os conf dirent rounds d1 w (left - dirent.size - length x.path) b)
          (append_assoc buffer (dirent.bytes x) x.path))
