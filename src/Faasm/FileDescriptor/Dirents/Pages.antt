-- ===== src/Faasm/FileDescriptor/Dirents/Pages.antt =====
-- faasm, `copyDirentsToWasiBuffer` of src/storage/FileDescriptor.cpp: what one call copies.
use mathlib.Core.List.{append_assoc, append-nil}
use tpfaas.Base.{
  ℕ, zero, suc, ◌+◌, ◌-◌, ◌≤◌, ◌<◌, ◌≡◌, refl, sym, ap, ◌∙◌, ltb, ◌==◌, Bool, true, false,
  Bool-cases, ◌⊎◌, inl, inr, List, [], ◌∷◌, ◌++◌, length, length-append, arith, if◌then◌else◌,
  Outcome, ok, throw_unless, not, subst, ◌>>=◌, ◌>>◌,
}
use tpfaas.Faasm.Host.{Constants, Os, StorageConf}
use tpfaas.Faasm.SharedFiles.{Store}
use tpfaas.Faasm.FileDescriptor.{FileDescriptor, DirEnt}
use tpfaas.Faasm.FileDescriptor.Dirents.{
  WasiDirent, iter_back, copy_loop, copy_dirents_to_wasi_buffer,
}
use tpfaas.Faasm.FileDescriptor.Dirents.Rounds.{
  with_idx, remaining, drop-next, loop-finished, loop-entry, round-copied,
}

module _ (c : Constants) (os : Os) (conf : StorageConf) (dirent : WasiDirent) where
  -- The entries as they stand in a buffer: each header with its name behind it.
  abbrev pub encoded : List DirEnt → List ℕ
  encoded [] = []
  encoded (e ∷ entries) = (dirent.bytes e ++ e.path) ++ encoded entries

  -- One call with a buffer: the entries before and behind those that it copies whole, its result and what
  -- it copies. Either it copies all, or the next one does not fit, and at most its header is copied.
  pub data Page (buffer_len : ℕ) : List DirEnt → List DirEnt → ℕ → List ℕ → Type 0 where
    all_copied :
        (front : List DirEnt)
        → length (encoded front) ≤ buffer_len
        → Page buffer_len front [] (length (encoded front)) (encoded front)
    filled :
        (front rest : List DirEnt) (x : DirEnt) (tail : List ℕ)
        → (tail ≡ []) ⊎ (tail ≡ dirent.bytes x)
        → length (encoded front ++ tail) ≤ buffer_len
        → buffer_len < length (encoded front) + (dirent.size + length x.path)
        → Page buffer_len front (x ∷ rest) buffer_len (encoded front ++ tail)

  -- How the loop ends that has this many bytes left: whether the buffer is full, what is left, and what is
  -- copied.
  data LoopEnd (left : ℕ) : List DirEnt → List DirEnt → Bool → ℕ → List ℕ → Type 0 where
    all_done :
        (front : List DirEnt) (left1 : ℕ)
        → left1 + length (encoded front) ≡ left
        → LoopEnd left front [] false left1 (encoded front)
    too_long :
        (front rest : List DirEnt) (x : DirEnt) (tail : List ℕ) (left1 : ℕ)
        → (tail ≡ []) ⊎ (tail ≡ dirent.bytes x)
        → left1 + length (encoded front ++ tail) ≡ left
        → left < length (encoded front) + (dirent.size + length x.path)
        → LoopEnd left front (x ∷ rest) true left1 (encoded front ++ tail)

  encoded-length :
      (e : DirEnt) (l : List ℕ)
      → length ((dirent.bytes e ++ e.path) ++ l) ≡ dirent.size + length e.path + length l
  encoded-length e l = omega (
    arith,
    length-append (dirent.bytes e ++ e.path) l,
    length-append (dirent.bytes e) e.path,
    dirent.length-bytes e,
  )

  -- One more entry before those that are copied.
  one_before :
      (e : DirEnt) (left left1 : ℕ) (front rest : List DirEnt) (full : Bool) (copied : List ℕ)
      → LoopEnd left front rest full left1 copied
      → LoopEnd
          (dirent.size + length e.path + left)
          (e ∷ front)
          rest
          full
          left1
          ((dirent.bytes e ++ e.path) ++ copied)
  one_before e left left1 front _ _ _ (all_done _ _ sum) =
      all_done (e ∷ front) left1 (omega (arith, sum, encoded-length e (encoded front)))
  one_before e left left1 front _ _ _ (too_long _ rest x tail _ partial sum long) =
      subst (LoopEnd (dirent.size + length e.path + left) (e ∷ front) (x ∷ rest) true left1)
        (append_assoc (dirent.bytes e ++ e.path) (encoded front) tail)
        (too_long (e ∷ front) rest x tail left1 partial
          (omega (
            arith,
            sum,
            ap (λ (l : List ℕ). length l)
                (append_assoc (dirent.bytes e ++ e.path) (encoded front) tail),
            encoded-length e (encoded front ++ tail),
          ))
          (omega (arith, long, encoded-length e (encoded front))))

  -- How far the iterator is behind the entries that are copied whole.
  abbrev one_more : Bool → ℕ
  one_more true = 1
  one_more false = 0

  result_lem :
      (full : Bool) (left1 : ℕ) (b b1 : List ℕ) (d : FileDescriptor) (n n1 : ℕ) (w : Store os)
      → b ≡ b1
      → n ≡ n1
      → ◌≡◌ {A = Outcome (Bool × ℕ × List ℕ × FileDescriptor × Store os)}
          (ok (full, left1, b, with_idx d n, w))
          (ok (full, left1, b1, with_idx d n1, w))
  result_lem full left1 b b1 d n n1 w e f = cc

  -- What the loop does from an entry of the directory on.
  abbrev Loops : ℕ → FileDescriptor → Store os → ℕ → List ℕ → List DirEnt → Type 0
  Loops rounds d w left buffer entries =
      (front rest : List DirEnt) × (full : Bool) × (left1 : ℕ) × (copied : List ℕ) × (copy_loop c os
          conf dirent rounds d w left buffer
        ≡ ok (
          full,
          left1,
          buffer ++ copied,
          with_idx d (d.dir_contents_idx + length front + one_more full),
          w,
        ))
      × (entries ≡ front ++ rest)
      × LoopEnd left front rest full left1 copied

  -- Not even the header of the entry fits.
  header_too_long :
      (rounds : ℕ) (d : FileDescriptor) (w : Store os) (left : ℕ) (buffer : List ℕ) (x : DirEnt)
      (entries : List DirEnt)
      → d.dir_contents_loaded ≡ true
      → remaining d ≡ x ∷ entries
      → ltb left dirent.size ≡ true
      → Loops (suc rounds) d w left buffer (x ∷ entries)
  header_too_long rounds d w left buffer x entries is_loaded e no_header = (
    [],
    x ∷ entries,
    true,
    left,
    [],
    loop-entry c os conf dirent rounds d w left buffer x entries is_loaded e
        ∙ rw (no_header) (
            ap (λ (b : List ℕ). ok (true, left, b, with_idx d (d.dir_contents_idx + 1), w))
              (sym (append-nil buffer))
            ∙ ap (λ (k : ℕ). ok (true, left, buffer ++ [], with_idx d k, w)) (omega arith)),
    refl,
    too_long [] entries x [] left (inl refl) (omega arith) (ground (arith, no_header)),
  )

  -- The header of the entry fits, and its name does not.
  name_too_long :
      (rounds : ℕ) (d : FileDescriptor) (w : Store os) (left : ℕ) (buffer : List ℕ) (x : DirEnt)
      (entries : List DirEnt)
      → d.dir_contents_loaded ≡ true
      → remaining d ≡ x ∷ entries
      → ltb left dirent.size ≡ false
      → ltb (left - dirent.size) (length x.path) ≡ true
      → Loops (suc rounds) d w left buffer (x ∷ entries)
  name_too_long rounds d w left buffer x entries is_loaded e header no_name = (
    [],
    x ∷ entries,
    true,
    left - dirent.size,
    dirent.bytes x,
    loop-entry c os conf dirent rounds d w left buffer x entries is_loaded e
        ∙ rw (header, no_name)
            (ap
              (λ (k : ℕ). ok (true, left - dirent.size, buffer ++ dirent.bytes x, with_idx d k, w))
              (omega arith)),
    refl,
    too_long [] entries x (dirent.bytes x) (left - dirent.size) (inr refl)
        (ground (arith, header, dirent.length-bytes x)) (ground (arith, no_name, header)),
  )

  -- The entry fits, and the loop goes on behind it.
  entry_fits :
      (rounds : ℕ) (d : FileDescriptor) (w : Store os) (left : ℕ) (buffer : List ℕ) (x : DirEnt)
      (entries : List DirEnt)
      → d.dir_contents_loaded ≡ true
      → remaining d ≡ x ∷ entries
      → ltb left dirent.size ≡ false
      → ltb (left - dirent.size) (length x.path) ≡ false
      → Loops rounds
          (with_idx d (d.dir_contents_idx + 1))
          w
          (left - dirent.size - length x.path)
          (buffer ++ (dirent.bytes x ++ x.path))
          entries
      → Loops (suc rounds) d w left buffer (x ∷ entries)
  entry_fits rounds d w left buffer x entries is_loaded e header name
        (front, rest, full, left1, copied, loops, split, end) =
      let left2 = left - dirent.size - length x.path in
      let sum : dirent.size + length x.path + left2 ≡ left = ground (arith, header, name) in
      (
        x ∷ front,
        rest,
        full,
        left1,
        (dirent.bytes x ++ x.path) ++ copied,
        loop-entry c os conf dirent rounds d w left buffer x entries is_loaded e
            ∙ round-copied c os conf dirent rounds left buffer x
                (with_idx d (d.dir_contents_idx + 1)) w header name
            ∙ loops
            ∙ result_lem full left1 _ _ d _ _ w
                (append_assoc buffer (dirent.bytes x ++ x.path) copied) (omega arith),
        ap (◌∷◌ x) split,
        subst
            (λ (l : ℕ).
              LoopEnd l (x ∷ front) rest full left1 ((dirent.bytes x ++ x.path) ++ copied))
            sum (one_before x left2 left1 front rest full copied end),
      )

  loop_lem :
      (rounds : ℕ) (d : FileDescriptor) (w : Store os) (left : ℕ) (buffer : List ℕ)
      (entries : List DirEnt)
      → d.dir_contents_loaded ≡ true
      → remaining d ≡ entries
      → left < rounds
      → Loops rounds d w left buffer entries
  loop_lem zero d w left buffer entries is_loaded e enough = absurd (omega arith)
  loop_lem (suc rounds) d w left buffer [] is_loaded e enough = (
    [],
    [],
    false,
    left,
    [],
    loop-finished c os conf dirent rounds d w left buffer is_loaded e,
    refl,
    all_done [] left (omega arith),
  )
  loop_lem (suc rounds) d w left buffer (x ∷ entries) is_loaded e enough =
      elim (Bool-cases (ltb left dirent.size)) [
        | inl no_header ↦ header_too_long rounds d w left buffer x entries is_loaded e no_header
        | inr header ↦ elim (Bool-cases (ltb (left - dirent.size) (length x.path))) [
          | inl no_name ↦ name_too_long rounds d w left buffer x entries is_loaded e header no_name
          | inr name ↦ entry_fits rounds d w left buffer x entries is_loaded e header name (
              loop_lem rounds (with_idx d (d.dir_contents_idx + 1)) w
                (left - dirent.size - length x.path) (buffer ++ (dirent.bytes x ++ x.path)) entries
                is_loaded (drop-next d.dir_contents_idx d.dir_contents x entries e)
                (ground (arith, header, name, dirent.size_positive, enough)))
        ]
      ]

  -- What the call returns after its loop.
  abbrev returned :
      ℕ
      → Bool × ℕ × List ℕ × FileDescriptor × Store os
      → Outcome (ℕ × List ℕ × FileDescriptor × Store os)
  returned buffer_len (is_buffer_full, bytes_left, buffer, d1, w1) =
      if is_buffer_full
      then (do d2 ← iter_back d1; ok (buffer_len, buffer, d2, w1))
      else ok (buffer_len - bytes_left, buffer, d1, w1)

  back_lem :
      (d : FileDescriptor) (n : ℕ)
      → d.dir_contents_loaded ≡ true
      → iter_back (with_idx d (n + 1)) ≡ ok (with_idx d n)
  unfolding iter_back
  back_lem d n is_loaded =
      let above : (n + 1 == 0) ≡ false = ground arith in
      ap
        (λ (b : Bool).
          throw_unless b >> (throw_unless (not (n + 1 == 0)) >> ok (with_idx d (n + 1 - 1))))
        is_loaded
      ∙ ap (λ (b : Bool). throw_unless (not b) >> ok (with_idx d (n + 1 - 1))) above
      ∙ ap (λ (k : ℕ). ok (with_idx d k)) {y = n} (omega arith)

  done_lem :
      (k k1 : ℕ) (b : List ℕ) (d : FileDescriptor) (n n1 : ℕ) (w : Store os)
      → k ≡ k1
      → n ≡ n1
      → ◌≡◌ {A = Outcome (ℕ × List ℕ × FileDescriptor × Store os)}
          (ok (k, b, with_idx d n, w))
          (ok (k1, b, with_idx d n1, w))
  done_lem k k1 b d n n1 w e f = cc

  returned-Page :
      (d : FileDescriptor) (w : Store os) (buffer_len : ℕ) (front rest : List DirEnt) (full : Bool)
      (left1 : ℕ) (copied : List ℕ)
      → d.dir_contents_loaded ≡ true
      → LoopEnd buffer_len front rest full left1 copied
      → (result : ℕ) × (returned buffer_len
            (full, left1, copied, with_idx d (d.dir_contents_idx + length front + one_more full), w)
          ≡ ok (result, copied, with_idx d (d.dir_contents_idx + length front), w))
        × Page buffer_len front rest result copied
  returned-Page d w buffer_len front _ _ _ _ is_loaded (all_done _ left1 sum) = (
    length (encoded front),
    done_lem (buffer_len - left1) (length (encoded front)) (encoded front) d _ _ w
        (omega (arith, sum)) (omega arith),
    all_copied front (omega (arith, sum)),
  )
  returned-Page d w buffer_len front _ _ _ _ is_loaded
        (too_long _ rest x tail left1 partial sum long) =
      (
        buffer_len,
        ap
            (λ (m : Outcome FileDescriptor).
              m >>= (λ d2. ok (buffer_len, encoded front ++ tail, d2, w)))
            (back_lem d (d.dir_contents_idx + length front) is_loaded),
        filled front rest x tail partial (omega (arith, sum)) long,
      )

  -- One call with a directory that is loaded copies whole entries, in order, from the current one on, and
  -- steps behind them; it copies as many as fit, never more bytes than the buffer has, and its result is
  -- the length of the buffer if an entry is left and else what it copied.
  pub copy_dirents_to_wasi_buffer-Page :
      (d : FileDescriptor) (w : Store os) (buffer_len : ℕ)
      → d.dir_contents_loaded ≡ true
      → (front rest : List DirEnt) × (result : ℕ) × (copied : List ℕ) × (copy_dirents_to_wasi_buffer
            c os conf dirent d w buffer_len
          ≡ ok (result, copied, with_idx d (d.dir_contents_idx + length front), w))
        × (remaining d ≡ front ++ rest)
        × Page buffer_len front rest result copied
  unfolding copy_dirents_to_wasi_buffer iter_back
  copy_dirents_to_wasi_buffer-Page d w buffer_len is_loaded =
      let (front, rest, full, left1, copied, loops, split, end) =
        loop_lem (suc (suc buffer_len)) d w buffer_len [] (remaining d) is_loaded refl
          (omega arith) in
      let (result, returns, page) =
        returned-Page d w buffer_len front rest full left1 copied is_loaded end in
      (
        front,
        rest,
        result,
        copied,
        ap
              (λ (m : Outcome (Bool × ℕ × List ℕ × FileDescriptor × Store os)).
                m >>= returned buffer_len)
              loops
            ∙ returns,
        split,
        page,
      )
