-- ===== src/Faasm/FileDescriptor/Dirents/Listing.antt =====
-- faasm, `copyDirentsToWasiBuffer` of src/storage/FileDescriptor.cpp: a caller that calls it again as long
-- as the buffer gets filled.
use mathlib.Core.List.{append-nil}
use tpfaas.Base.{
  ℕ, zero, suc, ◌+◌, ◌≤◌, ◌<◌, ◌≡◌, refl, sym, ap, subst, ◌∙◌, ltb, true, false, Bool-cases, inl,
  inr, List, [], ◌∷◌, ◌++◌, length, length-append, drop, drop-append, arith, if◌then◌else◌, Outcome,
  ok, fault, stuck, ◌>>=◌,
}
use tpfaas.Faasm.Host.{Constants, Os, StorageConf}
use tpfaas.Faasm.SharedFiles.{Store}
use tpfaas.Faasm.FileDescriptor.{FileDescriptor, DirEnt}
use tpfaas.Faasm.FileDescriptor.Dirents.{WasiDirent, copy_dirents_to_wasi_buffer}
use tpfaas.Faasm.FileDescriptor.Dirents.Rounds.{with_idx, remaining}
use tpfaas.Faasm.FileDescriptor.Dirents.Pages.{
  encoded, Page, all_copied, filled, copy_dirents_to_wasi_buffer-Page,
}

drop-nil : {A : Type 0} (k : ℕ) → drop {A = A} k [] ≡ []
drop-nil zero = refl
drop-nil (suc k) = refl

drop-drop : {A : Type 0} (n k : ℕ) (xs : List A) → drop (n + k) xs ≡ drop k (drop n xs)
drop-drop zero k xs = ap (λ (i : ℕ). drop i xs) (omega arith)
drop-drop (suc n) k [] = drop-nil (suc n + k) ∙ sym (drop-nil k)
drop-drop (suc n) k (x ∷ xs) =
    ap (λ (i : ℕ). drop i (x ∷ xs)) {y = suc (n + k)} (omega arith) ∙ drop-drop n k xs

module _ (c : Constants) (os : Os) (conf : StorageConf) (dirent : WasiDirent) where
  -- What the caller gets, in at most that many calls: it is done when the buffer is not filled.
  unfoldable pub read_listing :
      ℕ → FileDescriptor → Store os → ℕ → Outcome (List (List ℕ) × FileDescriptor × Store os)
  unfolding copy_dirents_to_wasi_buffer
  read_listing zero d w buffer_len = fault stuck
  read_listing (suc calls) d w buffer_len = do
    (result, copied, d1, w1) ← copy_dirents_to_wasi_buffer c os conf dirent d w buffer_len
    let rest = read_listing calls d1 w1 buffer_len
    if ltb result buffer_len
        then ok (copied ∷ [], d1, w1)
        else (do (pages, d2, w2) ← rest; ok (copied ∷ pages, d2, w2))

  -- Each entry fits into the buffer alone.
  abbrev pub Room : ℕ → List DirEnt → Type 0
  Room buffer_len [] = Unit {0}
  Room buffer_len (e ∷ entries) =
      (dirent.size + length e.path ≤ buffer_len) × Room buffer_len entries

  -- The pages of a listing: together they hold all entries whole, once and in order.
  pub data Pages (buffer_len : ℕ) : List DirEnt → List (List ℕ) → Type 0 where
    last_page :
        (entries : List DirEnt)
        → length (encoded c os conf dirent entries) < buffer_len
        → Pages buffer_len entries (encoded c os conf dirent entries ∷ [])
    one_page :
        (front rest : List DirEnt) (copied : List ℕ) (pages : List (List ℕ)) (result : ℕ)
        → Page c os conf dirent buffer_len front rest result copied
        → Pages buffer_len rest pages
        → Pages buffer_len (front ++ rest) (copied ∷ pages)

  Room-append :
      (buffer_len : ℕ) (front rest : List DirEnt)
      → Room buffer_len (front ++ rest)
      → Room buffer_len rest
  Room-append buffer_len [] rest room = room
  Room-append buffer_len (e ∷ front) rest room = Room-append buffer_len front rest room.1

  front_nonempty :
      (front : List DirEnt) → 0 < length (encoded c os conf dirent front) → 0 < length front
  front_nonempty [] h = h
  front_nonempty (e ∷ front) h = omega arith

  -- A page that fills the buffer moves the iterator.
  progress :
      (buffer_len : ℕ) (front rest : List DirEnt) (result : ℕ) (copied : List ℕ)
      → 0 < buffer_len
      → Room buffer_len rest
      → Page c os conf dirent buffer_len front rest result copied
      → ltb result buffer_len ≡ false
      → 0 < length front
  progress buffer_len front _ _ _ some_bytes room (all_copied _ short) full =
      front_nonempty front (ground (arith, full))
  progress buffer_len front _ _ _ some_bytes room (filled _ rest x tail partial short long) full =
      front_nonempty front (omega (arith, long, room.0))

  last_lem :
      (buffer_len : ℕ) (front rest : List DirEnt) (result : ℕ) (copied : List ℕ)
      → Page c os conf dirent buffer_len front rest result copied
      → ltb result buffer_len ≡ true
      → (rest ≡ []) × Pages buffer_len (front ++ rest) (copied ∷ [])
  last_lem buffer_len front _ _ _ (all_copied _ short) less = (
    refl,
    subst (λ (l : List DirEnt). Pages buffer_len l (encoded c os conf dirent front ∷ []))
        (sym (append-nil front)) (last_page front (ground (arith, less))),
  )
  last_lem buffer_len front _ _ _ (filled _ rest x tail partial short long) less =
      absurd (ground (arith, less))

  remaining-with_idx :
      (d : FileDescriptor) (front rest : List DirEnt)
      → remaining d ≡ front ++ rest
      → remaining (with_idx d (d.dir_contents_idx + length front)) ≡ rest
  remaining-with_idx d front rest e =
      drop-drop d.dir_contents_idx (length front) d.dir_contents
      ∙ ap (λ (l : List DirEnt). drop (length front) l) e
      ∙ drop-append front rest

  read_last :
      (calls : ℕ) (d d1 : FileDescriptor) (w : Store os) (buffer_len result : ℕ) (copied : List ℕ)
      → copy_dirents_to_wasi_buffer c os conf dirent d w buffer_len ≡ ok (result, copied, d1, w)
      → ltb result buffer_len ≡ true
      → read_listing (suc calls) d w buffer_len ≡ ok (copied ∷ [], d1, w)
  unfolding read_listing
  read_last calls d d1 w buffer_len result copied e less = rw (read_listing, e, less) refl

  read_more :
      (calls : ℕ) (d d1 d2 : FileDescriptor) (w : Store os) (buffer_len result : ℕ)
      (copied : List ℕ) (pages : List (List ℕ))
      → copy_dirents_to_wasi_buffer c os conf dirent d w buffer_len ≡ ok (result, copied, d1, w)
      → ltb result buffer_len ≡ false
      → read_listing calls d1 w buffer_len ≡ ok (pages, d2, w)
      → read_listing (suc calls) d w buffer_len ≡ ok (copied ∷ pages, d2, w)
  unfolding read_listing
  read_more calls d d1 d2 w buffer_len result copied pages e full reads =
      rw (read_listing, e, full, reads) refl

  behind_lem :
      (pages : List (List ℕ)) (d : FileDescriptor) (n n1 : ℕ) (w : Store os)
      → n ≡ n1
      → ◌≡◌ {A = Outcome (List (List ℕ) × FileDescriptor × Store os)}
          (ok (pages, with_idx d n, w))
          (ok (pages, with_idx d n1, w))
  behind_lem pages d n n1 w e = cc

  -- With a directory that is loaded and a buffer into which each of its remaining entries fits alone, a
  -- caller that calls again until the buffer is not filled needs at most one call more than there are
  -- entries; what it gets holds all of them whole, once each and in order, and the iterator ends behind
  -- them.
  pub listing_completes :
      (calls : ℕ) (d : FileDescriptor) (w : Store os) (buffer_len : ℕ)
      → d.dir_contents_loaded ≡ true
      → 0 < buffer_len
      → Room buffer_len (remaining d)
      → length (remaining d) < calls
      → (pages : List (List ℕ)) × (read_listing calls d w buffer_len
          ≡ ok (pages, with_idx d (d.dir_contents_idx + length (remaining d)), w))
        × Pages buffer_len (remaining d) pages
  listing_completes zero d w buffer_len is_loaded some_bytes room enough = absurd (omega arith)
  listing_completes (suc calls) d w buffer_len is_loaded some_bytes room enough =
      let (front, rest, result, copied, returns, split, page) =
        copy_dirents_to_wasi_buffer-Page c os conf dirent d w buffer_len is_loaded in
      let d1 = with_idx d (d.dir_contents_idx + length front) in
      let e = remaining-with_idx d front rest split in
      let room1 = Room-append buffer_len front rest (subst (Room buffer_len) split room) in
      let len = ap (λ (l : List DirEnt). length l) split ∙ length-append front rest in
      elim (Bool-cases (ltb result buffer_len)) [
        | inl less ↦
            let (nothing, pages) = last_lem buffer_len front rest result copied page less in
            (
              copied ∷ [],
              read_last calls d d1 w buffer_len result copied returns less
                  ∙ behind_lem (copied ∷ []) d _ _ w
                      (omega (arith, len, ap (λ (l : List DirEnt). length l) nothing)),
              subst (λ (l : List DirEnt). Pages buffer_len l (copied ∷ [])) (sym split) pages,
            )
        | inr full ↦
            let moved = progress buffer_len front rest result copied some_bytes room1 page full in
            let (pages, reads, all) =
              listing_completes calls d1 w buffer_len is_loaded some_bytes
                (subst (Room buffer_len) (sym e) room1)
                (omega (arith, len, ap (λ (l : List DirEnt). length l) e, moved)) in
            (
              copied ∷ pages,
              read_more calls d d1 _ w buffer_len result copied pages returns full reads
                  ∙ behind_lem (copied ∷ pages) d _ _ w
                      (omega (arith, len, ap (λ (l : List DirEnt). length l) e)),
              subst (λ (l : List DirEnt). Pages buffer_len l (copied ∷ pages)) (sym split)
                  (one_page front rest copied pages result page
                    (subst (λ (l : List DirEnt). Pages buffer_len l pages) e all)),
            )
      ]
