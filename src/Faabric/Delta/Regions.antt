-- ===== src/Faabric/Delta/Regions.antt =====
-- A delta as a sequence of regions, and the memory that these leave.
use mathlib.Core.List.{append_assoc, append-nil}
use tpfaas.Base.{
  ℕ, zero, suc, ◌+◌, ◌^◌, ◌≤◌, ◌<◌, ◌≡◌, refl, ap, sym, subst, ◌∙◌, List, [], ◌∷◌, ◌++◌, length,
  length-append, length-take, length-drop, take, drop, slice, arith, Outcome, ok,
}
use tpfaas.Faabric.Bytes.{bytes_of}
use tpfaas.Faabric.Delta.{
  Zstd, put_region, xor_bytes, deltacmd_delta_overwrite, deltacmd_delta_xor, deltacmd_end,
}
use tpfaas.Faabric.Delta.Apply.{apply_loop}
use tpfaas.Faabric.Delta.Commands.{
  region, written, put_region-append, command_overwrite, command_xor,
}

-- A region is written over the memory, or mixed into it by exclusive or.
pub data Region : Type 0 where
  put mix : (start : ℕ) (bytes : List ℕ) → Region

-- The regions as they stand in the delta.
unfoldable pub stream : List Region → List ℕ
stream [] = []
stream (put start bytes ∷ rs) = region deltacmd_delta_overwrite start bytes ++ stream rs
stream (mix start bytes ∷ rs) = region deltacmd_delta_xor start bytes ++ stream rs

-- What one region makes of the memory, and what all make of it one after the other.
abbrev pub run_region : Region → List ℕ → List ℕ
run_region (put start bytes) memory = written memory start bytes
run_region (mix start bytes) memory =
    written memory start (xor_bytes bytes (slice memory start (length bytes)))

abbrev pub run : List Region → List ℕ → List ℕ
run [] memory = memory
run (r ∷ rs) memory = run rs (run_region r memory)

-- The regions lie within a block of `n` bytes.
abbrev Within : ℕ → ℕ → List ℕ → Type 0
Within n start bytes = (start < 2 ^ 32) × (length bytes < 2 ^ 32) × (start + length bytes ≤ n)

abbrev pub Fits : ℕ → List Region → Type 0
Fits n [] = Unit {0}
Fits n (put start bytes ∷ rs) = Within n start bytes × Fits n rs
Fits n (mix start bytes ∷ rs) = Within n start bytes × Fits n rs

pub length-xor_bytes : (xs ys : List ℕ) → length (xor_bytes xs ys) ≡ length xs
unfolding xor_bytes
length-xor_bytes [] ys = refl
length-xor_bytes (x ∷ xs) [] = refl
length-xor_bytes (x ∷ xs) (y ∷ ys) = omega (arith, length-xor_bytes xs ys)

pub length-written :
    (memory : List ℕ) (offset : ℕ) (bytes : List ℕ)
    → offset + length bytes ≤ length memory
    → length (written memory offset bytes) ≡ length memory
length-written memory offset bytes h =
    length-append (take offset memory) (bytes ++ drop (offset + length bytes) memory)
    ∙ omega (
      arith,
      length-append bytes (drop (offset + length bytes) memory),
      length-take offset memory,
      length-drop (offset + length bytes) memory,
    )

length-mixed :
    (memory : List ℕ) (start : ℕ) (bytes : List ℕ)
    → start + length bytes ≤ length memory
    → length (run_region (mix start bytes) memory) ≡ length memory
length-mixed memory start bytes h =
    let mixed = xor_bytes bytes (slice memory start (length bytes)) in
    length-written memory start mixed
      (omega (arith, length-xor_bytes bytes (slice memory start (length bytes))))

pub length-run :
    (rs : List Region) (memory : List ℕ)
    → Fits (length memory) rs
    → length (run rs memory) ≡ length memory
length-run [] memory f = refl
length-run (put start bytes ∷ rs) memory f =
    let e = length-written memory start bytes f.0.2 in
    length-run rs (written memory start bytes) (subst (λ (n : ℕ). Fits n rs) (sym e) f.1) ∙ e
length-run (mix start bytes ∷ rs) memory f =
    let e = length-mixed memory start bytes f.0.2 in
    length-run rs (run_region (mix start bytes) memory) (subst (λ (n : ℕ). Fits n rs) (sym e) f.1)
    ∙ e

pub stream-append : (rs qs : List Region) → stream (rs ++ qs) ≡ stream rs ++ stream qs
unfolding stream
stream-append [] qs = refl
stream-append (put _ _ ∷ rs) qs = rw (stream-append rs qs) (simp append_assoc)
stream-append (mix _ _ ∷ rs) qs = rw (stream-append rs qs) (simp append_assoc)

pub put_region-put :
    (outb : List ℕ) (start : ℕ) (bytes : List ℕ)
    → start < 2 ^ 32
    → length bytes < 2 ^ 32
    → put_region outb deltacmd_delta_overwrite start bytes ≡ outb ++ stream (put start bytes ∷ [])
unfolding stream
put_region-put outb start bytes small short =
    put_region-append outb deltacmd_delta_overwrite start bytes small short
    ∙ ap (λ (l : List ℕ). outb ++ l)
        (sym (append-nil (region deltacmd_delta_overwrite start bytes)))

pub put_region-mix :
    (outb : List ℕ) (start : ℕ) (bytes : List ℕ)
    → start < 2 ^ 32
    → length bytes < 2 ^ 32
    → put_region outb deltacmd_delta_xor start bytes ≡ outb ++ stream (mix start bytes ∷ [])
unfolding stream
put_region-mix outb start bytes small short =
    put_region-append outb deltacmd_delta_xor start bytes small short
    ∙ ap (λ (l : List ℕ). outb ++ l) (sym (append-nil (region deltacmd_delta_xor start bytes)))

pub length-stream : (rs : List Region) → length rs ≤ length (stream rs)
unfolding stream
length-stream [] = omega arith
length-stream (put start bytes ∷ rs) = omega (
  arith,
  length-stream rs,
  length-append (bytes_of 4 start ++ (bytes_of 4 (length bytes) ++ bytes)) (stream rs),
)
length-stream (mix start bytes ∷ rs) = omega (
  arith,
  length-stream rs,
  length-append (bytes_of 4 start ++ (bytes_of 4 (length bytes) ++ bytes)) (stream rs),
)

pub run-append :
    (rs qs : List Region) (memory : List ℕ) → run (rs ++ qs) memory ≡ run qs (run rs memory)
run-append [] qs memory = refl
run-append (r ∷ rs) qs memory = run-append rs qs (run_region r memory)

pub Fits-append : (n : ℕ) (rs qs : List Region) → Fits n rs → Fits n qs → Fits n (rs ++ qs)
Fits-append n [] qs f g = g
Fits-append n (put _ _ ∷ rs) qs f g = (f.0, Fits-append n rs qs f.1 g)
Fits-append n (mix _ _ ∷ rs) qs f g = (f.0, Fits-append n rs qs f.1 g)

module _ (z : Zstd) (set_data_size : ℕ → List ℕ → List ℕ)
    (inner : List ℕ → List ℕ → Outcome (List ℕ)) (at_end : ℕ) where
  pub apply_loop-stream :
      (rs : List Region) (fuel : ℕ) (memory : List ℕ)
      → length rs < fuel
      → Fits (length memory) rs
      → apply_loop z set_data_size inner at_end fuel (stream rs ++ deltacmd_end ∷ []) memory
        ≡ ok (run rs memory)
  unfolding apply_loop stream
  apply_loop-stream rs zero memory lt f = absurd (omega arith)
  apply_loop-stream [] (suc fuel) memory lt f = refl
  apply_loop-stream (put start bytes ∷ rs) (suc fuel) memory lt f =
      let e = length-written memory start bytes f.0.2 in
      let one =
        command_overwrite z set_data_size inner at_end start bytes (stream rs ++ deltacmd_end ∷ [])
          memory f.0.0 f.0.1 f.0.2 in
      let rest =
        apply_loop-stream rs fuel (written memory start bytes) (omega arith)
          (subst (λ (n : ℕ). Fits n rs) (sym e) f.1) in
      simp append_assoc (rw one rest)
  apply_loop-stream (mix start bytes ∷ rs) (suc fuel) memory lt f =
      let e = length-mixed memory start bytes f.0.2 in
      let one =
        command_xor z set_data_size inner at_end start bytes (stream rs ++ deltacmd_end ∷ []) memory
          f.0.0 f.0.1 f.0.2 in
      let rest =
        apply_loop-stream rs fuel (run_region (mix start bytes) memory) (omega arith)
          (subst (λ (n : ℕ). Fits n rs) (sym e) f.1) in
      simp append_assoc (
        rw (one, length-xor_bytes bytes (slice memory start (length bytes)))
          (rw (length-xor_bytes bytes (slice memory start (length bytes))) at rest))
