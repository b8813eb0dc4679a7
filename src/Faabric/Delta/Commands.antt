-- ===== src/Faabric/Delta/Commands.antt =====
-- What `applyDelta` makes of the single commands that `serializeDelta` writes.
use mathlib.Core.List.{append_assoc}
use tpfaas.Base.{
  ℕ, ◌+◌, ◌%◌, ◌^◌, ◌≤◌, ◌<◌, ◌≡◌, true, List, ◌∷◌, ◌++◌, length, length-append, take-append,
  drop-append, take, drop, slice, arith, leb, Outcome, ok,
}
use tpfaas.Faabric.Bytes.{append_bytes_of, bytes_of, read_bytes_of-append}
use tpfaas.Faabric.Delta.{
  Zstd, put_region, xor_bytes, deltacmd_delta_overwrite, deltacmd_delta_xor, deltacmd_total_size,
}
use tpfaas.Faabric.Delta.Apply.{apply_command}

-- One command of a region, as it stands in the delta.
abbrev pub region : ℕ → ℕ → List ℕ → List ℕ
region cmd start bytes = cmd ∷ (bytes_of 4 start ++ (bytes_of 4 (length bytes) ++ bytes))

pub put_region-append :
    (outb : List ℕ) (cmd start : ℕ) (bytes : List ℕ)
    → start < 2 ^ 32
    → length bytes < 2 ^ 32
    → put_region outb cmd start bytes ≡ outb ++ region cmd start bytes
unfolding put_region append_bytes_of
put_region-append outb cmd start bytes small short =
    let a : start % 2 ^ 32 ≡ start = omega arith in
    let b : length bytes % 2 ^ 32 ≡ length bytes = omega arith in rw (a, b) (simp append_assoc)

-- A block with `bytes` written at a place.
abbrev pub written : List ℕ → ℕ → List ℕ → List ℕ
written memory offset bytes = take offset memory ++ (bytes ++ drop (offset + length bytes) memory)

module _ (z : Zstd) (set_data_size : ℕ → List ℕ → List ℕ)
    (inner : List ℕ → List ℕ → Outcome (List ℕ)) (at_end : ℕ) where
  pub command_overwrite :
      (start : ℕ) (bytes rest memory : List ℕ)
      → start < 2 ^ 32
      → length bytes < 2 ^ 32
      → start + length bytes ≤ length memory
      → apply_command z set_data_size inner at_end deltacmd_delta_overwrite
          (bytes_of 4 start ++ (bytes_of 4 (length bytes) ++ (bytes ++ rest)))
          memory
        ≡ ok (written memory start bytes, rest)
  unfolding apply_command
  command_overwrite start bytes rest memory small short fits =
      let a =
        read_bytes_of-append 4 start (bytes_of 4 (length bytes) ++ (bytes ++ rest)) (omega arith)
          (omega arith) in
      let b = read_bytes_of-append 4 (length bytes) (bytes ++ rest) (omega arith) (omega arith) in
      let long : leb (length bytes) (length (bytes ++ rest)) ≡ true =
        ground (arith, length-append bytes rest) in
      let inside : leb (start + length bytes) (length memory) ≡ true = ground arith in
      rw (a, b, long, inside, take-append bytes rest, drop-append bytes rest)

  pub command_xor :
      (start : ℕ) (bytes rest memory : List ℕ)
      → start < 2 ^ 32
      → length bytes < 2 ^ 32
      → start + length bytes ≤ length memory
      → apply_command z set_data_size inner at_end deltacmd_delta_xor
          (bytes_of 4 start ++ (bytes_of 4 (length bytes) ++ (bytes ++ rest)))
          memory
        ≡ ok (
          take start memory
              ++ (xor_bytes bytes (slice memory start (length bytes))
                  ++ drop (start + length bytes) memory),
          rest,
        )
  unfolding apply_command
  command_xor start bytes rest memory small short fits =
      let a =
        read_bytes_of-append 4 start (bytes_of 4 (length bytes) ++ (bytes ++ rest)) (omega arith)
          (omega arith) in
      let b = read_bytes_of-append 4 (length bytes) (bytes ++ rest) (omega arith) (omega arith) in
      let long : leb (length bytes) (length (bytes ++ rest)) ≡ true =
        ground (arith, length-append bytes rest) in
      let inside : leb (start + length bytes) (length memory) ≡ true = ground arith in
      rw (a, b, long, inside, take-append bytes rest, drop-append bytes rest)

  pub command_size :
      (n : ℕ) (rest memory : List ℕ)
      → n < 2 ^ 32
      → apply_command z set_data_size inner at_end deltacmd_total_size (bytes_of 4 n ++ rest) memory
        ≡ ok (set_data_size n memory, rest)
  unfolding apply_command
  command_size n rest memory small = rw (read_bytes_of-append 4 n rest (omega arith) (omega arith))
