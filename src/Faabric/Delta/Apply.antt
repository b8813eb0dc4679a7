-- ===== src/Faabric/Delta/Apply.antt =====
-- faasm/faabric, `applyDelta` of src/util/delta.cpp.
use tpfaas.Base.{
  ℕ, zero, suc, ◌+◌, ◌-◌, ◌%◌, ◌^◌, List, [], ◌∷◌, ◌++◌, none, some, length, take, drop, slice, leb,
  ◌==◌, if◌then◌else◌, Outcome, ok, fault, thrown, stuck, ◌>>=◌, ◌>>◌, throw_unless, in_bounds,
}
use tpfaas.Faabric.Bytes.{read_bytes_of}
use tpfaas.Faabric.Delta.{
  Zstd, xor_bytes, deltacmd_total_size, deltacmd_zstd_compressed_commands, deltacmd_delta_overwrite,
  deltacmd_delta_xor, deltacmd_end, delta_protocol_version,
}

module _ (z : Zstd) where
  -- `ZSTD_decompress` and the checks of its result
  unfoldable pub decompressed : List ℕ → ℕ → Outcome (List ℕ)
  decompressed packed size = elim (z.decompress packed size) [
    | none ↦ fault thrown
    | some commands ↦ if length commands == size then ok commands else fault thrown
  ]

  -- One round of the loop of `applyDelta`, on the command and what stands behind it; `at_end` is the
  -- length of the delta. The new memory comes with what is left to read. `inner` is the recursive
  -- call on decompressed commands. Neither write checks its place in the memory.
  unfoldable pub apply_command :
      (ℕ → List ℕ → List ℕ)
      → (List ℕ → List ℕ → Outcome (List ℕ))
      → ℕ
      → ℕ
      → List ℕ
      → List ℕ
      → Outcome (List ℕ × List ℕ)
  unfolding read_bytes_of xor_bytes
  apply_command set_data_size inner at_end cmd rest memory =
      if cmd == deltacmd_total_size
      then (do
        (total_size, rest1) ← read_bytes_of 4 rest
        ok (set_data_size total_size memory, rest1))
      else if cmd == deltacmd_zstd_compressed_commands
      then (do
        (compressed_size, rest1) ← read_bytes_of 8 rest
        (decompressed_size, rest2) ← read_bytes_of 8 rest1
        let read_idx = at_end - length rest2
        throw_unless (leb ((read_idx + compressed_size) % 2 ^ 64) at_end)
        in_bounds (leb compressed_size (length rest2))
        commands ← decompressed (take compressed_size rest2) decompressed_size
        memory1 ← inner commands memory
        ok (memory1, drop compressed_size rest2))
      else if cmd == deltacmd_delta_overwrite
      then (do
        (offset, rest1) ← read_bytes_of 4 rest
        (size, rest2) ← read_bytes_of 4 rest1
        throw_unless (leb size (length rest2))
        in_bounds (leb (offset + size) (length memory))
        ok (
          take offset memory ++ (take size rest2 ++ drop (offset + size) memory),
          drop size rest2,
        ))
      else if cmd == deltacmd_delta_xor
      then (do
        (offset, rest1) ← read_bytes_of 4 rest
        (size, rest2) ← read_bytes_of 4 rest1
        throw_unless (leb size (length rest2))
        in_bounds (leb (offset + size) (length memory))
        ok (
          take offset memory
              ++ (xor_bytes (take size rest2) (slice memory offset size)
                  ++ drop (offset + size) memory),
          drop size rest2,
        ))
      else if cmd == deltacmd_end
      then ok (memory, [])
      else ok (memory, rest)

  -- The loop, on what is left to read; each round reads one byte at least, so as many rounds as
  -- there are bytes are enough.
  unfoldable pub apply_loop :
      (ℕ → List ℕ → List ℕ)
      → (List ℕ → List ℕ → Outcome (List ℕ))
      → ℕ
      → ℕ
      → List ℕ
      → List ℕ
      → Outcome (List ℕ)
  unfolding apply_command
  apply_loop set_data_size inner at_end fuel [] memory = ok memory
  apply_loop set_data_size inner at_end zero (cmd ∷ rest) memory = fault stuck
  apply_loop set_data_size inner at_end (suc fuel) (cmd ∷ rest) memory = do
    (memory1, rest1) ← apply_command set_data_size inner at_end cmd rest memory
    apply_loop set_data_size inner at_end fuel rest1 memory1

  -- `applyDelta`, with the depth to which compressed commands may hold compressed commands.
  unfoldable pub apply_delta : ℕ → (ℕ → List ℕ → List ℕ) → List ℕ → List ℕ → Outcome (List ℕ)
  unfolding apply_loop
  apply_delta zero set_data_size delta memory = fault stuck
  apply_delta (suc depth) set_data_size [] memory = fault thrown
  apply_delta (suc depth) set_data_size (version ∷ []) memory = fault thrown
  apply_delta (suc depth) set_data_size (version ∷ cmd ∷ rest) memory = do
    throw_unless (version == delta_protocol_version)
    apply_loop set_data_size (apply_delta depth set_data_size) (length rest + 2) (length rest + 1)
        (cmd ∷ rest) memory
