-- ===== src/Faabric/Delta/RoundTrip.antt =====
-- A delta of whole blocks, applied to the old block, gives the new one.
use mathlib.Core.List.{append_assoc}
use tpfaas.Base.{
  ℕ, zero, suc, ◌+◌, ◌-◌, ◌%◌, ◌^◌, ◌≤◌, ◌<◌, ◌≡◌, refl, ap, sym, subst, ◌∙◌, true, false, List, [],
  ◌∷◌, ◌++◌, some, length, length-append, take-append, drop-append, arith, leb, ◌==◌, if◌then◌else◌,
  Bool-cases, inl, inr, Outcome, ok, ◌>>=◌,
}
use tpfaas.Faabric.Bytes.{append_bytes_of, bytes_of, length-bytes_of, read_bytes_of-append}
use tpfaas.Faabric.Delta.{
  Zstd, DeltaSettings, encode_changed_region, encode_new_region, encode_commands, serialize_delta,
  packed_commands, deltacmd_total_size, deltacmd_zstd_compressed_commands, deltacmd_end,
  delta_protocol_version,
}
use tpfaas.Faabric.Delta.Apply.{apply_loop, apply_command, decompressed, apply_delta}
use tpfaas.Faabric.Delta.Commands.{command_size}
use tpfaas.Faabric.Delta.Regions.{Region, stream, run, Fits, length-stream, apply_loop-stream}
use tpfaas.Faabric.Delta.Xor.{AreBytes}
use tpfaas.Faabric.Delta.Encoded.{resize, length-resize, block_Adds}

pub size_head :
    (n : ℕ)
    → n < 2 ^ 32
    → append_bytes_of 4 (delta_protocol_version ∷ deltacmd_total_size ∷ []) (n % 2 ^ 32)
      ≡ delta_protocol_version ∷ deltacmd_total_size ∷ bytes_of 4 n
unfolding append_bytes_of
size_head n small =
    let e : n % 2 ^ 32 ≡ n = omega arith in
    ap (λ (k : ℕ). delta_protocol_version ∷ deltacmd_total_size ∷ bytes_of 4 k) e

encoded :
    (cfg : DeltaSettings) (old new : List ℕ) (rs : List Region)
    → cfg.use_pages ≡ false
    → (let head =
          append_bytes_of 4
            (delta_protocol_version ∷ deltacmd_total_size ∷ [])
            (length new % 2 ^ 32) in
        (if leb (length old) (length new)
          then (do
            out1 ← encode_changed_region cfg old new head 0 (length old)
            encode_new_region new out1 (length old) (length new - length old))
          else encode_changed_region cfg old new head 0 (length new))
        ≡ ok (head ++ stream rs))
    → encode_commands cfg old new
      ≡ ok (
          (append_bytes_of 4
              (delta_protocol_version ∷ deltacmd_total_size ∷ [])
              (length new % 2 ^ 32)
            ++ stream rs)
          ++ deltacmd_end ∷ [])
unfolding encode_commands
encoded cfg old new rs whole e = rw (whole, e) refl

commands_lem :
    (cfg : DeltaSettings) (old new : List ℕ)
    → cfg.use_pages ≡ false
    → length old < 2 ^ 32
    → length new < 2 ^ 32
    → AreBytes old
    → AreBytes new
    → (rs : List Region) × (encode_commands cfg old new
        ≡ ok (
            delta_protocol_version
            ∷ deltacmd_total_size
            ∷ (bytes_of 4 (length new) ++ (stream rs ++ deltacmd_end ∷ []))))
      × Fits (length new) rs
      × (run rs (resize (length new) old) ≡ new)
      × (length (stream rs) ≤ 2 ^ 33 + 16)
commands_lem cfg old new whole small_old small_new bytes_old bytes_new =
    let head =
      append_bytes_of 4 (delta_protocol_version ∷ deltacmd_total_size ∷ []) (length new % 2 ^ 32) in
    let a = block_Adds cfg old new head small_old small_new bytes_old bytes_new in
    (
      a.regions,
      encoded cfg old new a.regions whole a.result
          ∙ ap ok (
              append_assoc head (stream a.regions) (deltacmd_end ∷ [])
              ∙ ap (λ (l : List ℕ). l ++ (stream a.regions ++ deltacmd_end ∷ []))
                  (size_head (length new) small_new)),
      a.fits,
      a.ran,
      a.sized,
    )

module _ (z : Zstd) where
  -- What `applyDelta` reads from such commands, at any depth.
  pub apply-commands :
      (depth : ℕ) (rs : List Region) (old new : List ℕ)
      → length new < 2 ^ 32
      → Fits (length new) rs
      → apply_delta z
          (suc depth)
          resize
          (delta_protocol_version
            ∷ deltacmd_total_size
            ∷ (bytes_of 4 (length new) ++ (stream rs ++ deltacmd_end ∷ [])))
          old
        ≡ ok (run rs (resize (length new) old))
  unfolding apply_delta apply_loop
  apply-commands depth rs old new small fits =
      let rest = bytes_of 4 (length new) ++ (stream rs ++ deltacmd_end ∷ []) in
      let inner = apply_delta z depth resize in
      let tail = stream rs ++ deltacmd_end ∷ [] in
      let memory = resize (length new) old in
      let e : length rest + 1 ≡ suc (length rest) = omega arith in
      let enough : length rs < length rest = omega (
        arith,
        length-stream rs,
        length-append (bytes_of 4 (length new)) tail,
        length-append (stream rs) (deltacmd_end ∷ []),
      ) in
      rw e (
        rw (command_size z resize inner (length rest + 2) (length new) tail old small) (
          apply_loop-stream z resize inner (length rest + 2) rs (length rest) memory enough
            (subst (λ (k : ℕ). Fits k rs) (sym (length-resize (length new) old)) fits)))

  decompressed_lem :
      (packed commands : List ℕ)
      → z.decompress packed (length commands) ≡ some commands
      → decompressed z packed (length commands) ≡ ok commands
  unfolding decompressed
  decompressed_lem packed commands unpacks =
      let e : (length commands == length commands) ≡ true = ground arith in
      rw (decompressed, unpacks, e) refl

  -- One round for a compressed part that fills the rest of the delta.
  command_packed :
      (inner : List ℕ → List ℕ → Outcome (List ℕ)) (packed commands memory memory1 : List ℕ)
      → length packed < 2 ^ 63
      → length commands < 2 ^ 63
      → z.decompress packed (length commands) ≡ some commands
      → inner commands memory ≡ ok memory1
      → apply_command z resize inner
          (length packed + 19)
          deltacmd_zstd_compressed_commands
          (bytes_of 8 (length packed)
            ++ (bytes_of 8 (length commands) ++ (packed ++ deltacmd_end ∷ [])))
          memory
        ≡ ok (memory1, deltacmd_end ∷ [])
  unfolding apply_command
  command_packed inner packed commands memory memory1 short small unpacks runs =
      let behind = packed ++ deltacmd_end ∷ [] in
      let a =
        read_bytes_of-append 8 (length packed) (bytes_of 8 (length commands) ++ behind)
          (omega arith) (omega arith) in
      let b = read_bytes_of-append 8 (length commands) behind (omega arith) (omega arith) in
      let len : length behind ≡ length packed + 1 = length-append packed (deltacmd_end ∷ []) in
      let c : leb ((length packed + 19 - length behind + length packed) % 2 ^ 64)
            (length packed + 19)
          ≡ true =
        ground (arith, len) in
      let d : leb (length packed) (length behind) ≡ true = ground (arith, len) in
      let e = decompressed_lem packed commands unpacks in
      rw (
        a,
        b,
        c,
        d,
        take-append packed (deltacmd_end ∷ []),
        e,
        runs,
        drop-append packed (deltacmd_end ∷ []),
      )

  apply_loop-end :
      (inner : List ℕ → List ℕ → Outcome (List ℕ)) (at_end fuel : ℕ) (memory : List ℕ)
      → apply_loop z resize inner at_end (suc fuel) (deltacmd_end ∷ []) memory ≡ ok memory
  unfolding apply_loop apply_command
  apply_loop-end inner at_end zero memory = refl
  apply_loop-end inner at_end (suc fuel) memory = refl

  two_rounds :
      (inner : List ℕ → List ℕ → Outcome (List ℕ)) (at_end fuel : ℕ) (rest memory memory1 : List ℕ)
      → apply_command z resize inner at_end deltacmd_zstd_compressed_commands rest memory
        ≡ ok (memory1, deltacmd_end ∷ [])
      → apply_loop z resize inner at_end
          (suc (suc fuel))
          (deltacmd_zstd_compressed_commands ∷ rest)
          memory
        ≡ ok memory1
  unfolding apply_loop
  two_rounds inner at_end fuel rest memory memory1 one =
      rw one (apply_loop-end inner at_end fuel memory1)

  -- What the delta of these commands makes of the old block, packed or not.
  apply-packed :
      (cfg : DeltaSettings) (old new commands : List ℕ)
      → length commands < 2 ^ 34
      → ((xs : List ℕ)
          → length xs < 2 ^ 34
          → (ys : List ℕ) × (z.compress cfg.zstd_level xs ≡ some ys) × (length ys < 2 ^ 63))
      → ((depth : ℕ) → apply_delta z (suc depth) resize commands old ≡ ok new)
      → (delta : List ℕ) × (packed_commands z cfg commands ≡ ok delta)
        × (apply_delta z 2 resize delta old ≡ ok new)
  unfolding apply_delta packed_commands apply_loop append_bytes_of
  apply-packed cfg old new commands small packs applies = elim (Bool-cases cfg.use_zstd) [
    | inl packing ↦
        let p = packs commands small in
        let packed = p.0 in
        let sizes =
          bytes_of 8 (length packed)
          ++ (bytes_of 8 (length commands) ++ (packed ++ deltacmd_end ∷ [])) in
        let one =
          command_packed (apply_delta z 1 resize) packed commands old new (omega (arith, p.2))
            (omega arith) (z.decompress-compress cfg.zstd_level commands packed p.1) (applies 0) in
        let len : length sizes ≡ length packed + 17 =
          omega (arith, length-append packed (deltacmd_end ∷ [])) in
        let at_end : length sizes + 2 ≡ length packed + 19 = omega (arith, len) in
        let fuel : length sizes + 1 ≡ suc (suc (length packed + 16)) = omega (arith, len) in
        (
          delta_protocol_version ∷ deltacmd_zstd_compressed_commands ∷ sizes,
          rw (packing, p.1) refl,
          ap
                (λ (k : ℕ).
                  apply_loop z resize (apply_delta z 1 resize) k (length sizes + 1)
                    (deltacmd_zstd_compressed_commands ∷ sizes) old)
                at_end
              ∙ ap
                  (λ (k : ℕ).
                    apply_loop z resize (apply_delta z 1 resize) (length packed + 19) k
                      (deltacmd_zstd_compressed_commands ∷ sizes) old)
                  fuel
              ∙ two_rounds (apply_delta z 1 resize) (length packed + 19) (length packed + 16) sizes
                  old new one,
        )
    | inr plain ↦ (commands, rw plain refl, applies 1)
  ]

  -- For settings without pages, blocks of less than 2^32 bytes and, with zstd, a compression that
  -- succeeds: `serializeDelta` returns a delta, and `applyDelta` makes the new block of the old one,
  -- for deltas by exclusive or, by overwriting, compressed, growing and shrinking ones.
  pub delta_round_trip :
      (cfg : DeltaSettings) (old new : List ℕ)
      → cfg.use_pages ≡ false
      → length old < 2 ^ 32
      → length new < 2 ^ 32
      → AreBytes old
      → AreBytes new
      → ((xs : List ℕ)
          → length xs < 2 ^ 34
          → (ys : List ℕ) × (z.compress cfg.zstd_level xs ≡ some ys) × (length ys < 2 ^ 63))
      → (delta : List ℕ) × (serialize_delta z cfg old new ≡ ok delta)
        × (apply_delta z 2 resize delta old ≡ ok new)
  unfolding serialize_delta
  delta_round_trip cfg old new whole small_old small_new bytes_old bytes_new packs =
      let (rs, written_as, fits, ran, short) =
        commands_lem cfg old new whole small_old small_new bytes_old bytes_new in
      let tail = stream rs ++ deltacmd_end ∷ [] in
      let commands =
        delta_protocol_version ∷ deltacmd_total_size ∷ (bytes_of 4 (length new) ++ tail) in
      let len : length commands < 2 ^ 34 = omega (
        arith,
        short,
        length-append (stream rs) (deltacmd_end ∷ []),
        length-append (bytes_of 4 (length new)) tail,
        length-bytes_of 4 (length new),
      ) in
      let (delta, packed_as, applied) =
        apply-packed cfg old new commands len packs
          (λ depth. apply-commands depth rs old new small_new fits ∙ ap ok ran) in
      (delta, rw written_as packed_as, applied)
