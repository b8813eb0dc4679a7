-- ===== src/Faabric/Delta.antt =====
-- faasm/faabric/src/util/delta.cpp: a new block of bytes as changes to an old one. zstd is a
-- parameter.
pub mod Apply
pub mod Xor
pub mod Commands
pub mod Regions
pub mod Encoded
pub mod RoundTrip
pub mod Pages
use tpfaas.Base.{
  ℕ, zero, suc, ◌+◌, ◌-◌, ◌*◌, ◌/◌, ◌%◌, ◌^◌, ◌≤◌, ◌<◌, ◌≡◌, refl, Bool, true, false, not, ◌&&◌,
  ◌||◌, List, [], ◌∷◌, ◌++◌, Option, none, some, length, take, drop, slice, replicate, arith, ltb,
  leb, ◌==◌, if◌then◌else◌, min, Outcome, ok, fault, thrown, stuck, out_of_bounds, ◌>>=◌, ◌>>◌,
  assert, throw_unless, in_bounds,
}
use Prim.Native.Nat.{bit_xor}
use tpfaas.Faabric.Bytes.{append_bytes_of, read_bytes_of}

pub record DeltaSettings : Type 0 where
  pub use_pages : Bool
  pub page_size : ℕ
  pub xor_with_old : Bool
  pub use_zstd : Bool
  pub zstd_level : ℕ

-- `ZSTD_compress` at a level, and `ZSTD_decompress` into a buffer of the given size; `none` is an
-- error.
pub record Zstd : Type 0 where
  pub compress : ℕ → List ℕ → Option (List ℕ)
  pub decompress : List ℕ → ℕ → Option (List ℕ)
  pub decompress-compress :
      (level : ℕ) (xs ys : List ℕ)
      → compress level xs ≡ some ys
      → decompress ys (length xs) ≡ some xs

abbrev pub delta_protocol_version : ℕ
delta_protocol_version = 1

-- `DeltaCommand`
abbrev pub deltacmd_total_size : ℕ
deltacmd_total_size = 0

abbrev pub deltacmd_zstd_compressed_commands : ℕ
deltacmd_zstd_compressed_commands = 1

abbrev pub deltacmd_delta_overwrite : ℕ
deltacmd_delta_overwrite = 2

abbrev pub deltacmd_delta_xor : ℕ
deltacmd_delta_xor = 3

abbrev pub deltacmd_end : ℕ
deltacmd_end = 254

-- `std::transform` with `std::bit_xor` over two ranges, the first of which gives the length.
unfoldable pub xor_bytes : List ℕ → List ℕ → List ℕ
xor_bytes [] ys = []
xor_bytes (x ∷ xs) [] = x ∷ xs
xor_bytes (x ∷ xs) (y ∷ ys) = bit_xor x y ∷ xor_bytes xs ys

-- `std::equal` over two ranges of the same length
unfoldable pub same_bytes : List ℕ → List ℕ → Bool
same_bytes [] ys = true
same_bytes (x ∷ xs) [] = false
same_bytes (x ∷ xs) (y ∷ ys) = x == y && same_bytes xs ys

unfoldable pub any_nonzero : List ℕ → Bool
any_nonzero [] = false
any_nonzero (x ∷ xs) = not (x == 0) || any_nonzero xs

-- A command, where it writes, how much, and what.
unfoldable pub put_region : List ℕ → ℕ → ℕ → List ℕ → List ℕ
unfolding append_bytes_of
put_region outb cmd start data_in =
    append_bytes_of 4 (append_bytes_of 4 (outb ++ cmd ∷ []) (start % 2 ^ 32))
      (length data_in % 2 ^ 32)
    ++ data_in

-- `encodeChangedRegion`
unfoldable pub encode_changed_region :
    DeltaSettings → List ℕ → List ℕ → List ℕ → ℕ → ℕ → Outcome (List ℕ)
unfolding put_region xor_bytes
encode_changed_region cfg old new outb start_byte new_length =
    if new_length == 0 then ok outb else (do
      assert (leb start_byte (length new))
      assert (leb (start_byte + new_length) (length new))
      assert (leb start_byte (length old))
      assert (leb (start_byte + new_length) (length old))
      let region = slice new start_byte new_length
      if cfg.xor_with_old
          then ok (
              put_region outb deltacmd_delta_xor start_byte
                (xor_bytes (slice old start_byte new_length) region))
          else ok (put_region outb deltacmd_delta_overwrite start_byte region))

-- `encodeNewRegion`
unfoldable pub encode_new_region : List ℕ → List ℕ → ℕ → ℕ → Outcome (List ℕ)
unfolding put_region
encode_new_region new outb new_start new_length = if new_length == 0 then ok outb else (do
  assert (leb new_start (length new))
  assert (leb (new_start + new_length) (length new))
  ok (put_region outb deltacmd_delta_overwrite new_start (slice new new_start new_length)))

-- One round of the loop over the pages. `std::equal` compares with the start of the old data, and
-- `std::any_of` runs to the end of the page, which may lie behind the new data.
unfoldable pub encode_page : DeltaSettings → List ℕ → List ℕ → List ℕ → ℕ → Outcome (List ℕ)
unfolding encode_changed_region encode_new_region same_bytes any_nonzero
encode_page cfg old new outb page_start =
    let page_end = page_start + cfg.page_size in
    let start_in_both = ltb page_start (length old) in
    let end_in_both = leb page_end (length new) && leb page_end (length old) in
    let rest_length = min page_end (length new) - page_start in
    if start_in_both && end_in_both
    then (if same_bytes (slice new page_start cfg.page_size) old
        then ok outb
        else encode_changed_region cfg old new outb page_start cfg.page_size)
    else if not start_in_both
    then (if any_nonzero (slice new page_start cfg.page_size)
        then encode_new_region new outb page_start rest_length
        else (do in_bounds (leb page_end (length new)); ok outb))
    else encode_new_region new outb page_start rest_length

-- The loop over the pages, with the rounds that it may take. With a page size of 0 it never ends.
unfoldable pub encode_pages : ℕ → DeltaSettings → List ℕ → List ℕ → List ℕ → ℕ → Outcome (List ℕ)
unfolding encode_page
encode_pages zero cfg old new outb page_start =
    if ltb page_start (length new) then fault stuck else ok outb
encode_pages (suc fuel) cfg old new outb page_start =
    let next = λ (out1 : List ℕ). encode_pages fuel cfg old new out1 (page_start + cfg.page_size) in
    if ltb page_start (length new)
    then encode_page cfg old new outb page_start >>= next
    else ok outb

-- The commands of `serializeDelta`, before they are compressed.
unfoldable pub encode_commands : DeltaSettings → List ℕ → List ℕ → Outcome (List ℕ)
unfolding encode_pages append_bytes_of
encode_commands cfg old new =
    let head =
      append_bytes_of 4 (delta_protocol_version ∷ deltacmd_total_size ∷ []) (length new % 2 ^ 32) in
    do
      outb ←
          (if cfg.use_pages
            then encode_pages (length new) cfg old new head 0
            else if leb (length old) (length new)
            then (do
              out1 ← encode_changed_region cfg old new head 0 (length old)
              encode_new_region new out1 (length old) (length new - length old))
            else encode_changed_region cfg old new head 0 (length new))
      ok (outb ++ deltacmd_end ∷ [])

module _ (z : Zstd) where
  -- The end of `serializeDelta`. The compressed length is filled in behind the call of `ZSTD_compress`.
  unfoldable pub packed_commands : DeltaSettings → List ℕ → Outcome (List ℕ)
  unfolding append_bytes_of
  packed_commands cfg outb =
      if not cfg.use_zstd then ok outb else elim (z.compress cfg.zstd_level outb) [
        | none ↦ fault thrown
        | some packed ↦ ok (
            append_bytes_of 8
              (append_bytes_of 8 (delta_protocol_version ∷ deltacmd_zstd_compressed_commands ∷ [])
                (length packed))
              (length outb)
            ++ packed
            ++ deltacmd_end ∷ [])
      ]

  -- `serializeDelta`
  unfoldable pub serialize_delta : DeltaSettings → List ℕ → List ℕ → Outcome (List ℕ)
  unfolding encode_commands packed_commands
  serialize_delta cfg old new = do outb ← encode_commands cfg old new; packed_commands cfg outb
