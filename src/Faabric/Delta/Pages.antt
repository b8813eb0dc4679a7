-- ===== src/Faabric/Delta/Pages.antt =====
-- faasm/faabric, `serializeDelta` of src/util/delta.cpp with pages: every page is compared with the first
-- page of the old data.
use tpfaas.Base.{
  ℕ, zero, suc, ◌+◌, ◌-◌, ◌%◌, ◌^◌, ◌≤◌, ◌<◌, ◌≡◌, refl, ap, subst, ◌∙◌, true, false, ◌&&◌, List,
  [], ◌∷◌, ◌++◌, length, length-append, take, drop, slice, take-append, drop-append, take_all,
  replicate, arith, ltb, leb, ok,
}
use mathlib.Core.List.{append-nil}
use tpfaas.Faabric.Bytes.{append_bytes_of, bytes_of}
use tpfaas.Faabric.Delta.{
  DeltaSettings, Zstd, same_bytes, encode_page, encode_pages, encode_commands, packed_commands,
  serialize_delta, delta_protocol_version, deltacmd_total_size, deltacmd_end,
}
use tpfaas.Faabric.Delta.Apply.{apply_delta}
use tpfaas.Faabric.Delta.Regions.{stream}
use tpfaas.Faabric.Delta.Encoded.{resize}
use tpfaas.Faabric.Delta.RoundTrip.{apply-commands, size_head}

same_bytes-front : (xs ys : List ℕ) → same_bytes xs (xs ++ ys) ≡ true
unfolding same_bytes
same_bytes-front [] ys = refl
same_bytes-front (x ∷ xs) ys = ground (arith, same_bytes-front xs ys)

encode_pages-done :
    (fuel : ℕ) (cfg : DeltaSettings) (old new outb : List ℕ) (page_start : ℕ)
    → length new ≤ page_start
    → encode_pages fuel cfg old new outb page_start ≡ ok outb
unfolding encode_pages
encode_pages-done zero cfg old new outb page_start le =
    let e : ltb page_start (length new) ≡ false = ground arith in rw e refl
encode_pages-done (suc fuel) cfg old new outb page_start le =
    let e : ltb page_start (length new) ≡ false = ground arith in rw e refl

module _ (cfg : DeltaSettings) (first second : List ℕ) (paged : length first ≡ cfg.page_size)
    (same_size : length second ≡ cfg.page_size) where
  -- A page of the new data that equals the first page of the old data is skipped.
  encode_page-skips :
      (outb : List ℕ) (page_start : ℕ)
      → page_start + cfg.page_size ≤ length (first ++ second)
      → slice (first ++ first) page_start cfg.page_size ≡ first
      → 0 < cfg.page_size
      → encode_page cfg (first ++ second) (first ++ first) outb page_start ≡ ok outb
  unfolding encode_page
  encode_page-skips outb page_start inside page some_size =
      let a : ltb page_start (length (first ++ second)) ≡ true = ground arith in
      let b : (leb (page_start + cfg.page_size) (length (first ++ first))
            && leb (page_start + cfg.page_size) (length (first ++ second)))
          ≡ true =
        ground (arith, length-append first first, length-append first second, paged, same_size) in
      rw (a, b, page, same_bytes-front first second) refl

  encode_pages-skip :
      (fuel : ℕ) (outb : List ℕ)
      → 0 < cfg.page_size
      → encode_pages (suc (suc fuel)) cfg (first ++ second) (first ++ first) outb 0 ≡ ok outb
  unfolding encode_pages
  encode_pages-skip fuel outb some_size =
      let p = cfg.page_size in
      let n = length-append first first in
      let a : ltb 0 (length (first ++ first)) ≡ true = ground (arith, n, paged) in
      let z : 0 + p ≡ p = omega arith in
      let b : ltb p (length (first ++ first)) ≡ true = ground (arith, n, paged) in
      let page0 : slice (first ++ first) 0 p ≡ first =
        subst (λ (k : ℕ). take k (first ++ first) ≡ first) paged (take-append first first) in
      let page1 : slice (first ++ first) p p ≡ first =
        ap (take p)
          (subst (λ (k : ℕ). drop k (first ++ first) ≡ first) paged (drop-append first first))
        ∙ take_all p first (omega (arith, paged)) in
      let skip0 =
        encode_page-skips outb 0 (omega (arith, length-append first second, paged)) page0
          some_size in
      let skip1 =
        encode_page-skips outb p (omega (arith, length-append first second, paged, same_size)) page1
          some_size in
      let rest =
        encode_pages-done fuel cfg (first ++ second) (first ++ first) outb (p + p)
          (omega (arith, n, paged)) in
      rw (a, skip0, z, b, skip1, rest) refl

encoded_paged :
    (cfg : DeltaSettings) (old new outb : List ℕ)
    → cfg.use_pages ≡ true
    → encode_pages
        (length new)
        cfg
        old
        new
        (append_bytes_of 4
          (delta_protocol_version ∷ deltacmd_total_size ∷ [])
          (length new % 2 ^ 32))
        0
      ≡ ok outb
    → encode_commands cfg old new ≡ ok (outb ++ deltacmd_end ∷ [])
unfolding encode_commands
encoded_paged cfg old new outb paging e = simp paging (simp e refl)

module _ (z : Zstd) where
  -- With pages, and old data of two pages of which the first is at least one byte: the delta to two
  -- copies of the first page changes nothing, so that the second page is lost whenever it differs.
  pub second_page_lost :
      (cfg : DeltaSettings) (first second : List ℕ)
      → cfg.use_pages ≡ true
      → cfg.use_zstd ≡ false
      → length first ≡ cfg.page_size
      → length second ≡ cfg.page_size
      → 0 < cfg.page_size
      → cfg.page_size < 2 ^ 31
      → (delta : List ℕ) × (serialize_delta z cfg (first ++ second) (first ++ first) ≡ ok delta)
        × (apply_delta z 1 resize delta (first ++ second) ≡ ok (first ++ second))
  unfolding serialize_delta packed_commands stream
  second_page_lost cfg first second paging plain paged same_size some_size small =
      let new = first ++ first in
      let old = first ++ second in
      let n : length new ≡ length old =
        omega (arith, length-append first first, length-append first second) in
      let fits : length new < 2 ^ 32 = omega (arith, length-append first first) in
      let head =
        append_bytes_of 4 (delta_protocol_version ∷ deltacmd_total_size ∷ [])
          (length new % 2 ^ 32) in
      let two : length new ≡ suc (suc (length new - 2)) =
        omega (arith, length-append first first) in
      let none =
        ap (λ (k : ℕ). encode_pages k cfg old new head 0) two
        ∙ encode_pages-skip cfg first second paged same_size (length new - 2) head some_size in
      let e : encode_commands cfg old new
          ≡ ok (
              delta_protocol_version
              ∷ deltacmd_total_size
              ∷ (bytes_of 4 (length new) ++ deltacmd_end ∷ [])) =
        encoded_paged cfg old new head paging none
        ∙ ap (λ (l : List ℕ). ok (l ++ deltacmd_end ∷ [])) (size_head (length new) fits) in
      let whole : resize (length new) old ≡ old =
        ap (λ (k : ℕ). take (length new) old ++ replicate {A = ℕ} k 0) {y = 0} (omega (arith, n))
        ∙ append-nil (take (length new) old)
        ∙ take_all (length new) old (omega (arith, n)) in
      (_, rw (e, plain) refl, apply-commands z 0 [] old new fits tt ∙ ap ok whole)
