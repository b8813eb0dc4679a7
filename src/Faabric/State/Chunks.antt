-- ===== src/Faabric/State/Chunks.antt =====
-- faasm/faabric, src/state/StateKeyValue.cpp and src/util/memory.cpp: the chunks of a value and the pages
-- that they lie in.
use native.Mathlib.Nat.{div-add-mod', mod-lt, mul-mod_left, mul-sub, mul_comm}
use tpfaas.Base.{
  ℕ, zero, suc, ◌+◌, ◌-◌, ◌*◌, ◌/◌, ◌%◌, ◌^◌, ◌≤◌, ◌<◌, ◌≡◌, refl, sym, ap, ◌∙◌, Bool-cases, inl,
  inr, List, [], ◌∷◌, ◌++◌, take, drop, slice, arith, leb, min,
}
use tpfaas.Faabric.State.{
  StateChunk, StateKeyValue, state_streaming_chunk_size, chunks_loop, get_all_chunks,
}
use tpfaas.Faabric.Memory.{
  get_required_host_pages, get_required_host_pages_round_down, get_page_aligned_chunk,
}

-- The bytes of chunks, one behind the other.
abbrev pub joined_chunks : List StateChunk → List ℕ
joined_chunks [] = []
joined_chunks (c ∷ chunks) = c.bytes ++ joined_chunks chunks

take_more : (xs : List ℕ) (m n : ℕ) → take (m + n) xs ≡ take m xs ++ take n (drop m xs)
take_more xs zero n = let e : 0 + n ≡ n = omega arith in rw e refl
take_more [] (suc m) zero = let e : suc m + 0 ≡ suc m = omega arith in rw e refl
take_more [] (suc m) (suc n) = let e : suc m + suc n ≡ suc (m + suc n) = omega arith in rw e refl
take_more (x ∷ xs) (suc m) n =
    let e : suc m + n ≡ suc (m + n) = omega arith in
    ap (λ (k : ℕ). take k (x ∷ xs)) e ∙ ap (◌∷◌ x) (take_more xs m n)

drop_more : (xs : List ℕ) (m n : ℕ) → drop (m + n) xs ≡ drop n (drop m xs)
drop_more xs zero n = let e : 0 + n ≡ n = omega arith in rw e refl
drop_more [] (suc m) zero = let e : suc m + 0 ≡ suc m = omega arith in rw e refl
drop_more [] (suc m) (suc n) = let e : suc m + suc n ≡ suc (m + suc n) = omega arith in rw e refl
drop_more (x ∷ xs) (suc m) n =
    let e : suc m + n ≡ suc (m + n) = omega arith in
    ap (λ (k : ℕ). drop k (x ∷ xs)) e ∙ drop_more xs m n

chunks_loop_lem :
    (kv : StateKeyValue) (n i : ℕ)
    → kv.value_size < 2 ^ 32
    → (i + n) * state_streaming_chunk_size < kv.value_size + state_streaming_chunk_size
    → kv.value_size ≤ (i + n) * state_streaming_chunk_size
    → joined_chunks (chunks_loop kv n i)
      ≡ slice kv.shared_memory
          (i * state_streaming_chunk_size)
          (kv.value_size - i * state_streaming_chunk_size)
unfolding chunks_loop
chunks_loop_lem kv zero i small last enough =
    let e : kv.value_size - i * state_streaming_chunk_size ≡ 0 = omega arith in rw e refl
chunks_loop_lem kv (suc n) i small last enough =
    let start = i * state_streaming_chunk_size in
    let left = kv.value_size - start in
    let size = min state_streaming_chunk_size left in
    let narrow : start % 2 ^ 32 ≡ start = omega arith in
    let next : suc i * state_streaming_chunk_size ≡ start + state_streaming_chunk_size =
      omega arith in
    let rest = chunks_loop_lem kv n (suc i) small (omega arith) (omega arith) in
    let parts = take_more (drop start kv.shared_memory) size (left - size) in
    let whole : size + (left - size) ≡ left = omega arith in
    let behind : joined_chunks (chunks_loop kv n (suc i))
        ≡ take (left - size) (drop size (drop start kv.shared_memory)) =
      elim (Bool-cases (leb state_streaming_chunk_size left)) [
        | inl full ↦
            let e : size ≡ state_streaming_chunk_size = ground arith in
            let count : kv.value_size - suc i * state_streaming_chunk_size ≡ left - size =
              omega (arith, e, next) in
            rest
            ∙ ap (λ (k : ℕ). take k (drop (suc i * state_streaming_chunk_size) kv.shared_memory))
                count
            ∙ ap (λ (k : ℕ). take (left - size) (drop k kv.shared_memory))
                (next ∙ ap (λ (k : ℕ). start + k) (sym e))
            ∙ ap (take (left - size)) (drop_more kv.shared_memory start size)
        | inr short ↦
            let e : left - size ≡ 0 = ground arith in
            let count : kv.value_size - suc i * state_streaming_chunk_size ≡ 0 =
              ground (arith, next) in
            rest
            ∙ ap (λ (k : ℕ). take k (drop (suc i * state_streaming_chunk_size) kv.shared_memory))
                count
            ∙ ap (λ (k : ℕ). take k (drop size (drop start kv.shared_memory))) (sym e)
      ] in
    rw (narrow, behind) (sym parts ∙ ap (λ (k : ℕ). take k (drop start kv.shared_memory)) whole)

-- The chunks of a value of less than 2^32 bytes are, one behind the other, the value.
pub get_all_chunks_join :
    (kv : StateKeyValue)
    → kv.value_size < 2 ^ 32
    → joined_chunks (get_all_chunks kv) ≡ take kv.value_size kv.shared_memory
unfolding get_all_chunks
get_all_chunks_join kv small =
    let n = (kv.value_size + state_streaming_chunk_size - 1) / state_streaming_chunk_size in
    let e : n % 2 ^ 32 ≡ n = omega arith in
    let whole : kv.value_size - 0 ≡ kv.value_size = omega arith in
    ap (λ (k : ℕ). joined_chunks (chunks_loop kv k 0)) e
    ∙ chunks_loop_lem kv n 0 small (omega arith) (omega arith)
    ∙ ap (λ (k : ℕ). take k kv.shared_memory) whole

-- The same from what division says of the two ends.
aligned_of :
    (page offset len start finish below above size : ℕ)
    → start + below ≡ offset
    → below < page
    → finish + above ≡ offset + len + page - 1
    → above < page
    → size ≡ finish - start
    → start % page ≡ 0
    → size % page ≡ 0
    → (start % page ≡ 0)
      × (start + (offset - start) ≡ offset)
      × (offset - start < page)
      × (size % page ≡ 0)
      × (offset + len ≤ start + size)
      × (start + size < offset + len + page)
aligned_of page offset len start finish below above size low small high small2 apart a b =
    (a, omega arith, omega arith, b, omega arith, omega arith)

-- With pages of at least one byte, the aligned chunk begins on a page at most one page before the chunk,
-- ends on a page at most one page behind it, and contains it.
pub aligned_chunk_covers :
    (page offset len : ℕ)
    → 0 < page
    → (let c = get_page_aligned_chunk page offset len in
        (c.n_bytes_offset % page ≡ 0)
        × (c.n_bytes_offset + c.offset_remainder ≡ offset)
        × (c.offset_remainder < page)
        × (c.n_bytes_length % page ≡ 0)
        × (offset + len ≤ c.n_bytes_offset + c.n_bytes_length)
        × (c.n_bytes_offset + c.n_bytes_length < offset + len + page))
unfolding get_page_aligned_chunk get_required_host_pages get_required_host_pages_round_down
aligned_chunk_covers page offset len some_page =
    let a = offset / page in
    let upper = offset + len + page - 1 in
    let u = upper / page in
    let apart : (u - a) * page ≡ u * page - a * page =
      mul_comm (u - a) page
      ∙ mul-sub page u a
      ∙ ap (λ (k : ℕ). k - page * a) (mul_comm page u)
      ∙ ap (λ (k : ℕ). u * page - k) (mul_comm page a) in
    let low = div-add-mod' offset page in
    let high = div-add-mod' upper page in
    aligned_of page offset len (a * page) (u * page) (offset % page) (upper % page) ((u - a) * page)
      low (mod-lt offset some_page) high (mod-lt upper some_page) apart (mul-mod_left a page)
      (mul-mod_left (u - a) page)
