-- ===== src/Faabric/State/Lost.antt =====
-- faasm/faabric, src/state/StateKeyValue.cpp: writes that the value does not keep.
use tpfaas.Base.{
  ℕ, zero, suc, ◌+◌, ◌≤◌, ◌<◌, ◌≡◌, refl, ap, subst, ◌∙◌, Bool, true, false, not, ◌&&◌, ◌||◌,
  Bool-cases, inl, inr, List, [], ◌++◌, length, length-append, length-take, length-drop,
  take-append, drop-append, take, drop, slice, replicate, length-replicate, take_all, arith, ltb,
  leb, ◌==◌, ok,
}
use tpfaas.Faabric.State.{
  RedisString, StateKeyValue, off, put_at, ones_bitmask, dirty_loop, get_dirty_chunks,
  check_size_configured, zero_dirty_mask, push_partial_to_remote, push_partial, do_push_partial,
  pull_from_remote, set_value, set_chunk, do_set_chunk, mark_dirty_chunk, get_chunk, do_pull_chunk,
  is_chunk_pulled, allocate_chunk, pull_chunk_from_remote,
}

-- A clean mask has no dirty chunk.
dirty_loop-clean : (memory : List ℕ) (n i : ℕ) → dirty_loop memory (replicate n 0) i off ≡ []
unfolding dirty_loop
dirty_loop-clean memory zero i = refl
dirty_loop-clean memory (suc n) i = dirty_loop-clean memory n (suc i)

-- Allocation changes no more than the flag.
pub allocate_chunk_lem :
    (kv : StateKeyValue) (offset len : ℕ)
    → (allocated : Bool) × (allocate_chunk kv offset len
        ≡ record kv { fully_allocated = allocated })
unfolding allocate_chunk
allocate_chunk_lem kv offset len =
    elim (Bool-cases (kv.fully_allocated || not (offset == 0 && len == kv.shared_mem_size))) [
      | inl same ↦ (kv.fully_allocated, rw same refl)
      | inr whole ↦ (true, rw whole refl)
    ]

slice-put_at :
    (block : List ℕ) (offset : ℕ) (bytes : List ℕ)
    → offset ≤ length block
    → slice (put_at block offset bytes) offset (length bytes) ≡ bytes
slice-put_at block offset bytes inside =
    let e : length (take offset block) ≡ offset = omega (arith, length-take offset block) in
    let rest = bytes ++ drop (offset + length bytes) block in
    ap (take (length bytes)) (
      subst (λ (k : ℕ). drop k (take offset block ++ rest) ≡ rest) e
        (drop-append (take offset block) rest))
    ∙ take-append bytes (drop (offset + length bytes) block)

module _ (redis : RedisString) where
  -- After `set` on a configured, fully allocated value with a clean mask, and with a remote value that is
  -- no longer than the value, `pushPartial` returns without a change of the remote, takes the remote value over the one that was set, and reports it as clean:
  -- `set` flags the value, but no byte of its mask.
  pub set_then_push_partial :
      (kv : StateKeyValue) (r : redis.Server) (buffer : List ℕ)
      → 0 < kv.value_size
      → kv.fully_allocated ≡ true
      → kv.dirty_mask ≡ replicate kv.value_size 0
      → length (redis.value r) ≤ kv.value_size
      → (kv1 kv2 : StateKeyValue) × (set_value kv buffer ≡ ok kv1)
        × (push_partial redis kv1 r ≡ ok (kv2, r))
        × (kv2.shared_memory ≡ put_at kv1.shared_memory 0 (redis.value r))
        × (kv2.is_dirty ≡ false)
  unfolding set_value push_partial do_push_partial check_size_configured get_dirty_chunks
      push_partial_to_remote pull_from_remote zero_dirty_mask allocate_chunk
  set_then_push_partial kv r buffer some_size allocated clean short =
      let fits : leb (length (redis.value r)) kv.value_size ≡ true = ground arith in
      let sized : ltb 0 kv.value_size ≡ true = ground arith in
      let kv1 : StateKeyValue = record kv {
        shared_memory = put_at kv.shared_memory 0 (take kv.value_size buffer);
        fully_pulled = true;
        is_dirty = true;
      } in
      let kv2 : StateKeyValue = record kv1 {
        shared_memory = put_at kv1.shared_memory 0 (redis.value r);
        dirty_mask = replicate kv.value_size 0;
        is_dirty = false;
      } in
      let whole =
        take_all kv.value_size (replicate {A = ℕ} kv.value_size 0)
          (omega (arith, length-replicate {A = ℕ} kv.value_size 0)) in
      (
        kv1,
        kv2,
        rw (sized, allocated) refl,
        rw
            (
              sized,
              allocated,
              clean,
              whole,
              dirty_loop-clean kv1.shared_memory kv.value_size 0,
              fits,
            )
            refl,
        refl,
        refl,
      )

  -- After `setChunk` on a part of the value that is not wholly pulled yet, `getChunk` on the same part
  -- returns the remote bytes: `setChunk` does not mark the part as pulled.
  pub set_chunk_then_get_chunk :
      (kv : StateKeyValue) (r : redis.Server) (offset : ℕ) (buffer : List ℕ)
      → 0 < kv.value_size
      → offset + length buffer ≤ kv.value_size
      → kv.value_size ≤ kv.shared_mem_size
      → length kv.dirty_mask ≡ kv.value_size
      → length kv.shared_memory ≡ kv.shared_mem_size
      → kv.value_size ≤ length (redis.value r)
      → is_chunk_pulled kv offset (length buffer) ≡ false
      → (kv1 kv2 : StateKeyValue) × (set_chunk kv offset buffer ≡ ok kv1)
        × (slice kv1.shared_memory offset (length buffer) ≡ buffer)
        × (get_chunk redis kv1 r offset (length buffer)
            ≡ ok (kv2, slice (redis.value r) offset (length buffer)))
  unfolding set_chunk do_set_chunk mark_dirty_chunk check_size_configured get_chunk do_pull_chunk
      pull_chunk_from_remote is_chunk_pulled
  set_chunk_then_get_chunk kv r offset buffer some_size inside fits mask memory remote unpulled =
      let n = length buffer in
      let sized : ltb 0 kv.value_size ≡ true = ground arith in
      let within : leb (offset + n) kv.shared_mem_size ≡ true = ground arith in
      let masked : leb (offset + n) (length kv.dirty_mask) ≡ true = ground (arith, mask) in
      let allowed : leb (offset + n) kv.value_size ≡ true = ground arith in
      let (allocated, e) = allocate_chunk_lem kv offset n in
      let kv1 : StateKeyValue = record kv {
        fully_allocated = allocated;
        shared_memory = put_at kv.shared_memory offset buffer;
        is_dirty = true;
        dirty_mask = put_at kv.dirty_mask offset (replicate n ones_bitmask);
      } in
      let (allocated2, e2) = allocate_chunk_lem kv1 offset n in
      let remote_bytes = slice (redis.value r) offset n in
      let kv2 : StateKeyValue = record kv1 {
        fully_allocated = allocated2;
        shared_memory = put_at kv1.shared_memory offset remote_bytes;
        pulled_mask = put_at kv.pulled_mask offset (replicate n ones_bitmask);
      } in
      let len : length remote_bytes ≡ n = omega (
        arith,
        length-take n (drop offset (redis.value r)),
        length-drop offset (redis.value r),
        remote,
      ) in
      let long : length (put_at kv.shared_memory offset buffer) ≡ length kv.shared_memory =
        length-append (take offset kv.shared_memory) (buffer ++ drop (offset + n) kv.shared_memory)
        ∙ omega (
          arith,
          length-take offset kv.shared_memory,
          length-append buffer (drop (offset + n) kv.shared_memory),
          length-drop (offset + n) kv.shared_memory,
          memory,
        ) in
      let back : slice kv2.shared_memory offset n ≡ remote_bytes =
        subst (λ (k : ℕ). slice kv2.shared_memory offset k ≡ remote_bytes) len
          (slice-put_at kv1.shared_memory offset remote_bytes (omega (arith, long, memory))) in
      (
        kv1,
        kv2,
        rw (sized, within, e, masked) refl,
        slice-put_at kv.shared_memory offset buffer (omega (arith, memory)),
        rw (sized, allowed, unpulled, e2, back) refl,
      )
