-- ===== src/Faabric/State/Dirty.antt =====
-- faasm/faabric, `getDirtyChunks` and `pushPartial` of src/state/StateKeyValue.cpp: which bytes a partial
-- push writes.
use mathlib.Core.List.{append_assoc}
use tpfaas.Base.{
  ℕ, zero, suc, ◌+◌, ◌-◌, ◌≤◌, ◌<◌, ◌≡◌, refl, sym, ap, subst, ◌∙◌, true, false, Bool-cases, inl,
  inr, List, [], ◌∷◌, ◌++◌, length, length-append, take-append, drop-append, take, drop, slice,
  replicate, take_all, arith, ltb, leb, ok, fault, thrown,
}
use tpfaas.Faabric.State.{
  RedisString, StateKeyValue, off, on, put_at, dirty_loop, get_dirty_chunks, check_size_configured,
  zero_dirty_mask, push_partial_to_remote, push_partial, do_push_partial, pull_from_remote,
}

-- The local bytes where the mask is set, the remote ones elsewhere and behind the mask.
abbrev pub merged : (mask local remote : List ℕ) → List ℕ
merged [] local remote = remote
merged (m ∷ mask) [] remote = remote
merged (m ∷ mask) (x ∷ local) [] = []
merged (zero ∷ mask) (x ∷ local) (y ∷ remote) = y ∷ merged mask local remote
merged (suc m ∷ mask) (x ∷ local) (y ∷ remote) = x ∷ merged mask local remote

length-merged :
    (mask l y : List ℕ)
    → length mask ≤ length l
    → length mask ≤ length y
    → length (merged mask l y) ≡ length y
length-merged [] l y long_l long_y = refl
length-merged (m ∷ mask) [] y long_l long_y = absurd (omega arith)
length-merged (m ∷ mask) (x ∷ l) [] long_l long_y = absurd (omega arith)
length-merged (zero ∷ mask) (x ∷ l) (z ∷ y) long_l long_y =
    omega (arith, length-merged mask l y (omega arith) (omega arith))
length-merged (suc m ∷ mask) (x ∷ l) (z ∷ y) long_l long_y =
    omega (arith, length-merged mask l y (omega arith) (omega arith))

take-front : (a l : List ℕ) (n : ℕ) → length a ≡ n → take n (a ++ l) ≡ a
take-front a l n e = subst (λ (k : ℕ). take k (a ++ l) ≡ a) e (take-append a l)

drop-front : (a l : List ℕ) (n : ℕ) → length a ≡ n → drop n (a ++ l) ≡ l
drop-front a l n e = subst (λ (k : ℕ). drop k (a ++ l) ≡ l) e (drop-append a l)

-- A part of a block, cut out and put into another block at the same place.
slice-middle :
    (memory a c l : List ℕ) (start i : ℕ)
    → memory ≡ a ++ (c ++ l)
    → length a ≡ start
    → start + length c ≡ i
    → slice memory start (i - start) ≡ c
slice-middle memory a c l start i e len end =
    ap (λ (m : List ℕ). take (i - start) (drop start m)) e
    ∙ ap (take (i - start)) (drop-front a (c ++ l) start len)
    ∙ take-front c l (i - start) (omega arith)

put_at-middle :
    (b d c y : List ℕ) (start : ℕ)
    → length b ≡ start
    → length d ≡ length c
    → put_at (b ++ (d ++ y)) start c ≡ b ++ (c ++ y)
put_at-middle b d c y start len same =
    let e : drop (start + length c) (b ++ (d ++ y)) ≡ y =
      ap (drop (start + length c)) (sym (append_assoc b d y))
      ∙ drop-front (b ++ d) y (start + length c) (omega (arith, length-append b d)) in
    rw (take-front b (d ++ y) start len, e) refl

shift : (a c l : List ℕ) (x : ℕ) → a ++ (c ++ x ∷ l) ≡ a ++ ((c ++ x ∷ []) ++ l)
shift a c l x = ap (λ (t : List ℕ). a ++ t) (sym (append_assoc c (x ∷ []) l))

module _ (redis : RedisString) where
  -- Writing one chunk to the server.
  put_chunk :
      (r : redis.Server) (memory a c l b d y : List ℕ) (start i : ℕ)
      → memory ≡ a ++ (c ++ l)
      → length a ≡ start
      → start + length c ≡ i
      → redis.value r ≡ b ++ (d ++ y)
      → length b ≡ start
      → length d ≡ length c
      → redis.value (redis.set_range r start (slice memory start (i - start))) ≡ b ++ (c ++ y)
  put_chunk r memory a c l b d y start i e len_a end v len_b same =
      let cut = slice-middle memory a c l start i e len_a end in
      let room : start + length c ≤ length (redis.value r) =
        omega (arith, ap length v, length-append b (d ++ y), length-append d y) in
      ap (λ (bytes : List ℕ). redis.value (redis.set_range r start bytes)) cut
      ∙ redis.value-set_range r start c room
      ∙ ap (λ (block : List ℕ). put_at block start c) v
      ∙ put_at-middle b d c y start len_b same

  mutual
    unfolding dirty_loop push_partial_to_remote

    push_off :
        (mask : List ℕ) (r : redis.Server) (memory a l b y : List ℕ) (i : ℕ)
        → memory ≡ a ++ l
        → length a ≡ i
        → redis.value r ≡ b ++ y
        → length b ≡ i
        → length mask ≤ length l
        → length mask ≤ length y
        → redis.value (push_partial_to_remote redis r (dirty_loop memory mask i off))
          ≡ b ++ merged mask l y
    push_off [] r memory a l b y i e len_a v len_b long_l long_y = v
    push_off (m ∷ mask) r memory a [] b y i e len_a v len_b long_l long_y = absurd (omega arith)
    push_off (m ∷ mask) r memory a (x ∷ l) b [] i e len_a v len_b long_l long_y =
        absurd (omega arith)
    push_off (zero ∷ mask) r memory a (x ∷ l) b (z ∷ y) i e len_a v len_b long_l long_y =
        push_off mask r memory (a ++ x ∷ []) l (b ++ z ∷ []) y (suc i)
          (e ∙ sym (append_assoc a (x ∷ []) l)) (omega (arith, length-append a (x ∷ [])))
          (v ∙ sym (append_assoc b (z ∷ []) y)) (omega (arith, length-append b (z ∷ [])))
          (omega arith) (omega arith)
        ∙ append_assoc b (z ∷ []) (merged mask l y)
    push_off (suc m ∷ mask) r memory a (x ∷ l) b (z ∷ y) i e len_a v len_b long_l long_y =
        push_on mask r memory a (x ∷ []) l b (z ∷ []) y i (suc i) e len_a (omega arith) v len_b refl
          (omega arith) (omega arith)

    push_on :
        (mask : List ℕ) (r : redis.Server) (memory a c l b d y : List ℕ) (start i : ℕ)
        → memory ≡ a ++ (c ++ l)
        → length a ≡ start
        → start + length c ≡ i
        → redis.value r ≡ b ++ (d ++ y)
        → length b ≡ start
        → length d ≡ length c
        → length mask ≤ length l
        → length mask ≤ length y
        → redis.value (push_partial_to_remote redis r (dirty_loop memory mask i (on start)))
          ≡ b ++ (c ++ merged mask l y)
    push_on [] r memory a c l b d y start i e len_a end v len_b same long_l long_y =
        put_chunk r memory a c l b d y start i e len_a end v len_b same
    push_on (m ∷ mask) r memory a c [] b d y start i e len_a end v len_b same long_l long_y =
        absurd (omega arith)
    push_on (m ∷ mask) r memory a c (x ∷ l) b d [] start i e len_a end v len_b same long_l long_y =
        absurd (omega arith)
    push_on (zero ∷ mask) r memory a c (x ∷ l) b d (z ∷ y) start i e len_a end v len_b same long_l
          long_y =
        let r1 = redis.set_range r start (slice memory start (i - start)) in
        let v1 = put_chunk r memory a c (x ∷ l) b d (z ∷ y) start i e len_a end v len_b same in
        let whole =
          ap (λ (t : List ℕ). b ++ t) (sym (append_assoc c (z ∷ []) y))
          ∙ sym (append_assoc b (c ++ z ∷ []) y) in
        let inner =
          ap (λ (t : List ℕ). a ++ t) (sym (append_assoc c (x ∷ []) l))
          ∙ sym (append_assoc a (c ++ x ∷ []) l) in
        push_off mask r1 memory (a ++ (c ++ x ∷ [])) l (b ++ (c ++ z ∷ [])) y (suc i) (e ∙ inner)
          (omega (arith, length-append a (c ++ x ∷ []), length-append c (x ∷ []))) (v1 ∙ whole)
          (omega (arith, length-append b (c ++ z ∷ []), length-append c (z ∷ []))) (omega arith)
          (omega arith)
        ∙ append_assoc b (c ++ z ∷ []) (merged mask l y)
        ∙ ap (λ (t : List ℕ). b ++ t) (append_assoc c (z ∷ []) (merged mask l y))
    push_on (suc m ∷ mask) r memory a c (x ∷ l) b d (z ∷ y) start i e len_a end v len_b same long_l
          long_y =
        push_on mask r memory a (c ++ x ∷ []) l b (d ++ z ∷ []) y start (suc i) (e ∙ shift a c l x)
          len_a (omega (arith, length-append c (x ∷ []))) (v ∙ shift b d y z) len_b
          (omega (arith, length-append c (x ∷ []), length-append d (z ∷ []))) (omega arith)
          (omega arith)
        ∙ sym (shift b c (merged mask l y) x)

  -- What the server has after the chunks of a value are pushed.
  pushed_lem :
      (kv : StateKeyValue) (r : redis.Server)
      → length kv.dirty_mask ≡ kv.value_size
      → kv.value_size ≤ length kv.shared_memory
      → kv.value_size ≤ length (redis.value r)
      → redis.value (push_partial_to_remote redis r (get_dirty_chunks kv kv.dirty_mask))
        ≡ merged kv.dirty_mask kv.shared_memory (redis.value r)
  unfolding get_dirty_chunks
  pushed_lem kv r mask_len long_local long_remote =
      ap
        (λ (m : List ℕ).
          redis.value (push_partial_to_remote redis r (dirty_loop kv.shared_memory m 0 off)))
        (take_all kv.value_size kv.dirty_mask (omega arith))
      ∙ push_off kv.dirty_mask r kv.shared_memory [] kv.shared_memory [] (redis.value r) 0 refl refl
          refl refl (omega arith) (omega arith)

  -- For a configured value that is flagged dirty, whose block is at least as long as the value, and a
  -- remote value at least as long, and no longer if the value is fully allocated: `pushPartial` returns;
  -- the remote then has the local bytes just where the dirty mask is set and its own elsewhere, and the
  -- value is clean.
  pub push_partial_merges :
      (kv : StateKeyValue) (r : redis.Server)
      → 0 < kv.value_size
      → kv.is_dirty ≡ true
      → length kv.dirty_mask ≡ kv.value_size
      → kv.value_size ≤ length kv.shared_memory
      → kv.value_size ≤ length (redis.value r)
      → (kv.fully_allocated ≡ true → length (redis.value r) ≤ kv.value_size)
      → (kv1 : StateKeyValue) × (r1 : redis.Server) × (push_partial redis kv r ≡ ok (kv1, r1))
        × (redis.value r1 ≡ merged kv.dirty_mask kv.shared_memory (redis.value r))
        × (kv1.is_dirty ≡ false)
        × (kv1.dirty_mask ≡ replicate kv.value_size 0)
  unfolding push_partial do_push_partial check_size_configured zero_dirty_mask pull_from_remote
  push_partial_merges kv r some_size dirty mask_len long_local long_remote fits =
      let r1 = push_partial_to_remote redis r (get_dirty_chunks kv kv.dirty_mask) in
      let sized : ltb 0 kv.value_size ≡ true = ground arith in
      let v = pushed_lem kv r mask_len long_local long_remote in
      elim (Bool-cases kv.fully_allocated) [
        | inl allocated ↦
            let short : leb (length (redis.value r1)) kv.value_size ≡ true = ground (
              arith,
              fits allocated,
              ap length v,
              length-merged kv.dirty_mask kv.shared_memory (redis.value r),
            ) in
            (
              record (zero_dirty_mask kv) {
                shared_memory = put_at kv.shared_memory 0 (redis.value r1);
                is_dirty = false;
              },
              r1,
              rw (sized, dirty, allocated, short) refl,
              v,
              refl,
              refl,
            )
        | inr partly ↦ (
          record (zero_dirty_mask kv) { is_dirty = false },
          r1,
          rw (sized, dirty, partly) refl,
          v,
          refl,
          refl,
        )
      ]

  -- For a configured value that is flagged dirty and fully allocated, whose block is at least as long as
  -- the value, and a remote value that is longer: `pushPartial` throws, whatever the mask.
  pub push_partial_too_long :
      (kv : StateKeyValue) (r : redis.Server)
      → 0 < kv.value_size
      → kv.is_dirty ≡ true
      → kv.fully_allocated ≡ true
      → length kv.dirty_mask ≡ kv.value_size
      → kv.value_size ≤ length kv.shared_memory
      → kv.value_size < length (redis.value r)
      → push_partial redis kv r ≡ fault thrown
  unfolding push_partial do_push_partial check_size_configured zero_dirty_mask pull_from_remote
  push_partial_too_long kv r some_size dirty allocated mask_len long_local longer =
      let r1 = push_partial_to_remote redis r (get_dirty_chunks kv kv.dirty_mask) in
      let sized : ltb 0 kv.value_size ≡ true = ground arith in
      let v = pushed_lem kv r mask_len long_local (omega arith) in
      let long : leb (length (redis.value r1)) kv.value_size ≡ false =
        ground (arith, ap length v, length-merged kv.dirty_mask kv.shared_memory (redis.value r)) in
      rw (sized, dirty, allocated, long) refl
