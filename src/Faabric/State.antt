-- ===== src/Faabric/State.antt =====
-- faasm/faabric: src/state/StateKeyValue.cpp with the operations of
-- src/state/RedisStateKeyValue.cpp. The Redis string of the value is a parameter; the
-- protection of the pages and the mapping into other memories are not part of the state.
use tpfaas.Faabric.Memory.{get_required_host_pages}
pub mod Dirty
pub mod Lost
pub mod Chunks
use tpfaas.Base.{
  ℕ, zero, suc, ◌+◌, ◌-◌, ◌*◌, ◌/◌, ◌%◌, ◌^◌, ◌≤◌, ◌≡◌, Bool, true, false, not, ◌&&◌, ◌||◌, List,
  [], ◌∷◌, ◌++◌, length, take, drop, slice, replicate, arith, ltb, leb, ◌==◌, if◌then◌else◌, min,
  Outcome, ok, fault, thrown, ◌>>=◌, ◌>>◌, throw_unless, in_bounds,
}

-- The string at a key in Redis: SET, SETRANGE within the string, and what GET and GETRANGE read.
pub record RedisString : Type 1 where
  pub Server : Type 0
  pub value : Server → List ℕ
  pub set : Server → List ℕ → Server
  pub set_range : Server → ℕ → List ℕ → Server
  pub value-set : (r : Server) (bytes : List ℕ) → value (set r bytes) ≡ bytes
  pub value-set_range :
      (r : Server) (offset : ℕ) (bytes : List ℕ)
      → offset + length bytes ≤ length (value r)
      → value (set_range r offset bytes)
        ≡ take offset (value r) ++ (bytes ++ drop (offset + length bytes) (value r))

abbrev pub state_streaming_chunk_size : ℕ
state_streaming_chunk_size = 65536

abbrev pub ones_bitmask : ℕ
ones_bitmask = 255

pub record StateChunk : Type 0 where
  pub offset : ℕ
  pub bytes : List ℕ

pub record StateKeyValue : Type 0 where
  pub value_size : ℕ
  pub shared_mem_size : ℕ
  pub shared_memory : List ℕ
  pub dirty_mask : List ℕ
  pub pulled_mask : List ℕ
  pub is_dirty : Bool
  pub fully_pulled : Bool
  pub fully_allocated : Bool

-- Bytes put into a block; the block is long enough where this is used.
abbrev pub put_at : List ℕ → ℕ → List ℕ → List ℕ
put_at block offset bytes = take offset block ++ (bytes ++ drop (offset + length bytes) block)

-- Whether the loop of `getDirtyChunks` stands in a dirty part, and where that began.
pub data DirtyRun : Type 0 where
  off : DirtyRun
  on : (start_idx : ℕ) → DirtyRun

-- The loop of `getDirtyChunks` from the index `i` on; the mask is what is left of it.
unfoldable pub dirty_loop : List ℕ → List ℕ → ℕ → DirtyRun → List StateChunk
dirty_loop memory [] i off = []
dirty_loop memory [] i (on start) =
    record { offset = start; bytes = slice memory start (i - start) } ∷ []
dirty_loop memory (zero ∷ mask) i off = dirty_loop memory mask (suc i) off
dirty_loop memory (zero ∷ mask) i (on start) =
    record { offset = start; bytes = slice memory start (i - start) }
    ∷ dirty_loop memory mask (suc i) off
dirty_loop memory (suc m ∷ mask) i off = dirty_loop memory mask (suc i) (on i)
dirty_loop memory (suc m ∷ mask) i (on start) = dirty_loop memory mask (suc i) (on start)

unfoldable pub get_dirty_chunks : StateKeyValue → List ℕ → List StateChunk
unfolding dirty_loop
get_dirty_chunks kv mask = dirty_loop kv.shared_memory (take kv.value_size mask) 0 off

-- The loop of `getAllChunks`, with the rounds that are left; index and offset are 32 bits wide.
unfoldable pub chunks_loop : StateKeyValue → ℕ → ℕ → List StateChunk
chunks_loop kv zero i = []
chunks_loop kv (suc n) i =
    let previous_chunk_end = i * state_streaming_chunk_size % 2 ^ 32 in
    let chunk_size = min state_streaming_chunk_size (kv.value_size - previous_chunk_end) in
    record {
      offset = previous_chunk_end;
      bytes = slice kv.shared_memory previous_chunk_end chunk_size;
    }
    ∷ chunks_loop kv n (suc i)

unfoldable pub get_all_chunks : StateKeyValue → List StateChunk
unfolding chunks_loop
get_all_chunks kv =
    chunks_loop kv
      ((kv.value_size + state_streaming_chunk_size - 1) / state_streaming_chunk_size % 2 ^ 32) 0

unfoldable pub check_size_configured : StateKeyValue → Outcome (Unit {0})
check_size_configured kv = throw_unless (ltb 0 kv.value_size)

unfoldable pub all_set : List ℕ → Bool
all_set [] = true
all_set (m ∷ mask) = not (m == 0) && all_set mask

-- `isChunkPulled`
unfoldable pub is_chunk_pulled : StateKeyValue → ℕ → ℕ → Bool
unfolding all_set
is_chunk_pulled kv offset len = kv.fully_pulled || all_set (slice kv.pulled_mask offset len)

-- `allocateChunk`, less the protection of the pages
unfoldable pub allocate_chunk : StateKeyValue → ℕ → ℕ → StateKeyValue
allocate_chunk kv offset len =
    if kv.fully_allocated || not (offset == 0 && len == kv.shared_mem_size)
    then kv
    else record kv { fully_allocated = true }

-- `markDirtyChunk`; the mask has a byte for each byte of the value.
unfoldable pub mark_dirty_chunk : StateKeyValue → ℕ → ℕ → Outcome StateKeyValue
mark_dirty_chunk kv offset len = do
  in_bounds (leb (offset + len) (length kv.dirty_mask))
  ok (record kv {
    is_dirty = true;
    dirty_mask = put_at kv.dirty_mask offset (replicate len ones_bitmask);
  })

unfoldable pub flag_chunk_dirty : StateKeyValue → ℕ → ℕ → Outcome StateKeyValue
unfolding check_size_configured mark_dirty_chunk
flag_chunk_dirty kv offset len = do check_size_configured kv; mark_dirty_chunk kv offset len

unfoldable pub flag_dirty : StateKeyValue → StateKeyValue
flag_dirty kv = record kv { is_dirty = true }

unfoldable pub zero_dirty_mask : StateKeyValue → StateKeyValue
zero_dirty_mask kv = record kv { dirty_mask = replicate kv.value_size 0 }

-- `set` and `doSet`
unfoldable pub set_value : StateKeyValue → List ℕ → Outcome StateKeyValue
unfolding check_size_configured allocate_chunk
set_value kv buffer = do
  check_size_configured kv
  let kv1 = allocate_chunk kv 0 kv.shared_mem_size
  ok (record kv1 {
    shared_memory = put_at kv.shared_memory 0 (take kv.value_size buffer);
    fully_pulled = true;
    is_dirty = true;
  })

-- `doSetChunk`; chunks within the allocated memory are permitted.
unfoldable pub do_set_chunk : StateKeyValue → ℕ → List ℕ → Outcome StateKeyValue
unfolding check_size_configured allocate_chunk
do_set_chunk kv offset buffer = do
  check_size_configured kv
  throw_unless (leb (offset + length buffer) kv.shared_mem_size)
  let kv1 = allocate_chunk kv offset (length buffer)
  ok (record kv1 { shared_memory = put_at kv.shared_memory offset buffer })

unfoldable pub set_chunk : StateKeyValue → ℕ → List ℕ → Outcome StateKeyValue
unfolding do_set_chunk mark_dirty_chunk
set_chunk kv offset buffer = do
  kv1 ← do_set_chunk kv offset buffer
  mark_dirty_chunk kv1 offset (length buffer)

module _ (redis : RedisString) where
  -- `pullFromRemote`, with `Redis::get` into a buffer of the value's size: it throws on a longer string,
  -- and copies a shorter one to the front of the buffer.
  unfoldable pub pull_from_remote : StateKeyValue → redis.Server → Outcome StateKeyValue
  pull_from_remote kv r = do
    throw_unless (leb (length (redis.value r)) kv.value_size)
    ok (record kv { shared_memory = put_at kv.shared_memory 0 (redis.value r) })

  -- `pullChunkFromRemote`
  unfoldable pub pull_chunk_from_remote : StateKeyValue → redis.Server → ℕ → ℕ → StateKeyValue
  pull_chunk_from_remote kv r offset len = record kv {
    shared_memory = put_at kv.shared_memory offset (slice (redis.value r) offset len);
  }

  -- `pushPartialToRemote`
  unfoldable pub push_partial_to_remote : redis.Server → List StateChunk → redis.Server
  push_partial_to_remote r [] = r
  push_partial_to_remote r (c ∷ chunks) =
      push_partial_to_remote (redis.set_range r c.offset c.bytes) chunks

  -- `doPull`
  unfoldable pub do_pull : StateKeyValue → redis.Server → Bool → Outcome StateKeyValue
  unfolding check_size_configured allocate_chunk pull_from_remote
  do_pull kv r lazy = do
    check_size_configured kv
    if lazy && kv.fully_pulled then ok kv else (do
      kv1 ← pull_from_remote (allocate_chunk kv 0 kv.shared_mem_size) r
      ok (record kv1 { fully_pulled = true }))

  -- `doPullChunk`
  unfoldable pub do_pull_chunk : StateKeyValue → redis.Server → Bool → ℕ → ℕ → Outcome StateKeyValue
  unfolding check_size_configured is_chunk_pulled allocate_chunk pull_chunk_from_remote
  do_pull_chunk kv r lazy offset len = do
    check_size_configured kv
    throw_unless (leb (offset + len) kv.value_size)
    let kv1 = pull_chunk_from_remote (allocate_chunk kv offset len) r offset len
    if lazy && is_chunk_pulled kv offset len
        then ok kv
        else ok
            (record kv1 { pulled_mask = put_at kv.pulled_mask offset (replicate len ones_bitmask) })

  unfoldable pub get_value : StateKeyValue → redis.Server → Outcome (StateKeyValue × List ℕ)
  unfolding do_pull
  get_value kv r = do kv1 ← do_pull kv r true; ok (kv1, take kv1.value_size kv1.shared_memory)

  unfoldable pub get_chunk : StateKeyValue → redis.Server → ℕ → ℕ → Outcome (StateKeyValue × List ℕ)
  unfolding do_pull_chunk
  get_chunk kv r offset len = do
    kv1 ← do_pull_chunk kv r true offset len
    ok (kv1, slice kv1.shared_memory offset len)

  -- `pushFull`
  unfoldable pub push_full : StateKeyValue → redis.Server → Outcome (StateKeyValue × redis.Server)
  unfolding check_size_configured zero_dirty_mask
  push_full kv r = do
    check_size_configured kv
    if kv.is_dirty
        then ok (
          record (zero_dirty_mask kv) { is_dirty = false },
          redis.set r (take kv.value_size kv.shared_memory),
        )
        else ok (kv, r)

  -- `doPushPartial` with a mask; `zeroed` is the value once the mask is cleared, which may be its own.
  unfoldable pub do_push_partial :
      StateKeyValue → StateKeyValue → redis.Server → List ℕ → Outcome (StateKeyValue × redis.Server)
  unfolding get_dirty_chunks push_partial_to_remote pull_from_remote
  do_push_partial kv zeroed r mask =
      let r1 = push_partial_to_remote r (get_dirty_chunks kv mask) in
      let pulled = if kv.fully_allocated then pull_from_remote zeroed r1 else ok zeroed in
      if kv.is_dirty
      then (do kv1 ← pulled; ok (record kv1 { is_dirty = false }, r1))
      else ok (kv, r)

  unfoldable pub push_partial :
      StateKeyValue → redis.Server → Outcome (StateKeyValue × redis.Server)
  unfolding check_size_configured zero_dirty_mask do_push_partial
  push_partial kv r = do
    check_size_configured kv
    do_push_partial kv (zero_dirty_mask kv) r kv.dirty_mask

  -- `pushPartialMask`: the mask is the value of another key, whose string is `mask_r`. It is cleared in
  -- that value's memory if the push takes place, and the value's own mask is left as it is.
  unfoldable pub push_partial_mask :
      StateKeyValue
      → redis.Server
      → StateKeyValue
      → redis.Server
      → Outcome (StateKeyValue × redis.Server × StateKeyValue)
  unfolding do_pull do_push_partial
  push_partial_mask kv r mask_kv mask_r = do
    throw_unless (mask_kv.value_size == kv.value_size)
    mask_kv1 ← do_pull mask_kv mask_r true
    (kv1, r1) ← do_push_partial kv kv r mask_kv1.shared_memory
    let cleared : StateKeyValue = record mask_kv1 {
      shared_memory = put_at mask_kv1.shared_memory 0 (replicate kv.value_size 0);
    }
    ok (kv1, r1, if kv.is_dirty then cleared else mask_kv1)

module _ (host_page_size : ℕ) where
  -- The constructor with a size, and `configureSize`
  unfoldable pub new_state_key_value : ℕ → StateKeyValue
  unfolding get_required_host_pages
  new_state_key_value size =
      let shared_mem_size = get_required_host_pages host_page_size size * host_page_size in
      record {
        value_size = size;
        shared_mem_size = shared_mem_size;
        shared_memory = replicate shared_mem_size 0;
        dirty_mask = replicate size 0;
        pulled_mask = replicate size 0;
        is_dirty = false;
        fully_pulled = false;
        fully_allocated = false;
      }
