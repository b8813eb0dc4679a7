-- ===== src/Tests/FaabricExamples.antt =====
-- Runs of the models of faasm/faabric: deltas and state.
use tpfaas.Base.{
  ℕ, ◌+◌, ◌%◌, ◌≤◌, ◌<◌, ◌≡◌, refl, sym, true, false, List, [], ◌∷◌, ◌++◌, some, length, take, drop,
  slice, replicate, arith, ok, fault, thrown,
}
use tpfaas.Faabric.Delta.{DeltaSettings, Zstd, serialize_delta}
use tpfaas.Faabric.Delta.Apply.{apply_delta}
use tpfaas.Faabric.Delta.Encoded.{resize}
use tpfaas.Faabric.Delta.RoundTrip.{delta_round_trip}
use tpfaas.Faabric.Delta.Pages.{second_page_lost}
use tpfaas.Faabric.State.{
  RedisString, StateKeyValue, put_at, push_partial, set_value, set_chunk, get_chunk, get_all_chunks,
  new_state_key_value,
}
use tpfaas.Faabric.Memory.{get_page_aligned_chunk}
use tpfaas.Faabric.State.Dirty.{merged, push_partial_merges, push_partial_too_long}
use tpfaas.Faabric.State.Lost.{set_then_push_partial, set_chunk_then_get_chunk}
use tpfaas.Faabric.State.Chunks.{joined_chunks, get_all_chunks_join, aligned_chunk_covers}

-- A compression that leaves the bytes as they are.
abbrev stored : Zstd
stored = record {
  compress = λ level xs. some xs;
  decompress = λ xs size. some xs;
  decompress-compress = λ level xs ys e. sym e;
}

abbrev packed_xor : DeltaSettings
packed_xor = record {
  use_pages = false;
  page_size = 4;
  xor_with_old = true;
  use_zstd = true;
  zstd_level = 1;
}

delta_round_trip_example :
    (delta : List ℕ) × (serialize_delta stored packed_xor (1 ∷ 2 ∷ []) (1 ∷ 3 ∷ 4 ∷ []) ≡ ok delta)
    × (apply_delta stored 2 resize delta (1 ∷ 2 ∷ []) ≡ ok (1 ∷ 3 ∷ 4 ∷ []))
delta_round_trip_example =
    delta_round_trip stored packed_xor (1 ∷ 2 ∷ []) (1 ∷ 3 ∷ 4 ∷ []) refl (omega arith)
      (omega arith) (omega arith, (omega arith, tt)) (omega arith, (omega arith, (omega arith, tt)))
      (λ xs short. (xs, refl, omega arith))

abbrev paged : DeltaSettings
paged = record {
  use_pages = true;
  page_size = 2;
  xor_with_old = false;
  use_zstd = false;
  zstd_level = 1;
}

second_page_lost_example :
    (delta : List ℕ) × (serialize_delta stored paged (1 ∷ 2 ∷ 3 ∷ 4 ∷ []) (1 ∷ 2 ∷ 1 ∷ 2 ∷ [])
      ≡ ok delta)
    × (apply_delta stored 1 resize delta (1 ∷ 2 ∷ 3 ∷ 4 ∷ []) ≡ ok (1 ∷ 2 ∷ 3 ∷ 4 ∷ []))
second_page_lost_example =
    second_page_lost stored paged (1 ∷ 2 ∷ []) (3 ∷ 4 ∷ []) refl refl refl refl (omega arith)
      (omega arith)

-- A string that is its bytes.
abbrev plain : RedisString
plain = record {
  Server = List ℕ;
  value = λ r. r;
  set = λ r bytes. bytes;
  set_range = λ r offset bytes. take offset r ++ (bytes ++ drop (offset + length bytes) r);
  value-set = λ r bytes. refl;
  value-set_range = λ r offset bytes inside. refl;
}

-- A value of four bytes in a page of eight.
abbrev four_bytes : StateKeyValue
four_bytes = record {
  value_size = 4;
  shared_mem_size = 8;
  shared_memory = 1 ∷ 2 ∷ 3 ∷ 4 ∷ 0 ∷ 0 ∷ 0 ∷ 0 ∷ [];
  dirty_mask = 0 ∷ 0 ∷ 0 ∷ 0 ∷ [];
  pulled_mask = 0 ∷ 0 ∷ 0 ∷ 0 ∷ [];
  is_dirty = false;
  fully_pulled = false;
  fully_allocated = true;
}

abbrev half_dirty : StateKeyValue
half_dirty = record four_bytes { is_dirty = true; dirty_mask = 255 ∷ 0 ∷ 255 ∷ 0 ∷ [] }

push_partial_merges_example :
    (kv1 : StateKeyValue) × (r1 : List ℕ) × (push_partial plain half_dirty (9 ∷ 8 ∷ 7 ∷ 6 ∷ [])
      ≡ ok (kv1, r1))
    × (r1 ≡ merged half_dirty.dirty_mask half_dirty.shared_memory (9 ∷ 8 ∷ 7 ∷ 6 ∷ []))
    × (kv1.is_dirty ≡ false)
    × (kv1.dirty_mask ≡ replicate 4 0)
push_partial_merges_example =
    push_partial_merges plain half_dirty (9 ∷ 8 ∷ 7 ∷ 6 ∷ []) (omega arith) refl refl (omega arith)
      (omega arith) (λ e. omega arith)

push_partial_too_long_example :
    push_partial plain half_dirty (9 ∷ 8 ∷ 7 ∷ 6 ∷ 5 ∷ []) ≡ fault thrown
push_partial_too_long_example =
    push_partial_too_long plain half_dirty (9 ∷ 8 ∷ 7 ∷ 6 ∷ 5 ∷ []) (omega arith) refl refl refl
      (omega arith) (omega arith)

set_then_push_partial_example :
    (kv1 kv2 : StateKeyValue) × (set_value four_bytes (5 ∷ 5 ∷ 5 ∷ 5 ∷ []) ≡ ok kv1)
    × (push_partial plain kv1 (9 ∷ 8 ∷ 7 ∷ 6 ∷ []) ≡ ok (kv2, 9 ∷ 8 ∷ 7 ∷ 6 ∷ []))
    × (kv2.shared_memory ≡ put_at kv1.shared_memory 0 (9 ∷ 8 ∷ 7 ∷ 6 ∷ []))
    × (kv2.is_dirty ≡ false)
set_then_push_partial_example =
    set_then_push_partial plain four_bytes (9 ∷ 8 ∷ 7 ∷ 6 ∷ []) (5 ∷ 5 ∷ 5 ∷ 5 ∷ []) (omega arith)
      refl refl (omega arith)

set_chunk_then_get_chunk_example :
    (kv1 kv2 : StateKeyValue) × (set_chunk four_bytes 1 (5 ∷ 5 ∷ []) ≡ ok kv1)
    × (slice kv1.shared_memory 1 2 ≡ 5 ∷ 5 ∷ [])
    × (get_chunk plain kv1 (9 ∷ 8 ∷ 7 ∷ 6 ∷ []) 1 2 ≡ ok (kv2, 8 ∷ 7 ∷ []))
unfolding tpfaas.Faabric.State.is_chunk_pulled tpfaas.Faabric.State.all_set
set_chunk_then_get_chunk_example =
    set_chunk_then_get_chunk plain four_bytes (9 ∷ 8 ∷ 7 ∷ 6 ∷ []) 1 (5 ∷ 5 ∷ []) (omega arith)
      (omega arith) (omega arith) refl refl (omega arith) refl

get_all_chunks_join_example : joined_chunks (get_all_chunks four_bytes) ≡ 1 ∷ 2 ∷ 3 ∷ 4 ∷ []
get_all_chunks_join_example = get_all_chunks_join four_bytes (omega arith)

aligned_chunk_covers_example :
    ((get_page_aligned_chunk 4096 5000 100).n_bytes_offset % 4096 ≡ 0)
    × ((get_page_aligned_chunk 4096 5000 100).n_bytes_offset
          + (get_page_aligned_chunk 4096 5000 100).offset_remainder
        ≡ 5000)
    × ((get_page_aligned_chunk 4096 5000 100).offset_remainder < 4096)
    × ((get_page_aligned_chunk 4096 5000 100).n_bytes_length % 4096 ≡ 0)
    × (5100
        ≤ (get_page_aligned_chunk 4096 5000 100).n_bytes_offset
          + (get_page_aligned_chunk 4096 5000 100).n_bytes_length)
    × ((get_page_aligned_chunk 4096 5000 100).n_bytes_offset
          + (get_page_aligned_chunk 4096 5000 100).n_bytes_length
        < 5000 + 100 + 4096)
aligned_chunk_covers_example = aligned_chunk_covers 4096 5000 100 (omega arith)
