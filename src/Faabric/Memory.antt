-- ===== src/Faabric/Memory.antt =====
-- faasm/faabric, src/util/memory.cpp: pages of the host's memory. The size of a page is a parameter.
use tpfaas.Base.{ℕ, ◌+◌, ◌-◌, ◌*◌, ◌/◌}

pub record AlignedChunk : Type 0 where
  pub original_offset : ℕ
  pub original_length : ℕ
  pub n_bytes_offset : ℕ
  pub n_bytes_length : ℕ
  pub n_pages_offset : ℕ
  pub n_pages_length : ℕ
  pub offset_remainder : ℕ

module _ (host_page_size : ℕ) where
  unfoldable pub get_required_host_pages : ℕ → ℕ
  get_required_host_pages n_bytes = (n_bytes + host_page_size - 1) / host_page_size

  unfoldable pub get_required_host_pages_round_down : ℕ → ℕ
  get_required_host_pages_round_down n_bytes = n_bytes / host_page_size

  unfoldable pub align_offset_down : ℕ → ℕ
  unfolding get_required_host_pages_round_down
  align_offset_down offset = get_required_host_pages_round_down offset * host_page_size

  unfoldable pub get_page_aligned_chunk : ℕ → ℕ → AlignedChunk
  unfolding get_required_host_pages get_required_host_pages_round_down
  get_page_aligned_chunk offset len =
      let n_pages_offset = get_required_host_pages_round_down offset in
      let n_pages_upper = get_required_host_pages (offset + len) in
      let n_pages_length = n_pages_upper - n_pages_offset in
      let n_bytes_offset = n_pages_offset * host_page_size in
      record {
        original_offset = offset;
        original_length = len;
        n_bytes_offset = n_bytes_offset;
        n_bytes_length = n_pages_length * host_page_size;
        n_pages_offset = n_pages_offset;
        n_pages_length = n_pages_length;
        offset_remainder = offset - n_bytes_offset;
      }
