-- ===== src/Layout.antt =====
-- memrpc/src/core/shm_layout.h and `ValidateLayoutConfig` of memrpc/src/core/session.cpp: where the
-- three rings lie in the shared memory. `size_t` has 64 bits and its arithmetic wraps.
pub mod Bounds
use mem.Prelude.{
  ℕ, ◌/◌, Bool, false, true, ◌||◌, not, if◌then◌else◌, ◌==◌, ltb, leb, ◌&&◌, add64, mul64, sub64,
}
use mem.Types.{ring_entry_bytes, request_inline_bytes, response_inline_bytes}
use mem.Ring.{max_ring_entries}

-- What the compiler and the C library fix: `sizeof(SharedMemoryHeader)`, which holds a
-- `pthread_mutex_t`, and the alignments of the entries and of `std::max_align_t`.
pub record Abi : Type 0 where
  pub header_bytes : ℕ
  pub request_align : ℕ
  pub response_align : ℕ
  pub max_align : ℕ

-- `struct LayoutConfig`
pub record LayoutConfig : Type 0 where
  pub high_ring_size : ℕ
  pub normal_ring_size : ℕ
  pub response_ring_size : ℕ
  pub max_request_bytes : ℕ
  pub max_response_bytes : ℕ

-- `struct Layout`
pub record Layout : Type 0 where
  pub high_ring_offset : ℕ
  pub normal_ring_offset : ℕ
  pub response_ring_offset : ℕ
  pub total_size : ℕ

abbrev pub empty_layout : Layout
empty_layout = record {
  high_ring_offset = 0;
  normal_ring_offset = 0;
  response_ring_offset = 0;
  total_size = 0;
}

unfoldable pub align_offset : ℕ → ℕ → ℕ
align_offset offset alignment =
    if alignment == 0
    then offset
    else mul64 (sub64 (add64 offset alignment) 1 / alignment) alignment

unfoldable pub has_aligned_payload_sizes : ℕ → ℕ → Bool
has_aligned_payload_sizes max_request_bytes max_response_bytes =
    ltb 0 max_request_bytes
    && ltb 0 max_response_bytes
    && leb max_request_bytes request_inline_bytes
    && leb max_response_bytes response_inline_bytes

-- The end of a ring of `size` entries that starts at `offset`.
abbrev pub ring_end : ℕ → ℕ → ℕ
ring_end offset size = add64 offset (mul64 ring_entry_bytes size)

unfoldable pub compute_layout : Abi → LayoutConfig → Layout
compute_layout abi config =
    let high = align_offset abi.header_bytes abi.request_align in
    let normal = align_offset (ring_end high config.high_ring_size) abi.request_align in
    let response = align_offset (ring_end normal config.normal_ring_size) abi.response_align in
    record {
      high_ring_offset = high;
      normal_ring_offset = normal;
      response_ring_offset = response;
      total_size = align_offset (ring_end response config.response_ring_size) abi.max_align;
    }

abbrev bad_ring_size : ℕ → Bool
bad_ring_size size = size == 0 || ltb max_ring_entries size

unfoldable pub validate_layout_config : Abi → LayoutConfig → ℕ → Bool
validate_layout_config abi config file_size =
    if bad_ring_size config.high_ring_size
    then false
    else if bad_ring_size config.normal_ring_size
    then false
    else if bad_ring_size config.response_ring_size
    then false
    else if config.max_request_bytes == 0
        || config.max_response_bytes == 0
        || not (has_aligned_payload_sizes config.max_request_bytes config.max_response_bytes)
    then false
    else if ltb (compute_layout abi config).total_size abi.header_bytes
        || ltb file_size (compute_layout abi config).total_size
    then false
    else true
