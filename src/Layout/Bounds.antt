-- ===== src/Layout/Bounds.antt =====
-- The rings of an accepted configuration lie one behind the other, behind the header and inside the
-- file, and no `size_t` computation of memrpc/src/core/shm_layout.h wraps.
use native.Mathlib.Nat.{div-mul-le_self, div-add-mod', mod-lt, mod-eq_of_lt, mul-mod_left}
use mem.Layout.{
  ring_end, Abi, LayoutConfig, Layout, align_offset, compute_layout, validate_layout_config,
  has_aligned_payload_sizes,
}
use mem.Types.{ring_entry_bytes, request_inline_bytes, response_inline_bytes}
use mem.Ring.{max_ring_entries}
use mem.Prelude.{◌-◌, ne→==, ℕ, ◌+◌, ◌*◌, ◌/◌, ◌%◌, ◌^◌, ◌≤◌, ◌<◌, ◌≡◌, true, arith, add64, sub64}

-- The sizes that an implementation may have: a header of at most 64 KiB, and alignments of at most
-- 4 KiB that are not 0.
pub record IsSane (abi : Abi) : Type 0 where
  pub header_small : abi.header_bytes ≤ 2 ^ 16
  pub request_pos : 0 < abi.request_align
  pub request_small : abi.request_align ≤ 4096
  pub response_pos : 0 < abi.response_align
  pub response_small : abi.response_align ≤ 4096
  pub max_pos : 0 < abi.max_align
  pub max_small : abi.max_align ≤ 4096

align_offset-eq :
    (offset alignment : ℕ)
    → 0 < alignment
    → alignment ≤ 4096
    → offset < 2 ^ 60
    → align_offset offset alignment ≡ (offset + alignment - 1) / alignment * alignment
unfolding align_offset
align_offset-eq offset alignment pos small fits =
    let up : sub64 (add64 offset alignment) 1 ≡ offset + alignment - 1 = omega arith in
    let below = div-mul-le_self (offset + alignment - 1) alignment in
    rw (ne→== {a = alignment} {b = 0} (omega arith), up) (mod-eq_of_lt (omega (arith, below)))

-- Rounding up by less than the alignment, to a multiple of it.
pub align_offset_bounds :
    (offset alignment : ℕ)
    → 0 < alignment
    → alignment ≤ 4096
    → offset < 2 ^ 60
    → (offset ≤ align_offset offset alignment)
      × (align_offset offset alignment < offset + alignment)
      × (align_offset offset alignment % alignment ≡ 0)
align_offset_bounds offset alignment pos small fits =
    let x : ℕ = offset + alignment - 1 in
    let parts = div-add-mod' x alignment in
    let rest = mod-lt x {m = alignment} pos in
    rw (align_offset-eq offset alignment pos small fits) (
      omega (arith, parts, rest),
      omega (arith, parts, rest),
      mul-mod_left (x / alignment) alignment,
    )

-- Each ring starts aligned behind what comes before it, its entries end before the next ring
-- starts, and the whole ends inside the file.
pub record Placed (abi : Abi) (config : LayoutConfig) (layout : Layout) (file_size : ℕ)
    : Type 0 where
  pub header_fits : abi.header_bytes ≤ layout.high_ring_offset
  pub high_fits :
      layout.high_ring_offset + ring_entry_bytes * config.high_ring_size ≤ layout.normal_ring_offset
  pub normal_fits :
      layout.normal_ring_offset + ring_entry_bytes * config.normal_ring_size
      ≤ layout.response_ring_offset
  pub response_fits :
      layout.response_ring_offset + ring_entry_bytes * config.response_ring_size ≤ layout.total_size
  pub total_fits : layout.total_size ≤ file_size
  pub total_small : layout.total_size < 2 ^ 36
  pub high_aligned : layout.high_ring_offset % abi.request_align ≡ 0
  pub normal_aligned : layout.normal_ring_offset % abi.request_align ≡ 0
  pub response_aligned : layout.response_ring_offset % abi.response_align ≡ 0

ring_end-eq :
    (offset size : ℕ)
    → offset < 2 ^ 40
    → size ≤ max_ring_entries
    → ring_end offset size ≡ offset + ring_entry_bytes * size
ring_end-eq offset size h k = omega arith

-- What `ValidateLayoutConfig` has checked when it accepts.
pub record Accepted (abi : Abi) (config : LayoutConfig) (file_size : ℕ) : Type 0 where
  pub high_pos : 0 < config.high_ring_size
  pub high_max : config.high_ring_size ≤ max_ring_entries
  pub normal_pos : 0 < config.normal_ring_size
  pub normal_max : config.normal_ring_size ≤ max_ring_entries
  pub response_pos : 0 < config.response_ring_size
  pub response_max : config.response_ring_size ≤ max_ring_entries
  pub request_max : config.max_request_bytes ≤ request_inline_bytes
  pub reply_max : config.max_response_bytes ≤ response_inline_bytes
  pub header_within : abi.header_bytes ≤ (compute_layout abi config).total_size
  pub fits : (compute_layout abi config).total_size ≤ file_size

pub validate-Accepted :
    (abi : Abi) (config : LayoutConfig) (file_size : ℕ)
    → validate_layout_config abi config file_size ≡ true
    → Accepted abi config file_size
unfolding validate_layout_config has_aligned_payload_sizes
validate-Accepted abi config file_size valid = ground arith

-- A configuration whose rings are not too large, in a file of the size that `ComputeLayout` gives.
pub compute_layout_self :
    (abi : Abi) (config : LayoutConfig)
    → IsSane abi
    → config.high_ring_size ≤ max_ring_entries
    → config.normal_ring_size ≤ max_ring_entries
    → config.response_ring_size ≤ max_ring_entries
    → Placed abi config (compute_layout abi config) (compute_layout abi config).total_size
unfolding compute_layout
compute_layout_self abi config sane high_max normal_max response_max =
    let l = compute_layout abi config in
    let high =
      align_offset_bounds abi.header_bytes abi.request_align sane.request_pos sane.request_small
        (omega arith) in
    let high_end = ring_end-eq l.high_ring_offset config.high_ring_size (omega arith) high_max in
    let normal =
      align_offset_bounds (ring_end l.high_ring_offset config.high_ring_size) abi.request_align
        sane.request_pos sane.request_small (omega arith) in
    let normal_end =
      ring_end-eq l.normal_ring_offset config.normal_ring_size (omega arith) normal_max in
    let response =
      align_offset_bounds (ring_end l.normal_ring_offset config.normal_ring_size) abi.response_align
        sane.response_pos sane.response_small (omega arith) in
    let response_end =
      ring_end-eq l.response_ring_offset config.response_ring_size (omega arith) response_max in
    let total =
      align_offset_bounds (ring_end l.response_ring_offset config.response_ring_size) abi.max_align
        sane.max_pos sane.max_small (omega arith) in
    record {
      header_fits = high.0;
      high_fits = omega (arith, high_end, normal);
      normal_fits = omega (arith, normal_end, response);
      response_fits = omega (arith, response_end, total);
      total_fits = omega arith;
      total_small =
          omega (arith, high, high_end, normal, normal_end, response, response_end, total);
      high_aligned = high.2;
      normal_aligned = normal.2;
      response_aligned = response.2;
    }

-- Where `ValidateLayoutConfig` accepts a configuration for a file, on an implementation with a
-- header of at most 64 KiB and alignments between 1 and 4096, `ComputeLayout` puts the header and
-- the three rings one behind the other without overlap, each ring aligned for its entries, all of
-- it inside the file and below 2 ^ 36 bytes.
pub compute_layout-Placed :
    (abi : Abi) (config : LayoutConfig) (file_size : ℕ)
    → IsSane abi
    → validate_layout_config abi config file_size ≡ true
    → Placed abi config (compute_layout abi config) file_size
compute_layout-Placed abi config file_size sane valid =
    let accepted = validate-Accepted abi config file_size valid in
    let p =
      compute_layout_self abi config sane accepted.high_max accepted.normal_max
        accepted.response_max in
    record {
      header_fits = p.header_fits;
      high_fits = p.high_fits;
      normal_fits = p.normal_fits;
      response_fits = p.response_fits;
      total_fits = accepted.fits;
      total_small = p.total_small;
      high_aligned = p.high_aligned;
      normal_aligned = p.normal_aligned;
      response_aligned = p.response_aligned;
    }
