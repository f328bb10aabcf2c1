-- ===== src/Host/Attachable.antt =====
-- Which sessions that a host creates (memrpc/src/bootstrap/shared_memory_session_host.cpp) `Attach`
-- (memrpc/src/core/session.cpp) accepts.
use mem.Prelude.{ℕ, ◌≤◌, ◌≡◌, Bool, true, not, ◌&&◌, ◌==◌, leb, arith, Bool-cases, inl, inr}
use mem.Ring.{max_ring_entries, validate_ring_cursor, ring_count}
use mem.Layout.{Abi, compute_layout, validate_layout_config, has_aligned_payload_sizes}
use mem.Layout.Bounds.{IsSane, compute_layout_self}
use mem.Session.Attach.{header_config, header_is_valid}
use mem.Host.{SharedMemorySessionConfig, has_valid_config, build_layout_config, populate_header}

-- The sizes that a ring may have.
abbrev pub good_ring_size : ℕ → Bool
good_ring_size n = not (n == 0) && leb n max_ring_entries

abbrev pub good_ring_sizes : SharedMemorySessionConfig → Bool
good_ring_sizes c =
    good_ring_size c.high_ring_size
    && good_ring_size c.normal_ring_size
    && good_ring_size c.response_ring_size

-- For a configuration that the host accepts, on an implementation with a header of at most 64 KiB and
-- alignments between 1 and 4096, the header that the host writes passes the checks of `Attach` on the
-- file that the host makes exactly where each ring has between 1 and 2 ^ 20 entries, which the host
-- does not check.
pub attachable_iff :
    (abi : Abi) (id : ℕ) (c : SharedMemorySessionConfig)
    → IsSane abi
    → has_valid_config c ≡ true
    → header_is_valid abi
        (populate_header id c)
        (compute_layout abi (build_layout_config c)).total_size
      ≡ good_ring_sizes c
unfolding header_is_valid header_config populate_header validate_layout_config validate_ring_cursor
    ring_count has_valid_config has_aligned_payload_sizes
attachable_iff abi id c sane valid = elim (Bool-cases (good_ring_sizes c)) [
  | inl good ↦
      let p =
        compute_layout_self abi (build_layout_config c) sane (ground (arith, good))
          (ground (arith, good)) (ground (arith, good)) in
      let small : abi.header_bytes ≤ (compute_layout abi (build_layout_config c)).total_size =
        omega (arith, p.header_fits, p.high_fits, p.normal_fits, p.response_fits) in
      ground (arith, good, valid, small)
  | inr bad ↦ ground (arith, bad, valid)
]
