-- ===== src/Host/Examples.antt =====
-- Instances of the theorems on what a host creates.
use mem.Prelude.{◌+◌, if◌then◌else◌, ◌≡◌, refl, true, false, none, some, [], ◌∷◌, ◌==◌, arith}
use mem.Types.{make_default_bootstrap_handles}
use mem.Layout.{compute_layout, has_aligned_payload_sizes}
use mem.Session.Attach.{header_is_valid}
use mem.Session.Examples.{x86_64}
use mem.Host.{
  reset_handles, create_event_fds, initialize_shared_memory, finalize_initialized_session,
  open_shared_memory_fd, ensure_initialized, HostKernel, name_taken, opened, SessionHost,
  SharedMemorySessionConfig, has_valid_config, build_layout_config, populate_header,
}
use mem.Host.Outcome.{Outcome, ensure_initialized-Outcome}
use mem.Host.Attachable.{attachable_iff, good_ring_sizes}

-- No room for urgent requests.
abbrev no_high_ring : SharedMemorySessionConfig
no_high_ring = record {
  high_ring_size = 0;
  normal_ring_size = 32;
  response_ring_size = 64;
  max_request_bytes = 100;
  max_response_bytes = 100;
  auto_name = true;
}

attachable_iff_example :
    header_is_valid x86_64
      (populate_header 5 no_high_ring)
      (compute_layout x86_64 (build_layout_config no_high_ring)).total_size
    ≡ good_ring_sizes no_high_ring
unfolding has_valid_config has_aligned_payload_sizes
attachable_iff_example = attachable_iff x86_64 5 no_high_ring (omega arith) refl

abbrev two_rings : SharedMemorySessionConfig
two_rings = record no_high_ring { high_ring_size = 16 }

-- The first name is taken, and the fifth event descriptor cannot be created.
abbrev out_of_fds : HostKernel
out_of_fds = record {
  shm_open = λ n. if n == 0 then name_taken else opened 3 true;
  truncates = true;
  maps = true;
  inits_mutex = true;
  random = 5;
  high_req_fd = some 4;
  normal_req_fd = some 5;
  resp_fd = some 6;
  req_credit_fd = some 7;
  resp_credit_fd = none;
  dup = λ fd. some (fd + 10);
}

abbrev new_host : SessionHost
new_host = record {
  config = two_rings;
  handles = make_default_bootstrap_handles;
  initialized = false;
  memory = none;
  closed = [];
}

-- All that was opened is closed again.
out_of_fds_closes : ((ensure_initialized out_of_fds new_host).1).closed ≡ 3 ∷ 4 ∷ 5 ∷ 6 ∷ 7 ∷ []
unfolding ensure_initialized has_valid_config has_aligned_payload_sizes open_shared_memory_fd
    finalize_initialized_session initialize_shared_memory create_event_fds reset_handles
out_of_fds_closes = refl

ensure_initialized-Outcome_example :
    Outcome out_of_fds two_rings (ensure_initialized out_of_fds new_host)
unfolding has_valid_config has_aligned_payload_sizes
ensure_initialized-Outcome_example = ensure_initialized-Outcome out_of_fds new_host refl refl
