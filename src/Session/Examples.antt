-- ===== src/Session/Examples.antt =====
-- A session of two-slot rings: its layout, its attachment, and calls on it.
use native.Mathlib.Nat.{dvd_of_mod-eq-zero}
use mem.Types.{
  RequestRingEntry, ResponseRingEntry, reply, BootstrapHandles, shared_memory_magic,
  protocol_version, request_inline_bytes, response_inline_bytes,
}
use mem.Ring.{RingCursor}
use mem.Ring.Refine.{Represents}
use mem.Layout.{
  Abi, compute_layout, validate_layout_config, align_offset, has_aligned_payload_sizes,
}
use mem.Layout.Bounds.{IsSane, Placed, compute_layout-Placed}
use mem.Session.{
  client, SharedMemory, SharedMemoryHeader, World, Kernel, delivered, acquired, empty_session,
}
use mem.Session.Attach.{attach, take_bootstrap_handles, header_config}
use mem.Session.Attach.Outcome.{Outcome, fresh_world, attach-Outcome}
use mem.Session.Queues.{high_request, normal_request}
use mem.Session.Queues.Refine.{Queues}
use mem.Session.Queues.Trace.{
  Call, pushes_request, pops_request, pops_response, Sized, run_session, run_queues,
  run_session_refines,
}
use mem.Prelude.{◌≡◌, refl, true, some, [], ◌∷◌, List, arith}

abbrev pub x86_64 : Abi
x86_64 = record { header_bytes = 144; request_align = 8; response_align = 8; max_align = 16 }

x86_64-IsSane : IsSane x86_64
x86_64-IsSane = omega arith

abbrev pub no_entries : RingCursor
no_entries = record { head = 0; tail = 0; capacity = 2; reserved = 0 }

abbrev pub request : RequestRingEntry
request = record {
  request_id = 1;
  exec_timeout_ms = 100;
  opcode = 3;
  priority = 1;
  payload_kind = 0;
  payload_size = 0;
  payload = [];
}

abbrev pub response : ResponseRingEntry
response = record {
  request_id = 1;
  status_code = 0;
  event_domain = 0;
  event_type = 0;
  flags = 0;
  result_size = 0;
  message_kind = reply;
  payload_kind = 0;
  payload = [];
}

abbrev header : SharedMemoryHeader
header = record {
  magic = shared_memory_magic;
  protocol_version = protocol_version;
  session_id = 77;
  session_state = 0;
  client_attached = 0;
  active_client_pid = 0;
  high_ring_size = 2;
  normal_ring_size = 2;
  response_ring_size = 2;
  max_request_bytes = request_inline_bytes;
  max_response_bytes = response_inline_bytes;
  high_ring = no_entries;
  normal_ring = no_entries;
  response_ring = no_entries;
}

abbrev pub memory : SharedMemory
memory = record {
  header = header;
  high_slots = request ∷ request ∷ [];
  normal_slots = request ∷ request ∷ [];
  response_slots = response ∷ response ∷ [];
}

compute_layout-Placed_example :
    Placed x86_64 (header_config header) (compute_layout x86_64 (header_config header)) 65536
unfolding validate_layout_config compute_layout align_offset has_aligned_payload_sizes header_config
compute_layout-Placed_example =
    compute_layout-Placed x86_64 (header_config header) 65536 x86_64-IsSane refl

abbrev pub kernel : Kernel
kernel = record {
  release_lock = acquired;
  header_stat = some 65536;
  header_map = true;
  layout_stat = some 65536;
  layout_map = true;
  attach_lock = acquired;
  kill = λ _. delivered;
  pid = 4242;
}

abbrev pub handles : BootstrapHandles
handles = record {
  shm_fd = some 3;
  high_req_event_fd = some 4;
  normal_req_event_fd = some 5;
  resp_event_fd = some 6;
  req_credit_event_fd = some 7;
  resp_credit_event_fd = some 8;
  protocol_version = 9;
  session_id = 77;
}

abbrev idle : World
idle = record { session = empty_session; memory = memory; mappings = 0; closed = [] }

attach-Outcome_example :
    Outcome x86_64 kernel
      (take_bootstrap_handles (some handles))
      client
      (fresh_world kernel memory idle)
      (attach x86_64 kernel (some handles) client memory idle)
attach-Outcome_example =
    attach-Outcome x86_64 kernel (some handles) client memory idle (omega arith)

abbrev pub attached : World
attached = record idle {
  session = record (empty_session) { mapped = true; has_header = true };
  mappings = 1;
}

fresh_ring {ℓ} :
    {E : Type ℓ} (a b : E) → Represents (record { cursor = no_entries; entries = a ∷ b ∷ [] }) []
fresh_ring a b = record {
  valid = record {
    positive = omega arith;
    limited = omega arith;
    storage = omega arith;
    head_u32 = omega arith;
    tail_u32 = omega arith;
    divides = dvd_of_mod-eq-zero 2 refl;
  };
  count = refl;
  bounded = omega arith;
  holds = tt;
}

abbrev no_queues : Queues
no_queues = record { high = []; normal = []; response = [] }

attached-Sized : Sized (λ _. 2) 2 attached no_queues
attached-Sized = record {
  holding = record {
    attached = refl;
    mapped = refl;
    state = refl;
    high = fresh_ring request request;
    normal = fresh_ring request request;
    response = fresh_ring response response;
  };
  request_caps = elim [ high_request ↦ refl | normal_request ↦ refl ];
  response_caps = refl;
}

abbrev calls : List Call
calls =
    pushes_request high_request request
    ∷ pops_request normal_request
    ∷ pops_request high_request
    ∷ pops_response
    ∷ []

run_session_refines_example : run_session attached calls ≡ run_queues (λ _. 2) 2 no_queues calls
run_session_refines_example = run_session_refines (λ _. 2) 2 calls attached-Sized
