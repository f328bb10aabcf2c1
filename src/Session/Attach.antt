-- ===== src/Session/Attach.antt =====
-- `Session::Attach` of memrpc/src/core/session.cpp and the steps that it takes: mapping the header,
-- mapping the whole object, and claiming the one client attachment.
pub mod Outcome
use mem.Prelude.{
  ℕ, suc, ◌-◌, Bool, true, false, Option, none, some, not, ◌&&◌, ◌||◌, if◌then◌else◌, ◌==◌, ltb,
}
use mem.Types.{
  StatusCode, ok, engine_internal_error, protocol_mismatch, invalid_argument, shared_memory_magic,
  protocol_version, BootstrapHandles, make_default_bootstrap_handles,
}
use mem.Ring.{validate_ring_cursor}
use mem.Layout.{Abi, LayoutConfig, Layout, compute_layout, validate_layout_config}
use mem.Session.{
  AttachRole, client, server, SharedMemoryHeader, SharedMemory, Session, World, Kernel,
  no_such_process, lock_shared_mutex, is_ok, close_handles, reset,
}

-- `ProcessIsAlive`
unfoldable pub process_is_alive : Kernel → ℕ → Bool
process_is_alive k pid =
    if pid == 0 then false else elim (k.kill pid) [ no_such_process ↦ false | _ ↦ true ]

abbrev pub with_session : World → Session → World
with_session w s = record w { session = s }

-- The session while its header is being mapped.
abbrev begun : Abi → Session → Session
begun abi s = record s { initial_mapped_size = abi.header_bytes; mapped_size = 0 }

abbrev header_mapped : Abi → World → World
header_mapped abi w = record w {
  session = record (begun abi w.session) { mapped = true; has_header = true };
  mappings = suc w.mappings;
}

-- `Session::MapAndValidateHeader`
unfoldable pub map_and_validate_header : Abi → Kernel → World → StatusCode × World
map_and_validate_header abi k w = elim k.header_stat [
  | none ↦ (engine_internal_error, w)
  | some size ↦
      if ltb size abi.header_bytes
      then (protocol_mismatch, w)
      else if not k.header_map
      then (engine_internal_error, with_session w (record (begun abi w.session) { mapped = false }))
      else if not (w.memory.header.magic == shared_memory_magic)
          || not (w.memory.header.protocol_version == protocol_version)
      then (protocol_mismatch, reset k (header_mapped abi w))
      else (ok, header_mapped abi w)
]

-- The configuration that the header states.
unfoldable pub header_config : SharedMemoryHeader → LayoutConfig
header_config h = record {
  high_ring_size = h.high_ring_size;
  normal_ring_size = h.normal_ring_size;
  response_ring_size = h.response_ring_size;
  max_request_bytes = h.max_request_bytes;
  max_response_bytes = h.max_response_bytes;
}

-- The checks of `RemapWithActualLayout`.
unfoldable pub header_is_valid : Abi → SharedMemoryHeader → ℕ → Bool
header_is_valid abi h file_size =
    validate_layout_config abi (header_config h) file_size
    && validate_ring_cursor h.high_ring h.high_ring_size
    && validate_ring_cursor h.normal_ring h.normal_ring_size
    && validate_ring_cursor h.response_ring h.response_ring_size

-- `Session::RemapWithActualLayout`
unfoldable pub remap_with_actual_layout : Abi → Kernel → World → StatusCode × World
unfolding header_config
remap_with_actual_layout abi k w = elim k.layout_stat [
  | none ↦ (engine_internal_error, reset k w)
  | some size ↦
      if not (header_is_valid abi w.memory.header size)
      then (protocol_mismatch, reset k w)
      else if not k.layout_map
      then (engine_internal_error, record w { session = unmapped; mappings = w.mappings - 1 })
      else (ok, record w { session = remapped; mappings = suc (w.mappings - 1) })
]
  where
    unmapped : Session
    unmapped = record (w.session) {
      mapped = false;
      has_header = false;
      initial_mapped_size = 0;
      mapped_size = 0;
    }

    layout : Layout
    layout = compute_layout abi (header_config w.memory.header)

    remapped : Session
    remapped = record (w.session) {
      initial_mapped_size = 0;
      mapped = true;
      has_header = true;
      layout = layout;
      max_request_bytes = w.memory.header.max_request_bytes;
      max_response_bytes = w.memory.header.max_response_bytes;
      response_ring_size = w.memory.header.response_ring_size;
      mapped_size = layout.total_size;
    }

abbrev pub claim : Kernel → World → World
claim k w = record w {
  memory = record (w.memory) {
    header = record (w.memory.header) { client_attached = 1; active_client_pid = k.pid };
  };
  session = record (w.session) { owns_client_attachment = true };
}

-- `Session::TryAcquireClientAttachment`
unfoldable pub try_acquire_client_attachment : Kernel → World → StatusCode × World
try_acquire_client_attachment k w =
    if not (is_ok (lock_shared_mutex k.attach_lock))
    then (lock_shared_mutex k.attach_lock, reset k w)
    else if not (w.memory.header.client_attached == 0)
        && process_is_alive k w.memory.header.active_client_pid
    then (invalid_argument, reset k w)
    else (ok, claim k w)

-- The session takes the handles, and a client then claims the attachment.
unfoldable pub adopt : Kernel → BootstrapHandles → AttachRole → World → StatusCode × World
adopt k handles role w = elim role [
  | client ↦ try_acquire_client_attachment k owned
  | server ↦ (ok, owned)
]
  where
    owned : World
    owned = with_session w (record (w.session) {
      handles = handles;
      attach_role = role;
      owns_client_attachment = false;
    })

unfoldable pub after_remap :
    Kernel → BootstrapHandles → AttachRole → StatusCode × World → StatusCode × World
after_remap k handles role (ok, w) = adopt k handles role w
after_remap k handles role (status, w) = (status, close_handles handles w)

unfoldable pub after_map :
    Abi → Kernel → BootstrapHandles → AttachRole → StatusCode × World → StatusCode × World
after_map abi k handles role (ok, w) = after_remap k handles role (remap_with_actual_layout abi k w)
after_map abi k handles role (status, w) = (status, close_handles handles w)

-- `TakeBootstrapHandles`: what the caller's pointer held; the caller's handles become the default.
unfoldable pub take_bootstrap_handles : Option BootstrapHandles → BootstrapHandles
take_bootstrap_handles none = make_default_bootstrap_handles
take_bootstrap_handles (some handles) = handles

-- The part of `Attach` behind the test of the memory's descriptor.
unfoldable pub attach_fd :
    Abi → Kernel → BootstrapHandles → AttachRole → Option ℕ → World → StatusCode × World
attach_fd abi k adopted role none w = (invalid_argument, close_handles adopted w)
attach_fd abi k adopted role (some fd) w =
    after_map abi k adopted role (map_and_validate_header abi k w)

-- `Session::Attach` to the memory object behind the handles, which `memory` is.
unfoldable pub attach :
    Abi → Kernel → Option BootstrapHandles → AttachRole → SharedMemory → World → StatusCode × World
attach abi k handles role memory w =
    let adopted = take_bootstrap_handles handles in
    attach_fd abi k adopted role adopted.shm_fd (record (reset k w) { memory = memory })
