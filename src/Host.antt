-- ===== src/Host.antt =====
-- memrpc/src/bootstrap/shared_memory_session_host.cpp with the configuration of
-- memrpc/include/memrpc/core/shared_memory_session_config.h: the process that creates the memory object
-- of a session and hands out its descriptors.
pub mod Attachable
pub mod Outcome
mod Examples
use mem.Prelude.{
  ℕ, zero, suc, Bool, true, false, not, ◌&&◌, ◌||◌, Option, none, some, List, [], ◌∷◌, ◌++◌,
  if◌then◌else◌, ◌==◌, leb, replicate,
}
use mem.Types.{
  StatusCode, ok, engine_internal_error, invalid_argument, RequestRingEntry, ResponseRingEntry,
  reply, BootstrapHandles, make_default_bootstrap_handles, shared_memory_magic, protocol_version,
  request_inline_bytes, response_inline_bytes,
}
use mem.Ring.{RingCursor}
use mem.Layout.{LayoutConfig, has_aligned_payload_sizes}
use mem.Session.{SharedMemory, SharedMemoryHeader, handle_fds, fd_list}

-- `struct SharedMemorySessionConfig`: `auto_name` says that `shmName` is empty.
pub record SharedMemorySessionConfig : Type 0 where
  pub high_ring_size : ℕ
  pub normal_ring_size : ℕ
  pub response_ring_size : ℕ
  pub max_request_bytes : ℕ
  pub max_response_bytes : ℕ
  pub auto_name : Bool

-- What `shm_open` answers, and `shm_unlink` after it.
pub data ShmAnswer : Type 0 where
  opened : ℕ → Bool → ShmAnswer
  name_taken refused : ShmAnswer

-- What the operating system answers to one call: to each attempt to open an object, to the
-- initialisation of the object, to the five calls of `eventfd` in order, and to `dup`.
pub record HostKernel : Type 0 where
  pub shm_open : ℕ → ShmAnswer
  pub truncates : Bool
  pub maps : Bool
  pub inits_mutex : Bool
  pub random : ℕ
  pub high_req_fd : Option ℕ
  pub normal_req_fd : Option ℕ
  pub resp_fd : Option ℕ
  pub req_credit_fd : Option ℕ
  pub resp_credit_fd : Option ℕ
  pub dup : ℕ → Option ℕ

-- `SharedMemorySessionHost::Impl`, with the memory object that its descriptor refers to and the
-- descriptors closed so far.
pub record SessionHost : Type 0 where
  pub config : SharedMemorySessionConfig
  pub handles : BootstrapHandles
  pub initialized : Bool
  pub memory : Option SharedMemory
  pub closed : List ℕ

-- `ResetHandles`
unfoldable pub reset_handles : SessionHost → SessionHost
reset_handles h = record h {
  handles = make_default_bootstrap_handles;
  initialized = false;
  closed = h.closed ++ handle_fds h.handles;
}

unfoldable pub has_valid_config : SharedMemorySessionConfig → Bool
has_valid_config c =
    not (c.max_request_bytes == 0)
    && not (c.max_response_bytes == 0)
    && has_aligned_payload_sizes c.max_request_bytes c.max_response_bytes
    && leb c.max_request_bytes request_inline_bytes
    && leb c.max_response_bytes response_inline_bytes

-- The argument of `ComputeLayout` in `BuildLayout`.
abbrev pub build_layout_config : SharedMemorySessionConfig → LayoutConfig
build_layout_config c = record {
  high_ring_size = c.high_ring_size;
  normal_ring_size = c.normal_ring_size;
  response_ring_size = c.response_ring_size;
  max_request_bytes = c.max_request_bytes;
  max_response_bytes = c.max_response_bytes;
}

abbrev new_cursor : ℕ → RingCursor
new_cursor capacity = record { head = 0; tail = 0; capacity = capacity; reserved = 0 }

-- `PopulateHeader` on a header of zeros.
unfoldable pub populate_header : ℕ → SharedMemorySessionConfig → SharedMemoryHeader
populate_header id c = record {
  magic = shared_memory_magic;
  protocol_version = protocol_version;
  session_id = id;
  session_state = 0;
  client_attached = 0;
  active_client_pid = 0;
  high_ring_size = c.high_ring_size;
  normal_ring_size = c.normal_ring_size;
  response_ring_size = c.response_ring_size;
  max_request_bytes = c.max_request_bytes;
  max_response_bytes = c.max_response_bytes;
  high_ring = new_cursor c.high_ring_size;
  normal_ring = new_cursor c.normal_ring_size;
  response_ring = new_cursor c.response_ring_size;
}

abbrev zero_request : RequestRingEntry
zero_request = record {
  request_id = 0;
  exec_timeout_ms = 0;
  opcode = 0;
  priority = 0;
  payload_kind = 0;
  payload_size = 0;
  payload = replicate request_inline_bytes 0;
}

abbrev zero_response : ResponseRingEntry
zero_response = record {
  request_id = 0;
  status_code = 0;
  event_domain = 0;
  event_type = 0;
  flags = 0;
  result_size = 0;
  message_kind = reply;
  payload_kind = 0;
  payload = replicate response_inline_bytes 0;
}

-- The object after `InitializeSharedMemory`.
abbrev pub initialized_memory : ℕ → SharedMemorySessionConfig → SharedMemory
initialized_memory id c = record {
  header = populate_header id c;
  high_slots = replicate c.high_ring_size zero_request;
  normal_slots = replicate c.normal_ring_size zero_request;
  response_slots = replicate c.response_ring_size zero_response;
}

-- `InitializeSharedMemory`
unfoldable pub initialize_shared_memory :
    HostKernel → SharedMemorySessionConfig → StatusCode × Option SharedMemory
initialize_shared_memory k c =
    if not k.truncates
    then (engine_internal_error, none)
    else if not k.maps
    then (engine_internal_error, none)
    else if not k.inits_mutex
    then (engine_internal_error, none)
    else (ok, some (initialized_memory k.random c))

abbrev pub is_some : Option ℕ → Bool
is_some none = false
is_some (some fd) = true

-- `CreateEventFds`, which keeps those it could create also where it fails.
unfoldable pub create_event_fds : HostKernel → BootstrapHandles → Bool × BootstrapHandles
create_event_fds k h = (
  is_some k.high_req_fd
      && is_some k.normal_req_fd
      && is_some k.resp_fd
      && is_some k.req_credit_fd
      && is_some k.resp_credit_fd,
  record h {
    high_req_event_fd = k.high_req_fd;
    normal_req_event_fd = k.normal_req_fd;
    resp_event_fd = k.resp_fd;
    req_credit_event_fd = k.req_credit_fd;
    resp_credit_event_fd = k.resp_credit_fd;
  },
)

-- The loop of `OpenSharedMemoryFd`: attempts left, and the number of the next one. The list is what it
-- closed.
abbrev pub open_attempts : HostKernel → Bool → ℕ → ℕ → Option ℕ × List ℕ
open_attempts k auto zero n = (none, [])
open_attempts k auto (suc left) n =
    let again = open_attempts k auto left (suc n) in
    elim (k.shm_open n) [
      | opened fd unlinked ↦ if unlinked then (some fd, []) else (none, fd ∷ [])
      | name_taken ↦ if auto then again else (none, [])
      | refused ↦ (none, [])
    ]

-- `OpenSharedMemoryFd`, with `MAX_AUTO_SHM_NAME_ATTEMPTS`.
unfoldable pub open_shared_memory_fd : HostKernel → SharedMemorySessionConfig → Option ℕ × List ℕ
open_shared_memory_fd k c = open_attempts k c.auto_name 8 0

abbrev pub create_events : Bool × BootstrapHandles → SessionHost → StatusCode × SessionHost
create_events (true, handles) h = (ok, record h { handles = handles; initialized = true })
create_events (false, handles) h =
    (engine_internal_error, reset_handles (record h { handles = handles; initialized = false }))

abbrev pub finalize :
    HostKernel → ℕ → StatusCode × Option SharedMemory → SessionHost → StatusCode × SessionHost
finalize k fd (ok, memory) h =
    let handles : BootstrapHandles = record (h.handles) {
      shm_fd = some fd;
      protocol_version = protocol_version;
      session_id = k.random;
    } in
    create_events (create_event_fds k handles) (record h { memory = memory })
finalize k fd (status, memory) h = (status, record h { closed = h.closed ++ (fd ∷ []) })

-- `FinalizeInitializedSession`
unfoldable pub finalize_initialized_session :
    HostKernel → ℕ → SessionHost → StatusCode × SessionHost
finalize_initialized_session k fd h = finalize k fd (initialize_shared_memory k h.config) h

abbrev pub with_fd : HostKernel → Option ℕ → SessionHost → StatusCode × SessionHost
with_fd k none h = (engine_internal_error, h)
with_fd k (some fd) h = finalize_initialized_session k fd h

-- `EnsureInitialized`
unfoldable pub ensure_initialized : HostKernel → SessionHost → StatusCode × SessionHost
ensure_initialized k h =
    if h.initialized
    then (ok, h)
    else if not (has_valid_config h.config)
    then (invalid_argument, h)
    else let (fd, closed_fds) = open_shared_memory_fd k h.config in
      let fresh = reset_handles h in
      with_fd k fd (record fresh { closed = fresh.closed ++ closed_fds })

unfoldable pub close_session : SessionHost → StatusCode × SessionHost
close_session h = (ok, reset_handles h)

-- The loop of `DuplicateHandles`: the descriptors duplicated so far are closed where one fails, and a
-- negative descriptor cannot be duplicated. The second list is what was closed.
abbrev pub dup_each : HostKernel → List (Option ℕ) → List ℕ → Option (List ℕ) × List ℕ
dup_each k [] got = (some got, [])
dup_each k (none ∷ fds) got = (none, got)
dup_each k (some fd ∷ fds) got = elim (k.dup fd) [
  | none ↦ (none, got)
  | some d ↦ dup_each k fds (got ++ (d ∷ []))
]

abbrev filled : BootstrapHandles → List ℕ → Option BootstrapHandles
filled source (shm ∷ high ∷ normal ∷ resp ∷ req_credit ∷ resp_credit ∷ []) = some (record source {
  shm_fd = some shm;
  high_req_event_fd = some high;
  normal_req_event_fd = some normal;
  resp_event_fd = some resp;
  req_credit_event_fd = some req_credit;
  resp_credit_event_fd = some resp_credit;
})
filled source _ = none

abbrev filled_if : BootstrapHandles → Option (List ℕ) → Option BootstrapHandles
filled_if source none = none
filled_if source (some fds) = filled source fds

-- `DuplicateHandles`: `none` where it returns false.
unfoldable pub duplicate_handles : HostKernel → BootstrapHandles → Option BootstrapHandles × List ℕ
duplicate_handles k source =
    let (fds, closed_fds) =
      dup_each k
        (source.shm_fd ∷ source.high_req_event_fd ∷ source.normal_req_event_fd
          ∷ source.resp_event_fd ∷ source.req_credit_event_fd ∷ source.resp_credit_event_fd ∷ [])
        [] in
    (filled_if source fds, closed_fds)

abbrev hand_out :
    Option BootstrapHandles × List ℕ
    → SessionHost
    → StatusCode × Option BootstrapHandles × SessionHost
hand_out (none, closed_fds) h =
    (engine_internal_error, none, record h { closed = h.closed ++ closed_fds })
hand_out (some handles, closed_fds) h = (ok, some handles, h)

abbrev open_ensured :
    HostKernel → StatusCode × SessionHost → StatusCode × Option BootstrapHandles × SessionHost
open_ensured k (ok, h) = hand_out (duplicate_handles k h.handles) h
open_ensured k (status, h) = (status, none, h)

-- `SharedMemorySessionHost::OpenSession`
unfoldable pub open_host_session :
    HostKernel → SessionHost → StatusCode × Option BootstrapHandles × SessionHost
open_host_session k h = open_ensured k (ensure_initialized k h)
