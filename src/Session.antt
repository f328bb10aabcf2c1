-- ===== src/Session.antt =====
-- memrpc/src/core/session.cpp and session.h: one process's view of a shared-memory session. `World`
-- is the session, the memory object that it maps, and what the process has mapped and closed.
pub mod Attach
pub mod Queues
pub mod Pending
pub mod Examples
use mem.Prelude.{
  ℕ, ◌-◌, Bool, true, false, Option, none, some, List, [], ◌∷◌, ◌++◌, not, ◌&&◌, if◌then◌else◌,
  ◌==◌,
}
use mem.Types.{
  StatusCode, ok, engine_internal_error, peer_disconnected, RequestRingEntry, ResponseRingEntry,
  BootstrapHandles, make_default_bootstrap_handles,
}
use mem.Ring.{RingCursor}
use mem.Layout.{Layout, empty_layout}

-- `enum class Session::AttachRole`
pub data AttachRole : Type 0 where
  client server : AttachRole

-- `struct SharedMemoryHeader`, without its mutex: what locking answers is in `Kernel`.
pub record SharedMemoryHeader : Type 0 where
  pub magic : ℕ
  pub protocol_version : ℕ
  pub session_id : ℕ
  pub session_state : ℕ
  pub client_attached : ℕ
  pub active_client_pid : ℕ
  pub high_ring_size : ℕ
  pub normal_ring_size : ℕ
  pub response_ring_size : ℕ
  pub max_request_bytes : ℕ
  pub max_response_bytes : ℕ
  pub high_ring : RingCursor
  pub normal_ring : RingCursor
  pub response_ring : RingCursor

-- The memory object: its header and the slots of the three rings, which `Layout.Bounds` shows to
-- lie apart.
pub record SharedMemory : Type 0 where
  pub header : SharedMemoryHeader
  pub high_slots : List RequestRingEntry
  pub normal_slots : List RequestRingEntry
  pub response_slots : List ResponseRingEntry

-- The object of a session with no mapping.
abbrev no_cursor : RingCursor
no_cursor = record { head = 0; tail = 0; capacity = 0; reserved = 0 }

abbrev pub no_memory : SharedMemory
no_memory = record {
  header = record {
    magic = 0;
    protocol_version = 0;
    session_id = 0;
    session_state = 0;
    client_attached = 0;
    active_client_pid = 0;
    high_ring_size = 0;
    normal_ring_size = 0;
    response_ring_size = 0;
    max_request_bytes = 0;
    max_response_bytes = 0;
    high_ring = no_cursor;
    normal_ring = no_cursor;
    response_ring = no_cursor;
  };
  high_slots = [];
  normal_slots = [];
  response_slots = [];
}

-- `class Session`: `mapped` and `has_header` say that the pointers `mappedRegion_` and `header_` are
-- not null.
pub record Session : Type 0 where
  pub mapped_size : ℕ
  pub initial_mapped_size : ℕ
  pub mapped : Bool
  pub has_header : Bool
  pub handles : BootstrapHandles
  pub layout : Layout
  pub max_request_bytes : ℕ
  pub max_response_bytes : ℕ
  pub response_ring_size : ℕ
  pub attach_role : AttachRole
  pub owns_client_attachment : Bool

abbrev pub empty_session : Session
empty_session = record {
  mapped_size = 0;
  initial_mapped_size = 0;
  mapped = false;
  has_header = false;
  handles = make_default_bootstrap_handles;
  layout = empty_layout;
  max_request_bytes = 0;
  max_response_bytes = 0;
  response_ring_size = 0;
  attach_role = server;
  owns_client_attachment = false;
}

-- `mappings` counts the mappings that this process holds, and `closed` lists the descriptors that
-- it has closed, in order.
pub record World : Type 0 where
  pub session : Session
  pub memory : SharedMemory
  pub mappings : ℕ
  pub closed : List ℕ

-- What `clock_gettime` and `pthread_mutex_timedlock` answer.
pub data LockAnswer : Type 0 where
  null_mutex no_clock acquired owner_dead timed_out not_recoverable other : LockAnswer

-- What `kill(pid, 0)` answers.
pub data KillAnswer : Type 0 where
  delivered no_such_process refused : KillAnswer

-- The answers of the operating system to one call of `Attach` or `Reset`.
pub record Kernel : Type 0 where
  pub release_lock : LockAnswer
  pub header_stat : Option ℕ
  pub header_map : Bool
  pub layout_stat : Option ℕ
  pub layout_map : Bool
  pub attach_lock : LockAnswer
  pub kill : ℕ → KillAnswer
  pub pid : ℕ

unfoldable pub lock_shared_mutex : LockAnswer → StatusCode
lock_shared_mutex null_mutex = engine_internal_error
lock_shared_mutex no_clock = engine_internal_error
lock_shared_mutex acquired = ok
lock_shared_mutex owner_dead = peer_disconnected
lock_shared_mutex timed_out = peer_disconnected
lock_shared_mutex not_recoverable = peer_disconnected
lock_shared_mutex other = engine_internal_error

abbrev pub is_ok : StatusCode → Bool
is_ok ok = true
is_ok _ = false

abbrev pub fd_list : Option ℕ → List ℕ
fd_list none = []
fd_list (some fd) = fd ∷ []

-- The descriptors that `CloseHandles` closes, in its order.
abbrev pub handle_fds : BootstrapHandles → List ℕ
handle_fds h =
    fd_list h.shm_fd
    ++ (fd_list h.high_req_event_fd
        ++ (fd_list h.normal_req_event_fd
            ++ (fd_list h.resp_event_fd
                ++ (fd_list h.req_credit_event_fd ++ fd_list h.resp_credit_event_fd))))

-- `CloseHandles` on handles that live outside the session.
unfoldable pub close_handles : BootstrapHandles → World → World
close_handles h w = record w { closed = w.closed ++ handle_fds h }

abbrev pub detach_client : SharedMemory → SharedMemory
detach_client m = record m {
  header = record (m.header) { client_attached = 0; active_client_pid = 0 };
}

-- `ReleaseClientAttachment`
unfoldable pub release_client_attachment : LockAnswer → Session → SharedMemory → SharedMemory
release_client_attachment lock s m =
    if not (s.has_header && s.owns_client_attachment)
    then m
    else if not (is_ok (lock_shared_mutex lock))
    then m
    else detach_client m

unfoldable pub current_mapped_size : Session → ℕ
current_mapped_size s = if s.mapped_size == 0 then s.initial_mapped_size else s.mapped_size

-- `Session::Reset`
unfoldable pub reset : Kernel → World → World
reset k w = record {
  session = empty_session;
  memory = release_client_attachment k.release_lock w.session w.memory;
  mappings =
      if w.session.mapped && not (current_mapped_size w.session == 0)
      then w.mappings - 1
      else w.mappings;
  closed = w.closed ++ handle_fds w.session.handles;
}

unfoldable pub valid : Session → Bool
valid s = s.has_header
