-- ===== src/Types.antt =====
-- memrpc/include/memrpc/core/types.h and the constants of memrpc/include/memrpc/core/protocol.h:
-- what the components of the framework have in common.
use native.Mathlib.Decide.{ℕ_discrete}
use mem.Prelude.{[], ◌∷◌, ◌%◌, some, get_elem?, ◌%◌, ℕ, ◌-◌, List, Option, none}

-- `enum class StatusCode`, a `uint8_t`: a cast to it may also give a number that has no name.
pub data StatusCode : Type 0 where
  ok queue_full queue_timeout exec_timeout peer_disconnected protocol_mismatch : StatusCode
  engine_internal_error invalid_argument crashed_during_execution cooldown_active : StatusCode
  client_closed payload_too_large : StatusCode
  unnamed : ℕ → StatusCode

pub StatusCode-discrete : Discrete StatusCode
StatusCode-discrete = hlevel ℕ_discrete

-- `static_cast<uint32_t>(status)`
unfoldable pub code_of_status : StatusCode → ℕ
code_of_status ok = 0
code_of_status queue_full = 1
code_of_status queue_timeout = 2
code_of_status exec_timeout = 3
code_of_status peer_disconnected = 4
code_of_status protocol_mismatch = 5
code_of_status engine_internal_error = 6
code_of_status invalid_argument = 7
code_of_status crashed_during_execution = 8
code_of_status cooldown_active = 9
code_of_status client_closed = 10
code_of_status payload_too_large = 11
code_of_status (unnamed n) = n

abbrev status_names : List StatusCode
status_names =
    ok ∷ queue_full ∷ queue_timeout ∷ exec_timeout ∷ peer_disconnected ∷ protocol_mismatch
    ∷ engine_internal_error ∷ invalid_argument ∷ crashed_during_execution ∷ cooldown_active
    ∷ client_closed ∷ payload_too_large ∷ []

-- `static_cast<StatusCode>(code)`
unfoldable pub status_of_code : ℕ → StatusCode
status_of_code code = elim (get_elem? status_names (code % 256)) [
  | some s ↦ s
  | none ↦ unnamed (code % 256)
]

-- `enum class Priority`
pub data Priority : Type 0 where
  normal high : Priority

abbrev pub shared_memory_magic : ℕ
shared_memory_magic = 0x4d45_4d52

abbrev pub protocol_version : ℕ
protocol_version = 9

abbrev pub ring_entry_bytes : ℕ
ring_entry_bytes = 8192

-- `RequestRingEntry::INLINE_PAYLOAD_BYTES`: a header of 8 + 4 + 2 + 1 + 1 + 4 bytes stands before it.
abbrev pub request_inline_bytes : ℕ
request_inline_bytes = ring_entry_bytes - 20

-- `ResponseRingEntry::INLINE_PAYLOAD_BYTES`: a header of 8 + 5 * 4 + 2 + 1 bytes stands before it.
abbrev pub response_inline_bytes : ℕ
response_inline_bytes = ring_entry_bytes - 31

-- `enum class ResponseMessageKind`
pub data ResponseMessageKind : Type 0 where
  reply event : ResponseMessageKind

-- `struct RequestRingEntry`
pub record RequestRingEntry : Type 0 where
  pub request_id : ℕ
  pub exec_timeout_ms : ℕ
  pub opcode : ℕ
  pub priority : ℕ
  pub payload_kind : ℕ
  pub payload_size : ℕ
  pub payload : List ℕ

-- `struct ResponseRingEntry`
pub record ResponseRingEntry : Type 0 where
  pub request_id : ℕ
  pub status_code : ℕ
  pub event_domain : ℕ
  pub event_type : ℕ
  pub flags : ℕ
  pub result_size : ℕ
  pub message_kind : ResponseMessageKind
  pub payload_kind : ℕ
  pub payload : List ℕ

-- `struct BootstrapHandles` of memrpc/include/memrpc/core/bootstrap.h. A descriptor is `none` where
-- the `int` is negative.
pub record BootstrapHandles : Type 0 where
  pub shm_fd : Option ℕ
  pub high_req_event_fd : Option ℕ
  pub normal_req_event_fd : Option ℕ
  pub resp_event_fd : Option ℕ
  pub req_credit_event_fd : Option ℕ
  pub resp_credit_event_fd : Option ℕ
  pub protocol_version : ℕ
  pub session_id : ℕ

abbrev pub make_default_bootstrap_handles : BootstrapHandles
make_default_bootstrap_handles = record {
  shm_fd = none;
  high_req_event_fd = none;
  normal_req_event_fd = none;
  resp_event_fd = none;
  req_credit_event_fd = none;
  resp_credit_event_fd = none;
  protocol_version = 0;
  session_id = 0;
}
