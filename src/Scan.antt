-- ===== src/Scan.antt =====
-- The scan service: the messages of virus_executor_service/include/ves/ves_types.h and
-- include/transport/ves_control_interface.h, and their codec in include/ves/ves_codec.h. An `int32_t`
-- is its bit pattern.
pub mod Codecs
pub mod Rules
pub mod Samples
pub mod Engines
pub mod Kinds
pub mod Configured
pub mod Sessions
pub mod Consistent
pub mod Holds
pub mod Runs
pub mod Closing
pub mod Ability
pub mod Heartbeats
mod Examples
use mem.Prelude.{
  ℕ, zero, suc, Bool, true, false, not, ◌||◌, ◌&&◌, Option, none, some, List, [], ◌∷◌,
  if◌then◌else◌, ◌==◌, ltb, leb, length, to_u32,
}
use mem.Codec.{
  ByteWriter, ◌and_then◌, new_writer, write_uint32, write_int32, write_string, assign_bytes, Write,
}
use mem.Codec.Reader.{
  Read, ◌>>=◌, ◌>>◌, pure, fail, require, of_pointer, read_uint32, read_int32, read_string,
}

pub record InitReply : Type 0 where
  pub code : ℕ

pub record ScanTask : Type 0 where
  pub path : List ℕ

pub record ScanFileReply : Type 0 where
  pub code : ℕ
  pub threat_level : ℕ

pub record VesOpenSessionRequest : Type 0 where
  pub version : ℕ
  pub engine_kinds : List ℕ

abbrev pub ves_open_session_request_version : ℕ
ves_open_session_request_version = 1

abbrev pub ves_open_session_max_engine_kinds : ℕ
ves_open_session_max_engine_kinds = 32

-- `VesEngineKind::Scan`
abbrev pub scan_engine : ℕ
scan_engine = 1

-- Encoders answer `none` where the function returns false. A decoder is told whether the pointer to write
-- through is not null.
unfoldable pub encode_init_reply : InitReply → Option (List ℕ)
encode_init_reply reply = assign_bytes (write_int32 reply.code new_writer)

read_init_reply : Read InitReply
read_init_reply = do code ← read_int32 true; pure (record { code = code })

unfoldable pub decode_init_reply : Bool → Option (List ℕ) → ℕ → Option InitReply
unfolding read_init_reply
decode_init_reply has_target bytes size =
    if has_target then (read_init_reply (of_pointer bytes size)).0 else none

unfoldable pub encode_scan_task : ScanTask → Option (List ℕ)
encode_scan_task request = assign_bytes (write_string request.path new_writer)

read_scan_task : Read ScanTask
read_scan_task = do path ← read_string true; pure (record { path = path })

unfoldable pub decode_scan_task : Bool → Option (List ℕ) → ℕ → Option ScanTask
unfolding read_scan_task
decode_scan_task has_target bytes size =
    if has_target then (read_scan_task (of_pointer bytes size)).0 else none

unfoldable pub encode_scan_file_reply : ScanFileReply → Option (List ℕ)
encode_scan_file_reply reply =
    assign_bytes ((write_int32 reply.code and_then write_int32 reply.threat_level) new_writer)

read_scan_file_reply : Read ScanFileReply
read_scan_file_reply = do
  code ← read_int32 true
  threat_level ← read_int32 true
  pure (record { code = code; threat_level = threat_level })

unfoldable pub decode_scan_file_reply : Bool → Option (List ℕ) → ℕ → Option ScanFileReply
unfolding read_scan_file_reply
decode_scan_file_reply has_target bytes size =
    if has_target then (read_scan_file_reply (of_pointer bytes size)).0 else none

-- The loop over the kinds of an open-session request.
abbrev pub write_kinds : List ℕ → Write
write_kinds [] w = (true, w)
write_kinds (kind ∷ kinds) w = (write_uint32 kind and_then write_kinds kinds) w

unfoldable pub encode_open_session_request : VesOpenSessionRequest → Option (List ℕ)
encode_open_session_request request = assign_bytes (
    (write_uint32 request.version
        and_then write_uint32 (to_u32 (length request.engine_kinds))
        and_then write_kinds request.engine_kinds)
      new_writer)

abbrev pub read_kinds : ℕ → Read (List ℕ)
read_kinds zero = pure []
read_kinds (suc count) =
    read_uint32 true >>= λ kind. read_kinds count >>= λ kinds. pure (kind ∷ kinds)

read_open_session_request : Read VesOpenSessionRequest
read_open_session_request = do
  version ← read_uint32 true
  count ← read_uint32 true
  require (not (ltb ves_open_session_max_engine_kinds count))
  kinds ← read_kinds count
  pure (record { version = version; engine_kinds = kinds })

unfoldable pub decode_open_session_request :
    Bool → Option (List ℕ) → ℕ → Option VesOpenSessionRequest
unfolding read_open_session_request
decode_open_session_request has_target bytes size =
    if has_target then (read_open_session_request (of_pointer bytes size)).0 else none
