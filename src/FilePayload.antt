-- ===== src/FilePayload.antt =====
-- memrpc/src/core/file_payload.cpp: payloads too large for a ring entry travel in a file, and the
-- entry carries an envelope that names it. Paths and payloads are lists of bytes.
pub mod Envelope
pub mod Files
pub mod Writing
mod Examples
use mem.Prelude.{ℕ, ◌*◌, List, []}

-- `struct FilePayloadRef`
pub record FilePayloadRef : Type 0 where
  pub path : List ℕ
  pub size : ℕ

abbrev pub empty_ref : FilePayloadRef
empty_ref = record { path = []; size = 0 }

abbrev pub file_payload_envelope_magic : ℕ
file_payload_envelope_magic = 0x5646_5031

abbrev pub file_payload_envelope_version : ℕ
file_payload_envelope_version = 1

abbrev pub payload_kind_inline : ℕ
payload_kind_inline = 0

abbrev pub payload_kind_file_ref : ℕ
payload_kind_file_ref = 1

abbrev pub max_file_payload_bytes : ℕ
max_file_payload_bytes = 128 * 1024 * 1024
