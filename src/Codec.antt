-- ===== src/Codec.antt =====
-- memrpc/src/core/byte_writer.cpp and memrpc/src/core/byte_reader.cpp with their headers. Bytes are
-- numbers below 256, a word is copied in little-endian order, and an `int32_t` is its bit pattern.
mod Bytes
pub mod Reader
pub mod RoundTrip
pub mod Bounds
mod Examples
pub use Bytes.{le_bytes, le_word, IsByte, AllBytes, le_word-le_bytes4}
use mem.Prelude.{
  ℕ, ◌+◌, Bool, true, false, Option, none, some, List, [], ◌++◌, if◌then◌else◌, ◌==◌, length, take,
  to_u32,
}

-- `class ByteWriter`: the vector that grows.
pub record ByteWriter : Type 0 where
  pub bytes : List ℕ

abbrev pub new_writer : ByteWriter
new_writer = record { bytes = [] }

-- The writes answer whether they succeeded.
abbrev pub Write : Type 0
Write = ByteWriter → Bool × ByteWriter

-- `m && k`, the order in which the callers chain the writes.
infixl 5 ◌and_then◌
abbrev pub ◌and_then◌ : Write → Write → Write
◌and_then◌ m k w = let (b, w') = m w in if b then k w' else (false, w')

-- `data` may be null, and points to at least `size` bytes otherwise.
unfoldable pub write_bytes : Option (List ℕ) → ℕ → Write
write_bytes none size w = if size == 0 then (true, w) else (false, w)
write_bytes (some data_bytes) size w = (true, record { bytes = w.bytes ++ take size data_bytes })

unfoldable pub write_uint32 : ℕ → Write
unfolding write_bytes
write_uint32 value = write_bytes (some (le_bytes 4 value)) 4

unfoldable pub write_int32 : ℕ → Write
unfolding write_bytes
write_int32 value = write_bytes (some (le_bytes 4 value)) 4

unfoldable pub write_string : List ℕ → Write
unfolding write_uint32 write_bytes
write_string value =
    write_uint32 (to_u32 (length value)) and_then write_bytes (some value) (to_u32 (length value))

-- `detail::AssignBytes` behind a chain of writes.
abbrev pub assign_bytes : Bool × ByteWriter → Option (List ℕ)
assign_bytes (true, w) = some w.bytes
assign_bytes (false, w) = none
