-- ===== src/FilePayload/Envelope.antt =====
-- `EncodeFilePayloadEnvelope` and `DecodeFilePayloadEnvelope` of memrpc/src/core/file_payload.cpp.
use native.Mathlib.Nat.{mod-eq_of_lt}
use mathlib.Core.List.{append-nil}
use mem.Codec.RoundTrip.{advance_string, At, advance, read_uint32-At, read_string-At}
use mem.FilePayload.{FilePayloadRef, file_payload_envelope_magic, file_payload_envelope_version}
use mem.Codec.{
  assign_bytes, write_bytes, le_bytes, ◌and_then◌, new_writer, write_uint32, write_string,
}
use mem.Codec.Reader.{
  Read, >>=-some, ◌>>=◌, ◌>>◌, pure, require, of_pointer, read_uint32, read_string,
}
use mem.Prelude.{
  arith, refl, [], ◌∙◌, ap, take_self, ◌≡◌, ◌^◌, ◌<◌, ◌++◌, length, ℕ, true, false, not, Option,
  some, List, ◌==◌, is_empty,
}

-- `none` where the function returns false.
unfoldable pub encode_file_payload_envelope : FilePayloadRef → Option (List ℕ)
encode_file_payload_envelope ref = assign_bytes (
    (write_uint32 file_payload_envelope_magic
        and_then write_uint32 file_payload_envelope_version
        and_then write_uint32 ref.size
        and_then write_string ref.path)
      new_writer)

read_envelope : Read FilePayloadRef
read_envelope = do
  magic ← read_uint32 true
  require (magic == file_payload_envelope_magic)
  version ← read_uint32 true
  require (version == file_payload_envelope_version)
  payload_size ← read_uint32 true
  path ← read_string true
  require (not (is_empty path))
  pure (record { path = path; size = payload_size })

unfoldable pub decode_file_payload_envelope : Option (List ℕ) → ℕ → Option FilePayloadRef
unfolding read_envelope
decode_file_payload_envelope bytes size = (read_envelope (of_pointer bytes size)).0

-- The bytes of an envelope.
abbrev pub envelope_bytes : FilePayloadRef → List ℕ
envelope_bytes ref =
    le_bytes 4 file_payload_envelope_magic
    ++ (le_bytes 4 file_payload_envelope_version
        ++ (le_bytes 4 ref.size ++ (le_bytes 4 (length ref.path) ++ ref.path)))

pub encode-envelope_bytes :
    (ref : FilePayloadRef)
    → length ref.path < 2 ^ 32
    → encode_file_payload_envelope ref ≡ some (envelope_bytes ref)
unfolding encode_file_payload_envelope write_uint32 write_string write_bytes
encode-envelope_bytes ref short =
    rw (mod-eq_of_lt short, take_self ref.path (length ref.path) (omega arith))

decode-envelope_bytes :
    (ref : FilePayloadRef) (beyond : List ℕ)
    → ref.size < 2 ^ 32
    → length ref.path < 2 ^ 32
    → is_empty ref.path ≡ false
    → decode_file_payload_envelope
        (some (envelope_bytes ref ++ beyond))
        (length (envelope_bytes ref))
      ≡ some ref
unfolding decode_file_payload_envelope
decode-envelope_bytes ref beyond small short named =
    let text = le_bytes 4 (length ref.path) ++ ref.path in
    let r = of_pointer (some (envelope_bytes ref ++ beyond)) (length (envelope_bytes ref)) in
    let a : At r (envelope_bytes ref) = record {
      buffer = envelope_bytes ref ++ beyond;
      beyond = beyond;
      source = refl;
      here = refl;
      count = omega arith;
      small = omega arith;
    } in
    let (e1, a1) =
      read_uint32-At {r = r} file_payload_envelope_magic
        (le_bytes 4 file_payload_envelope_version ++ (le_bytes 4 ref.size ++ text)) a
        (omega arith) in
    let (e2, a2) =
      read_uint32-At file_payload_envelope_version (le_bytes 4 ref.size ++ text) a1 (omega arith) in
    let (e3, a3) = read_uint32-At ref.size text a2 small in
    let (e4, a4) = read_string-At ref.path [] (rw append-nil a3) short in
    let read : read_envelope r
        ≡ (some ref, advance_string (advance (advance (advance r 4) 4) 4) ref.path) =
      >>=-some (read_uint32 true) _ r e1
      ∙ >>=-some (read_uint32 true) _ (advance r 4) e2
      ∙ >>=-some (read_uint32 true) _ (advance (advance r 4) 4) e3
      ∙ >>=-some (read_string true) _ (advance (advance (advance r 4) 4) 4) e4
      ∙ rw named in
    ap (λ p. p.0) read

-- A reference of a 32-bit size with a path that is not empty and shorter than 2 ^ 32 bytes is
-- encoded, and decoding as many bytes as the envelope has gives it back, whatever lies in memory
-- behind the envelope.
pub envelope_roundtrip :
    (ref : FilePayloadRef) (beyond : List ℕ)
    → ref.size < 2 ^ 32
    → length ref.path < 2 ^ 32
    → is_empty ref.path ≡ false
    → (bs : List ℕ) × (encode_file_payload_envelope ref ≡ some bs)
      × (decode_file_payload_envelope (some (bs ++ beyond)) (length bs) ≡ some ref)
envelope_roundtrip ref beyond small short named = (
  envelope_bytes ref,
  encode-envelope_bytes ref short,
  decode-envelope_bytes ref beyond small short named,
)
