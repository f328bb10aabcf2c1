-- ===== src/FilePayload/Examples.antt =====
-- The envelope of a payload file on a concrete path.
use mem.FilePayload.{FilePayloadRef}
use mem.FilePayload.Envelope.{
  encode_file_payload_envelope, decode_file_payload_envelope, envelope_roundtrip,
}
use mem.Prelude.{ℕ, ◌≡◌, refl, some, [], ◌∷◌, ◌++◌, List, arith, length}

abbrev note : FilePayloadRef
note = record { path = b'/' ∷ b't' ∷ b'/' ∷ b'1' ∷ []; size = 9000 }

envelope_roundtrip_example :
    (bs : List ℕ) × (encode_file_payload_envelope note ≡ some bs)
    × (decode_file_payload_envelope (some (bs ++ 0 ∷ 0 ∷ [])) (length bs) ≡ some note)
envelope_roundtrip_example = envelope_roundtrip note (0 ∷ 0 ∷ []) (omega arith) (omega arith) refl
