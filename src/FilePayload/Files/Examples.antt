-- ===== src/FilePayload/Files/Examples.antt =====
-- Instances of the theorems on the files of payloads, over a file system of one file.
use mem.Prelude.{
  ℕ, ◌≡◌, refl, true, false, Option, none, some, List, [], ◌∷◌, arith, length, take, drop,
}
use mem.Codec.Reader.{read_uint32, read_bytes, take_bytes, read_string}
use mem.FilePayload.{FilePayloadRef, payload_kind_file_ref}
use mem.FilePayload.Envelope.{envelope_bytes, decode_file_payload_envelope}
use mem.FilePayload.Files.{
  Posix, done, unlinked, read_rest, resolve_file_payload_from_transport,
  remove_file_payload_from_transport, read_and_remove_file_payload, is_admissible,
  is_path_inside_file_payload_root, read_all, remove_file_payload, unlink_file_payload,
}
use mem.FilePayload.Files.Confined.{Confined, transport-Confined}
use mem.FilePayload.Files.Sizes.{rounds_enough, resolved_payload_size}

-- The file is there under whatever path, until it is unlinked; a read gives two bytes at most.
abbrev one_file : Posix (Option (List ℕ))
one_file = record {
  unlink = λ path fs. (unlinked, none);
  open_read = λ path fs. elim fs [ none ↦ (false, none) | some bytes ↦ (true, some bytes) ];
  file_size = λ path fs. elim fs [ none ↦ none | some bytes ↦ some (length bytes) ];
  read = λ path offset count fs. elim fs [
    | none ↦ (done [], none)
    | some bytes ↦ (done (take 2 (drop offset bytes)), some bytes)
  ];
  close = λ path fs. fs;
}

-- `d/a` in the directory `d`, of three bytes.
abbrev ref : FilePayloadRef
ref = record { path = 100 ∷ 47 ∷ 97 ∷ []; size = 3 }

abbrev dir : List ℕ
dir = 100 ∷ []

abbrev content : List ℕ
content = 7 ∷ 8 ∷ 9 ∷ []

transport-Confined_example :
    Confined one_file dir
      (some (envelope_bytes ref))
      19
      (some content)
      (resolve_file_payload_from_transport one_file dir
        (some (envelope_bytes ref))
        19
        payload_kind_file_ref
        (some content)).1
    × Confined one_file dir
        (some (envelope_bytes ref))
        19
        (some content)
        (remove_file_payload_from_transport one_file dir
          (some (envelope_bytes ref))
          19
          payload_kind_file_ref
          (some content)).1
transport-Confined_example =
    transport-Confined one_file dir (some (envelope_bytes ref)) 19 payload_kind_file_ref
      (some content)

rounds_enough_example :
    read_rest one_file 5 ref.path 3 [] (some content)
    ≡ read_rest one_file 3 ref.path 3 [] (some content)
rounds_enough_example =
    rounds_enough one_file 5 3 3 ref.path [] (some content) (omega arith) (omega arith)

resolved_payload_size_example :
    (r : FilePayloadRef) × (decode_file_payload_envelope (some (envelope_bytes ref)) 19 ≡ some r)
    × (length content ≡ r.size)
unfolding resolve_file_payload_from_transport decode_file_payload_envelope
    read_and_remove_file_payload is_admissible is_path_inside_file_payload_root read_all
    remove_file_payload unlink_file_payload read_uint32 read_bytes take_bytes read_string
resolved_payload_size_example =
    resolved_payload_size one_file dir (some (envelope_bytes ref)) 19 (some content) content refl
