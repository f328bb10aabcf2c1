-- ===== src/FilePayload/Files/Confined.antt =====
-- What the receiver of an envelope may touch, and what it hands on (memrpc/src/core/file_payload.cpp).
use mem.Prelude.{
  ℕ, ◌≡◌, refl, ◌⊎◌, inl, inr, true, Option, none, some, List, arith, ◌==◌, Bool-cases, ◌≤◌,
}
use mem.FilePayload.{
  FilePayloadRef, payload_kind_inline, payload_kind_file_ref, max_file_payload_bytes,
}
use mem.FilePayload.Envelope.{decode_file_payload_envelope}
use mem.FilePayload.Files.{
  Posix, is_path_inside_file_payload_root, is_admissible, unlink_file_payload, remove_file_payload,
  read_and_remove_file_payload, remove_decoded, remove_file_payload_from_transport, resolve_decoded,
  resolve_file_payload_from_transport,
}

-- The bytes are an envelope that names a file inside the directory, without `..` in its path.
pub record NamesInside (dir : List ℕ) (bytes : Option (List ℕ)) (size : ℕ) (ref : FilePayloadRef)
    : Type 0 where
  pub decoded : decode_file_payload_envelope bytes size ≡ some ref
  pub inside : is_path_inside_file_payload_root dir ref.path ≡ true
  pub limited : ref.size ≤ max_file_payload_bytes

module _ {Fs : Type 0} (posix : Posix Fs) (dir : List ℕ) where
  admissible-inside :
      (ref : FilePayloadRef)
      → is_admissible dir ref ≡ true
      → (is_path_inside_file_payload_root dir ref.path ≡ true) × (ref.size ≤ max_file_payload_bytes)
  unfolding is_admissible
  admissible-inside ref e = ground (arith, e)

  -- The file system is as it was, or the envelope names a file that may be touched.
  abbrev pub Confined : Option (List ℕ) → ℕ → Fs → Fs → Type 0
  Confined bytes size fs fs' =
      (fs' ≡ fs) ⊎ ((ref : FilePayloadRef) × NamesInside dir bytes size ref)

  read-Confined :
      (ref : FilePayloadRef) (fs : Fs)
      → ((read_and_remove_file_payload posix dir ref fs).1 ≡ fs)
        ⊎ ((is_path_inside_file_payload_root dir ref.path ≡ true)
            × (ref.size ≤ max_file_payload_bytes))
  unfolding read_and_remove_file_payload
  read-Confined ref fs = elim (Bool-cases (is_admissible dir ref)) [
    | inl good ↦ inr (admissible-inside ref good)
    | inr bad ↦ inl (rw bad refl)
  ]

  remove-Confined :
      (ref : FilePayloadRef) (fs : Fs)
      → ((remove_file_payload posix dir ref fs).1 ≡ fs)
        ⊎ ((is_path_inside_file_payload_root dir ref.path ≡ true)
            × (ref.size ≤ max_file_payload_bytes))
  unfolding remove_file_payload unlink_file_payload
  remove-Confined ref fs = elim (Bool-cases (is_admissible dir ref)) [
    | inl good ↦ inr (admissible-inside ref good)
    | inr bad ↦ inl (rw bad refl)
  ]

  resolve_decoded-Confined :
      (bytes : Option (List ℕ)) (size : ℕ) (decoded : Option FilePayloadRef) (fs : Fs)
      → decode_file_payload_envelope bytes size ≡ decoded
      → Confined bytes size fs (resolve_decoded posix dir decoded fs).1
  resolve_decoded-Confined bytes size none fs e = inl refl
  resolve_decoded-Confined bytes size (some ref) fs e = elim (read-Confined ref fs) [
    | inl same ↦ inl same
    | inr (inside, limited) ↦ inr (ref, record { decoded = e; inside = inside; limited = limited })
  ]

  remove_decoded-Confined :
      (bytes : Option (List ℕ)) (size : ℕ) (decoded : Option FilePayloadRef) (fs : Fs)
      → decode_file_payload_envelope bytes size ≡ decoded
      → Confined bytes size fs (remove_decoded posix dir decoded fs).1
  remove_decoded-Confined bytes size none fs e = inl refl
  remove_decoded-Confined bytes size (some ref) fs e = elim (remove-Confined ref fs) [
    | inl same ↦ inl same
    | inr (inside, limited) ↦ inr (ref, record { decoded = e; inside = inside; limited = limited })
  ]

  resolve-Confined :
      (bytes : Option (List ℕ)) (size kind : ℕ) (fs : Fs)
      → Confined bytes size fs (resolve_file_payload_from_transport posix dir bytes size kind fs).1
  unfolding resolve_file_payload_from_transport
  resolve-Confined bytes size kind fs = elim (Bool-cases (kind == payload_kind_inline)) [
    | inl inline ↦ rw inline (inl refl)
    | inr other ↦ elim (Bool-cases (kind == payload_kind_file_ref)) [
      | inl file ↦ rw (other, file) (resolve_decoded-Confined bytes size _ fs refl)
      | inr unknown ↦ rw (other, unknown) (inl refl)
    ]
  ]

  discard-Confined :
      (bytes : Option (List ℕ)) (size kind : ℕ) (fs : Fs)
      → Confined bytes size fs (remove_file_payload_from_transport posix dir bytes size kind fs).1
  unfolding remove_file_payload_from_transport
  discard-Confined bytes size kind fs = elim (Bool-cases (kind == payload_kind_inline)) [
    | inl inline ↦ rw inline (inl refl)
    | inr other ↦ elim (Bool-cases (kind == payload_kind_file_ref)) [
      | inl file ↦ rw (other, file) (remove_decoded-Confined bytes size _ fs refl)
      | inr unknown ↦ rw (other, unknown) (inl refl)
    ]
  ]

-- Whatever bytes and kind an entry carries, resolving its payload and removing it leave the files alone
-- unless the bytes are an envelope that names a file inside the payload directory, with no `..` in the
-- path and a size within the limit.
pub transport-Confined :
    {Fs : Type 0} (posix : Posix Fs) (dir : List ℕ) (bytes : Option (List ℕ)) (size kind : ℕ)
    (fs : Fs)
    → Confined posix dir bytes size fs
        (resolve_file_payload_from_transport posix dir bytes size kind fs).1
      × Confined posix dir bytes size fs
          (remove_file_payload_from_transport posix dir bytes size kind fs).1
transport-Confined posix dir bytes size kind fs =
    (resolve-Confined posix dir bytes size kind fs, discard-Confined posix dir bytes size kind fs)
