-- ===== src/FilePayload/Files.antt =====
-- memrpc/src/core/file_payload.cpp, the side that receives an envelope: the check of the path, and the
-- functions that read a payload's file and remove it.
pub mod Confined
pub mod Sizes
mod Examples
use mem.Prelude.{
  ℕ, zero, suc, ◌-◌, Bool, true, false, not, ◌&&◌, ◌||◌, Option, none, some, List, [], ◌∷◌, ◌++◌,
  if◌then◌else◌, ◌==◌, ltb, length, take, is_empty,
}
use mem.FilePayload.{
  FilePayloadRef, payload_kind_inline, payload_kind_file_ref, max_file_payload_bytes,
}
use mem.FilePayload.Envelope.{decode_file_payload_envelope}

-- What a call that may be interrupted answers in the end: an interrupted call is made again.
pub data IoAnswer {ℓ} (A : Type ℓ) : Type ℓ where
  failed : IoAnswer A
  done : A → IoAnswer A
  interrupted : IoAnswer A → IoAnswer A

-- What `unlink` answers.
pub data UnlinkAnswer : Type 0 where
  unlinked no_entry other : UnlinkAnswer

-- The calls of the operating system on the state of its files. `file_size` is `none` where `fstat`
-- fails or gives a negative size, and `read` takes an offset and a count. A descriptor is its path.
pub record Posix (Fs : Type 0) : Type 0 where
  pub unlink : List ℕ → Fs → UnlinkAnswer × Fs
  pub open_read : List ℕ → Fs → Bool × Fs
  pub file_size : List ℕ → Fs → Option ℕ
  pub read : List ℕ → ℕ → ℕ → Fs → IoAnswer (List ℕ) × Fs
  pub close : List ℕ → Fs → Fs

abbrev pub slash : ℕ
slash = 47

abbrev pub dot : ℕ
dot = 46

-- `path.rfind(prefix, 0) == 0`
abbrev pub starts_with : List ℕ → List ℕ → Bool
starts_with [] path = true
starts_with (x ∷ prefix) [] = false
starts_with (x ∷ prefix) (y ∷ path) = x == y && starts_with prefix path

abbrev pub dot_next : List ℕ → Bool
dot_next [] = false
dot_next (x ∷ path) = x == dot

-- `path.find("..") != npos`
abbrev pub has_dot_dot : List ℕ → Bool
has_dot_dot [] = false
has_dot_dot (x ∷ path) = (x == dot && dot_next path) || has_dot_dot path

unfoldable pub is_path_inside_file_payload_root : List ℕ → List ℕ → Bool
is_path_inside_file_payload_root dir path =
    starts_with (dir ++ (slash ∷ [])) path && not (has_dot_dot path)

abbrev pub settle {ℓ} : {A : Type ℓ} → IoAnswer A → Option A
settle failed = none
settle (done a) = some a
settle (interrupted a) = settle a

-- The checks that removing and reading a payload share.
unfoldable pub is_admissible : List ℕ → FilePayloadRef → Bool
is_admissible dir ref =
    not (is_empty ref.path)
    && not (ltb max_file_payload_bytes ref.size)
    && is_path_inside_file_payload_root dir ref.path

-- The test of the size that the envelope announced.
abbrev pub of_size : ℕ → Option (List ℕ) → Option (List ℕ)
of_size size none = none
of_size size (some payload) = if length payload == size then some payload else none

module _ {Fs : Type 0} (posix : Posix Fs) where
  abbrev was_unlinked : UnlinkAnswer → Bool
  was_unlinked unlinked = true
  was_unlinked no_entry = true
  was_unlinked other = false

  -- `UnlinkFilePayload`, which logs its failures besides.
  unfoldable pub unlink_file_payload : List ℕ → FilePayloadRef → Fs → Bool × Fs
  unlink_file_payload dir ref fs =
      if not (is_admissible dir ref)
      then (false, fs)
      else let (answer, fs') = posix.unlink ref.path fs in (was_unlinked answer, fs')

  unfoldable pub remove_file_payload : List ℕ → FilePayloadRef → Fs → Bool × Fs
  remove_file_payload dir ref fs = unlink_file_payload dir ref fs

  -- A round of the loop after its read: `next` goes on with what is left to read and what was read.
  abbrev pub after_read :
      ℕ
      → List ℕ
      → (ℕ → List ℕ → Fs → Option (List ℕ) × Fs)
      → Option (List ℕ)
      → Fs
      → Option (List ℕ) × Fs
  after_read left got next none fs = (none, fs)
  after_read left got next (some bytes) fs =
      let more = take left bytes in
      if is_empty more then (none, fs) else next (left - length more) (got ++ more) fs

  -- The loop of `ReadAll`. A read gives a byte at least, so as many rounds as there are bytes are
  -- enough.
  abbrev pub read_rest : ℕ → List ℕ → ℕ → List ℕ → Fs → Option (List ℕ) × Fs
  read_rest rounds path zero got fs = (some got, fs)
  read_rest zero path (suc left) got fs = (none, fs)
  read_rest (suc rounds) path (suc left) got fs =
      let (answer, fs') = posix.read path (length got) (suc left) fs in
      after_read (suc left) got (read_rest rounds path) (settle answer) fs'

  -- `ReadAll`
  unfoldable pub read_all : List ℕ → Fs → Option (List ℕ) × Fs
  read_all path fs = elim (posix.file_size path fs) [
    | none ↦ (none, fs)
    | some size ↦
        if ltb max_file_payload_bytes size then (none, fs) else read_rest size path size [] fs
  ]

  abbrev pub consume : List ℕ → FilePayloadRef → Bool × Fs → Option (List ℕ) × Fs
  consume dir ref (false, fs) = (none, (remove_file_payload dir ref fs).1)
  consume dir ref (true, fs) =
      let (payload, fs') = read_all ref.path fs in
      (of_size ref.size payload, (remove_file_payload dir ref (posix.close ref.path fs')).1)

  -- `ReadAndRemoveFilePayload`
  unfoldable pub read_and_remove_file_payload : List ℕ → FilePayloadRef → Fs → Option (List ℕ) × Fs
  read_and_remove_file_payload dir ref fs =
      if not (is_admissible dir ref)
      then (none, fs)
      else consume dir ref (posix.open_read ref.path fs)

  abbrev pub remove_decoded : List ℕ → Option FilePayloadRef → Fs → Bool × Fs
  remove_decoded dir none fs = (false, fs)
  remove_decoded dir (some ref) fs = remove_file_payload dir ref fs

  -- `RemoveFilePayloadFromTransport`
  unfoldable pub remove_file_payload_from_transport :
      List ℕ → Option (List ℕ) → ℕ → ℕ → Fs → Bool × Fs
  remove_file_payload_from_transport dir bytes size kind fs =
      if kind == payload_kind_inline
      then (true, fs)
      else if not (kind == payload_kind_file_ref)
      then (false, fs)
      else remove_decoded dir (decode_file_payload_envelope bytes size) fs

  abbrev pub resolve_inline : Option (List ℕ) → ℕ → Option (List ℕ)
  resolve_inline none size = if size == 0 then some [] else none
  resolve_inline (some bytes) size = some (take size bytes)

  abbrev pub resolve_decoded : List ℕ → Option FilePayloadRef → Fs → Option (List ℕ) × Fs
  resolve_decoded dir none fs = (none, fs)
  resolve_decoded dir (some ref) fs = read_and_remove_file_payload dir ref fs

  -- `ResolveFilePayloadFromTransport`
  unfoldable pub resolve_file_payload_from_transport :
      List ℕ → Option (List ℕ) → ℕ → ℕ → Fs → Option (List ℕ) × Fs
  resolve_file_payload_from_transport dir bytes size kind fs =
      if kind == payload_kind_inline
      then (resolve_inline bytes size, fs)
      else if not (kind == payload_kind_file_ref)
      then (none, fs)
      else resolve_decoded dir (decode_file_payload_envelope bytes size) fs
