-- ===== src/FilePayload/Writing.antt =====
-- memrpc/src/core/file_payload.cpp, the side that puts a payload into a file: the directory, the name of
-- the file, and the functions that write it. What logging may do to `errno` is left out.
pub mod Paths
pub mod Wrote
pub mod ReadBack
pub mod RoundTrip
mod Examples
use mem.Prelude.{
  ℕ, zero, suc, ◌+◌, ◌/◌, ◌%◌, Bool, true, false, ◌&&◌, ◌||◌, Option, none, some, List, [], ◌∷◌,
  ◌++◌, if◌then◌else◌, ◌==◌, ltb, leb, length, drop, is_empty,
}
use mem.FilePayload.{
  FilePayloadRef, empty_ref, payload_kind_inline, payload_kind_file_ref, max_file_payload_bytes,
}
use mem.FilePayload.Envelope.{encode_file_payload_envelope}
use mem.FilePayload.Files.{Posix, IoAnswer, settle, slash, remove_file_payload}

pub data Errno : Type 0 where
  eexist enoent other_errno : Errno

pub data MkdirAnswer : Type 0 where
  made : MkdirAnswer
  mkdir_failed : Errno → MkdirAnswer

pub data StatAnswer : Type 0 where
  directory not_directory : StatAnswer
  stat_failed : Errno → StatAnswer

-- What `opendir` and the calls of `readdir` after it answer: the names in the directory.
pub data DirAnswer : Type 0 where
  listed : List (List ℕ) → DirAnswer
  opendir_failed : Errno → DirAnswer

-- The calls that make and fill files. A descriptor is its path; `write` gets the bytes that are left
-- and answers how many of them it wrote.
pub record Maker (Fs : Type 0) : Type 0 where
  pub mkdir : List ℕ → Fs → MkdirAnswer × Fs
  pub stat : List ℕ → Fs → StatAnswer
  pub opendir : List ℕ → Fs → DirAnswer
  pub create : List ℕ → Fs → Bool × Fs
  pub write : List ℕ → List ℕ → Fs → IoAnswer ℕ × Fs
  pub close_written : List ℕ → Fs → Bool × Fs

-- What precedes the last slash.
abbrev push_front : ℕ → Option (List ℕ) → Option (List ℕ)
push_front x (some p) = some (x ∷ p)
push_front x none = if x == slash then some [] else none

abbrev pub before_last_slash : List ℕ → Option (List ℕ)
before_last_slash [] = none
before_last_slash (x ∷ path) = push_front x (before_last_slash path)

abbrev or_empty : Option (List ℕ) → List ℕ
or_empty none = []
or_empty (some p) = p

unfoldable pub parent_dir : List ℕ → List ℕ
parent_dir path = or_empty (before_last_slash path)

-- `st.st_mode` where `stat` succeeds, and what it leaves in `errno` where it does not.
abbrev pub is_directory : StatAnswer → Bool
is_directory directory = true
is_directory _ = false

abbrev errno_after : StatAnswer → Errno → Errno
errno_after (stat_failed e) errno = e
errno_after _ errno = errno

-- The digits of `std::to_string`, for a number below 10 ^ rounds.
abbrev pub digits : ℕ → ℕ → List ℕ → List ℕ
digits zero n rest = rest
digits (suc rounds) n rest =
    let out = (48 + n % 10) ∷ rest in
    let more = digits rounds (n / 10) out in if n / 10 == 0 then out else more

abbrev pub to_string : ℕ → List ℕ
to_string n = digits 20 n []

abbrev underscore : ℕ
underscore = 95

-- The process id, the clock and the counter that a new name is made of.
pub record Stamp : Type 0 where
  pub pid : ℕ
  pub clock : ℕ
  pub seq : ℕ

unfoldable pub make_file_payload_path : List ℕ → Stamp → List ℕ
make_file_payload_path dir s =
    dir
    ++ (slash
        ∷ (to_string s.pid ++ (underscore ∷ (to_string s.clock ++ (underscore ∷ to_string s.seq)))))

-- What making a directory leaves: its result, the last `errno` and the files.
abbrev pub Made : Type 0 → Type 0
Made Fs = Bool × Errno × Fs

-- The transported bytes and their kind, or `none` where the function returns false.
abbrev pub Prepared : Type 0 → Type 0
Prepared Fs = Option (List ℕ × ℕ) × Fs

module _ {Fs : Type 0} (posix : Posix Fs) (maker : Maker Fs) where
  -- The answer of `stat` where `errno` is `EEXIST`.
  abbrev pub check_existing : List ℕ → Errno → Fs → Made Fs
  check_existing dir eexist fs =
      (is_directory (maker.stat dir fs), errno_after (maker.stat dir fs) eexist, fs)
  check_existing dir errno fs = (false, errno, fs)

  abbrev pub after_second : List ℕ → MkdirAnswer × Fs → Made Fs
  after_second dir (made, fs) = (true, enoent, fs)
  after_second dir (mkdir_failed errno, fs) = check_existing dir errno fs

  abbrev pub after_parent : List ℕ → Made Fs → Made Fs
  after_parent dir (true, errno, fs) = after_second dir (maker.mkdir dir fs)
  after_parent dir (false, errno, fs) = check_existing dir errno fs

  abbrev pub after_first : (List ℕ → Fs → Made Fs) → List ℕ → MkdirAnswer × Fs → Made Fs
  after_first ensure dir (made, fs) = (true, enoent, fs)
  after_first ensure dir (mkdir_failed eexist, fs) = check_existing dir eexist fs
  after_first ensure dir (mkdir_failed other_errno, fs) = (false, other_errno, fs)
  after_first ensure dir (mkdir_failed enoent, fs) =
      let parents = ensure (parent_dir dir) fs in
      if is_empty (parent_dir dir) then check_existing dir enoent fs else after_parent dir parents

  -- `EnsureFilePayloadDir`, which calls itself on a shorter path, so as many rounds as the path has
  -- characters are enough.
  abbrev pub ensure_rounds : ℕ → List ℕ → Fs → Made Fs
  ensure_rounds zero dir fs = (false, other_errno, fs)
  ensure_rounds (suc rounds) dir fs =
      let tried = after_first (ensure_rounds rounds) dir (maker.mkdir dir fs) in
      if is_empty dir then (false, other_errno, fs) else tried

  unfoldable pub ensure_file_payload_dir : List ℕ → Fs → Made Fs
  ensure_file_payload_dir dir fs = ensure_rounds (length dir) dir fs

  abbrev pub after_write : List ℕ → (List ℕ → Fs → Bool × Fs) → Option ℕ → Fs → Bool × Fs
  after_write left next none fs = (false, fs)
  after_write left next (some n) fs = if n == 0 then (false, fs) else next (drop n left) fs

  -- The loop of `WriteAll`. A write takes a byte at least, so as many rounds as there are bytes are
  -- enough.
  abbrev pub write_rest : ℕ → List ℕ → List ℕ → Fs → Bool × Fs
  write_rest rounds path [] fs = (true, fs)
  write_rest zero path (x ∷ left) fs = (false, fs)
  write_rest (suc rounds) path (x ∷ left) fs =
      let (answer, fs') = maker.write path (x ∷ left) fs in
      after_write (x ∷ left) (write_rest rounds path) (settle answer) fs'

  unfoldable pub write_all : List ℕ → List ℕ → Fs → Bool × Fs
  write_all path payload fs = write_rest (length payload) path payload fs

  abbrev pub after_close : List ℕ → ℕ → Bool → Bool × Fs → Option FilePayloadRef × Fs
  after_close path size written (closed, fs) =
      if written && closed
      then (some (record { path = path; size = size }), fs)
      else (none, (posix.unlink path fs).1)

  abbrev pub fill_created : List ℕ → List ℕ → Bool × Fs → Option FilePayloadRef × Fs
  fill_created path payload (false, fs) = (none, fs)
  fill_created path payload (true, fs) =
      let (written, fs') = write_all path payload fs in
      after_close path (length payload) written (maker.close_written path fs')

  abbrev pub write_ensured : List ℕ → Stamp → List ℕ → Made Fs → Option FilePayloadRef × Fs
  write_ensured dir stamp payload (false, errno, fs) = (none, fs)
  write_ensured dir stamp payload (true, errno, fs) =
      let path = make_file_payload_path dir stamp in
      fill_created path payload (maker.create path fs)

  -- `WriteFilePayload`; the limit is below what a `uint32_t` holds.
  unfoldable pub write_file_payload : List ℕ → Stamp → List ℕ → Fs → Option FilePayloadRef × Fs
  write_file_payload dir stamp payload fs =
      if ltb max_file_payload_bytes (length payload)
      then (none, fs)
      else write_ensured dir stamp payload (ensure_file_payload_dir dir fs)

  abbrev pub send_envelope : List ℕ → ℕ → FilePayloadRef → Option (List ℕ) → Fs → Prepared Fs
  send_envelope dir limit ref none fs = (none, (remove_file_payload posix dir ref fs).1)
  send_envelope dir limit ref (some envelope) fs =
      if ltb limit (length envelope)
      then (none, (remove_file_payload posix dir ref fs).1)
      else (some (envelope, payload_kind_file_ref), fs)

  abbrev pub send_written : List ℕ → ℕ → Option FilePayloadRef × Fs → Prepared Fs
  send_written dir limit (none, fs) = (none, (remove_file_payload posix dir empty_ref fs).1)
  send_written dir limit (some ref, fs) =
      send_envelope dir limit ref (encode_file_payload_envelope ref) fs

  -- `PrepareFilePayloadForTransport`
  unfoldable pub prepare_file_payload_for_transport : List ℕ → Stamp → List ℕ → ℕ → Fs → Prepared Fs
  prepare_file_payload_for_transport dir stamp payload limit fs =
      if leb (length payload) limit
      then (some (payload, payload_kind_inline), fs)
      else send_written dir limit (write_file_payload dir stamp payload fs)

  abbrev is_dots : List ℕ → Bool
  is_dots (x ∷ []) = x == 46
  is_dots (x ∷ y ∷ []) = x == 46 && y == 46
  is_dots _ = false

  -- The loop of `ClearFilePayloads` over the names in the directory.
  abbrev pub clear_names : List ℕ → List (List ℕ) → Fs → Fs
  clear_names dir [] fs = fs
  clear_names dir (name ∷ names) fs =
      let path = dir ++ (slash ∷ name) in
      let kept = is_dots name || is_directory (maker.stat path fs) in
      clear_names dir names (if kept then fs else (posix.unlink path fs).1)

  abbrev pub clear_listed : List ℕ → DirAnswer → Fs → Bool × Fs
  clear_listed dir (listed names) fs = (true, clear_names dir names fs)
  clear_listed dir (opendir_failed enoent) fs = (true, fs)
  clear_listed dir (opendir_failed errno) fs = (false, fs)

  abbrev pub clear_ensured : List ℕ → Made Fs → Bool × Fs
  clear_ensured dir (false, errno, fs) = (false, fs)
  clear_ensured dir (true, errno, fs) = clear_listed dir (maker.opendir dir fs) fs

  unfoldable pub clear_file_payloads : List ℕ → Fs → Bool × Fs
  clear_file_payloads dir fs = clear_ensured dir (ensure_file_payload_dir dir fs)
