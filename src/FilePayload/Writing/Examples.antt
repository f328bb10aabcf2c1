-- ===== src/FilePayload/Writing/Examples.antt =====
-- An instance of the theorem on prepared payloads, over a file system of one file.
use mem.Prelude.{
  ℕ, ◌≡◌, refl, true, false, Bool, Option, none, some, List, [], ◌∷◌, ◌++◌, arith, length, take,
  drop, sym, ap, ◌<◌, replicate, suc,
}
use mem.FilePayload.Files.{
  Posix, IoAnswer, done, failed, unlinked, resolve_file_payload_from_transport, settle,
}
use mem.FilePayload.Writing.{
  Maker, Stamp, made, directory, listed, prepare_file_payload_for_transport, write_file_payload,
  ensure_file_payload_dir, write_all, make_file_payload_path,
}
use mem.FilePayload.{payload_kind_file_ref}
use mem.FilePayload.Envelope.{envelope_bytes}
use mem.FilePayload.Writing.Wrote.{KeepsContent, none-ne-some, some-inj}
use mem.FilePayload.Writing.RoundTrip.{prepare_resolve_roundtrip}

abbrev Disk : Type 0
Disk = Option (List ℕ)

abbrev opened : Disk → Bool × Disk
opened none = (false, none)
opened (some bytes) = (true, some bytes)

abbrev sized : Disk → Option ℕ
sized none = none
sized (some bytes) = some (length bytes)

-- A read gives one byte.
abbrev one_byte : ℕ → Disk → IoAnswer (List ℕ) × Disk
one_byte offset none = (failed, none)
one_byte offset (some bytes) = (done (take 1 (drop offset bytes)), some bytes)

-- A write takes them all.
abbrev appended : List ℕ → Disk → IoAnswer ℕ × Disk
appended left none = (failed, none)
appended left (some old) = (done (length left), some (old ++ left))

-- The file is there under whatever path from its creation to its removal.
abbrev disk : Posix Disk
disk = record {
  unlink = λ path fs. (unlinked, none);
  open_read = λ path fs. opened fs;
  file_size = λ path fs. sized fs;
  read = λ path offset count fs. one_byte offset fs;
  close = λ path fs. fs;
}

abbrev disk_maker : Maker Disk
disk_maker = record {
  mkdir = λ path fs. (made, fs);
  stat = λ path fs. directory;
  opendir = λ path fs. listed [];
  create = λ path fs. (true, some []);
  write = λ path bytes fs. appended bytes fs;
  close_written = λ path fs. (true, fs);
}

take-length : (xs : List ℕ) → take (length xs) xs ≡ xs
take-length [] = refl
take-length (x ∷ xs) = ap (◌∷◌ x) (take-length xs)

appended_lem :
    (left c : List ℕ) (n : ℕ) (fs : Disk)
    → fs ≡ some c
    → settle (appended left fs).0 ≡ some n
    → (appended left fs).1 ≡ some (c ++ take n left)
appended_lem left c n none e s = absurd (none-ne-some e)
appended_lem left c n (some old) e s = rw (sym (some-inj s), take-length left, some-inj e) refl

opened_lem :
    (c : List ℕ) (fs : Disk) → fs ≡ some c → ((opened fs).0 ≡ true) × ((opened fs).1 ≡ some c)
opened_lem c none e = absurd (none-ne-some e)
opened_lem c (some old) e = (refl, e)

sized_lem : (c : List ℕ) (fs : Disk) → fs ≡ some c → sized fs ≡ some (length c)
sized_lem c none e = absurd (none-ne-some e)
sized_lem c (some old) e = ap some (ap length (some-inj e))

one_byte_lem :
    (c : List ℕ) (offset count : ℕ) (fs : Disk)
    → fs ≡ some c
    → 0 < count
    → ((n : ℕ) × (n < count)
        × (settle (one_byte offset fs).0 ≡ some (take (suc n) (drop offset c))))
      × ((one_byte offset fs).1 ≡ some c)
one_byte_lem c offset count none e pos = absurd (none-ne-some e)
one_byte_lem c offset count (some old) e pos =
    ((0, omega arith, ap (λ (l : List ℕ). some (take 1 (drop offset l))) (some-inj e)), e)

disk-KeepsContent : KeepsContent disk disk_maker (λ path fs. fs)
disk-KeepsContent = record {
  creates = λ p fs e. refl;
  writes = λ p left c n fs e s. appended_lem left c n fs e s;
  closes = λ p fs. refl;
  opens = λ p c fs e. opened_lem c fs e;
  sizes = λ p c fs e. sized_lem c fs e;
  reads = λ p c offset count fs e lt pos. one_byte_lem c offset count fs e pos;
}

abbrev stamp : Stamp
stamp = record { pid = 42; clock = 7; seq = 0 }

-- Longer than an entry takes, and longer than its envelope.
abbrev payload : List ℕ
payload = replicate 31 9

abbrev envelope : List ℕ
envelope =
    envelope_bytes
      (record { path = make_file_payload_path (100 ∷ []) stamp; size = length payload })

sent_by_file :
    prepare_file_payload_for_transport disk disk_maker (100 ∷ []) stamp payload 30 none
    ≡ (some (envelope, payload_kind_file_ref), some payload)
unfolding prepare_file_payload_for_transport write_file_payload ensure_file_payload_dir write_all
    make_file_payload_path mem.FilePayload.Envelope.encode_file_payload_envelope
    mem.Codec.write_uint32 mem.Codec.write_string
sent_by_file = refl

prepare_resolve_roundtrip_example :
    (resolve_file_payload_from_transport disk
      (100 ∷ [])
      (some (envelope ++ 0 ∷ 0 ∷ []))
      (length envelope)
      payload_kind_file_ref
      (prepare_file_payload_for_transport disk disk_maker (100 ∷ []) stamp payload 30 none).1).0
    ≡ some payload
prepare_resolve_roundtrip_example =
    prepare_resolve_roundtrip disk disk_maker (λ path fs. fs) (100 ∷ []) payload envelope
      (0 ∷ 0 ∷ []) stamp 30 payload_kind_file_ref none disk-KeepsContent refl (omega arith)
      (ap (λ (p : Option (List ℕ × ℕ) × Disk). p.0) sent_by_file)
