-- ===== src/FilePayload/Files/Sizes.antt =====
-- What a resolved payload is, and that its file is read to the end (memrpc/src/core/file_payload.cpp).
use mem.Prelude.{
  ◌⊎◌, if◌then◌else◌, ℕ, zero, suc, ◌-◌, ◌<◌, ◌≤◌, ◌≡◌, ◌≢◌, refl, inl, inr, Bool, true, false, not,
  Option, none, some, List, [], ◌∷◌, ◌++◌, arith, Bool-cases, length, take, is_empty, ==→≡,
}
use mem.FilePayload.{payload_kind_file_ref, FilePayloadRef}
use mem.FilePayload.Files.{
  decode_file_payload_envelope, resolve_decoded, resolve_file_payload_from_transport, after_read,
  Posix, settle, read_rest, is_admissible, read_all, of_size, consume, read_and_remove_file_payload,
}

is_empty-length : (xs : List ℕ) → is_empty xs ≡ false → 0 < length xs
is_empty-length [] e = absurd (ground (arith, e))
is_empty-length (x ∷ xs) e = omega arith

none-ne-some : {A : Type 0} {a : A} → none ≢ some a
none-ne-some = cc

after_read-same :
    {Fs : Type 0} (posix : Posix Fs) (left : ℕ) (got : List ℕ)
    (next next' : ℕ → List ℕ → Fs → Option (List ℕ) × Fs)
    → ((l : ℕ) (g : List ℕ) (fs : Fs) → l < left → next l g fs ≡ next' l g fs)
    → (o : Option (List ℕ)) (fs : Fs) → 0 < left
    → after_read posix left got next o fs ≡ after_read posix left got next' o fs
after_read-same posix left got next next' same none fs pos = refl
after_read-same posix left got next next' same (some bytes) fs pos =
    elim (Bool-cases (is_empty (take left bytes))) [
      | inl stop ↦ rw stop refl
      | inr more ↦
          let some_bytes = is_empty-length (take left bytes) more in
          rw more (same (left - length (take left bytes)) (got ++ take left bytes) fs (omega arith))
    ]

-- The loop that reads a file comes to its end: once there are as many rounds as bytes left to read,
-- more rounds change nothing.
pub rounds_enough :
    {Fs : Type 0} (posix : Posix Fs) (n m left : ℕ) (path got : List ℕ) (fs : Fs)
    → left ≤ n
    → left ≤ m
    → read_rest posix n path left got fs ≡ read_rest posix m path left got fs
rounds_enough posix n m zero path got fs h h' = refl
rounds_enough posix zero m (suc left) path got fs h h' = absurd (omega arith)
rounds_enough posix (suc n) zero (suc left) path got fs h h' = absurd (omega arith)
rounds_enough posix (suc n) (suc m) (suc left) path got fs h h' =
    after_read-same posix (suc left) got (read_rest posix n path) (read_rest posix m path)
      (λ l g fs' small. rounds_enough posix n m l path g fs' (omega arith) (omega arith))
      (settle (posix.read path (length got) (suc left) fs).0)
      (posix.read path (length got) (suc left) fs).1 (omega arith)

of_size-length :
    (size : ℕ) (o : Option (List ℕ)) (payload : List ℕ)
    → of_size size o ≡ some payload
    → length payload ≡ size
of_size-length size none payload e = absurd (none-ne-some e)
of_size-length size (some q) payload e = ground (arith, e, ==→≡ (length q) size)

module _ {Fs : Type 0} (posix : Posix Fs) (dir : List ℕ) where
  consume-length :
      (ref : FilePayloadRef) (opened : Bool × Fs) (payload : List ℕ)
      → (consume posix dir ref opened).0 ≡ some payload
      → length payload ≡ ref.size
  consume-length ref (false, fs) payload e = absurd (none-ne-some e)
  consume-length ref (true, fs) payload e =
      of_size-length ref.size (read_all posix ref.path fs).0 payload e

  read-length :
      (ref : FilePayloadRef) (fs : Fs) (payload : List ℕ)
      → (read_and_remove_file_payload posix dir ref fs).0 ≡ some payload
      → length payload ≡ ref.size
  unfolding read_and_remove_file_payload
  read-length ref fs payload e = admitted-length (Bool-cases (is_admissible dir ref)) e
    where
      admitted-length :
          (is_admissible dir ref ≡ true) ⊎ (is_admissible dir ref ≡ false)
          → (if not (is_admissible dir ref)
              then (none, fs)
              else consume posix dir ref (posix.open_read ref.path fs)).0
            ≡ some payload
          → length payload ≡ ref.size
      admitted-length (inl good) e =
          consume-length ref (posix.open_read ref.path fs) payload (ground (arith, good, e))
      admitted-length (inr bad) e = absurd (ground (arith, bad, e))

decoded-length :
    {Fs : Type 0} (posix : Posix Fs) (dir : List ℕ) (decoded : Option FilePayloadRef) (fs : Fs)
    (payload : List ℕ)
    → (resolve_decoded posix dir decoded fs).0 ≡ some payload
    → (ref : FilePayloadRef) × (decoded ≡ some ref) × (length payload ≡ ref.size)
decoded-length posix dir none fs payload e = absurd (none-ne-some e)
decoded-length posix dir (some ref) fs payload e =
    (ref, refl, read-length posix dir ref fs payload e)

-- Where an entry that refers to a file resolves to a payload, its bytes are an envelope, and the
-- payload has the size that the envelope announces.
pub resolved_payload_size :
    {Fs : Type 0} (posix : Posix Fs) (dir : List ℕ) (bytes : Option (List ℕ)) (size : ℕ) (fs : Fs)
    (payload : List ℕ)
    → (resolve_file_payload_from_transport posix dir bytes size payload_kind_file_ref fs).0
      ≡ some payload
    → (ref : FilePayloadRef) × (decode_file_payload_envelope bytes size ≡ some ref)
      × (length payload ≡ ref.size)
unfolding resolve_file_payload_from_transport
resolved_payload_size posix dir bytes size fs payload e =
    decoded-length posix dir (decode_file_payload_envelope bytes size) fs payload e
