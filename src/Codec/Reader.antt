-- ===== src/Codec/Reader.antt =====
-- memrpc/src/core/byte_reader.cpp. A read returns what goes through its pointer, `none` where it
-- returns false, and the reader after it: a string whose length prefix was read and whose text is
-- missing leaves the offset behind the prefix.
use mem.Codec.Bytes.{le_word}
use mem.Prelude.{
  ℕ, ◌≡◌, ap, Bool, true, false, Option, none, some, List, if◌then◌else◌, ltb, length, take, drop,
  add64,
}

-- `class ByteReader`
pub record ByteReader : Type 0 where
  pub bytes : Option (List ℕ)
  pub size : ℕ
  pub offset : ℕ

abbrev pub of_vector : List ℕ → ByteReader
of_vector bs = record { bytes = some bs; size = length bs; offset = 0 }

abbrev pub of_pointer : Option (List ℕ) → ℕ → ByteReader
of_pointer bs size = record { bytes = bs; size = size; offset = 0 }

abbrev pub Read : Type 0 → Type 0
Read A = ByteReader → Option A × ByteReader

abbrev pub bind : {A B : Type 0} → Option A × ByteReader → (A → Read B) → Option B × ByteReader
bind (none, r) f = (none, r)
bind (some a, r) f = f a r

infixl 5 ◌>>=◌ ◌>>◌
abbrev pub ◌>>=◌ : {A B : Type 0} → Read A → (A → Read B) → Read B
◌>>=◌ m f r = bind (m r) f

-- A successful read hands its value and its reader on.
pub >>=-some :
    {A B : Type 0} (m : Read A) (f : A → Read B) (r : ByteReader) {a : A} {r' : ByteReader}
    → m r ≡ (some a, r')
    → (m >>= f) r ≡ f a r'
>>=-some m f r e = ap (λ p. bind p f) e

abbrev pub ◌>>◌ : {B : Type 0} → Read (Unit {0}) → Read B → Read B
m >> k = m >>= λ _. k

abbrev pub pure : {A : Type 0} → A → Read A
pure a r = (some a, r)

abbrev pub fail : {A : Type 0} → Read A
fail r = (none, r)

-- A `return false` unless the test holds.
abbrev pub require : Bool → Read (Unit {0})
require true = pure tt
require false = fail

-- The check of the source and of the bounds that all the reads make, then the bytes read.
unfoldable pub take_bytes : ℕ → Read (List ℕ)
take_bytes size r = elim r.bytes [
  | none ↦ (none, r)
  | some bs ↦
      if ltb r.size (add64 r.offset size)
      then (none, r)
      else (some (take size (drop r.offset bs)), record r { offset = add64 r.offset size })
]

-- `has_target` says that the pointer to write through is not null.
unfoldable pub read_bytes : Bool → ℕ → Read (List ℕ)
read_bytes has_target size = do require has_target; take_bytes size

unfoldable pub read_bytes_view : Bool → ℕ → Read (List ℕ)
read_bytes_view has_target size = do require has_target; take_bytes size

unfoldable pub read_uint32 : Bool → Read ℕ
read_uint32 has_target = do bs ← read_bytes has_target 4; pure (le_word bs)

unfoldable pub read_int32 : Bool → Read ℕ
read_int32 has_target = do bs ← read_bytes has_target 4; pure (le_word bs)

unfoldable pub read_string : Bool → Read (List ℕ)
read_string has_target = do require has_target; size ← read_uint32 true; take_bytes size

unfoldable pub read_string_view : Bool → Read (List ℕ)
read_string_view has_target = do require has_target; size ← read_uint32 true; take_bytes size
