-- ===== src/Codec/Bytes.antt =====
-- The bytes of a word in memory, least significant first, as `memcpy` moves them in
-- memrpc/src/core/byte_writer.cpp and memrpc/src/core/byte_reader.cpp.
use mem.Prelude.{
  ℕ, zero, suc, ◌+◌, ◌*◌, ◌/◌, ◌%◌, ◌^◌, ◌<◌, ◌≡◌, refl, ap, List, [], ◌∷◌, ◌++◌, arith, length,
}

abbrev pub IsByte : ℕ → Type 0
IsByte b = b < 256

abbrev pub AllBytes : List ℕ → Type 0
AllBytes [] = Unit {0}
AllBytes (b ∷ bs) = IsByte b × AllBytes bs

abbrev pub le_bytes : ℕ → ℕ → List ℕ
le_bytes zero value = []
le_bytes (suc n) value = (value % 256) ∷ le_bytes n (value / 256)

abbrev pub le_word : List ℕ → ℕ
le_word [] = 0
le_word (b ∷ bs) = b + 256 * le_word bs

pub length-le_bytes : (n value : ℕ) → length (le_bytes n value) ≡ n
length-le_bytes zero value = refl
length-le_bytes (suc n) value = ap suc (length-le_bytes n (value / 256))

pub le_word-le_bytes4 : (value : ℕ) → value < 2 ^ 32 → le_word (le_bytes 4 value) ≡ value
le_word-le_bytes4 value h = omega arith

pub le_bytes-AllBytes : (n value : ℕ) → AllBytes (le_bytes n value)
le_bytes-AllBytes zero value = tt
le_bytes-AllBytes (suc n) value = (omega arith, le_bytes-AllBytes n (value / 256))

pub AllBytes-append : (xs ys : List ℕ) → AllBytes xs → AllBytes ys → AllBytes (xs ++ ys)
AllBytes-append [] ys h k = k
AllBytes-append (x ∷ xs) ys h k = (h.0, AllBytes-append xs ys h.1 k)
