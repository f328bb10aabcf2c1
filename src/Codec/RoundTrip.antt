-- ===== src/Codec/RoundTrip.antt =====
-- Reading back what was written: `ByteReader` after `ByteWriter`
-- (memrpc/src/core/byte_reader.cpp, memrpc/src/core/byte_writer.cpp).
use mathlib.Core.List.{append_assoc}
use mem.Codec.{le_bytes, le_word, le_word-le_bytes4}
use mem.Codec.Reader.{pure, >>=-some, read_bytes, read_uint32, read_string, ByteReader, take_bytes}
use mem.Prelude.{
  ℕ, ◌+◌, ◌^◌, ◌<◌, ◌≡◌, sym, ap, ◌∙◌, true, false, some, List, ◌++◌, arith, length, drop, add64,
  take-append, drop-append, length-append, drop-drop, ltb,
}

-- The reader stands before `rest`, the last of its bytes, in memory that may go on behind them.
pub record At (r : ByteReader) (rest : List ℕ) : Type 0 where
  pub buffer : List ℕ
  pub beyond : List ℕ
  pub source : r.bytes ≡ some buffer
  pub here : drop r.offset buffer ≡ rest ++ beyond
  pub count : r.offset + length rest ≡ r.size
  pub small : r.size < 2 ^ 63

abbrev pub advance : ByteReader → ℕ → ByteReader
advance r n = record r { offset = r.offset + n }

-- A read of as many bytes as `xs` has, before `xs`, takes `xs` and stops behind it.
pub take_bytes-At :
    {r : ByteReader} (xs rest : List ℕ)
    → At r (xs ++ rest)
    → length xs < 2 ^ 32
    → (take_bytes (length xs) r ≡ (some xs, advance r (length xs)))
      × At (advance r (length xs)) rest
unfolding take_bytes
take_bytes-At {r} xs rest a short =
    let total = length-append {0} xs rest in
    let left = a.count in
    let here : drop r.offset a.buffer ≡ xs ++ (rest ++ a.beyond) =
      a.here ∙ append_assoc xs rest a.beyond in
    let no_wrap : add64 r.offset (length xs) ≡ r.offset + length xs = omega (arith, a.small) in
    let fits : ltb r.size (add64 r.offset (length xs)) ≡ false =
      ground (arith, left, total, no_wrap) in
    (
      rw (a.source, take_bytes, fits, no_wrap, here, take-append xs (rest ++ a.beyond))
          (ground (arith, a.source)),
      record {
        buffer = a.buffer;
        beyond = a.beyond;
        source = a.source;
        here =
            sym (drop-drop (length xs) r.offset a.buffer)
            ∙ ap (drop (length xs)) here
            ∙ drop-append xs (rest ++ a.beyond);
        count = omega (arith, left, total);
        small = a.small;
      },
    )

pub read_uint32-At :
    {r : ByteReader} (value : ℕ) (rest : List ℕ)
    → At r (le_bytes 4 value ++ rest)
    → value < 2 ^ 32
    → (read_uint32 true r ≡ (some value, advance r 4)) × At (advance r 4) rest
unfolding read_uint32 read_bytes
read_uint32-At {r} value rest a h =
    let (e, after) = take_bytes-At (le_bytes 4 value) rest a (omega arith) in
    (
      >>=-some (read_bytes true 4) (λ bs. pure (le_word bs)) r e
          ∙ ap (λ (k : ℕ). (some k, advance r 4)) (le_word-le_bytes4 value h),
      after,
    )

abbrev pub advance_string : ByteReader → List ℕ → ByteReader
advance_string r text = advance (advance r 4) (length text)

pub read_string-At :
    {r : ByteReader} (text rest : List ℕ)
    → At r (le_bytes 4 (length text) ++ (text ++ rest))
    → length text < 2 ^ 32
    → (read_string true r ≡ (some text, advance_string r text)) × At (advance_string r text) rest
unfolding read_string
read_string-At {r} text rest a short =
    let (e, after) = read_uint32-At (length text) (text ++ rest) a short in
    let (f, behind) = take_bytes-At text rest after short in
    (>>=-some (read_uint32 true) (λ size. take_bytes size) r e ∙ f, behind)
