-- ===== src/Scan/Codecs.antt =====
-- The codec of virus_executor_service/include/ves/ves_codec.h: the open-session request that is decoded
-- from an encoded one.
use native.Mathlib.Nat.{mod-eq_of_lt}
use mathlib.Core.List.{append-nil, append_assoc}
use mem.Prelude.{
  ℕ, zero, suc, ◌*◌, ◌≤◌, ◌<◌, ◌^◌, ◌≡◌, refl, sym, ap, ◌∙◌, true, false, some, List, [], ◌∷◌, ◌++◌,
  ltb, length, arith, All,
}
use mem.Codec.{ByteWriter, le_bytes, write_uint32, write_bytes, assign_bytes}
use mem.Codec.Reader.{ByteReader, >>=-some, pure, of_pointer, read_uint32}
use mem.Codec.RoundTrip.{At, advance, read_uint32-At}
use mem.Scan.{
  VesOpenSessionRequest, ves_open_session_max_engine_kinds, write_kinds, read_kinds,
  encode_open_session_request, decode_open_session_request, read_open_session_request,
}

abbrev pub IsWord : ℕ → Type 0
IsWord n = n < 2 ^ 32

-- The bytes of the kinds.
kind_bytes : List ℕ → List ℕ
kind_bytes [] = []
kind_bytes (kind ∷ kinds) = le_bytes 4 kind ++ kind_bytes kinds

write-kind_bytes :
    (kinds : List ℕ) (w : ByteWriter)
    → write_kinds kinds w ≡ (true, record { bytes = w.bytes ++ kind_bytes kinds })
unfolding write_uint32 write_bytes kind_bytes
write-kind_bytes [] w = ap (λ (b : List ℕ). (true, record { bytes = b })) (sym (append-nil w.bytes))
write-kind_bytes (kind ∷ kinds) w =
    write-kind_bytes kinds (record { bytes = w.bytes ++ le_bytes 4 kind })
    ∙ ap (λ (b : List ℕ). (true, record { bytes = b }))
        (append_assoc w.bytes (le_bytes 4 kind) (kind_bytes kinds))

-- The reader behind the kinds.
abbrev behind : ByteReader → ℕ → ByteReader
behind r zero = r
behind r (suc count) = behind (advance r 4) count

read_kinds-At :
    (kinds rest : List ℕ) (r : ByteReader)
    → At r (kind_bytes kinds ++ rest)
    → All IsWord kinds
    → read_kinds (length kinds) r ≡ (some kinds, behind r (length kinds))
unfolding kind_bytes
read_kinds-At [] rest r a words = refl
read_kinds-At (kind ∷ kinds) rest r a words =
    let (e, after) = read_uint32-At {r = r} kind (kind_bytes kinds ++ rest) a words.0 in
    >>=-some (read_uint32 true) _ r e
    ∙ >>=-some (read_kinds (length kinds)) (λ ks. pure (kind ∷ ks)) (advance r 4)
        (read_kinds-At kinds rest (advance r 4) after words.1)

request_bytes : VesOpenSessionRequest → List ℕ
request_bytes request =
    le_bytes 4 request.version
    ++ (le_bytes 4 (length request.engine_kinds) ++ kind_bytes request.engine_kinds)

length-kind_bytes : (kinds : List ℕ) → length (kind_bytes kinds) ≡ 4 * length kinds
unfolding kind_bytes
length-kind_bytes [] = refl
length-kind_bytes (kind ∷ kinds) = omega (arith, length-kind_bytes kinds)

-- An open-session request comes back. Where its version and its at most 32 kinds are 32-bit words, it is
-- encoded, and decoding as many bytes as the encoding has gives it back, whatever lies in memory behind them.
pub open_session_roundtrip :
    (request : VesOpenSessionRequest) (beyond : List ℕ)
    → request.version < 2 ^ 32
    → length request.engine_kinds ≤ 32
    → All IsWord request.engine_kinds
    → (bs : List ℕ) × (encode_open_session_request request ≡ some bs)
      × (decode_open_session_request true (some (bs ++ beyond)) (length bs) ≡ some request)
unfolding encode_open_session_request decode_open_session_request write_uint32 write_bytes
    request_bytes
open_session_roundtrip request beyond version few words =
    let kinds = request.engine_kinds in
    let bs = request_bytes request in
    let r = of_pointer (some (bs ++ beyond)) (length bs) in
    let a : At r bs = record {
      buffer = bs ++ beyond;
      beyond = beyond;
      source = refl;
      here = refl;
      count = omega arith;
      small = omega (arith, length-kind_bytes kinds);
    } in
    let counted = le_bytes 4 (length kinds) ++ kind_bytes kinds in
    let (e1, a1) = read_uint32-At {r = r} request.version counted a version in
    let (e2, a2) = read_uint32-At (length kinds) (kind_bytes kinds) a1 (omega arith) in
    let e3 = read_kinds-At kinds [] (advance (advance r 4) 4) (rw append-nil a2) words in
    let small : length kinds < 2 ^ 32 = omega arith in
    let fits : ltb ves_open_session_max_engine_kinds (length kinds) ≡ false = ground arith in
    let read : read_open_session_request r
        ≡ (some request, behind (advance (advance r 4) 4) (length kinds)) =
      >>=-some (read_uint32 true) _ r e1
      ∙ >>=-some (read_uint32 true) _ (advance r 4) e2
      ∙ rw fits (>>=-some (read_kinds (length kinds)) _ (advance (advance r 4) 4) e3) in
    (bs, rw (mod-eq_of_lt small) (ap assign_bytes (write-kind_bytes kinds _)), ap (λ p. p.0) read)
