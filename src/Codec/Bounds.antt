-- ===== src/Codec/Bounds.antt =====
-- No read of memrpc/src/core/byte_reader.cpp goes past the end of its buffer, whatever the bytes
-- say: a length prefix is checked before it is followed.
use mem.Codec.Bytes.{le_word, AllBytes}
use mem.Codec.Reader.{bind, pure, read_bytes, read_uint32, read_string, ByteReader, take_bytes}
use mathlib.Core.Path.{subst}
use mem.Prelude.{
  true, zero, suc, ap, ◌∙◌, ◌⊎◌, inl, inr, [], ◌∷◌, if◌then◌else◌, ltb→ge, ℕ, ◌+◌, ◌^◌, ◌≤◌, ◌<◌,
  ◌≡◌, refl, sym, inl, inr, Option, none, some, List, arith, length, take, drop, add64, length-take,
  length-drop, ltb, Bool-cases,
}

-- The reader stands inside a buffer of at least `size` bytes.
pub record IsBounded (buffer : List ℕ) (r : ByteReader) : Type 0 where
  pub source : r.bytes ≡ some buffer
  pub stored : r.size ≤ length buffer
  pub within : r.offset ≤ r.size
  pub small : r.size < 2 ^ 63

-- What a read of `n` bytes does: it fails and stays, or returns the next `n` bytes of the buffer and
-- stops behind them, still inside.
abbrev pub Took : List ℕ → ByteReader → ℕ → Option (List ℕ) × ByteReader → Type 0
Took buffer r n (none, r') = (r' ≡ r) × (r.size < r.offset + n)
Took buffer r n (some xs, r') =
    (xs ≡ take n (drop r.offset buffer))
    × (length xs ≡ n)
    × (r' ≡ record r { offset = r.offset + n })
    × (r.offset + n ≤ r.size)

no_wrap :
    {buffer : List ℕ} {r : ByteReader} {n : ℕ}
    → IsBounded buffer r
    → n < 2 ^ 32
    → add64 r.offset n ≡ r.offset + n
no_wrap v short = omega (arith, v.small, v.within)

take_bytes-eq :
    {buffer : List ℕ} {r : ByteReader} (n : ℕ)
    → IsBounded buffer r
    → n < 2 ^ 32
    → take_bytes n r ≡ (
        if ltb r.size (r.offset + n)
        then (none, r)
        else (some (take n (drop r.offset buffer)), record r { offset = r.offset + n }))
unfolding take_bytes
take_bytes-eq {buffer} {r} n v short =
    rw (v.source, take_bytes, no_wrap v short) (ground (arith, v.source))

pub take_bytes-Took :
    {buffer : List ℕ} {r : ByteReader} (n : ℕ)
    → IsBounded buffer r
    → n < 2 ^ 32
    → Took buffer r n (take_bytes n r)
take_bytes-Took {buffer} {r} n v short =
    rw (take_bytes-eq n v short) (elim (Bool-cases (ltb r.size (r.offset + n))) [
      | inl over ↦ rw over (refl, ground arith)
      | inr fits ↦ rw fits (
        refl,
        omega (
          arith,
          v.stored,
          ltb→ge _ _ fits,
          length-take {0} n (drop r.offset buffer),
          length-drop {0} r.offset buffer,
        ),
        refl,
        ltb→ge _ _ fits,
      )
    ])

-- A read that stays inside leaves the reader inside.
pub Took-IsBounded :
    {buffer : List ℕ} {r : ByteReader} (n : ℕ) (out : Option (List ℕ) × ByteReader)
    → Took buffer r n out
    → IsBounded buffer r
    → IsBounded buffer out.1
Took-IsBounded n (none, r') t v = subst (IsBounded _) (sym t.0) v
Took-IsBounded n (some xs, r') t v =
    subst (IsBounded _) (sym t.2)
      (record { source = v.source; stored = v.stored; within = t.3; small = v.small })

AllBytes-take : (n : ℕ) (xs : List ℕ) → AllBytes xs → AllBytes (take n xs)
AllBytes-take zero xs h = tt
AllBytes-take (suc n) [] h = tt
AllBytes-take (suc n) (x ∷ xs) h = (h.0, AllBytes-take n xs h.1)

AllBytes-drop : (n : ℕ) (xs : List ℕ) → AllBytes xs → AllBytes (drop n xs)
AllBytes-drop zero xs h = h
AllBytes-drop (suc n) [] h = tt
AllBytes-drop (suc n) (x ∷ xs) h = AllBytes-drop n xs h.1

le_word-lt : (xs : List ℕ) → AllBytes xs → length xs ≡ 4 → le_word xs < 2 ^ 32
le_word-lt [] h e = omega arith
le_word-lt (a ∷ []) h e = omega arith
le_word-lt (a ∷ b ∷ []) h e = omega arith
le_word-lt (a ∷ b ∷ c ∷ []) h e = omega arith
le_word-lt (a ∷ b ∷ c ∷ d ∷ []) h e = omega arith
le_word-lt (a ∷ b ∷ c ∷ d ∷ x ∷ xs) h e = absurd (omega arith)

-- The four bytes before the reader, as the length that they announce.
abbrev pub prefix : List ℕ → ByteReader → ℕ
prefix buffer r = le_word (take 4 (drop r.offset buffer))

-- What a string read may do: it fails inside the buffer, or returns as many bytes as the prefix
-- announces, those behind the prefix, and stops behind them.
abbrev pub TookString : List ℕ → ByteReader → Option (List ℕ) × ByteReader → Type 0
TookString buffer r (none, r') =
    IsBounded buffer r' × (r.size < r.offset + 4 ⊎ r.size < r.offset + 4 + prefix buffer r)
TookString buffer r (some text, r') =
    IsBounded buffer r'
    × (length text ≡ prefix buffer r)
    × (text ≡ take (prefix buffer r) (drop (r.offset + 4) buffer))
    × (r'.offset ≡ r.offset + 4 + prefix buffer r)

string_tail :
    {buffer : List ℕ} (r r' : ByteReader) (out : Option (List ℕ) × ByteReader)
    → r' ≡ record r { offset = r.offset + 4 }
    → IsBounded buffer r'
    → Took buffer r' (prefix buffer r) out
    → TookString buffer r out
string_tail r r' (none, r'') e v t = (
  Took-IsBounded _ (none, r'') t v,
  inr (omega (arith, t.1, ap (λ x. x.size) e, ap (λ x. x.offset) e)),
)
string_tail {buffer} r r' (some text, r'') e v t = (
  Took-IsBounded _ (some text, r'') t v,
  t.1,
  t.0 ∙ ap (λ (x : ByteReader). take (prefix buffer r) (drop x.offset buffer)) e,
  ap (λ x. x.offset) t.2 ∙ ap (λ (x : ByteReader). x.offset + prefix buffer r) e,
)

string_head :
    {buffer : List ℕ} {r : ByteReader} (head : Option (List ℕ) × ByteReader)
    → IsBounded buffer r
    → AllBytes buffer
    → Took buffer r 4 head
    → TookString buffer r (bind (bind head (λ bs. pure (le_word bs))) take_bytes)
string_head (none, r') v bytes t = (Took-IsBounded 4 (none, r') t v, inl t.1)
string_head {buffer} {r} (some bs, r') v bytes t =
    let inside = Took-IsBounded 4 (some bs, r') t v in
    let short =
      le_word-lt bs
        (subst AllBytes (sym t.0) (AllBytes-take 4 _ (AllBytes-drop r.offset buffer bytes))) t.1 in
    let announced : le_word bs ≡ prefix buffer r = ap le_word t.0 in
    subst (λ n. TookString buffer r (take_bytes n r')) (sym announced)
      (string_tail r r' _ t.2 inside
        (take_bytes-Took (prefix buffer r) inside (subst (λ n. n < 2 ^ 32) announced short)))

-- `ReadString` on a buffer of bytes stays inside the buffer, whatever the length prefix says: it
-- returns exactly the announced bytes behind the prefix and stops behind them, or fails, and then
-- the prefix or the announced text does not fit.
pub read_string_bounds :
    {buffer : List ℕ} {r : ByteReader}
    → IsBounded buffer r
    → AllBytes buffer
    → TookString buffer r (read_string true r)
unfolding read_string read_uint32 read_bytes
read_string_bounds {buffer} {r} v bytes =
    string_head (take_bytes 4 r) v bytes (take_bytes-Took 4 v (omega arith))
