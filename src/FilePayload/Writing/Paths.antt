-- ===== src/FilePayload/Writing/Paths.antt =====
-- The paths that `MakeFilePayloadPath` of memrpc/src/core/file_payload.cpp makes.
use mem.Prelude.{
  ℕ, zero, suc, ◌+◌, ◌/◌, ◌%◌, ◌≡◌, ◌≤◌, refl, true, false, List, [], ◌∷◌, ◌++◌, if-kept, ◌==◌,
  length, arith, length-append, All, All-append, ne→==, eq→==, is_empty,
}
use mem.FilePayload.Files.{
  slash, dot, starts_with, has_dot_dot, dot_next, is_path_inside_file_payload_root,
}
use mem.FilePayload.Writing.{Stamp, digits, to_string, make_file_payload_path, underscore}

abbrev IsPlain : ℕ → Type 0
IsPlain x = (x == dot) ≡ false

digits-IsPlain :
    (rounds n : ℕ) (rest : List ℕ) → All IsPlain rest → All IsPlain (digits rounds n rest)
digits-IsPlain zero n rest p = p
digits-IsPlain (suc rounds) n rest p =
    let here : IsPlain (48 + n % 10) = ne→== {a = 48 + n % 10} {b = dot} (λ e. omega (arith, e)) in
    if-kept (n / 10 == 0) (All IsPlain) (here, p)
      (digits-IsPlain rounds (n / 10) ((48 + n % 10) ∷ rest) (here, p))

length-digits :
    (rounds n : ℕ) (rest : List ℕ) → length (digits rounds n rest) ≤ rounds + length rest
length-digits zero n rest = omega arith
length-digits (suc rounds) n rest =
    if-kept (n / 10 == 0) (λ l. length l ≤ suc rounds + length rest) (omega arith)
      (omega (arith, length-digits rounds (n / 10) ((48 + n % 10) ∷ rest)))

has_dot_dot-IsPlain : (xs : List ℕ) → All IsPlain xs → has_dot_dot xs ≡ false
has_dot_dot-IsPlain [] p = refl
has_dot_dot-IsPlain (x ∷ xs) p = rw p.0 (has_dot_dot-IsPlain xs p.1)

dot_next-append : (xs ys : List ℕ) → dot_next (xs ++ (slash ∷ ys)) ≡ dot_next xs
dot_next-append [] ys = refl
dot_next-append (x ∷ xs) ys = refl

has_dot_dot-append :
    (xs ys : List ℕ)
    → has_dot_dot xs ≡ false
    → All IsPlain ys
    → has_dot_dot (xs ++ (slash ∷ ys)) ≡ false
has_dot_dot-append [] ys e p = has_dot_dot-IsPlain (slash ∷ ys) (refl, p)
has_dot_dot-append (x ∷ xs) ys e p =
    ground (arith, e, dot_next-append xs ys, has_dot_dot-append xs ys (ground (arith, e)) p)

starts_with-append : (xs ys : List ℕ) → starts_with (xs ++ (slash ∷ [])) (xs ++ (slash ∷ ys)) ≡ true
starts_with-append [] ys = refl
starts_with-append (x ∷ xs) ys = rw (eq→== {a = x} {b = x} refl) (starts_with-append xs ys)

-- What follows the directory and the slash.
abbrev name_of : Stamp → List ℕ
name_of s = to_string s.pid ++ (underscore ∷ (to_string s.clock ++ (underscore ∷ to_string s.seq)))

name-IsPlain : (s : Stamp) → All IsPlain (name_of s)
name-IsPlain s = All-append IsPlain (to_string s.pid) _ (digits-IsPlain 20 s.pid [] tt) (
  refl,
  All-append IsPlain (to_string s.clock) _ (digits-IsPlain 20 s.clock [] tt)
      (refl, digits-IsPlain 20 s.seq [] tt),
)

-- A new path lies inside the directory, as the check of the receiving side has it.
pub path-inside :
    (dir : List ℕ) (s : Stamp)
    → has_dot_dot dir ≡ false
    → is_path_inside_file_payload_root dir (make_file_payload_path dir s) ≡ true
unfolding is_path_inside_file_payload_root make_file_payload_path
path-inside dir s e =
    rw (starts_with-append dir (name_of s), has_dot_dot-append dir (name_of s) e (name-IsPlain s))
      refl

pub length-path :
    (dir : List ℕ) (s : Stamp) → length (make_file_payload_path dir s) ≤ length dir + 63
unfolding make_file_payload_path
length-path dir s =
    let a = to_string s.pid in
    let b = to_string s.clock in
    let c = to_string s.seq in
    omega (
      arith,
      length-append dir (slash ∷ name_of s),
      length-append a (underscore ∷ (b ++ (underscore ∷ c))),
      length-append b (underscore ∷ c),
      length-digits 20 s.pid [],
      length-digits 20 s.clock [],
      length-digits 20 s.seq [],
    )

pub path-named : (dir : List ℕ) (s : Stamp) → is_empty (make_file_payload_path dir s) ≡ false
unfolding make_file_payload_path
path-named [] s = refl
path-named (x ∷ dir) s = refl
