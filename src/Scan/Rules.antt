-- ===== src/Scan/Rules.antt =====
-- virus_executor_service/src/ves/ves_sample_rules.cpp: what the path of a sample asks for. Paths are lists
-- of bytes.
use mem.Prelude.{
  ℕ, suc, ◌+◌, ◌-◌, ◌*◌, Bool, true, false, not, ◌||◌, ◌&&◌, Option, none, some, List, [], ◌∷◌,
  if◌then◌else◌, ltb, leb, length, drop, min, to_u32,
}
use mem.FilePayload.Files.{starts_with}

-- `path.find(key)`: how many bytes precede the first place where the key stands.
abbrev pub one_later : Option ℕ → Option ℕ
one_later none = none
one_later (some n) = some (suc n)

unfoldable pub find_text : List ℕ → List ℕ → Option ℕ
find_text key [] = if starts_with key [] then some 0 else none
find_text key (x ∷ path) =
    let later = one_later (find_text key path) in
    if starts_with key (x ∷ path) then some 0 else later

abbrev pub contains : List ℕ → List ℕ → Bool
contains key path = elim (find_text key path) [ none ↦ false | some pos ↦ true ]

abbrev pub is_digit : ℕ → Bool
is_digit c = leb 48 c && leb c 57

abbrev pub max_sleep_ms : ℕ
max_sleep_ms = 5000

-- The loop over the digits; `ms` wraps at 32 bits.
abbrev pub read_digits : ℕ → List ℕ → ℕ
read_digits ms [] = ms
read_digits ms (c ∷ rest) =
    let more = read_digits (to_u32 (to_u32 (ms * 10) + (c - 48))) rest in
    if is_digit c then more else ms

abbrev pub sleep_key : List ℕ
sleep_key = b's' ∷ b'l' ∷ b'e' ∷ b'e' ∷ b'p' ∷ []

abbrev pub sleep_after : List ℕ → ℕ
sleep_after [] = 0
sleep_after (c ∷ rest) = if not (is_digit c) then 0 else min (read_digits 0 (c ∷ rest)) max_sleep_ms

abbrev pub sleep_at : List ℕ → Option ℕ → ℕ
sleep_at path none = 0
sleep_at path (some pos) = sleep_after (drop (pos + length sleep_key) path)

unfoldable pub parse_sleep_ms : List ℕ → ℕ
parse_sleep_ms path = sleep_at path (find_text sleep_key path)

pub record SampleBehavior : Type 0 where
  pub threat_level : ℕ
  pub sleep_ms : ℕ
  pub should_crash : Bool

abbrev pub crash_key : List ℕ
crash_key = b'c' ∷ b'r' ∷ b'a' ∷ b's' ∷ b'h' ∷ []

abbrev pub virus_key : List ℕ
virus_key = b'v' ∷ b'i' ∷ b'r' ∷ b'u' ∷ b's' ∷ []

abbrev pub eicar_key : List ℕ
eicar_key = b'e' ∷ b'i' ∷ b'c' ∷ b'a' ∷ b'r' ∷ []

unfoldable pub evaluate_sample_path : List ℕ → SampleBehavior
evaluate_sample_path path =
    let sleep_ms = parse_sleep_ms path in
    let named = if contains virus_key path || contains eicar_key path then 1 else 0 in
    record {
      threat_level = if ltb 0 sleep_ms then 1 else named;
      sleep_ms = sleep_ms;
      should_crash = contains crash_key path;
    }
