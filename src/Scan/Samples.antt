-- ===== src/Scan/Samples.antt =====
-- What `EvaluateSamplePath` of virus_executor_service/src/ves/ves_sample_rules.cpp says of a path.
use mathlib.Core.Path.{subst}
use mem.Prelude.{
  both, false-ne-true, ℕ, ◌+◌, ◌≤◌, ◌<◌, ◌≡◌, refl, sym, ap, ◌∙◌, Bool, true, false, not, ◌||◌,
  Option, none, some, List, [], ◌∷◌, ◌++◌, if◌then◌else◌, ◌==◌, ltb, length, drop, arith,
  Bool-cases, if-kept, inl, inr, ◌↔◌, ◌⊎◌, ==→≡, eq→==,
}
use mem.FilePayload.Files.{starts_with}
use mem.Scan.Rules.{
  one_later, find_text, contains, is_digit, max_sleep_ms, sleep_key, sleep_after, sleep_at,
  parse_sleep_ms, SampleBehavior, crash_key, virus_key, eicar_key, evaluate_sample_path,
}

-- The key stands somewhere in the path.
abbrev pub Occurs : List ℕ → List ℕ → Type 0
Occurs key path = (a : List ℕ) × (b : List ℕ) × (path ≡ a ++ (key ++ b))

starts_with-begins :
    (key path : List ℕ) → starts_with key path ≡ true → (b : List ℕ) × (path ≡ key ++ b)
starts_with-begins [] path e = (path, refl)
starts_with-begins (x ∷ key) [] e = absurd (false-ne-true e)
starts_with-begins (x ∷ key) (y ∷ path) e =
    let (first, rest) = both (x == y) (starts_with key path) e in
    let (b, same) = starts_with-begins key path rest in
    (b, ap (◌∷◌ y) same ∙ ap (λ (k : ℕ). k ∷ (key ++ b)) (sym (==→≡ x y first)))

begins-starts_with : (key b : List ℕ) → starts_with key (key ++ b) ≡ true
begins-starts_with [] b = refl
begins-starts_with (x ∷ key) b = rw (eq→== {a = x} refl) (begins-starts_with key b)

abbrev found : Option ℕ → Bool
found o = elim o [ none ↦ false | some pos ↦ true ]

found-one_later : (o : Option ℕ) → found (one_later o) ≡ found o
found-one_later none = refl
found-one_later (some n) = refl

by_start :
    (here : Bool) (o : Option ℕ) → found (if here then some 0 else one_later o) ≡ (here || found o)
by_start true o = refl
by_start false o = found-one_later o

nothing : (here : Bool) → here ≡ false → found (if here then some 0 else none) ≡ true → false ≡ true
nothing true e h = sym e
nothing false e h = h

begun : (here : Bool) → here ≡ true → found (if here then some 0 else none) ≡ true
begun true e = refl
begun false e = absurd (false-ne-true e)

either : (a b : Bool) → (a || b) ≡ true → (a ≡ true) ⊎ (b ≡ true)
either true b e = inl refl
either false b e = inr e

or_true : (a : Bool) → (a || true) ≡ true
or_true true = refl
or_true false = refl

-- The places that a search of a path with one more byte tries.
found-cons :
    (key : List ℕ) (x : ℕ) (path : List ℕ)
    → contains key (x ∷ path) ≡ (starts_with key (x ∷ path) || contains key path)
unfolding find_text
found-cons key x path = by_start (starts_with key (x ∷ path)) (find_text key path)

contains-Occurs : (key path : List ℕ) → contains key path ≡ true → Occurs key path
unfolding find_text
contains-Occurs key [] e = elim (Bool-cases (starts_with key [])) [
  | inl here ↦ let (b, same) = starts_with-begins key [] here in ([], b, same)
  | inr nowhere ↦ absurd (false-ne-true (nothing (starts_with key []) nowhere e))
]
contains-Occurs key (x ∷ path) e =
    elim (either (starts_with key (x ∷ path)) (contains key path)
      (sym (found-cons key x path) ∙ e)) [
        | inl here ↦ let (b, same) = starts_with-begins key (x ∷ path) here in ([], b, same)
        | inr later ↦
            let (a, b, same) = contains-Occurs key path later in (x ∷ a, b, ap (◌∷◌ x) same)
      ]

start-contains : (key path : List ℕ) → starts_with key path ≡ true → contains key path ≡ true
unfolding find_text
start-contains key [] e = begun (starts_with key []) e
start-contains key (x ∷ path) e =
    found-cons key x path ∙ ap (λ (t : Bool). t || contains key path) e

Occurs-contains : (key a b : List ℕ) → contains key (a ++ (key ++ b)) ≡ true
Occurs-contains key [] b = start-contains key (key ++ b) (begins-starts_with key b)
Occurs-contains key (x ∷ a) b =
    found-cons key x (a ++ (key ++ b))
    ∙ ap (λ (t : Bool). starts_with key (x ∷ (a ++ (key ++ b))) || t) (Occurs-contains key a b)
    ∙ or_true (starts_with key (x ∷ (a ++ (key ++ b))))

contains_iff : (key path : List ℕ) → (contains key path ≡ true) ↔ Occurs key path
contains_iff key path = (
  contains-Occurs key path,
  λ o.
      let (a, b, same) = o in
      subst (λ (p : List ℕ). contains key p ≡ true) (sym same) (Occurs-contains key a b),
)

sleep_after_le : (rest : List ℕ) → sleep_after rest ≤ max_sleep_ms
sleep_after_le [] = omega arith
sleep_after_le (c ∷ rest) =
    if-kept (not (is_digit c)) (λ (n : ℕ). n ≤ max_sleep_ms) (omega arith) (omega arith)

sleep_at_le : (path : List ℕ) (o : Option ℕ) → sleep_at path o ≤ max_sleep_ms
sleep_at_le path none = omega arith
sleep_at_le path (some pos) = sleep_after_le (drop (pos + length sleep_key) path)

sleep_at-found : (path : List ℕ) (o : Option ℕ) → 0 < sleep_at path o → found o ≡ true
sleep_at-found path none h = absurd (omega arith)
sleep_at-found path (some pos) h = refl

-- What a behaviour says of its path.
pub record Behaves (path : List ℕ) (b : SampleBehavior) : Type 0 where
  pub crashes : (b.should_crash ≡ true) ↔ Occurs crash_key path
  pub threatens :
      (b.threat_level ≡ 1) ↔ ((0 < b.sleep_ms) ⊎ (Occurs virus_key path ⊎ Occurs eicar_key path))
  pub sleeps : b.sleep_ms ≤ max_sleep_ms
  pub sleepy : 0 < b.sleep_ms → Occurs sleep_key path

abbrev level : ℕ → Bool → Bool → ℕ
level sleep_ms virus eicar = if ltb 0 sleep_ms then 1 else (if virus || eicar then 1 else 0)

threat-of :
    (sleep_ms : ℕ) (virus eicar : Bool)
    → level sleep_ms virus eicar ≡ 1
    → (0 < sleep_ms) ⊎ ((virus ≡ true) ⊎ (eicar ≡ true))
threat-of sleep_ms true eicar e = inr (inl refl)
threat-of sleep_ms false true e = inr (inr refl)
threat-of sleep_ms false false e = inl (ground arith)

of-threat :
    (sleep_ms : ℕ) (virus eicar : Bool)
    → (0 < sleep_ms) ⊎ ((virus ≡ true) ⊎ (eicar ≡ true))
    → level sleep_ms virus eicar ≡ 1
of-threat sleep_ms virus eicar o = ground arith

threat_iff :
    (sleep_ms : ℕ) (virus eicar : Bool)
    → (level sleep_ms virus eicar ≡ 1) ↔ ((0 < sleep_ms) ⊎ ((virus ≡ true) ⊎ (eicar ≡ true)))
threat_iff sleep_ms virus eicar = (threat-of sleep_ms virus eicar, of-threat sleep_ms virus eicar)

-- What a sample's path makes it do. `EvaluateSamplePath` says that a sample crashes exactly where its
-- path contains `crash`, it is a threat exactly where it sleeps or its path contains `virus` or `eicar`, it
-- sleeps for at most 5000 ms, and only where the path contains `sleep`.
pub evaluate_sample_path-Behaves : (path : List ℕ) → Behaves path (evaluate_sample_path path)
unfolding evaluate_sample_path parse_sleep_ms
evaluate_sample_path-Behaves path =
    let virus = contains_iff virus_key path in
    let eicar = contains_iff eicar_key path in
    let sleep_ms = sleep_at path (find_text sleep_key path) in
    let threat = threat_iff sleep_ms (contains virus_key path) (contains eicar_key path) in
    record {
      crashes = contains_iff crash_key path;
      threatens = (
        λ e. elim (threat.0 e) [
          | inl sleeps ↦ inl sleeps
          | inr (inl v) ↦ inr (inl (virus.0 v))
          | inr (inr v) ↦ inr (inr (eicar.0 v))
        ],
        λ o. threat.1 (elim o [
          | inl sleeps ↦ inl sleeps
          | inr (inl v) ↦ inr (inl (virus.1 v))
          | inr (inr v) ↦ inr (inr (eicar.1 v))
        ]),
      );
      sleeps = sleep_at_le path (find_text sleep_key path);
      sleepy =
          λ h. contains-Occurs sleep_key path (sleep_at-found path (find_text sleep_key path) h);
    }
