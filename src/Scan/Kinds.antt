-- ===== src/Scan/Kinds.antt =====
-- `NormalizeVesEngineKinds` of virus_executor_service/include/transport/ves_control_interface.h: a sorted list
-- without repetitions stands for the set of its elements.
use mathlib.Core.Path.{subst}
use mem.Prelude.{
  false-ne-true, ltb→lt, ltb, leb→le, ℕ, ◌≤◌, ◌<◌, ◌≡◌, ◌≢◌, refl, sym, ap, ◌∙◌, Bool, true, false,
  ◌||◌, List, [], ◌∷◌, ◌==◌, leb, arith, Bool-cases, inl, inr, ◌↔◌, ==→≡, eq→==, ne→==, All,
  All-mono, if-kept,
}
use mem.Scan.Engines.{insert, sort, unique_from, unique, normalize_ves_engine_kinds, has}

-- Every element is at most, or less than, all behind it.
Sorted : List ℕ → Type 0
Sorted [] = Unit {0}
Sorted (x ∷ xs) = All (λ y. x ≤ y) xs × Sorted xs

Ascending : List ℕ → Type 0
Ascending [] = Unit {0}
Ascending (x ∷ xs) = All (λ y. x < y) xs × Ascending xs

or_swap : (a b c : Bool) → (a || (b || c)) ≡ (b || (a || c))
or_swap a b c = ground arith

or_again : (a b : Bool) → (a || b) ≡ (a || (a || b))
or_again a b = ground arith

not_le : (a b : ℕ) → leb a b ≡ false → b ≤ a
not_le a b h = ground arith

or_false : (a b c : Bool) → a ≡ false → (a || b) ≡ (a || c) → b ≡ c
or_false a b c e h = ground arith

has-insert : (k x : ℕ) (ys : List ℕ) → has k (insert x ys) ≡ (k == x || has k ys)
unfolding insert
has-insert k x [] = refl
has-insert k x (y ∷ ys) =
    if-kept (leb x y) (λ (l : List ℕ). has k l ≡ (k == x || has k (y ∷ ys))) refl
      (ap (λ (b : Bool). k == y || b) (has-insert k x ys) ∙ or_swap (k == y) (k == x) (has k ys))

has-sort : (k : ℕ) (xs : List ℕ) → has k (sort xs) ≡ has k xs
unfolding sort
has-sort k [] = refl
has-sort k (x ∷ xs) = has-insert k x (sort xs) ∙ ap (λ (b : Bool). k == x || b) (has-sort k xs)

has-unique_from :
    (k x : ℕ) (ys : List ℕ) → (k == x || has k (unique_from x ys)) ≡ (k == x || has k ys)
unfolding unique_from
has-unique_from k x [] = refl
has-unique_from k x (y ∷ ys) = elim (Bool-cases (x == y)) [
  | inl same ↦ rw same (
      has-unique_from k x ys
      ∙ or_again (k == x) (has k ys)
      ∙ ap (λ (z : ℕ). k == x || (k == z || has k ys)) (==→≡ x y same))
  | inr apart ↦ rw apart (ap (λ (b : Bool). k == x || b) (has-unique_from k y ys))
]

has-unique : (k : ℕ) (xs : List ℕ) → has k (unique xs) ≡ has k xs
has-unique k [] = refl
has-unique k (x ∷ xs) = has-unique_from k x xs

has-normalize : (k : ℕ) (xs : List ℕ) → has k (normalize_ves_engine_kinds xs) ≡ has k xs
unfolding normalize_ves_engine_kinds
has-normalize k xs = has-unique k (sort xs) ∙ has-sort k xs

insert-All : (P : ℕ → Type 0) (x : ℕ) (ys : List ℕ) → P x → All P ys → All P (insert x ys)
unfolding insert
insert-All P x [] p q = (p, q)
insert-All P x (y ∷ ys) p q = if-kept (leb x y) (All P) (p, q) (q.0, insert-All P x ys p q.1)

insert-Sorted : (x : ℕ) (ys : List ℕ) → Sorted ys → Sorted (insert x ys)
unfolding insert Sorted
insert-Sorted x [] s = (tt, tt)
insert-Sorted x (y ∷ ys) s = elim (Bool-cases (leb x y)) [
  | inl less ↦
      let first : x ≤ y = leb→le x y less in
      rw less ((first, All-mono (λ z h. omega (arith, h, first)) ys s.0), s)
  | inr more ↦ rw more (insert-All (λ z. y ≤ z) x ys (not_le x y more) s.0, insert-Sorted x ys s.1)
]

strictly : (a b : ℕ) → a ≤ b → (a == b) ≡ false → a < b
strictly a b h e = ground arith

sort-Sorted : (xs : List ℕ) → Sorted (sort xs)
unfolding sort Sorted
sort-Sorted [] = tt
sort-Sorted (x ∷ xs) = insert-Sorted x (sort xs) (sort-Sorted xs)

unique_from-Ascending : (x : ℕ) (ys : List ℕ) → Sorted (x ∷ ys) → Ascending (x ∷ unique_from x ys)
unfolding Sorted Ascending unique_from
unique_from-Ascending x [] s = (tt, tt)
unique_from-Ascending x (y ∷ ys) s = elim (Bool-cases (x == y)) [
  | inl same ↦ rw same (unique_from-Ascending x ys (s.0.1, s.1.1))
  | inr apart ↦
      let above : x < y = strictly x y s.0.0 apart in
      let rest = unique_from-Ascending y ys s.1 in
      rw apart ((above, All-mono (λ z h. omega (arith, h, above)) (unique_from y ys) rest.0), rest)
]

unique-Ascending : (xs : List ℕ) → Sorted xs → Ascending (unique xs)
unfolding Ascending
unique-Ascending [] s = tt
unique-Ascending (x ∷ xs) s = unique_from-Ascending x xs s

normalize-Ascending : (xs : List ℕ) → Ascending (normalize_ves_engine_kinds xs)
unfolding normalize_ves_engine_kinds
normalize-Ascending xs = unique-Ascending (sort xs) (sort-Sorted xs)

lt-ne : (a b : ℕ) → a < b → a ≢ b
lt-ne a b h e = absurd (omega (arith, h, e))

-- Nothing below all elements is among them.
below-has : (k : ℕ) (ys : List ℕ) → All (λ y. k < y) ys → has k ys ≡ false
below-has k [] a = refl
below-has k (y ∷ ys) a = rw (ne→== (lt-ne k y a.0)) (below-has k ys a.1)

has_self : (x : ℕ) (xs : List ℕ) → has x (x ∷ xs) ≡ true
has_self x xs = rw (eq→== {a = x} refl) refl

not_below :
    (x y : ℕ) (xs ys : List ℕ)
    → x < y
    → All (λ z. y < z) ys
    → ((k : ℕ) → has k (x ∷ xs) ≡ has k (y ∷ ys))
    → false ≡ true
not_below x y xs ys less above same =
    sym (below-has x (y ∷ ys) (less, All-mono (λ z h. omega (arith, h, less)) ys above))
    ∙ sym (same x)
    ∙ has_self x xs

neither : (a b : ℕ) → ltb a b ≡ false → ltb b a ≡ false → a ≡ b
neither a b h k = ground arith

-- The first elements of ascending lists with the same elements.
first-same :
    (x y : ℕ) (xs ys : List ℕ)
    → Ascending (x ∷ xs)
    → Ascending (y ∷ ys)
    → ((k : ℕ) → has k (x ∷ xs) ≡ has k (y ∷ ys))
    → x ≡ y
unfolding Ascending
first-same x y xs ys a b same = elim (Bool-cases (ltb x y)) [
  | inl less ↦ absurd (false-ne-true (not_below x y xs ys (ltb→lt x y less) b.0 same))
  | inr not_less ↦ elim (Bool-cases (ltb y x)) [
    | inl more ↦
        absurd (false-ne-true (not_below y x ys xs (ltb→lt y x more) a.0 (λ k. sym (same k))))
    | inr not_more ↦ neither x y not_less not_more
  ]
]

tail_same :
    (k x : ℕ) (xs ys : List ℕ)
    → All (λ z. x < z) xs
    → All (λ z. x < z) ys
    → (k == x || has k xs) ≡ (k == x || has k ys)
    → has k xs ≡ has k ys
tail_same k x xs ys a b same = elim (Bool-cases (k == x)) [
  | inl here ↦
      let at = sym (==→≡ k x here) in
      let none_in : (l : List ℕ) → All (λ z. x < z) l → has k l ≡ false =
        λ l c. below-has k l (subst (λ (w : ℕ). All (λ z. w < z) l) at c) in
      none_in xs a ∙ sym (none_in ys b)
  | inr apart ↦ or_false (k == x) (has k xs) (has k ys) apart same
]

Ascending-same :
    (xs ys : List ℕ) → Ascending xs → Ascending ys → ((k : ℕ) → has k xs ≡ has k ys) → xs ≡ ys
unfolding Ascending
Ascending-same [] [] a b same = refl
Ascending-same [] (y ∷ ys) a b same = absurd (false-ne-true (same y ∙ has_self y ys))
Ascending-same (x ∷ xs) [] a b same = absurd (false-ne-true (sym (same x) ∙ has_self x xs))
Ascending-same (x ∷ xs) (y ∷ ys) a b same =
    let e = first-same x y xs ys a b same in
    let b' = subst (λ (z : ℕ). All (λ w. z < w) ys) (sym e) b.0 in
    ap (λ (z : ℕ). z ∷ xs) e
    ∙ ap (◌∷◌ y) (
        Ascending-same xs ys a.1 b.1
          (λ k. tail_same k x xs ys a.0 b' (same k ∙ ap (λ (z : ℕ). k == z || has k ys) (sym e))))

-- The normal form stands for the set of the kinds.
pub normalize_iff :
    (xs ys : List ℕ)
    → (normalize_ves_engine_kinds xs ≡ normalize_ves_engine_kinds ys)
      ↔ ((k : ℕ) → has k xs ≡ has k ys)
normalize_iff xs ys = (
  λ e k. sym (has-normalize k xs) ∙ ap (has k) e ∙ has-normalize k ys,
  λ same.
      Ascending-same (normalize_ves_engine_kinds xs) (normalize_ves_engine_kinds ys)
        (normalize-Ascending xs) (normalize-Ascending ys)
        (λ k. has-normalize k xs ∙ same k ∙ sym (has-normalize k ys)),
)
