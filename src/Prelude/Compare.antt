-- ===== src/Prelude/Compare.antt =====
-- `==` of two sequences of numbers: strings and vectors.
use Prim.Native.Nat.{ℕ}
use mathlib.Core.Path.{◌≡◌, refl, ap, ◌∙◌}
use mathlib.Core.Logic.{◌≢◌}
use mathlib.Core.Bool.{Bool, true, false, ◌&&◌}
use mathlib.Core.List.{List, [], ◌∷◌}
use native.Mathlib.Omega.{arith}
use mem.Prelude.Tests.{◌==◌, ==→≡, eq→==}

abbrev pub same_list : List ℕ → List ℕ → Bool
same_list [] [] = true
same_list (x ∷ p) (y ∷ q) = (x == y) && same_list p q
same_list _ _ = false

pub both : (a b : Bool) → (a && b) ≡ true → (a ≡ true) × (b ≡ true)
both a b h = ground arith

pub false-ne-true : false ≢ true
false-ne-true = cc

pub same_list→≡ : (p q : List ℕ) → same_list p q ≡ true → p ≡ q
same_list→≡ [] [] e = refl
same_list→≡ (x ∷ p) (y ∷ q) e =
    let (first, rest) = both (x == y) (same_list p q) e in
    ap (λ (k : ℕ). k ∷ p) (==→≡ x y first) ∙ ap (◌∷◌ y) (same_list→≡ p q rest)
same_list→≡ [] (y ∷ q) e = absurd (false-ne-true e)
same_list→≡ (x ∷ p) [] e = absurd (false-ne-true e)

pub same_list_self : (p : List ℕ) → same_list p p ≡ true
same_list_self [] = refl
same_list_self (x ∷ p) = rw (eq→== {a = x} refl) (same_list_self p)
