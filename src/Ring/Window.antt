-- ===== src/Ring/Window.antt =====
-- The slots of a ring that hold its queue, and how writing and reading one moves them. The slot of
-- a cursor is its remainder by the capacity (`PushRingEntry`, memrpc/src/core/session.cpp).
use Prim.Native.Nat.{◌∣◌}
use native.Mathlib.Nat.{mod-mod_of_dvd, mod-eq_of_lt, mod-eq-sub-mod, mod-add-mod, mod-lt}
use mem.Prelude.{
  inl, inr, Bool-cases, ltb, ltb→lt, ltb→ge, tests, ℕ, zero, suc, ◌+◌, ◌-◌, ◌%◌, ◌≤◌, ◌<◌, ◌≡◌, ◌≢◌,
  refl, sym, ap, ◌∙◌, some, List, [], ◌∷◌, ◌++◌, arith, length, get_elem?, set, add32, u32_mod,
  get_elem?-set_self, get_elem?-set_ne, get_elem?-total,
}

-- The slots from cursor `head` on hold the entries of the queue, in its order.
abbrev pub Holds {ℓ} : {E : Type ℓ} → ℕ → List E → ℕ → List E → Type ℓ
Holds cap slots head [] = Unit
Holds cap slots head (x ∷ q) =
    (get_elem? slots (head % cap) ≡ some x) × Holds cap slots (add32 head 1) q

-- Two cursors less than the capacity apart have different slots: going on from the slot of the
-- first, the second comes round past the end at most once, and then stays below it.
slot-ne : {cap : ℕ} (h k : ℕ) → suc k < cap → (h + suc k) % cap ≢ h % cap
slot-ne {cap} h k near same =
    let below = mod-lt h {m = cap} (omega arith) in
    let ahead : (h % cap + suc k) % cap ≡ h % cap = mod-add-mod h cap (suc k) ∙ same in
    elim (Bool-cases (ltb (h % cap + suc k) cap)) [
      | inl stays ↦
          omega (tests, ahead, mod-eq_of_lt {n = h % cap + suc k} {m = cap} (ltb→lt _ _ stays))
      | inr wraps ↦
          let over = ltb→ge (h % cap + suc k) cap wraps in
          let back = mod-eq-sub-mod {n = h % cap + suc k} {m = cap} over in
          omega
            (arith, ahead, back, mod-eq_of_lt {n = h % cap + suc k - cap} {m = cap} (omega arith))
    ]

module _ (cap : ℕ) (divides : cap ∣ u32_mod) where
  -- Where the capacity divides 2 ^ 32, the wrap of a cursor does not move its slot.
  pub wrap-mod : (x : ℕ) → x % u32_mod % cap ≡ x % cap
  wrap-mod x = mod-mod_of_dvd cap x divides

  shift-slot : (h n : ℕ) → (h + suc n) % cap ≡ (add32 h 1 + n) % cap
  shift-slot h n =
      ap (λ (k : ℕ). k % cap) (omega arith)
      ∙ sym (mod-add-mod (h + 1) cap n)
      ∙ ap (λ (k : ℕ). (k + n) % cap) (sym (wrap-mod (h + 1)))
      ∙ mod-add-mod (add32 h 1) cap n

module _ {ℓ} {E : Type ℓ} (cap : ℕ) (divides : cap ∣ u32_mod) where
  -- Writing the slot just past the queue extends it by the entry.
  pub Holds-set :
      (slots q : List E) (x : E) (h i : ℕ)
      → cap ≤ length slots
      → length q < cap
      → i ≡ (h + length q) % cap
      → Holds cap slots h q
      → Holds cap (set slots i x) h (q ++ (x ∷ []))
  Holds-set slots [] x h i room small e hs = (
    ap (get_elem? (set slots i x)) (ap (λ (k : ℕ). k % cap) (omega arith) ∙ sym e)
        ∙ get_elem?-set_self slots i x (omega (arith, e, mod-lt (h + 0) {m = cap} (omega arith))),
    tt,
  )
  Holds-set slots (y ∷ q) x h i room small e hs = (
    get_elem?-set_ne slots x (λ (c : i ≡ h % cap). slot-ne h (length q) small (sym e ∙ c)) ∙ hs.0,
    Holds-set slots q x (add32 h 1) i room (omega arith) (e ∙ shift-slot cap divides h (length q))
        hs.1,
  )

  -- Any number of slots within the storage holds some queue.
  pub Holds-total :
      (slots : List E) (h n : ℕ)
      → 0 < cap
      → cap ≤ length slots
      → (q : List E) × (length q ≡ n) × Holds cap slots h q
  Holds-total slots h zero pos room = ([], refl, tt)
  Holds-total slots h (suc n) pos room =
      let (q, len, hs) = Holds-total slots (add32 h 1) n pos room in
      let (x, e) = get_elem?-total slots (h % cap) (omega (arith, mod-lt h {m = cap} pos)) in
      (x ∷ q, ap suc len, (e, hs))
