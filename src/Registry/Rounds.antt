-- ===== src/Registry/Rounds.antt =====
-- The loops of `SendMessage` and `RecvMessage` in virus_executor_service/src/transport/registry_protocol.cpp
-- end: as many rounds as there are bytes are enough.
use mem.Prelude.{
  ℕ, zero, suc, ◌≡◌, ◌≤◌, refl, Bool, true, false, Option, none, some, List, [], ◌∷◌, if◌then◌else◌,
  ◌==◌, length, drop, arith, length-drop, ==→≢,
}
use mem.Registry.Messages.{Link, after_send, send_rest, after_recv, recv_rest}

both_if :
    {A : Type 0} (b : Bool) (x : A) {y z : A}
    → (b ≡ false → y ≡ z)
    → (if b then x else y) ≡ (if b then x else z)
both_if true x h = refl
both_if false x h = h refl

module _ {S : Type 0} (link : Link S) where
  after_send-same :
      (x : ℕ) (left : List ℕ) (next next' : List ℕ → S → Bool × S) (o : Option ℕ × S)
      → ((l : List ℕ) (s : S) → length l ≤ length left → next l s ≡ next' l s)
      → after_send link (x ∷ left) next o ≡ after_send link (x ∷ left) next' o
  after_send-same x left next next' (none, s) same = refl
  after_send-same x left next next' (some n, s) same =
      both_if (n == 0) (false, s)
        (λ taken.
          let some_taken = ==→≢ n 0 taken in
          same (drop n (x ∷ left)) s (omega (arith, length-drop n (x ∷ left), some_taken)))

  -- More rounds than there are bytes change nothing.
  pub send_rest_enough :
      (m n : ℕ) (left : List ℕ) (s : S)
      → length left ≤ m
      → length left ≤ n
      → send_rest link m left s ≡ send_rest link n left s
  send_rest_enough m n [] s h k = refl
  send_rest_enough zero n (x ∷ left) s h k = absurd (omega arith)
  send_rest_enough (suc m) zero (x ∷ left) s h k = absurd (omega arith)
  send_rest_enough (suc m) (suc n) (x ∷ left) s h k =
      after_send-same x left (send_rest link m) (send_rest link n) (link.send (x ∷ left) s)
        (λ l s' short.
          send_rest_enough m n l s' (omega (arith, short, h)) (omega (arith, short, k)))

  after_recv-same :
      (left : ℕ) (got : List ℕ) (next next' : ℕ → List ℕ → S → Option (List ℕ) × S)
      (o : Option (List ℕ) × S)
      → ((l : ℕ) (g : List ℕ) (s : S) → l ≤ left → next l g s ≡ next' l g s)
      → after_recv link (suc left) got next o ≡ after_recv link (suc left) got next' o
  after_recv-same left got next next' (none, s) same = refl
  after_recv-same left got next next' (some [], s) same = refl
  after_recv-same left got next next' (some (x ∷ bytes), s) same = same _ _ s (omega arith)

  pub recv_rest_enough :
      (m n left : ℕ) (got : List ℕ) (s : S)
      → left ≤ m
      → left ≤ n
      → recv_rest link m left got s ≡ recv_rest link n left got s
  recv_rest_enough m n zero got s h k = refl
  recv_rest_enough zero n (suc left) got s h k = absurd (omega arith)
  recv_rest_enough (suc m) zero (suc left) got s h k = absurd (omega arith)
  recv_rest_enough (suc m) (suc n) (suc left) got s h k =
      after_recv-same left got (recv_rest link m) (recv_rest link n) (link.recv false (suc left) s)
        (λ l g s' short.
          recv_rest_enough m n l g s' (omega (arith, short, h)) (omega (arith, short, k)))
