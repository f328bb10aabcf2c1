-- ===== src/Registry/Frames.antt =====
-- What messages of virus_executor_service/src/transport/registry_protocol.cpp leave in a stream, and
-- what they take from it.
use native.Mathlib.Nat.{mod-eq_of_lt}
use mathlib.Core.Path.{subst}
use mathlib.Core.List.{append-nil, append_assoc}
use mem.Prelude.{
  false-ne-true, ℕ, zero, suc, ◌≡◌, ◌≤◌, ◌<◌, ◌^◌, ◌≢◌, refl, sym, ap, ◌∙◌, Bool, true, false,
  Option, none, some, List, [], ◌∷◌, ◌++◌, ◌==◌, length, take, drop, arith, drop-append, if-kept,
  Bool-cases, ==→≡, inl, inr,
}
use mem.Codec.{le_bytes}
use mem.Registry.Messages.{Link, after_send, send_rest, after_prefix, send_message}

-- The documented behaviour of a stream: the bytes that are sent and not yet received, in their order.
pub record IsStream {S : Type 0} (link : Link S) (queued : S → List ℕ) : Type 0 where
  pub sends :
      (bytes : List ℕ) (n : ℕ) (s : S)
      → (link.send bytes s).0 ≡ some n
      → (n ≤ length bytes) × (queued (link.send bytes s).1 ≡ queued s ++ take n bytes)
  pub refuses :
      (bytes : List ℕ) (s : S)
      → (link.send bytes s).0 ≡ none
      → queued (link.send bytes s).1 ≡ queued s
  pub receives :
      (all : Bool) (count : ℕ) (bytes : List ℕ) (s : S)
      → (link.recv all count s).0 ≡ some bytes
      → (length bytes ≤ count) × (queued s ≡ bytes ++ queued (link.recv all count s).1)

unfoldable pub frame : List ℕ → List ℕ
frame msg = le_bytes 4 (length msg) ++ msg

-- The first part of a list.
abbrev pub IsPrefix : List ℕ → List ℕ → Type 0
IsPrefix p l = (q : List ℕ) × (p ++ q ≡ l)

take-drop : (n : ℕ) (xs : List ℕ) → take n xs ++ drop n xs ≡ xs
take-drop zero xs = refl
take-drop (suc n) [] = refl
take-drop (suc n) (x ∷ xs) = ap (◌∷◌ x) (take-drop n xs)

take-append_le : (n : ℕ) (xs ys : List ℕ) → n ≤ length xs → take n (xs ++ ys) ≡ take n xs
take-append_le zero xs ys h = refl
take-append_le (suc n) [] ys h = absurd (omega arith)
take-append_le (suc n) (x ∷ xs) ys h = ap (◌∷◌ x) (take-append_le n xs ys (omega arith))

pub some-inj : {A : Type 0} {a b : A} → some a ≡ some b → a ≡ b
some-inj = cc

pub none-ne-some : {A : Type 0} {a : A} → none ≢ some a
none-ne-some = cc

module _ {S : Type 0} (link : Link S) (queued : S → List ℕ) (law : IsStream link queued) where
  -- A sender of `l` from `s` that stops in `r`: it appended a part of `l`, and all of it where it succeeded.
  unfoldable pub Sends : List ℕ → S → Bool × S → Type 0
  Sends l s r = (p : List ℕ) × (queued r.1 ≡ queued s ++ p) × (IsPrefix p l) × (r.0 ≡ true → p ≡ l)

  -- Nothing more is sent.
  stops : (l : List ℕ) (s s' : S) → queued s' ≡ queued s → Sends l s (false, s')
  unfolding Sends
  stops l s s' e = ([], e ∙ sym (append-nil (queued s)), (l, refl), λ h. absurd (false-ne-true h))

  -- A first part is sent, and what is done with the rest.
  goes_on :
      (n : ℕ) (l : List ℕ) (s s' : S) (r : Bool × S)
      → queued s' ≡ queued s ++ take n l
      → Sends (drop n l) s' r
      → Sends l s r
  unfolding Sends
  goes_on n l s s' r e (p, grown, (q, split), whole) = (
    take n l ++ p,
    grown ∙ ap (λ (x : List ℕ). x ++ p) e ∙ append_assoc (queued s) (take n l) p,
    (q, append_assoc (take n l) p q ∙ ap (λ (x : List ℕ). take n l ++ x) split ∙ take-drop n l),
    λ h. ap (λ (x : List ℕ). take n l ++ x) (whole h) ∙ take-drop n l,
  )

  after_send-Sends :
      (l : List ℕ) (s : S) (next : List ℕ → S → Bool × S) (o : Option ℕ × S)
      → ((n : ℕ) → o.0 ≡ some n → queued o.1 ≡ queued s ++ take n l)
      → (o.0 ≡ none → queued o.1 ≡ queued s)
      → ((l' : List ℕ) (s' : S) → Sends l' s' (next l' s'))
      → Sends l s (after_send link l next o)
  after_send-Sends l s next (none, s') grown same more = stops l s s' (same refl)
  after_send-Sends l s next (some n, s') grown same more =
      let e = grown n refl in
      if-kept (n == 0) (Sends l s) (goes_on n l s s' (false, s') e (stops (drop n l) s' s' refl))
        (goes_on n l s s' (next (drop n l) s') e (more (drop n l) s'))

  send_rest-Sends : (rounds : ℕ) (l : List ℕ) (s : S) → Sends l s (send_rest link rounds l s)
  unfolding Sends
  send_rest-Sends rounds [] s = ([], sym (append-nil (queued s)), ([], refl), λ h. refl)
  send_rest-Sends zero (x ∷ l) s = stops (x ∷ l) s s refl
  send_rest-Sends (suc rounds) (x ∷ l) s =
      let sent = link.send (x ∷ l) s in
      after_send-Sends (x ∷ l) s (send_rest link rounds) sent (λ n e. (law.sends (x ∷ l) n s e).1)
        (law.refuses (x ∷ l) s) (send_rest-Sends rounds)

  after_prefix-Sends :
      (h msg : List ℕ) (s : S) (o : Option ℕ × S)
      → length h ≡ 4
      → ((n : ℕ) → o.0 ≡ some n → (n ≤ length h) × (queued o.1 ≡ queued s ++ take n h))
      → (o.0 ≡ none → queued o.1 ≡ queued s)
      → Sends (h ++ msg) s (after_prefix link msg o)
  after_prefix-Sends h msg s (none, s') four grown same = stops (h ++ msg) s s' (same refl)
  after_prefix-Sends h msg s (some n, s') four grown same =
      let (small, e) = grown n refl in
      let e' : queued s' ≡ queued s ++ take n (h ++ msg) =
        e ∙ ap (λ (x : List ℕ). queued s ++ x) (sym (take-append_le n h msg small)) in
      let rest = send_rest link (length msg) msg s' in
      let stop : Sends (h ++ msg) s (false, s') =
        goes_on n (h ++ msg) s s' (false, s') e' (stops (drop n (h ++ msg)) s' s' refl) in
      elim (Bool-cases (n == 4)) [
        | inl four_sent ↦
            let left : drop n (h ++ msg) ≡ msg =
              ap (λ (k : ℕ). drop k (h ++ msg)) (==→≡ n 4 four_sent ∙ sym four)
              ∙ drop-append h msg in
            rw four_sent (
              goes_on n (h ++ msg) s s' rest e' (
                subst (λ (l : List ℕ). Sends l s' rest) (sym left)
                  (send_rest-Sends (length msg) msg s')))
        | inr other ↦ rw other stop
      ]

  -- A message leaves a part of its frame in the stream, and the whole of it where it is sent.
  pub send_message-Sends :
      (msg : List ℕ) (s : S) → length msg < 2 ^ 32 → Sends (frame msg) s (send_message link msg s)
  unfolding send_message frame
  send_message-Sends msg s short =
      let h = le_bytes 4 (length msg) in
      rw (mod-eq_of_lt short) (
        after_prefix-Sends h msg s (link.send h s) refl (λ n e. law.sends h n s e)
          (law.refuses h s))
