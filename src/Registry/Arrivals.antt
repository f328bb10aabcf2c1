-- ===== src/Registry/Arrivals.antt =====
-- Messages of virus_executor_service/src/transport/registry_protocol.cpp that arrive: what a receiver gives
-- of what was sent.
use mathlib.Core.List.{append-nil, append_assoc}
use mem.Prelude.{
  ℕ, zero, suc, ◌-◌, ◌≡◌, ◌≤◌, ◌<◌, ◌^◌, refl, sym, ap, ◌∙◌, Bool, true, false, not, ◌||◌, Option,
  none, some, List, [], ◌∷◌, ◌++◌, if◌then◌else◌, ◌==◌, ltb, length, take, drop, arith,
  length-append, take-append, drop-append, Option-cases, inl, inr,
}
use mem.Codec.{le_bytes, le_word, le_word-le_bytes4}
use mem.Registry.Messages.{
  Link, max_message_bytes, send_message, after_recv, recv_rest, after_length, recv_message,
}
use mem.Registry.Frames.{frame, Sends, IsStream, some-inj, none-ne-some, send_message-Sends}

append-inj :
    (xs xs' ys ys' : List ℕ)
    → length xs ≡ length xs'
    → xs ++ ys ≡ xs' ++ ys'
    → (xs ≡ xs') × (ys ≡ ys')
append-inj xs xs' ys ys' len e = (
  sym (take-append xs ys)
      ∙ ap (λ (n : ℕ). take n (xs ++ ys)) len
      ∙ ap (take (length xs')) e
      ∙ take-append xs' ys',
  sym (drop-append xs ys)
      ∙ ap (λ (n : ℕ). drop n (xs ++ ys)) len
      ∙ ap (drop (length xs')) e
      ∙ drop-append xs' ys',
)

four_bytes : (n : ℕ) (long : Bool) → (not (n == 4) || long) ≡ false → n ≡ 4
four_bytes n long h = ground arith

module _ {S : Type 0} (link : Link S) (queued : S → List ℕ) (law : IsStream link queued) where
  -- A receiver that had `got` and looks for `left` more bytes: the stream began with what it got.
  Receives : List ℕ → ℕ → S → Option (List ℕ) × S → Type 0
  Receives got left s r =
      (m : List ℕ)
      → r.0 ≡ some m
      → (l : List ℕ) × (m ≡ got ++ l) × (length l ≡ left) × (queued s ≡ l ++ queued r.1)

  after_recv-Receives :
      (got : List ℕ) (left : ℕ) (s : S) (next : ℕ → List ℕ → S → Option (List ℕ) × S)
      (o : Option (List ℕ) × S)
      → ((bytes : List ℕ)
          → o.0 ≡ some bytes
          → (length bytes ≤ left) × (queued s ≡ bytes ++ queued o.1))
      → ((k : ℕ) (g : List ℕ) (s' : S) → Receives g k s' (next k g s'))
      → Receives got left s (after_recv link left got next o)
  unfolding Receives
  after_recv-Receives got left s next (none, s') law more m e = absurd (none-ne-some e)
  after_recv-Receives got left s next (some [], s') law more m e = absurd (none-ne-some e)
  after_recv-Receives got left s next (some (x ∷ bytes), s') law more m e =
      let (small, begins) = law (x ∷ bytes) refl in
      let (l, whole, count, rest) = more (left - length (x ∷ bytes)) (got ++ (x ∷ bytes)) s' m e in
      (
        (x ∷ bytes) ++ l,
        whole ∙ append_assoc got (x ∷ bytes) l,
        length-append (x ∷ bytes) l ∙ omega (arith, count, small),
        begins ∙ ap (λ (q : List ℕ). (x ∷ bytes) ++ q) rest ∙ sym (append_assoc (x ∷ bytes) l _),
      )

  recv_rest-Receives :
      (rounds left : ℕ) (got : List ℕ) (s : S)
      → Receives got left s (recv_rest link rounds left got s)
  unfolding Receives
  recv_rest-Receives rounds zero got s m e =
      ([], sym (some-inj e) ∙ sym (append-nil got), refl, refl)
  recv_rest-Receives zero (suc left) got s m e = absurd (none-ne-some e)
  recv_rest-Receives (suc rounds) (suc left) got s m e =
      after_recv-Receives got (suc left) s (recv_rest link rounds) (link.recv false (suc left) s)
        (λ bytes e. law.receives false (suc left) bytes s e)
        (λ k g s'. recv_rest-Receives rounds k g s') m e

  -- What was received stood in the stream behind its length.
  Frames : S → Option (List ℕ) × S → Type 0
  Frames s r =
      (m : List ℕ)
      → r.0 ≡ some m
      → (h : List ℕ) × (length h ≡ 4) × (le_word h ≡ length m) × (queued s ≡ h ++ (m ++ queued r.1))

  checked :
      (s s' : S) (b : Bool) (body : Option (List ℕ) × S)
      → (b ≡ false → Frames s body)
      → Frames s (if b then (none, s') else body)
  unfolding Frames
  checked s s' true body k m e = absurd (none-ne-some e)
  checked s s' false body k m e = k refl m e

  after_length-Frames :
      (s : S) (o : Option (List ℕ) × S)
      → ((bytes : List ℕ) → o.0 ≡ some bytes → queued s ≡ bytes ++ queued o.1)
      → Frames s (after_length link o)
  unfolding Frames Receives
  after_length-Frames s (none, s') law m e = absurd (none-ne-some e)
  after_length-Frames s (some h, s') law m e =
      checked s s' (not (length h == 4) || ltb max_message_bytes (le_word h))
        (recv_rest link (le_word h) (le_word h) [] s')
        (λ plain m e.
          let (l, whole, count, rest) = recv_rest-Receives (le_word h) (le_word h) [] s' m e in
          (
            h,
            four_bytes (length h) (ltb max_message_bytes (le_word h)) plain,
            sym count ∙ ap length (sym whole),
            law h refl
                ∙ ap (λ (q : List ℕ). h ++ q) rest
                ∙ ap
                    (λ (x : List ℕ).
                      h ++ (x ++ queued (recv_rest link (le_word h) (le_word h) [] s').1))
                    (sym whole),
          ))
        m e

  recv_message-Frames : (has_msg : Bool) (s : S) → Frames s (recv_message link has_msg s)
  unfolding recv_message Frames
  recv_message-Frames true s m e =
      after_length-Frames s (link.recv true 4 s) (λ bytes e. (law.receives true 4 bytes s e).1) m e
  recv_message-Frames false s m e = absurd (none-ne-some e)

  -- A receiver behind a sender gives the message that was sent, if it gives one.
  pub send_recv :
      (msg m : List ℕ) (s : S)
      → length msg < 2 ^ 32
      → queued s ≡ []
      → (recv_message link true (send_message link msg s).1).0 ≡ some m
      → m ≡ msg
  unfolding Sends Frames frame
  send_recv msg m s short empty e =
      let (p, grown, (q, split), whole) = send_message-Sends link queued law msg s short in
      let s' = (send_message link msg s).1 in
      let (h, four, count, stood) = recv_message-Frames true s' m e in
      let tail = queued (recv_message link true s').1 in
      let h' = le_bytes 4 (length msg) in
      let p_is : p ≡ h ++ (m ++ tail) =
        ap (λ (x : List ℕ). x ++ p) (sym empty) ∙ sym grown ∙ stood in
      let all : h ++ (m ++ (tail ++ q)) ≡ h' ++ msg =
        ap (λ (x : List ℕ). h ++ x) (sym (append_assoc m tail q))
        ∙ sym (append_assoc h (m ++ tail) q)
        ∙ ap (λ (x : List ℕ). x ++ q) (sym p_is)
        ∙ split in
      let (same_h, same_rest) = append-inj h h' (m ++ (tail ++ q)) msg four all in
      let len : length m ≡ length msg =
        sym count ∙ ap le_word same_h ∙ le_word-le_bytes4 (length msg) short in
      (append-inj m msg (tail ++ q) [] len (same_rest ∙ sym (append-nil msg))).0

  -- Nothing is received from an empty stream.
  pub recv-silent : (s : S) → queued s ≡ [] → (recv_message link true s).0 ≡ none
  unfolding Frames
  recv-silent s empty = elim (Option-cases (recv_message link true s).0) [
    | inl e ↦ e
    | inr (m, e) ↦
        let (h, four, count, stood) = recv_message-Frames true s m e in
        let long = length-append h (m ++ queued (recv_message link true s).1) in
        let none_left : length (queued s) ≡ 0 = ap length empty in
        let same = ap length stood in absurd (omega (arith, long, none_left, same, four))
  ]
