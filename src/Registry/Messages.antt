-- ===== src/Registry/Messages.antt =====
-- `SendMessage` and `RecvMessage` of virus_executor_service/src/transport/registry_protocol.cpp, over one
-- direction of a stream socket.
use mem.Prelude.{
  ℕ, zero, suc, ◌-◌, Bool, true, false, not, ◌||◌, Option, none, some, List, [], ◌∷◌, ◌++◌,
  if◌then◌else◌, ◌==◌, ltb, length, drop, to_u32,
}
use mem.Codec.{le_bytes, le_word}

-- The calls on the socket, on its state. `send` answers how many bytes it took, and `recv` which bytes
-- it gave, `none` for a negative result. `recv` is told whether to wait for all bytes.
pub record Link (S : Type 0) : Type 0 where
  pub send : List ℕ → S → Option ℕ × S
  pub recv : Bool → ℕ → S → Option (List ℕ) × S

abbrev pub max_message_bytes : ℕ
max_message_bytes = 65536

module _ {S : Type 0} (link : Link S) where
  abbrev pub after_send : List ℕ → (List ℕ → S → Bool × S) → Option ℕ × S → Bool × S
  after_send left next (none, s) = (false, s)
  after_send left next (some n, s) =
      let rest = next (drop n left) s in if n == 0 then (false, s) else rest

  -- A send takes a byte at least, so as many rounds as there are bytes are enough.
  abbrev pub send_rest : ℕ → List ℕ → S → Bool × S
  send_rest rounds [] s = (true, s)
  send_rest zero (x ∷ left) s = (false, s)
  send_rest (suc rounds) (x ∷ left) s =
      after_send (x ∷ left) (send_rest rounds) (link.send (x ∷ left) s)

  abbrev pub after_prefix : List ℕ → Option ℕ × S → Bool × S
  after_prefix msg (none, s) = (false, s)
  after_prefix msg (some n, s) =
      let rest = send_rest (length msg) msg s in if n == 4 then rest else (false, s)

  unfoldable pub send_message : List ℕ → S → Bool × S
  send_message msg s = after_prefix msg (link.send (le_bytes 4 (to_u32 (length msg))) s)

  abbrev pub after_recv :
      ℕ
      → List ℕ
      → (ℕ → List ℕ → S → Option (List ℕ) × S)
      → Option (List ℕ) × S
      → Option (List ℕ) × S
  after_recv left got next (none, s) = (none, s)
  after_recv left got next (some [], s) = (none, s)
  after_recv left got next (some (x ∷ bytes), s) =
      next (left - length (x ∷ bytes)) (got ++ (x ∷ bytes)) s

  -- A receive gives a byte at least, so as many rounds as there are bytes are enough.
  abbrev pub recv_rest : ℕ → ℕ → List ℕ → S → Option (List ℕ) × S
  recv_rest rounds zero got s = (some got, s)
  recv_rest zero (suc left) got s = (none, s)
  recv_rest (suc rounds) (suc left) got s =
      after_recv (suc left) got (recv_rest rounds) (link.recv false (suc left) s)

  abbrev pub after_length : Option (List ℕ) × S → Option (List ℕ) × S
  after_length (none, s) = (none, s)
  after_length (some bytes, s) =
      let len = le_word bytes in
      let body = recv_rest len len [] s in
      if not (length bytes == 4) || ltb max_message_bytes len then (none, s) else body

  -- `has_msg` says that the pointer to write through is not null.
  unfoldable pub recv_message : Bool → S → Option (List ℕ) × S
  recv_message has_msg s = if has_msg then after_length (link.recv true 4 s) else (none, s)
