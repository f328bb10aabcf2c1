-- ===== src/Ring/Queue.antt =====
-- What a ring promises: a first-in first-out queue of at most `capacity` entries. This is the
-- specification of `PushRingEntry` and `PopRingEntry` (memrpc/src/core/session.cpp).
use mem.Prelude.{
  ℕ, Bool, true, false, Option, none, some, List, [], ◌∷◌, ◌++◌, if◌then◌else◌, leb, length,
}
use mem.Types.{StatusCode, ok, queue_full}
use mem.Ring.{Ring, push_entry, pop_entry}

-- What a producer or a consumer asks of a ring, and what it is told.
pub data Op {ℓ} (E : Type ℓ) : Type ℓ where
  push : E → Op E
  pop : Op E

pub data Reply {ℓ} (E : Type ℓ) : Type ℓ where
  pushed : StatusCode → Reply E
  popped : Bool → Option E → Reply E

module _ {ℓ} {E : Type ℓ} where
  unfoldable pub enqueue : ℕ → List E → E → StatusCode × List E
  enqueue cap q x = if leb cap (length q) then (queue_full, q) else (ok, q ++ (x ∷ []))

  unfoldable pub dequeue : List E → Bool × Option E × List E
  dequeue [] = (false, none, [])
  dequeue (x ∷ q) = (true, some x, q)

  unfoldable pub run_queue : ℕ → List E → List (Op E) → List (Reply E)
  run_queue cap q [] = []
  run_queue cap q (push x ∷ ops) = let (s, q') = enqueue cap q x in pushed s ∷ run_queue cap q' ops
  run_queue cap q (pop ∷ ops) = let (b, out, q') = dequeue q in popped b out ∷ run_queue cap q' ops

  unfoldable pub run_ring : Ring E → List (Op E) → List (Reply E)
  run_ring r [] = []
  run_ring r (push x ∷ ops) = let (s, r') = push_entry r x in pushed s ∷ run_ring r' ops
  run_ring r (pop ∷ ops) = let (b, out, r') = pop_entry r in popped b out ∷ run_ring r' ops
