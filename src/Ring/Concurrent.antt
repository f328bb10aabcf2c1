-- ===== src/Ring/Concurrent.antt =====
-- One producer in `PushRingEntry` and one consumer in `PopRingEntry` (memrpc/src/core/session.cpp) at
-- the same time: the steps between which the other side may run. A step has one access at most to
-- what the other side writes, and the steps of a run are taken in one order that both sides see.
pub mod Invariant
pub mod Fifo
use mem.Prelude.{
  ℕ, ◌%◌, ◌≤◌, ◌<◌, ◌≡◌, ◌≢◌, some, List, [], ◌∷◌, ◌++◌, sub32, add32, get_elem?, set,
}
use mem.Ring.{Ring, RingCursor}

-- Where the producer stands: it has read the head and its own tail for an entry, or it has written the
-- slot and not yet published the tail.
pub data Producer {ℓ} (E : Type ℓ) : Type ℓ where
  p_idle : Producer E
  p_loaded : ℕ → ℕ → E → Producer E
  p_written : ℕ → E → Producer E

-- Where the consumer stands: it has read the tail and its own head, or it has copied the slot and not
-- yet published the head.
pub data Consumer {ℓ} (E : Type ℓ) : Type ℓ where
  c_idle : Consumer E
  c_loaded : ℕ → ℕ → Consumer E
  c_copied : ℕ → E → Consumer E

-- `sent` lists the entries whose push was answered with `Ok`, `received` those that pops returned.
pub record State {ℓ} (E : Type ℓ) : Type ℓ where
  pub ring : Ring E
  pub producer : Producer E
  pub consumer : Consumer E
  pub sent : List E
  pub received : List E

module _ {ℓ} {E : Type ℓ} where
  abbrev pub write_slot : Ring E → ℕ → E → Ring E
  write_slot r t x = record r { entries = set r.entries (t % r.cursor.capacity) x }

  abbrev pub publish_tail : Ring E → ℕ → Ring E
  publish_tail r t = record r { cursor = record (r.cursor) { tail = t } }

  abbrev pub publish_head : Ring E → ℕ → Ring E
  publish_head r h = record r { cursor = record (r.cursor) { head = h } }

-- One step of either side.
pub data Step {ℓ} {E : Type ℓ} (s : State E) : State E → Type ℓ where
  push_loads :
      (x : E)
      → s.producer ≡ p_idle
      → Step s (record s { producer = p_loaded s.ring.cursor.head s.ring.cursor.tail x })
  push_is_full :
      (h t : ℕ) (x : E)
      → s.producer ≡ p_loaded h t x
      → s.ring.cursor.capacity ≤ sub32 t h
      → Step s (record s { producer = p_idle })
  push_writes :
      (h t : ℕ) (x : E)
      → s.producer ≡ p_loaded h t x
      → sub32 t h < s.ring.cursor.capacity
      → Step s (record s { ring = write_slot s.ring t x; producer = p_written t x })
  push_publishes :
      (t : ℕ) (x : E)
      → s.producer ≡ p_written t x
      → Step s (record s {
        ring = publish_tail s.ring (add32 t 1);
        producer = p_idle;
        sent = s.sent ++ (x ∷ []);
      })
  pop_loads :
      s.consumer ≡ c_idle
      → Step s (record s { consumer = c_loaded s.ring.cursor.tail s.ring.cursor.head })
  pop_is_empty :
      (t h : ℕ) → s.consumer ≡ c_loaded t h → t ≡ h → Step s (record s { consumer = c_idle })
  pop_copies :
      (t h : ℕ) (x : E)
      → s.consumer ≡ c_loaded t h
      → t ≢ h
      → get_elem? s.ring.entries (h % s.ring.cursor.capacity) ≡ some x
      → Step s (record s { consumer = c_copied h x })
  pop_publishes :
      (h : ℕ) (x : E)
      → s.consumer ≡ c_copied h x
      → Step s (record s {
        ring = publish_head s.ring (add32 h 1);
        consumer = c_idle;
        received = s.received ++ (x ∷ []);
      })

-- Any number of steps, of the two sides in any order.
pub data Steps {ℓ} {E : Type ℓ} (s : State E) : State E → Type ℓ where
  start : Steps s s
  next : {t u : State E} → Steps s t → Step t u → Steps s u

-- Neither side is in a call.
abbrev pub at_rest {ℓ} : {E : Type ℓ} → Ring E → State E
at_rest r = record { ring = r; producer = p_idle; consumer = c_idle; sent = []; received = [] }
