-- ===== src/Ring/Concurrent/Invariant.antt =====
-- What holds between any two steps of the producer and the consumer of a ring (`PushRingEntry` and
-- `PopRingEntry`, memrpc/src/core/session.cpp).
use mathlib.Core.Path.{subst}
use mem.Prelude.{
  ℕ, suc, ◌+◌, ◌%◌, ◌≤◌, ◌<◌, ◌≡◌, sym, ap, ◌∙◌, List, [], ◌∷◌, ◌++◌, arith, length, sub32, add32,
  u32_mod, length-append, length-set,
}
use mem.Ring.{Ring, RingCursor}
use mem.Ring.Window.{Holds, Holds-set}
use mem.Ring.Refine.{Represents, tail_slot}
use mem.Ring.Concurrent.{
  Producer, p_idle, p_loaded, p_written, Consumer, c_idle, c_loaded, c_copied, State, write_slot,
  publish_tail, publish_head,
}

module _ {E : Type 0} where
  -- What the producer knows: its tail is the ring's, and the head that it read is behind the ring's by
  -- the entries that were popped meanwhile. Once it has written, its entry stands behind the queue.
  abbrev pub ProducerOk : Ring E → List E → Producer E → Type 0
  ProducerOk r q p_idle = Unit
  ProducerOk r q (p_loaded h t x) =
      (t ≡ r.cursor.tail)
      × ((k : ℕ) × (sub32 t h ≡ length q + k) × (length q + k ≤ r.cursor.capacity))
  ProducerOk r q (p_written t x) =
      (t ≡ r.cursor.tail)
      × (length q < r.cursor.capacity)
      × Holds r.cursor.capacity r.entries r.cursor.head (q ++ (x ∷ []))

  -- What the consumer knows: its head is the ring's, and at least the entries up to the tail that it
  -- read are there. Once it has copied, its entry is the first of the queue.
  abbrev pub ConsumerOk : RingCursor → List E → Consumer E → Type 0
  ConsumerOk c q c_idle = Unit
  ConsumerOk c q (c_loaded t h) = (h ≡ c.head) × (t < u32_mod) × (sub32 t h ≤ length q)
  ConsumerOk c q (c_copied h x) = (h ≡ c.head) × ((q' : List E) × (q ≡ x ∷ q'))

  pub record Invariant (s : State E) : Type 0 where
    pub queue : List E
    pub order : s.sent ≡ s.received ++ queue
    pub represents : Represents s.ring queue
    pub producer_ok : ProducerOk s.ring queue s.producer
    pub consumer_ok : ConsumerOk s.ring.cursor queue s.consumer

  Holds-prefix :
      (cap : ℕ) (slots : List E) (h : ℕ) (q rest : List E)
      → Holds cap slots h (q ++ rest)
      → Holds cap slots h q
  Holds-prefix cap slots h [] rest hs = tt
  Holds-prefix cap slots h (x ∷ q) rest hs = (hs.0, Holds-prefix cap slots (add32 h 1) q rest hs.1)

  pub producer_at :
      (s : State E) (i : Invariant s) {p : Producer E}
      → s.producer ≡ p
      → ProducerOk s.ring i.queue p
  producer_at s i e = subst (ProducerOk s.ring i.queue) e i.producer_ok

  pub consumer_at :
      (s : State E) (i : Invariant s) {c : Consumer E}
      → s.consumer ≡ c
      → ConsumerOk s.ring.cursor i.queue c
  consumer_at s i e = subst (ConsumerOk s.ring.cursor i.queue) e i.consumer_ok

  -- The slot that the producer writes is none of the queue's.
  pub writes-Holds :
      (r : Ring E) (q : List E) (t : ℕ) (x : E)
      → Represents r q
      → t ≡ r.cursor.tail
      → length q < r.cursor.capacity
      → Holds r.cursor.capacity (write_slot r t x).entries r.cursor.head (q ++ (x ∷ []))
  writes-Holds r q t x p e room =
      Holds-set r.cursor.capacity p.valid.divides r.entries q x r.cursor.head
        (t % r.cursor.capacity) p.valid.storage room
        (ap (λ (n : ℕ). n % r.cursor.capacity) e ∙ tail_slot p) p.holds

  pub writes-Represents :
      (r : Ring E) (q : List E) (t : ℕ) (x : E)
      → Represents r q
      → t ≡ r.cursor.tail
      → length q < r.cursor.capacity
      → Represents (write_slot r t x) q
  writes-Represents r q t x p e room = record {
    valid = record {
      positive = p.valid.positive;
      limited = p.valid.limited;
      storage = omega (arith, length-set r.entries (t % r.cursor.capacity) x);
      head_u32 = p.valid.head_u32;
      tail_u32 = p.valid.tail_u32;
      divides = p.valid.divides;
    };
    count = p.count;
    bounded = p.bounded;
    holds =
        Holds-prefix r.cursor.capacity (write_slot r t x).entries r.cursor.head q (x ∷ [])
          (writes-Holds r q t x p e room);
  }

  pub tail-Represents :
      (r : Ring E) (q : List E) (t : ℕ) (x : E)
      → Represents r q
      → t ≡ r.cursor.tail
      → length q < r.cursor.capacity
      → Holds r.cursor.capacity r.entries r.cursor.head (q ++ (x ∷ []))
      → Represents (publish_tail r (add32 t 1)) (q ++ (x ∷ []))
  tail-Represents r q t x p e room holds = record {
    valid = record {
      positive = p.valid.positive;
      limited = p.valid.limited;
      storage = p.valid.storage;
      head_u32 = p.valid.head_u32;
      tail_u32 = omega arith;
      divides = p.valid.divides;
    };
    count = omega (arith, length-append q (x ∷ []));
    bounded = omega (arith, length-append q (x ∷ []));
    holds = holds;
  }

  pub head-Represents :
      (r : Ring E) (q : List E) (h : ℕ) (x : E)
      → Represents r (x ∷ q)
      → h ≡ r.cursor.head
      → Represents (publish_head r (add32 h 1)) q
  head-Represents r q h x p e = record {
    valid = record {
      positive = p.valid.positive;
      limited = p.valid.limited;
      storage = p.valid.storage;
      head_u32 = omega arith;
      tail_u32 = p.valid.tail_u32;
      divides = p.valid.divides;
    };
    count = omega arith;
    bounded = omega arith;
    holds = subst (λ (n : ℕ). Holds r.cursor.capacity r.entries (add32 n 1) q) (sym e) p.holds.1;
  }

  -- A push leaves the consumer's knowledge, and a pop the producer's.
  pub grown-ConsumerOk :
      (c : RingCursor) (t : ℕ) (q : List E) (x : E) (consumer : Consumer E)
      → ConsumerOk c q consumer
      → ConsumerOk (record c { tail = t }) (q ++ (x ∷ [])) consumer
  grown-ConsumerOk c t q x c_idle known = tt
  grown-ConsumerOk c t q x (c_loaded t' h) known =
      (known.0, known.1, omega (arith, length-append q (x ∷ []), known.2))
  grown-ConsumerOk c t q x (c_copied h y) known =
      (known.0, (known.1.0 ++ (x ∷ []), ap (λ (l : List E). l ++ (x ∷ [])) known.1.1))

  pub shrunk-ProducerOk :
      (r : Ring E) (h : ℕ) (q : List E) (x : E) (producer : Producer E)
      → h ≡ r.cursor.head
      → ProducerOk r (x ∷ q) producer
      → ProducerOk (publish_head r (add32 h 1)) q producer
  shrunk-ProducerOk r h q x p_idle e known = tt
  shrunk-ProducerOk r h q x (p_loaded h' t y) e known =
      (known.0, (suc known.1.0, omega (arith, known.1.1), omega (arith, known.1.2)))
  shrunk-ProducerOk r h q x (p_written t y) e known = (
    known.0,
    omega (arith, known.1),
    subst (λ (n : ℕ). Holds r.cursor.capacity r.entries (add32 n 1) (q ++ (y ∷ []))) (sym e)
        known.2.1,
  )
