-- ===== src/Ring/Concurrent/Fifo.antt =====
-- However the steps of one producer and one consumer interleave, the ring is a queue (`PushRingEntry`
-- and `PopRingEntry`, memrpc/src/core/session.cpp).
use mathlib.Core.List.{append_assoc}
use mem.Types.{ok}
use mem.Prelude.{
  leb, Bool-cases, inl, inr, sub32, ℕ, ◌%◌, ◌<◌, ◌≡◌, ◌≢◌, refl, sym, ap, ◌∙◌, some, List, [], ◌∷◌,
  ◌++◌, arith, length, sub32, add32, get_elem?,
}
use mem.Ring.{push_entry, push_slot, Ring}
use mem.Ring.Refine.{Represents}
use mem.Ring.Concurrent.{
  p_loaded, p_written, c_idle, c_loaded, c_copied, State, Step, Steps, start, next, push_loads,
  push_is_full, push_writes, push_publishes, pop_loads, pop_is_empty, pop_copies, pop_publishes,
  write_slot, publish_head, at_rest,
}
use mem.Ring.Concurrent.Invariant.{
  ProducerOk, ConsumerOk, Invariant, producer_at, consumer_at, writes-Holds, writes-Represents,
  tail-Represents, head-Represents, grown-ConsumerOk, shrunk-ProducerOk,
}

module _ {E : Type 0} where
  some-injective : {x y : E} → some x ≡ some y → x ≡ y
  some-injective = cc

  cons-head : {x y : E} {xs ys : List E} → x ∷ xs ≡ y ∷ ys → x ≡ y
  cons-head = cc

  nil-cons : {y : E} {ys : List E} → [] ≡ y ∷ ys → ⊥
  nil-cons = cc

  -- The entry that the consumer copies is the first of the queue.
  copied-head :
      (r : Ring E) (q : List E) (t h : ℕ) (x : E)
      → Represents r q
      → ConsumerOk r.cursor q (c_loaded t h)
      → t ≢ h
      → get_elem? r.entries (h % r.cursor.capacity) ≡ some x
      → ConsumerOk r.cursor q (c_copied h x)
  copied-head r [] t h x p known ne at =
      absurd (omega (arith, known.0, known.1, known.2, ne, p.valid.head_u32))
  copied-head r (y ∷ q) t h x p known ne at =
      let same : get_elem? r.entries (h % r.cursor.capacity) ≡ some y =
        ap (λ (n : ℕ). get_elem? r.entries (n % r.cursor.capacity)) known.0 ∙ p.holds.0 in
      (known.0, (q, ap (λ (z : E). z ∷ q) (some-injective (sym same ∙ at))))

  popped-Invariant :
      (s : State E) (h : ℕ) (x : E) (q : List E)
      → s.sent ≡ s.received ++ q
      → Represents s.ring q
      → ProducerOk s.ring q s.producer
      → ConsumerOk s.ring.cursor q (c_copied h x)
      → Invariant (record s {
        ring = publish_head s.ring (add32 h 1);
        consumer = c_idle;
        received = s.received ++ (x ∷ []);
      })
  popped-Invariant s h x [] order p known copied = absurd (nil-cons copied.1.1)
  popped-Invariant s h x (y ∷ q) order p known copied = record {
    queue = q;
    order =
        order
        ∙ ap (λ (z : E). s.received ++ (z ∷ q)) (cons-head copied.1.1)
        ∙ sym (append_assoc s.received (x ∷ []) q);
    represents = head-Represents s.ring q h y p copied.0;
    producer_ok = shrunk-ProducerOk s.ring h q y s.producer copied.0 known;
    consumer_ok = tt;
  }

  written-ProducerOk :
      (r : Ring E) (q : List E) (h t : ℕ) (x : E)
      → Represents r q
      → ProducerOk r q (p_loaded h t x)
      → sub32 t h < r.cursor.capacity
      → ProducerOk (write_slot r t x) q (p_written t x)
  written-ProducerOk r q h t x p known room =
      let small : length q < r.cursor.capacity = omega (arith, known.1.1) in
      (known.0, small, writes-Holds r q t x p known.0 small)

  Step-Invariant : (s : State E) {t : State E} → Step s t → Invariant s → Invariant t
  Step-Invariant s (push_loads x e) i = record {
    queue = i.queue;
    order = i.order;
    represents = i.represents;
    producer_ok =
        (refl, (0, omega (arith, i.represents.count), omega (arith, i.represents.bounded)));
    consumer_ok = i.consumer_ok;
  }
  Step-Invariant s (push_is_full h t x e full) i = record {
    queue = i.queue;
    order = i.order;
    represents = i.represents;
    producer_ok = tt;
    consumer_ok = i.consumer_ok;
  }
  Step-Invariant s (push_writes h t x e room) i =
      let known = producer_at s i e in
      record {
        queue = i.queue;
        order = i.order;
        represents =
            writes-Represents s.ring i.queue t x i.represents known.0 (omega (arith, known.1.1));
        producer_ok = written-ProducerOk s.ring i.queue h t x i.represents known room;
        consumer_ok = i.consumer_ok;
      }
  Step-Invariant s (push_publishes t x e) i =
      let known = producer_at s i e in
      record {
        queue = i.queue ++ (x ∷ []);
        order =
            ap (λ (l : List E). l ++ (x ∷ [])) i.order ∙ append_assoc s.received i.queue (x ∷ []);
        represents = tail-Represents s.ring i.queue t x i.represents known.0 known.1 known.2;
        producer_ok = tt;
        consumer_ok = grown-ConsumerOk s.ring.cursor (add32 t 1) i.queue x s.consumer i.consumer_ok;
      }
  Step-Invariant s (pop_loads e) i = record {
    queue = i.queue;
    order = i.order;
    represents = i.represents;
    producer_ok = i.producer_ok;
    consumer_ok = (refl, i.represents.valid.tail_u32, omega (arith, i.represents.count));
  }
  Step-Invariant s (pop_is_empty t h e empty) i = record {
    queue = i.queue;
    order = i.order;
    represents = i.represents;
    producer_ok = i.producer_ok;
    consumer_ok = tt;
  }
  Step-Invariant s (pop_copies t h x e ne at) i = record {
    queue = i.queue;
    order = i.order;
    represents = i.represents;
    producer_ok = i.producer_ok;
    consumer_ok = copied-head s.ring i.queue t h x i.represents (consumer_at s i e) ne at;
  }
  Step-Invariant s (pop_publishes h x e) i =
      popped-Invariant s h x i.queue i.order i.represents i.producer_ok (consumer_at s i e)

  Steps-Invariant : (s : State E) {t : State E} → Steps s t → Invariant s → Invariant t
  Steps-Invariant s start i = i
  Steps-Invariant s (next before step) i = Step-Invariant _ step (Steps-Invariant s before i)

  -- One producer and one consumer start on an empty valid ring whose capacity divides 2 ^ 32. Whatever
  -- steps of their calls have been taken, in whatever order, what was received is what was sent, in its
  -- order, less the queue that the ring then holds, which is never longer than the capacity.
  pub concurrent_fifo :
      (r : Ring E) (s : State E)
      → Represents r []
      → Steps (at_rest r) s
      → (q : List E) × (s.sent ≡ s.received ++ q) × Represents s.ring q
  concurrent_fifo r s empty steps =
      let i = Steps-Invariant (at_rest r) steps (record {
        queue = [];
        order = refl;
        represents = empty;
        producer_ok = tt;
        consumer_ok = tt;
      }) in
      (i.queue, i.order, i.represents)

  -- A push that nothing interrupts is the three steps of the producer.
  pub push-Steps :
      (r : Ring E) (x : E)
      → (push_entry r x).0 ≡ ok
      → Steps (at_rest r) (record (at_rest (push_entry r x).1) { sent = x ∷ [] })
  unfolding push_entry push_slot
  push-Steps r x e = elim (Bool-cases (leb r.cursor.capacity (sub32 r.cursor.tail r.cursor.head))) [
    | inl full ↦ absurd (ground (arith, full, e))
    | inr room ↦ rw room (
        next
          (next (next start (push_loads x refl))
            (push_writes r.cursor.head r.cursor.tail x refl (ground (arith, room))))
          (push_publishes r.cursor.tail x refl))
  ]
