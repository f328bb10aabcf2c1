-- ===== src/Ring/Refine.antt =====
-- A ring whose capacity divides 2 ^ 32 behaves as the bounded queue of the entries that it holds:
-- `PushRingEntry` and `PopRingEntry` of memrpc/src/core/session.cpp against `Ring.Queue`.
use Prim.Native.Nat.{◌∣◌}
use mem.Prelude.{
  ℕ, sym, ◌+◌, ◌%◌, ◌≤◌, ◌<◌, ◌≡◌, refl, inl, inr, ap, ◌∙◌, List, [], ◌∷◌, ◌++◌, arith, length,
  sub32, u32_mod, leb, Bool-cases, eq→==, ne→==, length-append, length-set,
}
use mem.Ring.{Ring, ring_count, max_ring_entries, push_slot, push_entry, pop_entry}
use mem.Ring.Queue.{Op, push, pop, enqueue, dequeue, run_queue, run_ring}
use mem.Ring.Window.{Holds, wrap-mod, Holds-set, Holds-total}

-- What `ValidateRingCursor` and the layout guarantee, and that the capacity divides 2 ^ 32.
pub record IsValid {ℓ} {E : Type ℓ} (r : Ring E) : Type ℓ where
  pub positive : 0 < r.cursor.capacity
  pub limited : r.cursor.capacity ≤ max_ring_entries
  pub storage : r.cursor.capacity ≤ length r.entries
  pub head_u32 : r.cursor.head < u32_mod
  pub tail_u32 : r.cursor.tail < u32_mod
  pub divides : r.cursor.capacity ∣ u32_mod

-- The ring holds the queue: as many entries as between its cursors, in the slots from the head on.
pub record Represents {ℓ} {E : Type ℓ} (r : Ring E) (q : List E) : Type ℓ where
  pub valid : IsValid r
  pub count : sub32 r.cursor.tail r.cursor.head ≡ length q
  pub bounded : length q ≤ r.cursor.capacity
  pub holds : Holds r.cursor.capacity r.entries r.cursor.head q

module _ {ℓ} {E : Type ℓ} where
  pub tail_slot :
      {r : Ring E} {q : List E}
      → Represents r q
      → r.cursor.tail % r.cursor.capacity ≡ (r.cursor.head + length q) % r.cursor.capacity
  tail_slot {r} {q} p =
      ap (λ (k : ℕ). k % r.cursor.capacity) (omega arith)
      ∙ wrap-mod r.cursor.capacity p.valid.divides (r.cursor.head + length q)

  slot_Represents :
      {r : Ring E} {q : List E} (x : E)
      → Represents r q
      → length q < r.cursor.capacity
      → Represents (push_slot r x) (q ++ (x ∷ []))
  unfolding push_slot
  slot_Represents {r} {q} x p room = record {
    valid = record {
      positive = p.valid.positive;
      limited = p.valid.limited;
      storage = omega (arith, length-set {ℓ} r.entries (r.cursor.tail % r.cursor.capacity) x);
      head_u32 = p.valid.head_u32;
      tail_u32 = omega arith;
      divides = p.valid.divides;
    };
    count = omega (arith, length-append {ℓ} q (x ∷ []));
    bounded = omega (arith, length-append {ℓ} q (x ∷ []));
    holds =
        Holds-set r.cursor.capacity p.valid.divides r.entries q x r.cursor.head
          (r.cursor.tail % r.cursor.capacity) p.valid.storage room (tail_slot p) p.holds;
  }

  pub push-Represents :
      {r : Ring E} {q : List E} (x : E)
      → Represents r q
      → ((push_entry r x).0 ≡ (enqueue r.cursor.capacity q x).0)
        × Represents (push_entry r x).1 (enqueue r.cursor.capacity q x).1
  unfolding push_entry enqueue
  push-Represents {r} {q} x p = elim (Bool-cases (leb r.cursor.capacity (length q))) [
    | inl full ↦ rw (p.count, full) (refl, p)
    | inr room ↦ rw (p.count, room) (refl, slot_Represents x p (ground arith))
  ]

  pub pop-Represents :
      {r : Ring E} {q : List E}
      → Represents r q
      → ((pop_entry r).0 ≡ (dequeue q).0)
        × ((pop_entry r).1 ≡ (dequeue q).1)
        × Represents (pop_entry r).2 (dequeue q).2
  unfolding pop_entry dequeue
  pop-Represents {r} {q = []} p =
      rw (eq→== {a = r.cursor.tail} {b = r.cursor.head} (omega arith)) (refl, refl, p)
  pop-Represents {r} {q = x ∷ q} p =
      rw (ne→== {a = r.cursor.tail} {b = r.cursor.head} (omega arith)) (
        refl,
        p.holds.0,
        record {
          valid = record {
            positive = p.valid.positive;
            limited = p.valid.limited;
            storage = p.valid.storage;
            head_u32 = omega arith;
            tail_u32 = p.valid.tail_u32;
            divides = p.valid.divides;
          };
          count = omega arith;
          bounded = omega arith;
          holds = p.holds.1;
        },
      )

  -- A valid ring that is not over-full holds some queue.
  pub Represents-total :
      (r : Ring E)
      → IsValid r
      → ring_count r.cursor ≤ r.cursor.capacity
      → (q : List E) × Represents r q
  unfolding ring_count
  Represents-total r v fits =
      let (q, len, hs) =
        Holds-total r.cursor.capacity v.divides r.entries r.cursor.head
          (sub32 r.cursor.tail r.cursor.head) v.positive v.storage in
      (q, record { valid = v; count = sym len; bounded = omega arith; holds = hs })

  cap-push : (r : Ring E) (x : E) → (push_entry r x).1.cursor.capacity ≡ r.cursor.capacity
  unfolding push_entry
  cap-push r x = ground arith

  cap-pop : (r : Ring E) → (pop_entry r).2.cursor.capacity ≡ r.cursor.capacity
  unfolding pop_entry
  cap-pop r = ground arith

  -- A sequence of pushes and pops on a ring that holds the queue `q`, its capacity a divisor of
  -- 2 ^ 32, is told at each call exactly what the bounded queue answers from `q` on: the status of
  -- each push, and the result and the entry of each pop. The cursors may wrap on the way.
  pub run_refines :
      (ops : List (Op E)) {r : Ring E} {q : List E}
      → Represents r q
      → run_ring r ops ≡ run_queue r.cursor.capacity q ops
  unfolding run_ring run_queue
  run_refines [] p = refl
  run_refines (push x ∷ ops) {r} {q} p =
      let (s, p') = push-Represents x p in rw (run_refines ops p', s, cap-push r x)
  run_refines (pop ∷ ops) {r} {q} p =
      let (b, out, p') = pop-Represents p in rw (run_refines ops p', b, out, cap-pop r)
