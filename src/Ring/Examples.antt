-- ===== src/Ring/Examples.antt =====
-- Rings on small inputs: the statements of `Ring.Refine` and `Ring.Wrap` where they apply.
use native.Mathlib.Nat.{dvd_of_mod-eq-zero}
use mem.Types.{ok, queue_full}
use mem.Ring.{Ring, ring_count, validate_ring_cursor, push_entry, pop_entry}
use mem.Ring.Queue.{Op, push, pop, pushed, popped, run_ring, run_queue}
use mem.Ring.Refine.{Represents, run_refines}
use mem.Ring.Concurrent.{
  State, p_loaded, c_idle, Steps, start, next, push_loads, push_writes, push_publishes, pop_loads,
  pop_is_empty, pop_copies, pop_publishes, at_rest,
}
use mem.Ring.Concurrent.Fifo.{concurrent_fifo}
use mem.Ring.Wrap.{wrap_overwrites}
use mem.Prelude.{◌++◌, ℕ, ◌≡◌, refl, true, false, some, none, [], ◌∷◌, arith, List}

-- One entry, in the last slot before the wrap.
abbrev near_wrap : Ring ℕ
near_wrap = record {
  cursor = record { head = 4294967295; tail = 0; capacity = 2; reserved = 0 };
  entries = 5 ∷ 7 ∷ [];
}

abbrev calls : List (Op ℕ)
calls = push 8 ∷ push 9 ∷ pop ∷ pop ∷ pop ∷ []

near_wrap-Represents : Represents near_wrap (7 ∷ [])
near_wrap-Represents = record {
  valid = record {
    positive = omega arith;
    limited = omega arith;
    storage = omega arith;
    head_u32 = omega arith;
    tail_u32 = omega arith;
    divides = dvd_of_mod-eq-zero 2 refl;
  };
  count = refl;
  bounded = omega arith;
  holds = (refl, tt);
}

run_calls :
    run_ring near_wrap calls
    ≡ pushed ok
      ∷ pushed queue_full
      ∷ popped true (some 7)
      ∷ popped true (some 8)
      ∷ popped false none
      ∷ []
unfolding run_ring push_entry pop_entry
run_calls = refl

run_refines_example : run_ring near_wrap calls ≡ run_queue 2 (7 ∷ []) calls
run_refines_example = run_refines calls near_wrap-Represents

-- A ring of three slots that holds one entry, 5, across the wrap.
abbrev three_slots : Ring ℕ
three_slots = record {
  cursor = record { head = 4294967295; tail = 0; capacity = 3; reserved = 0 };
  entries = 5 ∷ 6 ∷ 7 ∷ [];
}

wrap_overwrites_example :
    (validate_ring_cursor three_slots.cursor 3 ≡ true)
    × (ring_count three_slots.cursor ≡ 1)
    × ((push_entry three_slots 9).0 ≡ ok)
    × ((pop_entry (push_entry three_slots 9).1).1 ≡ some 9)
wrap_overwrites_example =
    wrap_overwrites three_slots 9 (omega arith) (omega arith) (omega arith) (omega arith) refl refl

-- The same ring with nothing in it.
abbrev empty_ring : Ring ℕ
empty_ring = record {
  cursor = record { head = 4294967295; tail = 4294967295; capacity = 2; reserved = 0 };
  entries = 5 ∷ 7 ∷ [];
}

empty_ring-Represents : Represents empty_ring []
empty_ring-Represents = record {
  valid = record {
    positive = omega arith;
    limited = omega arith;
    storage = omega arith;
    head_u32 = omega arith;
    tail_u32 = omega arith;
    divides = dvd_of_mod-eq-zero 2 refl;
  };
  count = refl;
  bounded = omega arith;
  holds = tt;
}

-- A pop that begins while a push writes, and ends after it; the entry goes over the wrap.
abbrev interleaved : State ℕ
interleaved = record {
  ring = record {
    cursor = record { head = 0; tail = 0; capacity = 2; reserved = 0 };
    entries = 5 ∷ 8 ∷ [];
  };
  producer = p_loaded 4294967295 0 9;
  consumer = c_idle;
  sent = 8 ∷ [];
  received = 8 ∷ [];
}

interleaved-Steps : Steps (at_rest empty_ring) interleaved
interleaved-Steps =
    next
      (next
        (next
          (next
            (next
              (next
                (next (next (next start (push_loads 8 refl)) (pop_loads refl))
                  (push_writes 4294967295 4294967295 8 refl (omega arith)))
                (pop_is_empty 4294967295 4294967295 refl refl))
              (push_publishes 4294967295 8 refl))
            (pop_loads refl))
          (pop_copies 0 4294967295 8 refl (omega arith) refl))
        (push_loads 9 refl))
      (pop_publishes 4294967295 8 refl)

concurrent_fifo_example :
    (q : List ℕ) × (interleaved.sent ≡ interleaved.received ++ q) × Represents interleaved.ring q
concurrent_fifo_example =
    concurrent_fifo empty_ring interleaved empty_ring-Represents interleaved-Steps
