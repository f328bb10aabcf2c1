-- ===== src/Ring/Wrap.antt =====
-- What happens at the wrap of the cursors when the capacity does not divide 2 ^ 32
-- (`PushRingEntry` and `PopRingEntry` of memrpc/src/core/session.cpp), which
-- `ValidateRingCursor` admits.
use native.Mathlib.Nat.{zero-mod, mul-mod_right, mod-lt, mod-eq-sub-mul-div, mul-div-le}
use mem.Prelude.{
  ℕ, ◌-◌, ◌/◌, ◌%◌, ◌≤◌, ◌<◌, ◌≡◌, ap, ◌∙◌, true, some, arith, length, u32_mod, get_elem?-set_self,
}
use mem.Types.{ok}
use mem.Ring.{Ring, max_ring_entries, ring_count, validate_ring_cursor, push_entry, pop_entry}

-- The last multiple of the capacity below 2 ^ 32 has slot 0.
last_multiple : (cap : ℕ) → (u32_mod - u32_mod % cap) % cap ≡ 0
last_multiple cap =
    ap (λ (k : ℕ). k % cap) (omega (arith, mod-eq-sub-mul-div u32_mod cap, mul-div-le u32_mod cap))
    ∙ mul-mod_right cap (u32_mod / cap)

module _ {ℓ} {E : Type ℓ} where
  -- A ring whose capacity does not divide 2 ^ 32, that the check of the cursor accepts, with its head
  -- at the last multiple of the capacity below 2 ^ 32 and its tail wrapped to 0: it counts
  -- `2 ^ 32 % capacity` waiting entries, a push is accepted, and the next pop returns the entry just
  -- pushed instead of the oldest one.
  pub wrap_overwrites :
      (r : Ring E) (x : E)
      → 0 < u32_mod % r.cursor.capacity
      → 0 < r.cursor.capacity
      → r.cursor.capacity ≤ max_ring_entries
      → r.cursor.capacity ≤ length r.entries
      → r.cursor.head ≡ u32_mod - u32_mod % r.cursor.capacity
      → r.cursor.tail ≡ 0
      → (validate_ring_cursor r.cursor r.cursor.capacity ≡ true)
        × (ring_count r.cursor ≡ u32_mod % r.cursor.capacity)
        × ((push_entry r x).0 ≡ ok)
        × ((pop_entry (push_entry r x).1).1 ≡ some x)
  unfolding ring_count validate_ring_cursor push_entry pop_entry
  wrap_overwrites r x loose pos lim room eh et =
      let below = mod-lt u32_mod {m = r.cursor.capacity} pos in
      (
        ground arith,
        omega arith,
        ground arith,
        ground (
          arith,
          zero-mod r.cursor.capacity,
          last_multiple r.cursor.capacity,
          get_elem?-set_self r.entries 0 x (omega arith),
        ),
      )
