-- ===== src/Ring.antt =====
-- The single-producer single-consumer rings: `RingCursor` and `RingCount` of
-- memrpc/src/core/shm_layout.h, `ValidateRingCursor`, `PushRingEntry` and `PopRingEntry` of
-- memrpc/src/core/session.cpp. The cursors are `uint32_t` and wrap at 2 ^ 32.
pub mod Queue
pub mod Window
pub mod Refine
pub mod Wrap
pub mod Concurrent
mod Examples
use mem.Prelude.{
  ℕ, ◌%◌, ◌^◌, Bool, true, false, Option, none, some, List, ◌||◌, if◌then◌else◌, ltb, leb, ◌==◌,
  not, sub32, add32, get_elem?, set,
}
use mem.Types.{StatusCode, ok, queue_full, engine_internal_error}

-- `struct RingCursor`
pub record RingCursor : Type 0 where
  pub head : ℕ
  pub tail : ℕ
  pub capacity : ℕ
  pub reserved : ℕ

-- What a `Session::RingAccess` points to: the cursor, and the slots behind it.
pub record Ring {ℓ} (E : Type ℓ) : Type ℓ where
  pub cursor : RingCursor
  pub entries : List E

abbrev pub max_ring_entries : ℕ
max_ring_entries = 2 ^ 20

unfoldable pub ring_count : RingCursor → ℕ
ring_count c = sub32 c.tail c.head

unfoldable pub validate_ring_cursor : RingCursor → ℕ → Bool
unfolding ring_count
validate_ring_cursor c expected =
    if expected == 0 || ltb max_ring_entries expected
    then false
    else if not (c.capacity == expected)
    then false
    else leb (ring_count c) expected

module _ {ℓ} {E : Type ℓ} where
  abbrev with_cursor : Ring E → RingCursor → Ring E
  with_cursor r c = record { cursor = c; entries = r.entries }

  push_slot : Ring E → E → Ring E
  push_slot r entry = record {
    cursor = record (r.cursor) { tail = add32 r.cursor.tail 1 };
    entries = set r.entries (r.cursor.tail % r.cursor.capacity) entry;
  }

  -- On the pointed-to ring. A full ring is left as it is.
  unfoldable pub push_entry : Ring E → E → StatusCode × Ring E
  unfolding push_slot
  push_entry r entry =
      if leb r.cursor.capacity (sub32 r.cursor.tail r.cursor.head)
      then (queue_full, r)
      else (ok, push_slot r entry)

  -- The Boolean is the function's result and the option is what goes through `entry`: `none` beside
  -- `true` would be a read outside the storage.
  unfoldable pub pop_entry : Ring E → Bool × Option E × Ring E
  pop_entry r = if r.cursor.tail == r.cursor.head then (false, none, r) else (
    true,
    get_elem? r.entries (r.cursor.head % r.cursor.capacity),
    with_cursor r (record (r.cursor) { head = add32 r.cursor.head 1 }),
  )

  -- `PushRingEntry`, whose access may hold null pointers.
  unfoldable pub push_ring_entry : Option (Ring E) → E → StatusCode × Option (Ring E)
  unfolding push_entry
  push_ring_entry none entry = (engine_internal_error, none)
  push_ring_entry (some r) entry = let (s, r') = push_entry r entry in (s, some r')

  -- `PopRingEntry`
  unfoldable pub pop_ring_entry : Option (Ring E) → Bool × Option E × Option (Ring E)
  unfolding pop_entry
  pop_ring_entry none = (false, none, none)
  pop_ring_entry (some r) = let (b, out, r') = pop_entry r in (b, out, some r')
