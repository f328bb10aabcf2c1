-- ===== src/Session/Queues.antt =====
-- The queue operations of `Session` in memrpc/src/core/session.cpp: the test of the session's state,
-- the ring behind it, and for a push a second test of the state.
pub mod Refine
pub mod Trace
use mem.Prelude.{ℕ, Bool, true, false, Option, none, some, not, ◌&&◌, if◌then◌else◌, ◌==◌}
use mem.Types.{StatusCode, peer_disconnected, RequestRingEntry, ResponseRingEntry}
use mem.Ring.{Ring, push_ring_entry, pop_ring_entry}
use mem.Session.{Session, SharedMemory, SharedMemoryHeader, World, is_ok}

-- `enum class QueueKind` as far as requests go: no caller passes `Response` to them, and the response
-- ring has operations of its own.
pub data QueueKind : Type 0 where
  high_request normal_request : QueueKind

-- `SessionState::Alive` and `SessionState::Broken`, as they stand in the header.
abbrev pub alive : ℕ
alive = 0

abbrev pub broken : ℕ
broken = 1

abbrev with_header : World → SharedMemoryHeader → World
with_header w h = record w { memory = record (w.memory) { header = h } }

-- `State() == SessionState::Alive`; a session with no header is broken.
unfoldable pub is_alive : World → Bool
is_alive w = w.session.has_header && w.memory.header.session_state == alive

-- `Session::SetState`
unfoldable pub set_state : ℕ → World → World
set_state state w =
    if w.session.has_header
    then with_header w (record (w.memory.header) { session_state = state })
    else w

abbrev pub request_ring : QueueKind → SharedMemory → Ring RequestRingEntry
request_ring high_request m = record { cursor = m.header.high_ring; entries = m.high_slots }
request_ring normal_request m = record { cursor = m.header.normal_ring; entries = m.normal_slots }

abbrev pub response_ring : SharedMemory → Ring ResponseRingEntry
response_ring m = record { cursor = m.header.response_ring; entries = m.response_slots }

abbrev pub put_request_ring : QueueKind → Ring RequestRingEntry → SharedMemory → SharedMemory
put_request_ring high_request r m = record m {
  header = record (m.header) { high_ring = r.cursor };
  high_slots = r.entries;
}
put_request_ring normal_request r m = record m {
  header = record (m.header) { normal_ring = r.cursor };
  normal_slots = r.entries;
}

abbrev pub put_response_ring : Ring ResponseRingEntry → SharedMemory → SharedMemory
put_response_ring r m = record m {
  header = record (m.header) { response_ring = r.cursor };
  response_slots = r.entries;
}

-- `ResolveRing`: null pointers where nothing is mapped.
unfoldable pub resolve_request_ring : QueueKind → World → Option (Ring RequestRingEntry)
resolve_request_ring queue w =
    if w.session.has_header && w.session.mapped then some (request_ring queue w.memory) else none

unfoldable pub resolve_response_ring : World → Option (Ring ResponseRingEntry)
resolve_response_ring w =
    if w.session.has_header && w.session.mapped then some (response_ring w.memory) else none

-- What a ring operation did through its pointers.
abbrev pub store_request_ring : QueueKind → Option (Ring RequestRingEntry) → World → World
store_request_ring queue none w = w
store_request_ring queue (some r) w = record w { memory = put_request_ring queue r w.memory }

abbrev pub store_response_ring : Option (Ring ResponseRingEntry) → World → World
store_response_ring none w = w
store_response_ring (some r) w = record w { memory = put_response_ring r w.memory }

-- The second test of a push reads `later`, the state that the header holds by then: the peer may
-- have set it meanwhile.
abbrev pub confirm : ℕ → StatusCode → World → StatusCode × World
confirm later status w =
    if is_ok status && not (w.session.has_header && later == alive)
    then (peer_disconnected, w)
    else (status, w)

-- `Session::PushRequest`
unfoldable pub push_request : ℕ → QueueKind → RequestRingEntry → World → StatusCode × World
push_request later queue entry w =
    if not (is_alive w)
    then (peer_disconnected, w)
    else let (status, ring) = push_ring_entry (resolve_request_ring queue w) entry in
      confirm later status (store_request_ring queue ring w)

-- `Session::PopRequest`
unfoldable pub pop_request : QueueKind → World → Bool × Option RequestRingEntry × World
pop_request queue w =
    if not (is_alive w)
    then (false, none, w)
    else let (popped, entry, ring) = pop_ring_entry (resolve_request_ring queue w) in
      (popped, entry, store_request_ring queue ring w)

-- `Session::PushResponse`
unfoldable pub push_response : ℕ → ResponseRingEntry → World → StatusCode × World
push_response later entry w =
    if not (is_alive w)
    then (peer_disconnected, w)
    else let (status, ring) = push_ring_entry (resolve_response_ring w) entry in
      confirm later status (store_response_ring ring w)

-- `Session::PopResponse`
unfoldable pub pop_response : World → Bool × Option ResponseRingEntry × World
pop_response w =
    if not (is_alive w)
    then (false, none, w)
    else let (popped, entry, ring) = pop_ring_entry (resolve_response_ring w) in
      (popped, entry, store_response_ring ring w)
