-- ===== src/Session/Queues/Refine.antt =====
-- The session's three rings as three bounded queues (memrpc/src/core/session.cpp).
use mem.Types.{RequestRingEntry, ResponseRingEntry}
use mem.Ring.{pop_entry, pop_ring_entry, push_entry, push_ring_entry}
use mem.Ring.Queue.{dequeue, enqueue}
use mem.Ring.Refine.{pop-Represents, Represents, push-Represents}
use mem.Session.{World}
use mem.Session.Queues.{
  store_response_ring, resolve_response_ring, pop_response, push_response, pop_request,
  store_request_ring, QueueKind, high_request, normal_request, alive, is_alive, request_ring,
  response_ring, push_request, resolve_request_ring,
}
use mem.Prelude.{ℕ, ◌≡◌, true, some, List, arith}

-- What the rings stand for.
pub record Queues : Type 0 where
  pub high : List RequestRingEntry
  pub normal : List RequestRingEntry
  pub response : List ResponseRingEntry

abbrev pub queue_of : QueueKind → Queues → List RequestRingEntry
queue_of high_request q = q.high
queue_of normal_request q = q.normal

abbrev pub set_queue : QueueKind → List RequestRingEntry → Queues → Queues
set_queue high_request l q = record q { high = l }
set_queue normal_request l q = record q { normal = l }

-- A session that is attached and alive, whose rings hold the queues.
pub record Holding (w : World) (q : Queues) : Type 0 where
  pub attached : w.session.has_header ≡ true
  pub mapped : w.session.mapped ≡ true
  pub state : w.memory.header.session_state ≡ alive
  pub high : Represents (request_ring high_request w.memory) q.high
  pub normal : Represents (request_ring normal_request w.memory) q.normal
  pub response : Represents (response_ring w.memory) q.response

abbrev capacity : QueueKind → World → ℕ
capacity queue w = (request_ring queue w.memory).cursor.capacity

push_request-eq :
    (queue : QueueKind) (entry : RequestRingEntry) {w : World} {q : Queues}
    → Holding w q
    → push_request alive queue entry w ≡ (
      (push_entry (request_ring queue w.memory) entry).0,
      store_request_ring queue (some (push_entry (request_ring queue w.memory) entry).1) w,
    )
unfolding push_request is_alive resolve_request_ring push_ring_entry
push_request-eq queue entry {w} h = ground arith

pub push_request_refines :
    (queue : QueueKind) (entry : RequestRingEntry) {w : World} {q : Queues}
    → Holding w q
    → ((push_request alive queue entry w).0
        ≡ (enqueue (capacity queue w) (queue_of queue q) entry).0)
      × Holding
          (push_request alive queue entry w).1
          (set_queue queue (enqueue (capacity queue w) (queue_of queue q) entry).1 q)
push_request_refines high_request entry {w} {q} h =
    let (s, r) = push-Represents entry h.high in
    rw (push_request-eq high_request entry h) (
      s,
      record {
        attached = h.attached;
        mapped = h.mapped;
        state = h.state;
        high = r;
        normal = h.normal;
        response = h.response;
      },
    )
push_request_refines normal_request entry {w} {q} h =
    let (s, r) = push-Represents entry h.normal in
    rw (push_request-eq normal_request entry h) (
      s,
      record {
        attached = h.attached;
        mapped = h.mapped;
        state = h.state;
        high = h.high;
        normal = r;
        response = h.response;
      },
    )

pop_request-eq :
    (queue : QueueKind) {w : World} {q : Queues}
    → Holding w q
    → pop_request queue w ≡ (
      (pop_entry (request_ring queue w.memory)).0,
      (pop_entry (request_ring queue w.memory)).1,
      store_request_ring queue (some (pop_entry (request_ring queue w.memory)).2) w,
    )
unfolding pop_request is_alive resolve_request_ring pop_ring_entry
pop_request-eq queue {w} h = ground arith

pub pop_request_refines :
    (queue : QueueKind) {w : World} {q : Queues}
    → Holding w q
    → ((pop_request queue w).0 ≡ (dequeue (queue_of queue q)).0)
      × ((pop_request queue w).1 ≡ (dequeue (queue_of queue q)).1)
      × Holding (pop_request queue w).2 (set_queue queue (dequeue (queue_of queue q)).2 q)
pop_request_refines high_request {w} {q} h =
    let (b, out, r) = pop-Represents h.high in
    rw (pop_request-eq high_request h) (
      b,
      out,
      record {
        attached = h.attached;
        mapped = h.mapped;
        state = h.state;
        high = r;
        normal = h.normal;
        response = h.response;
      },
    )
pop_request_refines normal_request {w} {q} h =
    let (b, out, r) = pop-Represents h.normal in
    rw (pop_request-eq normal_request h) (
      b,
      out,
      record {
        attached = h.attached;
        mapped = h.mapped;
        state = h.state;
        high = h.high;
        normal = r;
        response = h.response;
      },
    )

push_response-eq :
    (entry : ResponseRingEntry) {w : World} {q : Queues}
    → Holding w q
    → push_response alive entry w ≡ (
      (push_entry (response_ring w.memory) entry).0,
      store_response_ring (some (push_entry (response_ring w.memory) entry).1) w,
    )
unfolding push_response is_alive resolve_response_ring push_ring_entry
push_response-eq entry {w} h = ground arith

pub push_response_refines :
    (entry : ResponseRingEntry) {w : World} {q : Queues}
    → Holding w q
    → ((push_response alive entry w).0
        ≡ (enqueue (response_ring w.memory).cursor.capacity q.response entry).0)
      × Holding (push_response alive entry w).1 (record q {
        response = (enqueue (response_ring w.memory).cursor.capacity q.response entry).1;
      })
push_response_refines entry {w} {q} h =
    let (s, r) = push-Represents entry h.response in
    rw (push_response-eq entry h) (
      s,
      record {
        attached = h.attached;
        mapped = h.mapped;
        state = h.state;
        high = h.high;
        normal = h.normal;
        response = r;
      },
    )

pop_response-eq :
    {w : World} {q : Queues}
    → Holding w q
    → pop_response w ≡ (
      (pop_entry (response_ring w.memory)).0,
      (pop_entry (response_ring w.memory)).1,
      store_response_ring (some (pop_entry (response_ring w.memory)).2) w,
    )
unfolding pop_response is_alive resolve_response_ring pop_ring_entry
pop_response-eq {w} h = ground arith

pub pop_response_refines :
    {w : World} {q : Queues}
    → Holding w q
    → ((pop_response w).0 ≡ (dequeue q.response).0)
      × ((pop_response w).1 ≡ (dequeue q.response).1)
      × Holding (pop_response w).2 (record q { response = (dequeue q.response).2 })
pop_response_refines {w} {q} h =
    let (b, out, r) = pop-Represents h.response in
    rw (pop_response-eq h) (
      b,
      out,
      record {
        attached = h.attached;
        mapped = h.mapped;
        state = h.state;
        high = h.high;
        normal = h.normal;
        response = r;
      },
    )
