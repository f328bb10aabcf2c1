-- ===== src/Session/Queues/Trace.antt =====
-- Sequences of the queue operations of `Session` (memrpc/src/core/session.cpp) by the two processes
-- that share it, while the session stays alive.
use mathlib.Core.Path.{ap₂}
use mem.Types.{StatusCode, RequestRingEntry, ResponseRingEntry}
use mem.Ring.{push_ring_entry, pop_ring_entry}
use mem.Ring.Queue.{enqueue, dequeue}
use mem.Session.{World}
use mem.Session.Queues.{
  resolve_response_ring, resolve_request_ring, push_ring_entry, pop_ring_entry, high_request,
  normal_request, QueueKind, alive, push_request, pop_request, push_response, pop_response,
  request_ring, response_ring,
}
use mem.Session.Queues.Refine.{
  pop_response_refines, push_response_refines, pop_request_refines, push_request_refines, Queues,
  queue_of, set_queue, Holding,
}
use mem.Prelude.{arith, ap, ◌∙◌, ℕ, Bool, Option, List, [], ◌∷◌, ◌≡◌, refl}

pub data Call : Type 0 where
  pushes_request : QueueKind → RequestRingEntry → Call
  pops_request : QueueKind → Call
  pushes_response : ResponseRingEntry → Call
  pops_response : Call

pub data Answer : Type 0 where
  status : StatusCode → Answer
  request : Bool → Option RequestRingEntry → Answer
  response : Bool → Option ResponseRingEntry → Answer

unfoldable pub session_call : Call → World → Answer × World
session_call (pushes_request queue entry) w =
    let (s, w') = push_request alive queue entry w in (status s, w')
session_call (pops_request queue) w = let (b, out, w') = pop_request queue w in (request b out, w')
session_call (pushes_response entry) w = let (s, w') = push_response alive entry w in (status s, w')
session_call pops_response w = let (b, out, w') = pop_response w in (response b out, w')

unfoldable pub run_session : World → List Call → List Answer
run_session w [] = []
run_session w (c ∷ cs) = let (a, w') = session_call c w in a ∷ run_session w' cs

abbrev pub cap_of : QueueKind → World → ℕ
cap_of queue w = (request_ring queue w.memory).cursor.capacity

-- The same calls on three bounded queues.
unfoldable pub queue_call : (QueueKind → ℕ) → ℕ → Call → Queues → Answer × Queues
queue_call caps response_cap (pushes_request queue entry) q =
    let (s, l) = enqueue (caps queue) (queue_of queue q) entry in (status s, set_queue queue l q)
queue_call caps response_cap (pops_request queue) q =
    let (b, out, l) = dequeue (queue_of queue q) in (request b out, set_queue queue l q)
queue_call caps response_cap (pushes_response entry) q =
    let (s, l) = enqueue response_cap q.response entry in (status s, record q { response = l })
queue_call caps response_cap pops_response q =
    let (b, out, l) = dequeue q.response in (response b out, record q { response = l })

unfoldable pub run_queues : (QueueKind → ℕ) → ℕ → Queues → List Call → List Answer
run_queues caps response_cap q [] = []
run_queues caps response_cap q (c ∷ cs) =
    let (a, q') = queue_call caps response_cap c q in a ∷ run_queues caps response_cap q' cs

-- A session whose rings hold the queues, with the given capacities.
pub record Sized (caps : QueueKind → ℕ) (response_cap : ℕ) (w : World) (q : Queues) : Type 0 where
  pub holding : Holding w q
  pub request_caps : (queue : QueueKind) → cap_of queue w ≡ caps queue
  pub response_caps : (response_ring w.memory).cursor.capacity ≡ response_cap

module _ (w : World) where
  cap-push_request :
      (queue kind : QueueKind) (entry : RequestRingEntry)
      → cap_of kind (push_request alive queue entry w).1 ≡ cap_of kind w
  unfolding push_request push_ring_entry resolve_request_ring
  cap-push_request high_request high_request entry = ground arith
  cap-push_request high_request normal_request entry = ground arith
  cap-push_request normal_request high_request entry = ground arith
  cap-push_request normal_request normal_request entry = ground arith

  cap-pop_request : (queue kind : QueueKind) → cap_of kind (pop_request queue w).2 ≡ cap_of kind w
  unfolding pop_request pop_ring_entry resolve_request_ring
  cap-pop_request high_request high_request = ground arith
  cap-pop_request high_request normal_request = ground arith
  cap-pop_request normal_request high_request = ground arith
  cap-pop_request normal_request normal_request = ground arith

-- What a call does not touch: the response ring's capacity by a request call, and so on.
call_caps :
    (c : Call) (w : World)
    → ((kind : QueueKind) → cap_of kind (session_call c w).1 ≡ cap_of kind w)
      × ((response_ring (session_call c w).1.memory).cursor.capacity
          ≡ (response_ring w.memory).cursor.capacity)
unfolding session_call push_request pop_request push_response pop_response push_ring_entry
    pop_ring_entry resolve_request_ring resolve_response_ring
call_caps (pushes_request high_request entry) w =
    (λ kind. cap-push_request w high_request kind entry, ground arith)
call_caps (pushes_request normal_request entry) w =
    (λ kind. cap-push_request w normal_request kind entry, ground arith)
call_caps (pops_request high_request) w =
    (λ kind. cap-pop_request w high_request kind, ground arith)
call_caps (pops_request normal_request) w =
    (λ kind. cap-pop_request w normal_request kind, ground arith)
call_caps (pushes_response entry) w =
    (elim [ high_request ↦ ground arith | normal_request ↦ ground arith ], ground arith)
call_caps pops_response w =
    (elim [ high_request ↦ ground arith | normal_request ↦ ground arith ], ground arith)

call_refines :
    (caps : QueueKind → ℕ) (response_cap : ℕ) (c : Call) {w : World} {q : Queues}
    → Sized caps response_cap w q
    → ((session_call c w).0 ≡ (queue_call caps response_cap c q).0)
      × Holding (session_call c w).1 (queue_call caps response_cap c q).1
unfolding session_call queue_call
call_refines caps response_cap (pushes_request queue entry) h =
    let (s, h') = push_request_refines queue entry h.holding in
    rw (← h.request_caps queue) (ap status s, h')
call_refines caps response_cap (pops_request queue) h =
    let (b, out, h') = pop_request_refines queue h.holding in (ap₂ request b out, h')
call_refines caps response_cap (pushes_response entry) h =
    let (s, h') = push_response_refines entry h.holding in rw (← h.response_caps) (ap status s, h')
call_refines caps response_cap pops_response h =
    let (b, out, h') = pop_response_refines h.holding in (ap₂ response b out, h')

-- While the session stays alive, any sequence of requests and responses pushed and popped through it
-- is answered as by three separate bounded queues of the rings' capacities, if the rings hold those
-- queues at the start and their capacities divide 2 ^ 32.
pub run_session_refines :
    (caps : QueueKind → ℕ) (response_cap : ℕ) (cs : List Call) {w : World} {q : Queues}
    → Sized caps response_cap w q
    → run_session w cs ≡ run_queues caps response_cap q cs
unfolding run_session run_queues
run_session_refines caps response_cap [] h = refl
run_session_refines caps response_cap (c ∷ cs) {w} {q} h =
    let (a, h') = call_refines caps response_cap c h in
    let (kept, response_kept) = call_caps c w in
    let sized : Sized caps response_cap (session_call c w).1 (queue_call caps response_cap c q).1 =
      record {
        holding = h';
        request_caps = λ kind. kept kind ∙ h.request_caps kind;
        response_caps = response_kept ∙ h.response_caps;
      } in
    ap₂ ◌∷◌ a (run_session_refines caps response_cap cs sized)
