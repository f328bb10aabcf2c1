-- ===== src/Server/Dispatch/Rings.antt =====
-- What popping a request does to the queues that the rings hold (memrpc/src/core/session.cpp).
use mathlib.Core.Path.{subst, ap₂}
use mem.Prelude.{◌≡◌, refl, Bool, Option, List}
use mem.Types.{RequestRingEntry}
use mem.Ring.Queue.{dequeue}
use mem.Session.{World}
use mem.Session.Queues.{QueueKind, high_request, normal_request, pop_request}
use mem.Session.Queues.Refine.{Queues, queue_of, set_queue, Holding, pop_request_refines}

pub queue_of-set_queue :
    (kind : QueueKind) (l : List RequestRingEntry) (q : Queues)
    → queue_of kind (set_queue kind l q) ≡ l
queue_of-set_queue high_request l q = refl
queue_of-set_queue normal_request l q = refl

pub set_queue_twice :
    (kind : QueueKind) (l l' : List RequestRingEntry) (q : Queues)
    → set_queue kind l (set_queue kind l' q) ≡ set_queue kind l q
set_queue_twice high_request l l' q = refl
set_queue_twice normal_request l l' q = refl

pub set_queue_same : (kind : QueueKind) (q : Queues) → set_queue kind (queue_of kind q) q ≡ q
set_queue_same high_request q = refl
set_queue_same normal_request q = refl

pub pop-eq :
    (kind : QueueKind) (l : List RequestRingEntry) {w : World} {q : Queues}
    → Holding w q
    → queue_of kind q ≡ l
    → (pop_request kind w ≡ ((dequeue l).0, (dequeue l).1, (pop_request kind w).2))
      × Holding (pop_request kind w).2 (set_queue kind (dequeue l).2 q)
pop-eq kind l {w} {q} h here =
    let (b, out, h') = pop_request_refines kind h in
    let Result : List RequestRingEntry → Type 0 = λ l.
      (pop_request kind w ≡ ((dequeue l).0, (dequeue l).1, (pop_request kind w).2))
      × Holding (pop_request kind w).2 (set_queue kind (dequeue l).2 q) in
    subst Result here
      (ap₂ (λ (x : Bool) (y : Option RequestRingEntry). (x, y, (pop_request kind w).2)) b out, h')
