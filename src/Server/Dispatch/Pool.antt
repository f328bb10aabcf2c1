-- ===== src/Server/Dispatch/Pool.antt =====
-- The thread pool of memrpc/src/server/rpc_server.cpp as an executor of the dispatcher: it keeps the
-- contract of `TaskExecutor` (memrpc/include/memrpc/core/task_executor.h).
use mem.Prelude.{
  ℕ, ◌≡◌, ◌≤◌, refl, ap, ◌∙◌, Bool, true, false, not, ◌||◌, some, List, [], ◌∷◌, ◌++◌, leb, length,
  arith, get_elem?,
}
use mem.Types.{RequestRingEntry}
use mem.Server.Executor.{
  ThreadPoolExecutor, waiting, running_task, State, try_submit, has_capacity, worker_turn,
  submitted, take_front, worker_after, with_worker, taken,
}
use mem.Server.Dispatch.{TaskExecutor}
use mem.Server.Dispatch.Submitted.{IsConsistent}

abbrev pub Pool : Type 0
Pool = State RequestRingEntry

-- What the workers do on their own: they take tasks and finish them.
pub data WorkerSteps (s : Pool) : Pool → Type 0 where
  rest : WorkerSteps s s
  turn :
      (i : ℕ) {t : Pool}
      → WorkerSteps s t
      → get_elem? t.executor.workers i ≡ some waiting
      → WorkerSteps s (record t {
        executor =
            with_worker i (worker_after (worker_turn t.executor).0) (worker_turn t.executor).1;
        started = t.started ++ taken (worker_turn t.executor).0;
      })
  finish :
      (i : ℕ) (task : RequestRingEntry) {t : Pool}
      → WorkerSteps s t
      → get_elem? t.executor.workers i ≡ some (running_task task)
      → WorkerSteps s (record t { executor = with_worker i waiting t.executor })

abbrev pub submit_to_pool : RequestRingEntry → Pool → Bool × Pool
submit_to_pool e s =
    let (accepted, x) = try_submit (some e) s.executor in
    (accepted, record s { executor = x; accepted = s.accepted ++ submitted e accepted })

-- The pool as an executor, whose workers go on by `lets_go`.
abbrev pub pool_executor : (Pool → Pool) → TaskExecutor Pool
pool_executor lets_go = record {
  try_submit = submit_to_pool;
  has_capacity = λ s. has_capacity s.executor;
  lets_go = lets_go;
}

-- What worker steps leave alone.
record Kept (s t : Pool) : Type 0 where
  running : t.executor.running ≡ s.executor.running
  limit : t.executor.queue_capacity ≡ s.executor.queue_capacity
  shorter : length t.executor.queue ≤ length s.executor.queue
  accepted : t.accepted ≡ s.accepted

turn-shorter :
    (q : List RequestRingEntry) (e : ThreadPoolExecutor RequestRingEntry)
    → e.queue ≡ q
    → ((take_front q e).1.running ≡ e.running)
      × ((take_front q e).1.queue_capacity ≡ e.queue_capacity)
      × (length (take_front q e).1.queue ≤ length e.queue)
turn-shorter [] e h = (refl, refl, omega arith)
turn-shorter (x ∷ q) e h = (refl, refl, omega (arith, ap length h))

WorkerSteps-Kept : {s t : Pool} → WorkerSteps s t → Kept s t
unfolding worker_turn
WorkerSteps-Kept rest = record {
  running = refl;
  limit = refl;
  shorter = omega arith;
  accepted = refl;
}
WorkerSteps-Kept (turn i {t} before here) =
    let k = WorkerSteps-Kept before in
    let (running, limit, shorter) = turn-shorter t.executor.queue t.executor refl in
    record {
      running = running ∙ k.running;
      limit = limit ∙ k.limit;
      shorter = omega (arith, k.shorter, shorter);
      accepted = k.accepted;
    }
WorkerSteps-Kept (finish i task before here) =
    let k = WorkerSteps-Kept before in
    record { running = k.running; limit = k.limit; shorter = k.shorter; accepted = k.accepted }

room-Kept :
    (s t : Pool)
    → Kept s t
    → has_capacity s.executor ≡ true
    → not t.executor.running || leb t.executor.queue_capacity (length t.executor.queue) ≡ false
unfolding has_capacity
room-Kept s t k room = ground (arith, room, k.running, k.limit, k.shorter)

-- With any worker steps between the two calls, a submission to the pool that follows `HasCapacity` is
-- accepted, as long as nobody else submits and the pool is not stopped meanwhile.
pub pool-IsConsistent :
    (lets_go : Pool → Pool)
    → ((s : Pool) → WorkerSteps s (lets_go s))
    → IsConsistent (pool_executor lets_go) (λ s. s.accepted)
unfolding try_submit
pool-IsConsistent lets_go steps = record {
  submits = λ e s room. rw (room-Kept s (lets_go s) (WorkerSteps-Kept (steps s)) room) (refl, refl);
  keeps = λ s. (WorkerSteps-Kept (steps s)).accepted;
}
