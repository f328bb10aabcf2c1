-- ===== src/Server/Executor.antt =====
-- `ThreadPoolExecutor` of memrpc/src/server/rpc_server.cpp: the operations under its mutex, and the
-- steps of its threads between them.
pub mod Order
mod Examples
use mem.Prelude.{
  ℕ, zero, suc, ◌≡◌, Bool, true, false, not, ◌||◌, ◌&&◌, Option, none, some, List, [], ◌∷◌, ◌++◌,
  if◌then◌else◌, ltb, leb, max, length, set, get_elem?, replicate, is_empty,
}

-- Where a worker thread stands in `WorkerLoop`.
pub data Worker {ℓ} (T : Type ℓ) : Type ℓ where
  waiting : Worker T
  running_task : T → Worker T
  returned : Worker T

-- A task is `none` where the function object is empty.
pub record ThreadPoolExecutor {ℓ} (T : Type ℓ) : Type ℓ where
  pub running : Bool
  pub queue : List T
  pub queue_capacity : ℕ
  pub workers : List (Worker T)

-- What the critical section of `WorkerLoop` decides.
pub data Turn {ℓ} (T : Type ℓ) : Type ℓ where
  waits returns : Turn T
  takes : T → Turn T

module _ {ℓ} {T : Type ℓ} where
  -- The constructor.
  unfoldable pub thread_pool_executor : ℕ → ThreadPoolExecutor T
  thread_pool_executor thread_count = record {
    running = true;
    queue = [];
    queue_capacity = max 1 thread_count;
    workers = replicate (max 1 thread_count) waiting;
  }

  unfoldable pub has_capacity : ThreadPoolExecutor T → Bool
  has_capacity e = e.running && ltb (length e.queue) e.queue_capacity

  -- `TrySubmit`
  unfoldable pub try_submit : Option T → ThreadPoolExecutor T → Bool × ThreadPoolExecutor T
  try_submit none e = (false, e)
  try_submit (some task) e =
      if not e.running || leb e.queue_capacity (length e.queue)
      then (false, e)
      else (true, record e { queue = e.queue ++ (task ∷ []) })

  abbrev pub take_front : List T → ThreadPoolExecutor T → Turn T × ThreadPoolExecutor T
  take_front [] e = ((if e.running then waits else returns), e)
  take_front (task ∷ rest) e = (takes task, record e { queue = rest })

  -- The critical section of `WorkerLoop`, where the thread is awake.
  unfoldable pub worker_turn : ThreadPoolExecutor T → Turn T × ThreadPoolExecutor T
  worker_turn e = take_front e.queue e

  abbrev pub worker_after : Turn T → Worker T
  worker_after waits = waiting
  worker_after returns = returned
  worker_after (takes task) = running_task task

  abbrev pub with_worker : ℕ → Worker T → ThreadPoolExecutor T → ThreadPoolExecutor T
  with_worker i state e = record e { workers = set e.workers i state }

  -- The first part of `Stop`; what it waits for is in `Step.joined`.
  unfoldable pub request_stop : ThreadPoolExecutor T → ThreadPoolExecutor T
  request_stop e = record e { running = false }

  abbrev pub all_returned : List (Worker T) → Bool
  all_returned [] = true
  all_returned (returned ∷ ws) = all_returned ws
  all_returned (_ ∷ ws) = false

-- `accepted` lists the tasks whose submission returned true, `started` those that a worker took.
pub record State {ℓ} (T : Type ℓ) : Type ℓ where
  pub executor : ThreadPoolExecutor T
  pub accepted : List T
  pub started : List T

module _ {ℓ} {T : Type ℓ} where
  abbrev pub new_state : ℕ → State T
  new_state thread_count = record {
    executor = thread_pool_executor thread_count;
    accepted = [];
    started = [];
  }

  abbrev pub submitted : T → Bool → List T
  submitted task true = task ∷ []
  submitted task false = []

  abbrev pub taken : Turn T → List T
  taken waits = []
  taken returns = []
  taken (takes task) = task ∷ []

-- One step of a thread that uses the executor, or of one of its own.
pub data Step {ℓ} {T : Type ℓ} (s : State T) : State T → Type ℓ where
  submits :
      (task : T)
      → Step s (record s {
        executor = (try_submit (some task) s.executor).1;
        accepted = s.accepted ++ submitted task (try_submit (some task) s.executor).0;
      })
  turns :
      (i : ℕ)
      → get_elem? s.executor.workers i ≡ some waiting
      → Step s (record s {
        executor =
            with_worker i (worker_after (worker_turn s.executor).0) (worker_turn s.executor).1;
        started = s.started ++ taken (worker_turn s.executor).0;
      })
  finishes :
      (i : ℕ) (task : T)
      → get_elem? s.executor.workers i ≡ some (running_task task)
      → Step s (record s { executor = with_worker i waiting s.executor })
  stops : Step s (record s { executor = request_stop s.executor })
  joined :
      s.executor.running ≡ false
      → all_returned s.executor.workers ≡ true
      → Step s (record s { executor = record (s.executor) { workers = [] } })

-- Any number of steps, in any order.
pub data Steps {ℓ} {T : Type ℓ} (s : State T) : State T → Type ℓ where
  start : Steps s s
  next : {t u : State T} → Steps s t → Step t u → Steps s u
