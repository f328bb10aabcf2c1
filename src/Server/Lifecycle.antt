-- ===== src/Server/Lifecycle.antt =====
-- `RpcServer` of memrpc/src/server/rpc_server.cpp from outside: handlers, `Start`, the statistics and
-- `Stop`. `Stop` is run to its end, in the order in which it waits for the other threads; the time
-- limit on it, after which the process exits, is left out.
pub mod Tasks
pub mod Stopped
use mem.Prelude.{
  get_elem?, ℕ, suc, ◌-◌, ◌+◌, ◌%◌, Bool, true, false, not, ◌&&◌, Option, none, some, List, [], ◌∷◌,
  if◌then◌else◌, ◌==◌, min, is_empty, length, to_u32, sub64, u32_mod,
}
use mem.Types.{
  StatusCode, ok, invalid_argument, BootstrapHandles, make_default_bootstrap_handles,
  RequestRingEntry,
}
use mem.Ring.{ring_count}
use mem.Layout.{Abi}
use mem.Session.{Kernel, SharedMemory, World, server, reset}
use mem.Session.Attach.{attach}
use mem.Server.Completions.{CompletionItem, Completions}
use mem.Server.Executor.{ThreadPoolExecutor, thread_pool_executor}
use mem.Server.State.{
  Env, RpcServer, RpcHandler, assign_key, erase_key, mark_session_broken,
  release_submitted_task_token,
}
use mem.Server.Writer.{Delivery, with_completions, stop_response_writer}
use mem.Server.Requests.{Progress, done, awaits, process_entry, finish_entry}

-- `struct ServerOptions`; an executor of the application's is none of the model's.
pub record ServerOptions : Type 0 where
  pub high_worker_threads : ℕ
  pub normal_worker_threads : ℕ
  pub completion_queue_capacity : ℕ

pub record RpcServerRuntimeStats : Type 0 where
  pub completion_backlog : ℕ
  pub completion_backlog_capacity : ℕ
  pub high_request_ring_pending : ℕ
  pub normal_request_ring_pending : ℕ
  pub response_ring_pending : ℕ
  pub active_request_executions : ℕ
  pub oldest_execution_age_ms : ℕ

abbrev minimum : ℕ → List (ℕ × ℕ) → ℕ
minimum t [] = t
minimum t ((id, start) ∷ rest) = minimum (min t start) rest

-- The age of the oldest execution; the clock is a `uint64_t`, the result a `uint32_t`.
abbrev oldest_age : ℕ → List (ℕ × ℕ) → ℕ
oldest_age now [] = 0
oldest_age now ((id, start) ∷ rest) = min (sub64 now (minimum start rest)) (u32_mod - 1)

-- The pools of the urgent and of the normal requests, where there are pools.
abbrev pub Pools : Type 0
Pools = Option (ThreadPoolExecutor RequestRingEntry × ThreadPoolExecutor RequestRingEntry)

-- A task that waits for the writer to answer the item that it has enqueued.
pub record Waiting : Type 0 where
  pub entry : RequestRingEntry
  pub marked : Bool
  pub item : CompletionItem

-- `state->ready`
abbrev pub ready_state : Option (Option StatusCode) → Bool
ready_state (some (some status)) = true
ready_state _ = false

abbrev pub completion_is_ready : ℕ → Completions → Bool
completion_is_ready completion c = ready_state (get_elem? c.states completion)

module _ {Fs : Type 0} where
  -- `none` is an empty function object.
  unfoldable pub register_handler : ℕ → Option RpcHandler → RpcServer Fs → RpcServer Fs
  register_handler opcode none s = record s { handlers = erase_key opcode s.handlers }
  register_handler opcode (some handler) s = record s {
    handlers = assign_key opcode handler s.handlers;
  }

  abbrev start_attached :
      ServerOptions → StatusCode × World → RpcServer Fs → StatusCode × Pools × RpcServer Fs
  start_attached options (ok, w) s = (
    ok,
    some (
      thread_pool_executor options.high_worker_threads,
      thread_pool_executor options.normal_worker_threads,
    ),
    record s {
      world = w;
      running = true;
      completions = record (s.completions) {
        capacity =
            if options.completion_queue_capacity == 0
            then w.session.response_ring_size
            else options.completion_queue_capacity;
        writer_running = true;
      };
    },
  )
  start_attached options (status, w) s = (status, none, record s { world = w; running = false })

  -- `Start` on the handles that were set, whose memory object is `memory`; `Attach` takes them over.
  unfoldable pub start_server :
      Abi
      → Kernel
      → BootstrapHandles
      → SharedMemory
      → ServerOptions
      → RpcServer Fs
      → StatusCode × Pools × RpcServer Fs
  start_server abi k handles memory options s =
      if is_empty s.handlers
      then (invalid_argument, none, s)
      else if s.running
      then (ok, none, s)
      else start_attached options (attach abi k (some handles) server memory s.world) s

  -- `GetRuntimeStats`
  unfoldable pub get_runtime_stats : ℕ → RpcServer Fs → RpcServerRuntimeStats
  get_runtime_stats now s =
      let header = s.world.memory.header in
      let mapped : ℕ → ℕ = λ n. if s.world.session.has_header then n else 0 in
      record {
        completion_backlog = s.completions.pending;
        completion_backlog_capacity = s.completions.capacity;
        high_request_ring_pending = mapped (ring_count header.high_ring);
        normal_request_ring_pending = mapped (ring_count header.normal_ring);
        response_ring_pending = mapped (ring_count header.response_ring);
        active_request_executions = to_u32 (length s.active_executions);
        oldest_execution_age_ms = oldest_age now s.active_executions;
      }

  -- A task whose completion is ready comes to its end, and its token is given back.
  abbrev pub end_task : RequestRingEntry → Bool → RpcServer Fs → RpcServer Fs
  end_task e marked s = release_submitted_task_token (finish_entry e marked s)

  -- `AwaitWriteCompletion` of a waiting task: the task goes on where its completion is ready.
  abbrev pub end_ready : Bool → Waiting → RpcServer Fs → Bool × RpcServer Fs
  end_ready ready w s = if ready then (true, end_task w.entry w.marked s) else (false, s)

  -- The tasks that wait for their response to be written: whether each comes to its end.
  abbrev pub end_waiting : List Waiting → RpcServer Fs → Bool × RpcServer Fs
  end_waiting [] s = (true, s)
  end_waiting (w ∷ rest) s =
      let (ended, s') = end_ready (completion_is_ready w.item.completion s.completions) w s in
      let (all_ended, s'') = end_waiting rest s' in (ended && all_ended, s'')

  abbrev pub after_task : RequestRingEntry → Progress × Bool × RpcServer Fs → Bool × RpcServer Fs
  after_task e (done status, marked, s) = (true, end_task e marked s)
  after_task e (awaits completion, marked, s) = (false, s)

  -- The tasks that the pools have accepted and not begun, in any order: whether each comes to its end.
  abbrev pub run_tasks : Env Fs → List RequestRingEntry → RpcServer Fs → Bool × RpcServer Fs
  run_tasks env [] s = (true, s)
  run_tasks env (e ∷ rest) s =
      let (ended, s') = after_task e (process_entry env e s) in
      let (all_ended, s'') = run_tasks env rest s' in (ended && all_ended, s'')

  -- `Stop` of a running server, with `waiting` tasks that wait for their response to be written and
  -- `tasks` that have not begun: whether all that it waits for comes to its end.
  unfoldable pub stop_server :
      ℕ
      → Env Fs
      → Kernel
      → (ℕ → Delivery)
      → List Waiting
      → List RequestRingEntry
      → RpcServer Fs
      → Bool × RpcServer Fs
  stop_server rounds env k d waiting tasks s =
      let broken = mark_session_broken env (record s { running = false }) in
      let (returned, stopped) = stop_response_writer rounds env d broken in
      let (waited, resumed) = end_waiting waiting stopped in
      let (ended, finished) = run_tasks env tasks resumed in
      if not s.running then (true, s) else (
        returned && (waited && (ended && finished.pending_submitted_tasks == 0)),
        record finished { world = reset k finished.world },
      )
