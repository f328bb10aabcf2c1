-- ===== src/Server/Dispatch.antt =====
-- The dispatcher of memrpc/src/server/rpc_server.cpp: it pops requests from the rings and submits them as
-- tasks to an executor (memrpc/include/memrpc/core/task_executor.h). A task is the request that it
-- captures.
pub mod Rings
pub mod Submitted
pub mod Pool
use mem.Prelude.{
  ℕ, zero, suc, ◌+◌, Bool, true, false, not, ◌||◌, ◌&&◌, Option, none, some, List, [], ◌∷◌, ◌++◌,
  if◌then◌else◌, ◌==◌, ltb, add32,
}
use mem.Types.{RequestRingEntry}
use mem.Ring.{RingCursor, ring_count}
use mem.Session.{World, SharedMemory}
use mem.Session.Queues.{QueueKind, high_request, normal_request, pop_request}
use mem.Server.State.{
  Env, RpcServer, make_submitted_task_token, release_submitted_task_token, signal_event_fd,
}

-- `class TaskExecutor`, as far as the dispatcher uses it, over the executor's state. `lets_go` is what
-- its own threads do to it until the dispatcher's next call.
pub record TaskExecutor (E : Type 0) : Type 0 where
  pub try_submit : RequestRingEntry → E → Bool × E
  pub has_capacity : E → Bool
  pub lets_go : E → E

abbrev pub cursor_of : QueueKind → SharedMemory → RingCursor
cursor_of high_request m = m.header.high_ring
cursor_of normal_request m = m.header.normal_ring

-- The server with one of its executors, and what `DrainQueue` has done so far: `popped` lists the
-- requests that it popped, and `lost` those whose submission was refused.
pub record Drain (Fs E : Type 0) : Type 0 where
  pub server : RpcServer Fs
  pub executor : E
  pub drained : Bool
  pub ring_became_not_full : Bool
  pub popped : List RequestRingEntry
  pub lost : List RequestRingEntry

-- The ring was full before the pop that left it so.
abbrev pub was_full : RingCursor → Bool
was_full c = not (c.capacity == 0) && add32 (ring_count c) 1 == c.capacity

-- What `poll` answers: whether it failed, and which of the two descriptors are readable.
pub data Polled : Type 0 where
  poll_failed : Polled
  polled : Bool → Bool → Polled

-- What one round of the dispatcher depends on, besides the server: whether a spin saw a request, and
-- what polling answers.
pub record Watch : Type 0 where
  pub spin_hit : Bool
  pub poll : Polled

-- `SpinForRingActivity`, in each of its rounds.
unfoldable pub ring_activity : {Fs : Type 0} → RpcServer Fs → Bool
ring_activity s =
    s.world.session.has_header
    && (ltb 0 (ring_count s.world.memory.header.high_ring)
        || ltb 0 (ring_count s.world.memory.header.normal_ring))

abbrev is_some : Option QueueKind → Bool
is_some none = false
is_some (some kind) = true

-- The server with both executors.
abbrev pub Both : Type 0 → Type 0 → Type 0
Both Fs E = RpcServer Fs × E × E

module _ {Fs E : Type 0} (ops : TaskExecutor E) where
  abbrev pub submit_captured : RequestRingEntry → Drain Fs E → Bool × E → Drain Fs E
  submit_captured e d (true, x) = record d {
    executor = ops.lets_go x;
    popped = d.popped ++ (e ∷ []);
  }
  submit_captured e d (false, x) = record d {
    server = release_submitted_task_token d.server;
    executor = ops.lets_go x;
    popped = d.popped ++ (e ∷ []);
    lost = d.lost ++ (e ∷ []);
  }

  -- The body of the loop.
  abbrev pub take_popped :
      QueueKind
      → Drain Fs E
      → (Drain Fs E → Bool × Drain Fs E)
      → Bool × Option RequestRingEntry × World
      → Bool × Drain Fs E
  take_popped kind d next (true, some e, w) =
      let server = make_submitted_task_token (record (d.server) { world = w }) in
      next (
        submit_captured e
          (record d {
            server = server;
            drained = true;
            ring_became_not_full = d.ring_became_not_full || was_full (cursor_of kind w.memory);
          })
          (ops.try_submit e (ops.lets_go d.executor)))
  take_popped kind d next (_, _, w) = (true, record d { server = record (d.server) { world = w } })

  -- The loop of `DrainQueue`, for so many rounds at most: whether its condition has ended it.
  abbrev pub drain_rounds : ℕ → QueueKind → Drain Fs E → Bool × Drain Fs E
  drain_rounds zero kind d = (false, d)
  drain_rounds (suc rounds) kind d =
      let turn = take_popped kind d (drain_rounds rounds kind) (pop_request kind d.server.world) in
      if ops.has_capacity d.executor then turn else (true, d)

  abbrev pub give_credit : Env Fs → Drain Fs E → Drain Fs E
  give_credit env d =
      if d.ring_became_not_full
      then record d {
        server =
            (signal_event_fd env d.server.world.session.handles.req_credit_event_fd d.server).1;
      }
      else d

  abbrev pub new_drain : RpcServer Fs → E → Drain Fs E
  new_drain s x = record {
    server = s;
    executor = x;
    drained = false;
    ring_became_not_full = false;
    popped = [];
    lost = [];
  }

  -- `DrainQueue`, with an executor that is not null.
  unfoldable pub drain_queue : ℕ → Env Fs → QueueKind → RpcServer Fs → E → Bool × Drain Fs E
  drain_queue rounds env kind s x =
      let (ended, d) = drain_rounds rounds kind (new_drain s x) in
      if not s.world.session.has_header then (true, new_drain s x) else (ended, give_credit env d)

  -- What `HandleBackloggedQueues` finds: the executor that it waits for.
  unfoldable pub backlogged : RpcServer Fs → E → E → Option QueueKind
  backlogged s high_executor normal_executor =
      let pending : QueueKind → Bool = λ kind. ltb 0 (ring_count (cursor_of kind s.world.memory)) in
      if not s.world.session.has_header
      then none
      else if pending high_request && not (ops.has_capacity high_executor)
      then some high_request
      else if pending normal_request && not (ops.has_capacity normal_executor)
      then some normal_request
      else none

  abbrev pub drain_high : ℕ → Env Fs → Both Fs E → Bool × Both Fs E
  drain_high rounds env (s, high, normal) =
      let d = (drain_queue rounds env high_request s high).1 in
      (d.drained, (d.server, d.executor, normal))

  abbrev pub drain_normal : ℕ → Env Fs → Both Fs E → Both Fs E
  drain_normal rounds env (s, high, normal) =
      let d = (drain_queue rounds env normal_request s normal).1 in (d.server, high, d.executor)

  abbrev pub after_poll : ℕ → Env Fs → Bool → Polled → Both Fs E → Both Fs E
  after_poll rounds env high_work poll_failed b = b
  after_poll rounds env high_work (polled high_in normal_in) b =
      let again = drain_high rounds env b in
      let (work, b') = if high_in then again else (high_work, b) in
      let drained = drain_normal rounds env b' in if not work && normal_in then drained else b'

  -- One round of `DispatcherLoop`.
  unfoldable pub dispatcher_round : ℕ → Env Fs → Watch → Both Fs E → Both Fs E
  dispatcher_round rounds env watch b =
      let (high_work, b') = drain_high rounds env b in
      let normal_done = drain_normal rounds env b' in
      let b'' = if high_work then b' else normal_done in
      let polled_too = after_poll rounds env high_work watch.poll b'' in
      if is_some (backlogged b''.0 b''.1 b''.2)
      then b''
      else if watch.spin_hit && ring_activity b''.0
      then b''
      else polled_too
