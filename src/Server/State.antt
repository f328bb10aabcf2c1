-- ===== src/Server/State.antt =====
-- `RpcServer::Impl` of memrpc/src/server/rpc_server.cpp: its state, and the small operations that its
-- threads share. The executors stand apart.
pub mod Laws
use mem.Prelude.{
  ℕ, suc, ◌-◌, Bool, true, false, Option, none, some, List, [], ◌∷◌, ◌++◌, if◌then◌else◌, ◌==◌,
}
use mem.Types.{Priority, ResponseRingEntry}
use mem.Client.{RpcReply}
use mem.FilePayload.Files.{Posix}
use mem.FilePayload.Writing.{Maker, Stamp}
use mem.Session.{World}
use mem.Session.Queues.{set_state, broken}
use mem.Session.Pending.{remove_pending_file_payloads, remove_response_payload}
use mem.Server.Completions.{Completions}

pub record RpcServerCall : Type 0 where
  pub opcode : ℕ
  pub priority : Priority
  pub exec_timeout_ms : ℕ
  pub payload : List ℕ

-- What a handler writes to its reply, which starts as an empty reply with the status `Ok`.
abbrev pub RpcHandler : Type 0
RpcHandler = RpcServerCall → RpcReply

-- What lies outside the server during one operation: the calls on files, the directory of the payload
-- files, what a new file name is made of, the clock in milliseconds, and whether a write to an event
-- descriptor succeeds.
pub record Env (Fs : Type 0) : Type 0 where
  pub posix : Posix Fs
  pub maker : Maker Fs
  pub dir : List ℕ
  pub stamp : Stamp
  pub now : ℕ
  pub signals : ℕ → Bool

-- `signalled` lists the event descriptors that the server has signalled.
pub record RpcServer (Fs : Type 0) : Type 0 where
  pub world : World
  pub fs : Fs
  pub completions : Completions
  pub handlers : List (ℕ × RpcHandler)
  pub active_executions : List (ℕ × ℕ)
  pub pending_submitted_tasks : ℕ
  pub running : Bool
  pub signalled : List ℕ

-- The two hash maps, in the order of insertion.
module _ {A : Type 0} where
  unfoldable pub assign_key : ℕ → A → List (ℕ × A) → List (ℕ × A)
  assign_key key value [] = (key, value) ∷ []
  assign_key key value ((key', old) ∷ m) =
      let rest = assign_key key value m in
      if key == key' then (key, value) ∷ m else (key', old) ∷ rest

  unfoldable pub erase_key : ℕ → List (ℕ × A) → List (ℕ × A)
  erase_key key [] = []
  erase_key key ((key', old) ∷ m) =
      let rest = erase_key key m in if key == key' then m else (key', old) ∷ rest

  unfoldable pub find_key : ℕ → List (ℕ × A) → Option A
  find_key key [] = none
  find_key key ((key', value) ∷ m) =
      let rest = find_key key m in if key == key' then some value else rest

module _ {Fs : Type 0} where
  unfoldable pub mark_execution_started : Env Fs → ℕ → RpcServer Fs → RpcServer Fs
  mark_execution_started env id s = record s {
    active_executions = assign_key id env.now s.active_executions;
  }

  unfoldable pub mark_execution_finished : ℕ → RpcServer Fs → RpcServer Fs
  mark_execution_finished id s = record s { active_executions = erase_key id s.active_executions }

  -- `MakeSubmittedTaskToken`
  unfoldable pub make_submitted_task_token : RpcServer Fs → RpcServer Fs
  make_submitted_task_token s = record s { pending_submitted_tasks = suc s.pending_submitted_tasks }

  -- What the token does where its last copy is destroyed.
  unfoldable pub release_submitted_task_token : RpcServer Fs → RpcServer Fs
  release_submitted_task_token s = record s {
    pending_submitted_tasks = s.pending_submitted_tasks - 1;
  }

  -- `SignalEventFd`: interrupted writes are repeated, and a negative descriptor is refused.
  unfoldable pub signal_event_fd : Env Fs → Option ℕ → RpcServer Fs → Bool × RpcServer Fs
  signal_event_fd env none s = (false, s)
  signal_event_fd env (some fd) s =
      if env.signals fd
      then (true, record s { signalled = s.signalled ++ (fd ∷ []) })
      else (false, s)

  -- `MarkSessionBroken`
  unfoldable pub mark_session_broken : Env Fs → RpcServer Fs → RpcServer Fs
  mark_session_broken env s =
      let w = set_state broken s.world in
      let marked = record s {
        world = w;
        fs = remove_pending_file_payloads env.posix env.dir w s.fs;
      } in
      (signal_event_fd env w.session.handles.resp_event_fd marked).1

  -- `RemoveResponseFilePayloadIfPresent`
  unfoldable pub remove_response_file_payload :
      Env Fs → ResponseRingEntry → RpcServer Fs → RpcServer Fs
  remove_response_file_payload env entry s = record s {
    fs = remove_response_payload env.posix env.dir entry s.fs;
  }
