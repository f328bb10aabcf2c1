-- ===== src/Scan/Sessions.antt =====
-- `class EngineSessionService` of virus_executor_service/src/service/ves_session_service.cpp. The hooks and
-- delays that the tests put between the steps of a close are left out, and the body of the event
-- publisher's thread, which only publishes events of random kinds.
use mem.Prelude.{
  ℕ, Bool, true, false, not, ◌||◌, Option, none, some, List, [], ◌∷◌, if◌then◌else◌, ◌==◌,
}
use mem.Types.{StatusCode, ok, peer_disconnected, invalid_argument, BootstrapHandles}
use mem.Client.{RpcReply, RpcEvent, status_reply}
use mem.Session.{is_ok}
use mem.Server.State.{RpcServerCall, RpcHandler}

-- What the service uses: a session host, a server on the host's handles, and what the registrars put
-- into the table of handlers.
pub record Parts (H R : Type 0) : Type 0 where
  pub new_host : H
  pub ensure_session : H → StatusCode × H
  pub server_handles : H → BootstrapHandles
  pub open_host : H → (StatusCode × BootstrapHandles) × H
  pub close_host : H → H
  pub new_server : BootstrapHandles → R
  pub start : R → StatusCode × R
  pub stop : R → R
  pub publish : RpcEvent → R → StatusCode × R
  pub registered : List (ℕ × RpcHandler)

-- The thread of the event publisher is there while `event_publisher_running` holds, and until the
-- close that cleared it has joined it.
pub record EngineSessionService (H R : Type 0) : Type 0 where
  pub closing : Bool
  pub is_initialized : Bool
  pub session_host : Option H
  pub rpc_server : Option R
  pub session_id : ℕ
  pub event_publisher_running : Bool
  pub any_call_handlers : List (ℕ × RpcHandler)

abbrev find_handler : ℕ → List (ℕ × RpcHandler) → Option RpcHandler
find_handler opcode [] = none
find_handler opcode ((key, handler) ∷ handlers) =
    let rest = find_handler opcode handlers in if opcode == key then some handler else rest

abbrev call_found : RpcServerCall → Option RpcHandler → StatusCode × RpcReply
call_found call none = (invalid_argument, status_reply invalid_argument)
call_found call (some handler) = ((handler call).status, handler call)

unfoldable pub invoke_any_call_handler :
    List (ℕ × RpcHandler) → RpcServerCall → StatusCode × RpcReply
invoke_any_call_handler handlers call = call_found call (find_handler call.opcode handlers)

module _ {H R : Type 0} (parts : Parts H R) where
  abbrev pub Service : Type 0
  Service = EngineSessionService H R

  abbrev pub after_start : StatusCode × R → Service → StatusCode × Service
  after_start (status, r) s =
      if is_ok status
      then (
        ok,
        record s {
          rpc_server = some r;
          any_call_handlers = parts.registered;
          is_initialized = true;
        },
      )
      else (status, record s { rpc_server = none; session_host = none; any_call_handlers = [] })

  abbrev pub after_ensure : StatusCode × H → Service → StatusCode × Service
  after_ensure (status, h) s =
      let started =
        after_start (parts.start (parts.new_server (parts.server_handles h)))
          (record s { session_host = some h }) in
      if is_ok status then started else (status, record s { session_host = some h })

  abbrev pub host_or_new : Option H → H
  host_or_new none = parts.new_host
  host_or_new (some h) = h

  unfoldable pub ensure_session_initialized : Service → StatusCode × Service
  ensure_session_initialized s =
      if s.closing
      then (peer_disconnected, s)
      else if s.is_initialized
      then (ok, s)
      else after_ensure (parts.ensure_session (host_or_new s.session_host)) s

  -- `StartEventPublisherLocked`
  unfoldable pub start_event_publisher : Service → Service
  start_event_publisher s =
      if s.event_publisher_running then s else record s { event_publisher_running = true }

  abbrev pub after_open :
      (StatusCode × BootstrapHandles) × H → Service → (StatusCode × BootstrapHandles) × Service
  after_open ((status, handles), h) s =
      if is_ok status
      then (
        (status, handles),
        start_event_publisher (record s { session_host = some h; session_id = handles.session_id }),
      )
      else ((status, handles), record s { session_host = some h })

  abbrev pub open_on :
      Option H → BootstrapHandles → Service → (StatusCode × BootstrapHandles) × Service
  open_on none handles s = ((invalid_argument, handles), s)
  open_on (some h) handles s = after_open (parts.open_host h) s

  -- What `OpenSession` does under its second hold of the lock.
  unfoldable pub open_locked :
      BootstrapHandles → Service → (StatusCode × BootstrapHandles) × Service
  open_locked handles s = open_on s.session_host handles s

  -- `OpenSession` where no other call comes between its two holds of the lock, of which the first is
  -- `EnsureInitialized`.
  unfoldable pub open_service_session :
      BootstrapHandles → Service → (StatusCode × BootstrapHandles) × Service
  open_service_session handles s =
      let (status, s') = ensure_session_initialized s in
      if not (is_ok status) then ((status, handles), s') else open_locked handles s'

  abbrev pub publish_on : RpcEvent → Option R → Service → StatusCode × Service
  publish_on event none s = (peer_disconnected, s)
  publish_on event (some r) s =
      let (status, r') = parts.publish event r in (status, record s { rpc_server = some r' })

  unfoldable pub publish_event_blocking : RpcEvent → Service → StatusCode × Service
  publish_event_blocking event s =
      if not s.is_initialized || s.session_id == 0
      then (peer_disconnected, s)
      else publish_on event s.rpc_server s

  -- `InvokeAnyCall`, with what it leaves in the reply.
  unfoldable pub invoke_any_call :
      RpcServerCall → RpcReply → Service → (StatusCode × RpcReply) × Service
  invoke_any_call call reply s =
      let (status, s') = ensure_session_initialized s in
      if not (is_ok status)
      then ((status, reply), s')
      else (invoke_any_call_handler s'.any_call_handlers call, s')

  -- The first locked part of `CloseSession`: whether it goes on, and the server and the host that it takes.
  unfoldable pub begin_close : Service → Option (Option R × Option H) × Service
  begin_close s = if s.closing || not s.is_initialized then (none, s) else (
    some (s.rpc_server, s.session_host),
    record s {
      closing = true;
      event_publisher_running = false;
      rpc_server = none;
      session_host = none;
      is_initialized = false;
      session_id = 0;
    },
  )

  -- The last locked part.
  unfoldable pub end_close : Service → Service
  end_close s = record s { closing = false }

  abbrev pub stopped : Option R → Option R
  stopped none = none
  stopped (some r) = some (parts.stop r)

  abbrev pub closed_host : Option H → Option H
  closed_host none = none
  closed_host (some h) = some (parts.close_host h)

  abbrev pub close_taken : Option (Option R × Option H) → Service → (Option R × Option H) × Service
  close_taken none s = ((none, none), s)
  close_taken (some (r, h)) s = ((stopped r, closed_host h), end_close s)

  -- `CloseSession`, with the server and the host as it leaves them.
  unfoldable pub close_service_session : Service → (Option R × Option H) × Service
  close_service_session s = let (taken, s') = begin_close s in close_taken taken s'
