-- ===== src/Client/State.antt =====
-- `RpcClient::Impl` of memrpc/src/client/rpc_client.cpp: its state, the control state of its public
-- operations and the flags of its worker threads.
use mem.Prelude.{ℕ, Bool, true, false, Option, List, if◌then◌else◌}
use mem.Types.{StatusCode, ok, peer_disconnected, client_closed}
use mem.Client.{
  none, [], ApiLifecycleState, api_uninitialized, api_open, api_closing, api_closed, RecoveryPolicy,
  PendingSubmit, PendingInfo, RpcEvent, empty_policy,
}
use mem.Client.Futures.{FutureState}
use mem.Client.Store.{RequestMap}
use mem.Client.Recovery.{new_recovery, ClientRecoveryState, clear_recovery_event_callback}
use mem.Client.Transport.{new_transport, Env, ClientSessionTransport, clear_death_callback}

-- `in_hand` is the submission that the submit thread has taken off the queue and not dealt with, with
-- the info made of it then. `events` are those delivered to the event callback, `signalled` the event
-- descriptors that were signalled, and `futures` the states of all the futures made so far.
pub record RpcClient : Type 0 where
  pub control : ApiLifecycleState
  pub workers_running : Bool
  pub submit_stop_requested : Bool
  pub watchdog_stop_requested : Bool
  pub transport : ClientSessionTransport
  pub recovery : ClientRecoveryState
  pub policy : RecoveryPolicy
  pub store : RequestMap
  pub submit_queue : List PendingSubmit
  pub in_hand : Option (PendingSubmit × PendingInfo)
  pub has_event_callback : Bool
  pub events : List RpcEvent
  pub signalled : List (Option ℕ)
  pub futures : List FutureState
  pub next_request_id : ℕ
  pub last_activity_ms : ℕ

-- A client as `RpcClient`'s constructor leaves it, with a bootstrap channel or without.
abbrev pub new_client : Bool → RpcClient
new_client given = record {
  control = api_uninitialized;
  workers_running = false;
  submit_stop_requested = false;
  watchdog_stop_requested = false;
  transport = new_transport given;
  recovery = new_recovery;
  policy = empty_policy;
  store = [];
  submit_queue = [];
  in_hand = none;
  has_event_callback = false;
  events = [];
  signalled = [];
  futures = [];
  next_request_id = 1;
  last_activity_ms = 0;
}

abbrev pub control_is_open : ApiLifecycleState → Bool
control_is_open api_open = true
control_is_open _ = false

unfoldable pub is_api_open : RpcClient → Bool
is_api_open c = control_is_open c.control

abbrev pub may_ensure : ApiLifecycleState → Bool
may_ensure api_uninitialized = true
may_ensure api_open = true
may_ensure _ = false

unfoldable pub can_ensure_live_session : RpcClient → Bool
can_ensure_live_session c = may_ensure c.control

abbrev pub is_terminal : ApiLifecycleState → Bool
is_terminal api_closed = true
is_terminal _ = false

unfoldable pub is_api_terminal : RpcClient → Bool
is_api_terminal c = is_terminal c.control

abbrev pub finished : ApiLifecycleState → Bool × ApiLifecycleState
finished api_uninitialized = (true, api_open)
finished api_open = (true, api_open)
finished other = (false, other)

-- `FinishInit`
unfoldable pub finish_init : RpcClient → Bool × RpcClient
finish_init c = let (done, control) = finished c.control in (done, record c { control = control })

abbrev pub begun : ApiLifecycleState → Bool × ApiLifecycleState
begun api_closing = (false, api_closing)
begun api_closed = (false, api_closed)
begun _ = (true, api_closing)

-- `BeginShutdown` with `CanStartShutdown`
unfoldable pub begin_shutdown : RpcClient → Bool × RpcClient
begin_shutdown c =
    let (begins, control) = begun c.control in (begins, record c { control = control })

unfoldable pub finish_shutdown : RpcClient → RpcClient
finish_shutdown c = record c { control = api_closed }

-- `StartRuntime`: nothing where the workers run already.
unfoldable pub start_runtime : RpcClient → RpcClient
start_runtime c = if c.workers_running then c else record c {
  workers_running = true;
  submit_stop_requested = false;
  watchdog_stop_requested = false;
}

unfoldable pub runtime_stop_status : RpcClient → StatusCode
runtime_stop_status c = if is_api_open c then peer_disconnected else client_closed

unfoldable pub admission_status_for_invoke : RpcClient → StatusCode
admission_status_for_invoke c = if is_api_open c then ok else client_closed

unfoldable pub clear_callbacks : RpcClient → RpcClient
clear_callbacks c = record c {
  policy = empty_policy;
  recovery = clear_recovery_event_callback c.recovery;
  transport = clear_death_callback c.transport;
}

unfoldable pub touch_activity : Env → RpcClient → RpcClient
touch_activity env c = record c { last_activity_ms = env.now }

unfoldable pub current_session_id : RpcClient → ℕ
current_session_id c = c.transport.snapshot

-- `MakePendingInfo`
unfoldable pub make_pending_info : PendingSubmit → RpcClient → PendingInfo
make_pending_info s c = record {
  opcode = s.call.opcode;
  priority = s.call.priority;
  exec_timeout_ms = s.call.exec_timeout_ms;
  request_id = s.request_id;
  session_id = current_session_id c;
}

-- An update of the recovery state.
abbrev pub on_recovery : (ClientRecoveryState → ClientRecoveryState) → RpcClient → RpcClient
on_recovery f c = record c { recovery = f c.recovery }
