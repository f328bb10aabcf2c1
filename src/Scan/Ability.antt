-- ===== src/Scan/Ability.antt =====
-- `class VirusExecutorService` of virus_executor_service/src/service/virus_executor_service.cpp, the system ability
-- around the session service. The framework's own calls, the registration of the testkit and `ClearFilePayloads`
-- in `OnStart` are left out.
use mem.Prelude.{ℕ, ◌+◌, Bool, true, false, not, Option, none, some, [], if◌then◌else◌, ◌==◌, leb}
use mem.Types.{StatusCode, ok, peer_disconnected, invalid_argument, BootstrapHandles}
use mem.Client.{RpcReply, status_reply}
use mem.Session.{is_ok}
use mem.Server.State.{RpcServerCall}
use mem.Server.Lifecycle.{RpcServerRuntimeStats}
use mem.Scan.{VesOpenSessionRequest}
use mem.Scan.Engines.{VesEngineService, initialize, configure_engines, reset_engines}
use mem.Scan.Sessions.{
  Parts, EngineSessionService, open_service_session, close_service_session, invoke_any_call,
}

pub data VesHeartbeatStatus : Type 0 where
  ok_idle ok_busy degraded_long_running unhealthy_no_session : VesHeartbeatStatus
  unhealthy_stopping unhealthy_internal_error : VesHeartbeatStatus

pub data VesHeartbeatReasonCode : Type 0 where
  reason_none busy long_running no_session stopping_reason internal_error : VesHeartbeatReasonCode

-- The text of the current task.
pub data CurrentTask : Type 0 where
  no_task idle_task active_task : CurrentTask

-- The reserved words are left out, they stay 0.
pub record VesHeartbeatReply : Type 0 where
  pub version : ℕ
  pub status : VesHeartbeatStatus
  pub reason_code : VesHeartbeatReasonCode
  pub session_id : ℕ
  pub in_flight : ℕ
  pub last_task_age_ms : ℕ
  pub current_task : CurrentTask
  pub flags : ℕ

abbrev pub new_reply : VesHeartbeatReply
new_reply = record {
  version = 2;
  status = unhealthy_no_session;
  reason_code = no_session;
  session_id = 0;
  in_flight = 0;
  last_task_age_ms = 0;
  current_task = no_task;
  flags = 0;
}

-- Flags are different bits, so that `|` adds them.
abbrev pub flag_has_session : ℕ
flag_has_session = 1

abbrev pub flag_initialized : ℕ
flag_initialized = 2

abbrev pub flag_busy : ℕ
flag_busy = 4

abbrev pub flag_long_running : ℕ
flag_long_running = 8

abbrev pub long_running_request_threshold_ms : ℕ
long_running_request_threshold_ms = 100

unfoldable pub populate_healthy_reply :
    RpcServerRuntimeStats → ℕ → VesHeartbeatReply → VesHeartbeatReply
populate_healthy_reply stats session_id reply =
    let filled = record reply {
      session_id = session_id;
      flags = flag_has_session + flag_initialized;
      in_flight = stats.active_request_executions;
      last_task_age_ms = stats.oldest_execution_age_ms;
    } in
    if stats.active_request_executions == 0
    then record filled { status = ok_idle; reason_code = reason_none; current_task = idle_task }
    else if leb long_running_request_threshold_ms stats.oldest_execution_age_ms
    then record filled {
      status = degraded_long_running;
      reason_code = long_running;
      current_task = active_task;
      flags = flag_has_session + flag_initialized + flag_busy + flag_long_running;
    }
    else record filled {
      status = ok_busy;
      reason_code = busy;
      current_task = active_task;
      flags = flag_has_session + flag_initialized + flag_busy;
    }

pub record VirusExecutorService (H R : Type 0) : Type 0 where
  pub stopping : Bool
  pub session_service : Option (EngineSessionService H R)
  pub service : VesEngineService
  pub published : Bool
  pub unload_requested : Bool

abbrev pub new_session_service : {H R : Type 0} → EngineSessionService H R
new_session_service = record {
  closing = false;
  is_initialized = false;
  session_host = none;
  rpc_server = none;
  session_id = 0;
  event_publisher_running = false;
  any_call_handlers = [];
}

abbrev pub no_stats : RpcServerRuntimeStats
no_stats = record {
  completion_backlog = 0;
  completion_backlog_capacity = 0;
  high_request_ring_pending = 0;
  normal_request_ring_pending = 0;
  response_ring_pending = 0;
  active_request_executions = 0;
  oldest_execution_age_ms = 0;
}

-- `stats` is what a server answers about its work.
module _ {H R : Type 0} (parts : Parts H R) (stats : R → RpcServerRuntimeStats) where
  -- `EngineSessionService::GetRuntimeStats`
  abbrev pub session_stats : Option R → RpcServerRuntimeStats
  session_stats none = no_stats
  session_stats (some r) = stats r

  abbrev pub without_session : VesEngineService → VesHeartbeatReply
  without_session service = record new_reply {
    flags = if service.is_initialized then flag_initialized else 0;
    current_task = idle_task;
  }

  abbrev pub with_session : VesEngineService → EngineSessionService H R → VesHeartbeatReply
  with_session service s =
      if not service.is_initialized
      then record new_reply { status = unhealthy_internal_error; reason_code = internal_error }
      else if s.session_id == 0
      then record new_reply {
        flags = flag_initialized;
        status = unhealthy_no_session;
        reason_code = no_session;
      }
      else populate_healthy_reply (session_stats s.rpc_server) s.session_id new_reply

  abbrev pub answer_heartbeat :
      VesEngineService → Option (EngineSessionService H R) → VesHeartbeatReply
  answer_heartbeat service none = without_session service
  answer_heartbeat service (some s) = with_session service s

  -- `Heartbeat`, whose status is always `Ok`.
  unfoldable pub heartbeat : VirusExecutorService H R → VesHeartbeatReply
  heartbeat v =
      if v.stopping
      then record new_reply { status = unhealthy_stopping; reason_code = stopping_reason }
      else answer_heartbeat v.service v.session_service

  abbrev pub open_in :
      Option (EngineSessionService H R)
      → BootstrapHandles
      → VirusExecutorService H R
      → (StatusCode × BootstrapHandles) × VirusExecutorService H R
  open_in none handles v = ((invalid_argument, handles), v)
  open_in (some s) handles v =
      let (answer, s') = open_service_session parts handles s in
      (answer, record v { session_service = some s' })

  -- `OpenSession`
  unfoldable pub open_ability_session :
      VesOpenSessionRequest
      → BootstrapHandles
      → VirusExecutorService H R
      → (StatusCode × BootstrapHandles) × VirusExecutorService H R
  open_ability_session request handles v =
      let (status, service) = configure_engines request v.service in
      let v' = record v { service = service } in
      if v.stopping
      then ((peer_disconnected, handles), v)
      else if not (is_ok status)
      then ((status, handles), v')
      else open_in v'.session_service handles v'

  abbrev pub close_in : Option (EngineSessionService H R) → Option (EngineSessionService H R)
  close_in none = none
  close_in (some s) = some (close_service_session parts s).1

  -- `CloseSession`, whose status is always `Ok`.
  unfoldable pub close_ability_session : VirusExecutorService H R → VirusExecutorService H R
  close_ability_session v = record v { session_service = close_in v.session_service }

  unfoldable pub on_start : VirusExecutorService H R → VirusExecutorService H R
  on_start v = record {
    stopping = false;
    session_service = some new_session_service;
    service = initialize v.service;
    published = false;
    unload_requested = false;
  }

  -- `OnStop`: the session service is closed and given up.
  unfoldable pub on_stop : VirusExecutorService H R → VirusExecutorService H R
  on_stop v = record v {
    stopping = true;
    session_service = none;
    service = reset_engines v.service;
  }

  abbrev pub call_in :
      Option (EngineSessionService H R)
      → RpcServerCall
      → VirusExecutorService H R
      → RpcReply × VirusExecutorService H R
  call_in none call v = (status_reply peer_disconnected, v)
  call_in (some s) call v =
      let ((status, reply), s') = invoke_any_call parts call (status_reply ok) s in
      (record { status = status; payload = reply.payload }, record v { session_service = some s' })

  -- `AnyCall`, whose status is always `Ok`: its reply.
  unfoldable pub any_call :
      RpcServerCall → VirusExecutorService H R → RpcReply × VirusExecutorService H R
  any_call call v =
      if v.stopping
      then (status_reply peer_disconnected, v)
      else if not v.service.is_initialized
      then (status_reply peer_disconnected, v)
      else call_in v.session_service call v
