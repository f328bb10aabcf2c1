-- ===== src/Client.antt =====
-- memrpc/src/client/rpc_client.cpp with memrpc/include/memrpc/client/rpc_client.h: the types of the
-- client. The children model its request store, the futures, the recovery state, the transport and
-- the operations on all of them.
pub mod Futures
pub mod Store
pub mod Recovery
pub mod Transport
pub mod State
pub mod Decisions
pub mod Submit
pub mod Work
pub mod Responses
pub mod Lifecycle
pub mod Closed
mod Examples
use mem.Prelude.{ℕ, Bool, false, Option, none, List, []}
use mem.Types.{StatusCode, Priority}

-- `enum class ClientLifecycleState`
pub data ClientLifecycleState : Type 0 where
  uninitialized active no_session cooldown idle_closed recovering closed : ClientLifecycleState

pub ClientLifecycleState-discrete : Discrete ClientLifecycleState
ClientLifecycleState-discrete = hlevel

-- `enum class RpcClient::Impl::ApiLifecycleState`
pub data ApiLifecycleState : Type 0 where
  api_uninitialized api_open api_closing api_closed : ApiLifecycleState

-- `enum class ClientInitMode`
pub data ClientInitMode : Type 0 where
  eager_session lazy_session : ClientInitMode

-- `enum class RecoveryAction`
pub data RecoveryAction : Type 0 where
  ignore restart idle_close manual_shutdown : RecoveryAction

pub record RecoveryDecision : Type 0 where
  pub action : RecoveryAction
  pub delay_ms : ℕ

-- `enum class PendingRequestRecoveryAction`
pub data PendingRequestRecoveryAction : Type 0 where
  fail_with_recovery_policy resolve_peer_disconnected keep_current_state :
      PendingRequestRecoveryAction

pub record RpcCall : Type 0 where
  pub opcode : ℕ
  pub priority : Priority
  pub exec_timeout_ms : ℕ
  pub payload : List ℕ

pub record RpcReply : Type 0 where
  pub status : StatusCode
  pub payload : List ℕ

abbrev pub status_reply : StatusCode → RpcReply
status_reply s = record { status = s; payload = [] }

pub record RpcFailure : Type 0 where
  pub status : StatusCode
  pub opcode : ℕ
  pub priority : Priority
  pub exec_timeout_ms : ℕ
  pub request_id : ℕ
  pub session_id : ℕ

pub record EngineDeathReport : Type 0 where
  pub dead_session_id : ℕ

-- `struct RecoveryPolicy`: `none` for an empty function.
pub record RecoveryPolicy : Type 0 where
  pub on_failure : Option (RpcFailure → RecoveryDecision)
  pub on_idle : Option (ℕ → RecoveryDecision)
  pub on_engine_death : Option (EngineDeathReport → RecoveryDecision)

abbrev pub empty_policy : RecoveryPolicy
empty_policy = record { on_failure = none; on_idle = none; on_engine_death = none }

pub record ExternalRecoveryRequest : Type 0 where
  pub session_id : ℕ
  pub delay_ms : ℕ

pub record RecoveryRuntimeSnapshot : Type 0 where
  pub lifecycle_state : ClientLifecycleState
  pub recovery_pending : Bool
  pub cooldown_remaining_ms : ℕ
  pub current_session_id : ℕ

pub record RecoveryEventReport : Type 0 where
  pub previous_state : ClientLifecycleState
  pub state : ClientLifecycleState
  pub recovery_pending : Bool
  pub cooldown_delay_ms : ℕ
  pub cooldown_remaining_ms : ℕ
  pub session_id : ℕ
  pub monotonic_ms : ℕ

-- `struct RpcEvent`
pub record RpcEvent : Type 0 where
  pub event_domain : ℕ
  pub event_type : ℕ
  pub flags : ℕ
  pub payload : List ℕ

-- `struct PendingSubmit`. A future is its index among those that the client has made.
pub record PendingSubmit : Type 0 where
  pub call : RpcCall
  pub request_id : ℕ
  pub future : ℕ

pub record PendingInfo : Type 0 where
  pub opcode : ℕ
  pub priority : Priority
  pub exec_timeout_ms : ℕ
  pub request_id : ℕ
  pub session_id : ℕ

-- `struct PendingRequest`: `none` for a deadline of `time_point::max()`.
pub record PendingRequest : Type 0 where
  pub future : ℕ
  pub info : PendingInfo
  pub wait_deadline : Option ℕ
