-- ===== src/Client/Lifecycle.antt =====
-- `RpcClient::Init` and `Shutdown` of memrpc/src/client/rpc_client.cpp, and the steps of a client, in
-- any order that the threads may take. `Init` and `Shutdown` hold no lock over their whole bodies, so
-- each of their parts is a step too, and other steps may come between the parts.
use mem.Prelude.{ℕ, Bool, true, false, not, Option, List, [], ◌∷◌, if◌then◌else◌}
use mem.Types.{StatusCode, ok, client_closed}
use mem.Client.{
  RpcCall, ClientInitMode, eager_session, lazy_session, uninitialized, idle_closed, RecoveryPolicy,
  ExternalRecoveryRequest,
}
use mem.Client.Recovery.{prepare_for_init_open, notify_recovery_state_changed}
use mem.Client.Transport.{Env}
use mem.Client.State.{
  RpcClient, is_api_terminal, finish_init, begin_shutdown, finish_shutdown, start_runtime,
  clear_callbacks, on_recovery,
}
use mem.Client.Decisions.{ensure_live_session, close_and_enter_terminal_closed, fail_all_pending}
use mem.Client.Submit.{
  invoke_async, take_submit, submit_round, abort_submit, drain_submits, fail_queued_submissions,
}
use mem.Client.Responses.{
  drain_response, handle_engine_death, request_external_recovery, maybe_run_pending_timeouts,
  maybe_run_idle_policy, ChannelHealthStatus, maybe_run_health_check,
}

module _ (env : Env) where
  -- `StopThreads`: the submit thread is joined, so it has dealt with what it had.
  unfoldable pub stop_threads : RpcClient → RpcClient
  stop_threads c =
      if not c.workers_running
      then c
      else drain_submits env (
          on_recovery notify_recovery_state_changed (record c {
            workers_running = false;
            submit_stop_requested = true;
            watchdog_stop_requested = true;
          }))

  -- `FailOutstandingWork`
  unfoldable pub fail_outstanding_work : StatusCode → RpcClient → RpcClient
  fail_outstanding_work status c =
      fail_queued_submissions env status (fail_all_pending env status c)

  -- `Shutdown`
  unfoldable pub shutdown : RpcClient → RpcClient
  shutdown c =
      let (begins, c') = begin_shutdown c in
      if not begins
      then c'
      else finish_shutdown (
          fail_outstanding_work client_closed
            (stop_threads (clear_callbacks (close_and_enter_terminal_closed env c'))))

  abbrev pub initial_state : ClientInitMode → mem.Client.ClientLifecycleState
  initial_state lazy_session = idle_closed
  initial_state eager_session = uninitialized

  abbrev pub finish : RpcClient → StatusCode × RpcClient
  finish c = let (done, c') = finish_init c in (if done then ok else client_closed, c')

  abbrev pub opened : StatusCode × RpcClient → StatusCode × RpcClient
  opened (ok, c) = finish c
  opened (status, c) = (status, shutdown c)

  abbrev pub start : ClientInitMode → RpcClient → StatusCode × RpcClient
  start eager_session c = opened (ensure_live_session env c)
  start lazy_session c = finish c

  abbrev pub restart_init : ClientInitMode → RpcClient → StatusCode × RpcClient
  restart_init eager_session c = ensure_live_session env c
  restart_init lazy_session c = (ok, c)

  -- `Init` up to `PrepareForInitOpen`, after its tests
  unfoldable pub prepare_init : ClientInitMode → RpcClient → RpcClient
  prepare_init mode c =
      on_recovery (prepare_for_init_open (initial_state mode))
        (record c { last_activity_ms = env.now })

  -- `Init`
  unfoldable pub init : ClientInitMode → RpcClient → StatusCode × RpcClient
  init mode c =
      if is_api_terminal c
      then (client_closed, c)
      else if c.workers_running
      then restart_init mode c
      else start mode (start_runtime (prepare_init mode c))

-- The operations of a client, of its users and of its threads. The parameters are what comes from
-- outside: the state of the session at the second test of a push, the transport's form of a payload,
-- the file behind a response, the answer to a health check. The last steps are the parts of `Init`
-- (`PrepareForInitOpen`, `StartThreads`, `FinishInit`; `do_ensure` is the one between them) and of
-- `Shutdown`, in its order.
pub data Op : Type 0 where
  do_init : ClientInitMode → Op
  do_invoke : RpcCall → Op
  do_take_submit do_ensure do_pending_timeouts do_idle do_shutdown : Op
  do_submit_round : Bool → ℕ → Option (List ℕ × ℕ) → Op
  do_abort_submit : StatusCode → Op
  do_response : Option (List ℕ) → Op
  do_engine_death : ℕ → ℕ → Op
  do_external_recovery : ExternalRecoveryRequest → Op
  do_health_check : (ℕ → ChannelHealthStatus) → Op
  do_set_policy : RecoveryPolicy → Op
  do_prepare_init : ClientInitMode → Op
  do_start_threads do_finish_init : Op
  do_begin_shutdown do_close_session do_clear_callbacks do_stop_threads : Op
  do_fail_outstanding do_finish_shutdown : Op

unfoldable pub step : Env → Op → RpcClient → RpcClient
step env (do_init mode) c = (init env mode c).1
step env (do_invoke call) c = (invoke_async env call c).1
step env do_take_submit c = take_submit env c
step env do_ensure c = (ensure_live_session env c).1
step env do_pending_timeouts c = maybe_run_pending_timeouts env c
step env do_idle c = maybe_run_idle_policy env c
step env do_shutdown c = shutdown env c
step env (do_submit_round credit later prepared) c = submit_round env credit later prepared c
step env (do_abort_submit status) c = abort_submit env status c
step env (do_response file) c = drain_response env file c
step env (do_engine_death observed dead) c = handle_engine_death env observed dead c
step env (do_external_recovery request) c = request_external_recovery env request c
step env (do_health_check answer) c = maybe_run_health_check env answer c
step env (do_set_policy policy) c = record c { policy = policy }
step env (do_prepare_init mode) c = prepare_init env mode c
step env do_start_threads c = start_runtime c
step env do_finish_init c = (finish_init c).1
step env do_begin_shutdown c = (begin_shutdown c).1
step env do_close_session c = close_and_enter_terminal_closed env c
step env do_clear_callbacks c = clear_callbacks c
step env do_stop_threads c = stop_threads env c
step env do_fail_outstanding c = fail_outstanding_work env client_closed c
step env do_finish_shutdown c = finish_shutdown c

abbrev pub run : List (Env × Op) → RpcClient → RpcClient
run [] c = c
run ((env, op) ∷ ops) c = run ops (step env op c)
