-- ===== src/Client/Decisions.antt =====
-- The recovery decisions of `RpcClient::Impl` (memrpc/src/client/rpc_client.cpp): what a failure, an
-- idle period, a request from outside and the engine's death do to the session and to the requests
-- that are waiting.
use mem.Prelude.{ℕ, zero, suc, not, Option, none, some, List, [], ◌∷◌, if◌then◌else◌, ◌==◌}
use mem.Types.{StatusCode, ok, peer_disconnected, cooldown_active, client_closed}
use mem.Client.{
  RecoveryAction, ignore, restart, idle_close, manual_shutdown, RecoveryDecision,
  PendingRequestRecoveryAction, fail_with_recovery_policy, resolve_peer_disconnected,
  keep_current_state, RpcFailure, status_reply, PendingInfo, PendingRequest,
}
use mem.Client.Futures.{resolve_state}
use mem.Client.Store.{take_all}
use mem.Client.Recovery.{
  begin_session_open, finalize_session_open, enter_no_session, enter_idle_closed,
  enter_terminal_closed, handle_session_open_failure, start_recovery, is_cooling_down,
  notify_recovery_state_changed,
}
use mem.Client.Transport.{Env, has_live_session, open_session, close_live_session, close_if_matches}
use mem.Client.State.{
  RpcClient, is_api_open, can_ensure_live_session, touch_activity, current_session_id, on_recovery,
}

module _ (env : Env) where
  -- A status of `OpenSession` and what follows in `OpenSessionLocked` and `EnsureLiveSessionLocked`.
  abbrev pub after_open : StatusCode → RpcClient → StatusCode × RpcClient
  after_open ok c =
      let c' = touch_activity env c in
      (ok, on_recovery (finalize_session_open env.now (current_session_id c')) c')
  after_open status c =
      (status, on_recovery (handle_session_open_failure env.now (current_session_id c)) c)

  unfoldable pub open_session_locked : RpcClient → StatusCode × RpcClient
  open_session_locked c =
      let (status, t) = open_session env c.transport in
      after_open status (record c { transport = t })

  -- `EnsureLiveSessionLocked`
  unfoldable pub ensure_live_session : RpcClient → StatusCode × RpcClient
  ensure_live_session c =
      if not (can_ensure_live_session c)
      then (client_closed, c)
      else if is_cooling_down env.now c.recovery
      then (cooldown_active, c)
      else if has_live_session c.transport
      then (ok, c)
      else open_session_locked (
          on_recovery (begin_session_open env.now c.recovery.lifecycle_state (current_session_id c))
            c)

  -- `CloseLiveSessionLocked`, which `CloseLiveSessionForTransportFailure` calls under the lock.
  unfoldable pub close_live_session_locked : RpcClient → RpcClient
  close_live_session_locked c =
      on_recovery notify_recovery_state_changed
        (record c { transport = close_live_session env c.transport })

  unfoldable pub close_and_enter_idle_closed : ℕ → RpcClient → RpcClient
  close_and_enter_idle_closed observed c =
      if not (is_api_open c)
      then c
      else let c' = record c { transport = close_if_matches env observed c.transport } in
        on_recovery (enter_idle_closed env.now (current_session_id c')) c'

  unfoldable pub enter_no_session_without_live_session : RpcClient → RpcClient
  enter_no_session_without_live_session c =
      if not (is_api_open c)
      then c
      else on_recovery (enter_no_session env.now (current_session_id c)) c

  unfoldable pub close_and_enter_terminal_closed : RpcClient → RpcClient
  close_and_enter_terminal_closed c =
      let c' = close_live_session_locked c in
      on_recovery (enter_terminal_closed env.now (current_session_id c')) c'

  -- `ResolveState` on a future of the client.
  unfoldable pub resolve_future : ℕ → StatusCode → RpcClient → RpcClient
  resolve_future future status c = record c {
    futures = resolve_state future (status_reply status) c.futures;
  }

  abbrev pub resolve_each : StatusCode → List PendingRequest → RpcClient → RpcClient
  resolve_each status [] c = c
  resolve_each status (p ∷ ps) c = resolve_each status ps (resolve_future p.future status c)

  -- `ResolveAllPending`
  unfoldable pub resolve_all_pending : StatusCode → RpcClient → RpcClient
  resolve_all_pending status c =
      let (ps, m) = take_all c.store in resolve_each status ps (record c { store = m })

  -- `MaybeReconnectImmediatelyLocked`
  unfoldable pub maybe_reconnect_immediately : ℕ → RpcClient → RpcClient
  maybe_reconnect_immediately delay_ms c = if delay_ms == 0 then (ensure_live_session c).1 else c

  -- A failed request may decide on a recovery that fails all the requests that are waiting. `fail`
  -- stands for that inner call, on which `fail_all_pending` closes the circle.
  module _ (fail : RpcClient → RpcClient) where
    -- `HandlePendingRequestsForRecoveryLocked`
    abbrev pub handle_pending_requests : PendingRequestRecoveryAction → RpcClient → RpcClient
    handle_pending_requests fail_with_recovery_policy c = fail c
    handle_pending_requests resolve_peer_disconnected c = resolve_all_pending peer_disconnected c
    handle_pending_requests keep_current_state c = c

    -- `ScheduleRecoveryLocked`
    unfoldable pub schedule_recovery : ℕ → ℕ → PendingRequestRecoveryAction → RpcClient → RpcClient
    schedule_recovery observed delay_ms action c =
        if not (is_api_open c)
        then c
        else let started = on_recovery (start_recovery env.now delay_ms observed) c in
          let closed_session = record started {
            transport = close_if_matches env observed started.transport;
          } in
          maybe_reconnect_immediately delay_ms (handle_pending_requests action closed_session)

    abbrev pub act : RecoveryAction → ℕ → ℕ → PendingRequestRecoveryAction → RpcClient → RpcClient
    act ignore delay_ms observed pending c = c
    act idle_close delay_ms observed pending c = close_and_enter_idle_closed observed c
    act manual_shutdown delay_ms observed pending c = c
    act restart delay_ms observed pending c = schedule_recovery observed delay_ms pending c

    -- `ApplyRecoveryDecisionLocked`
    unfoldable pub apply_recovery_decision :
        RecoveryDecision → ℕ → PendingRequestRecoveryAction → RpcClient → RpcClient
    apply_recovery_decision d observed pending c =
        if not (is_api_open c) then c else act d.action d.delay_ms observed pending c

    -- `BuildFailureReport`
    abbrev pub build_failure_report : PendingInfo → StatusCode → RpcFailure
    build_failure_report info status = record {
      status = status;
      opcode = info.opcode;
      priority = info.priority;
      exec_timeout_ms = info.exec_timeout_ms;
      request_id = info.request_id;
      session_id = info.session_id;
    }

    abbrev pub on_failure_policy :
        Option (RpcFailure → RecoveryDecision) → PendingInfo → StatusCode → RpcClient → RpcClient
    on_failure_policy none info status c = c
    on_failure_policy (some f) info status c =
        apply_recovery_decision (f (build_failure_report info status)) info.session_id
          fail_with_recovery_policy c

    -- `ApplyFailureRecoveryDecisionLocked`
    unfoldable pub apply_failure_decision : PendingInfo → StatusCode → RpcClient → RpcClient
    apply_failure_decision info status c =
        if not (is_api_open c)
        then c
        else if not (current_session_id c == info.session_id)
        then c
        else on_failure_policy c.policy.on_failure info status c

    -- `FailAndResolveLocked`
    unfoldable pub fail_and_resolve_with : PendingInfo → StatusCode → ℕ → RpcClient → RpcClient
    fail_and_resolve_with info status future c =
        resolve_future future status (apply_failure_decision info status c)

    abbrev pub fail_each : StatusCode → List PendingRequest → RpcClient → RpcClient
    fail_each status [] c = c
    fail_each status (p ∷ ps) c =
        fail_each status ps (fail_and_resolve_with p.info status p.future c)

  -- `FailAllPendingWithRecoveryPolicyLocked`, whose inner calls find no request waiting any more:
  -- the first argument bounds their depth.
  unfoldable pub fail_all_pending_within : ℕ → StatusCode → RpcClient → RpcClient
  fail_all_pending_within zero status c = c
  fail_all_pending_within (suc n) status c =
      let (ps, m) = take_all c.store in
      fail_each (fail_all_pending_within n peer_disconnected) status ps (record c { store = m })

  abbrev pub fail_waiting : RpcClient → RpcClient
  fail_waiting = fail_all_pending_within 2 peer_disconnected

  -- `FailAllPendingWithRecoveryPolicy`
  unfoldable pub fail_all_pending : StatusCode → RpcClient → RpcClient
  fail_all_pending status c = fail_all_pending_within 2 status c

  -- `FailAndResolve`
  unfoldable pub fail_and_resolve : PendingInfo → StatusCode → ℕ → RpcClient → RpcClient
  fail_and_resolve = fail_and_resolve_with fail_waiting
