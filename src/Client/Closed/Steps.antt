-- ===== src/Client/Closed/Steps.antt =====
-- Every step of a client whose `Shutdown` has begun (memrpc/src/client/rpc_client.cpp), the parts of
-- `Init` and `Shutdown` included, keeps it down.
use mathlib.Core.Path.{subst}
use mem.Prelude.{inl, inr, sym, ◌≡◌, refl, ap, ◌∙◌, arith, if-kept}
use mem.Types.{client_closed, StatusCode, exec_timeout}
use mem.Client.{eager_session, lazy_session, ClientInitMode}
use mem.Client.Closed.{
  Side, side, Still, fail_each-Still, take_submit-Still, abort-Still, round-Still,
}
use mem.Client.Closed.Ends.{stop-Still, outstanding-Still}
use mem.Client.Closed.Moves.{
  IsDown, part, whole, Moves, down-shut, down-ensure, down-begun, down-finished, similar,
  Still-Moves, prepared-Moves, round-control,
}
use mem.Client.Closed.Responses.{drain-Still}
use mem.Client.Decisions.{
  ensure_live_session, fail_waiting, resolve_future, close_and_enter_terminal_closed,
  close_live_session_locked,
}
use mem.Client.Lifecycle.{
  initial_state, prepare_init, start, restart_init, do_prepare_init, do_start_threads,
  do_finish_init, do_begin_shutdown, do_close_session, do_clear_callbacks, do_stop_threads,
  do_fail_outstanding, do_finish_shutdown, Op, step, init, shutdown, do_init, do_invoke,
  do_take_submit, do_ensure, do_pending_timeouts, do_idle, do_shutdown, do_submit_round,
  do_abort_submit, do_response, do_engine_death, do_external_recovery, do_health_check,
  do_set_policy,
}
use mem.Client.Recovery.{
  prepare_for_init_open, enter_terminal_closed, clear_recovery_event_callback, transition_lifecycle,
  apply_transition, dispatch_recovery_event, notify_recovery_state_changed,
}
use mem.Client.Responses.{
  maybe_run_pending_timeouts, maybe_run_idle_policy, request_external_recovery,
  handle_external_recovery, maybe_run_health_check, handle_engine_death,
}
use mem.Client.State.{
  is_terminal, start_runtime, finish_init, finish_shutdown, RpcClient, is_api_open, is_api_terminal,
  can_ensure_live_session, begin_shutdown, clear_callbacks, admission_status_for_invoke,
}
use mem.Client.Store.{take_expired}
use mem.Client.Submit.{invoke_async, reject_invoke}
use mem.Client.Transport.{Env, close_live_session, clear_death_callback}

module _ (env : Env) where
  ensure-down : (c : RpcClient) → IsDown c.control → ensure_live_session env c ≡ (client_closed, c)
  unfolding ensure_live_session can_ensure_live_session
  ensure-down c down = rw (down-ensure c.control down) refl

  shutdown-down : (c : RpcClient) → IsDown c.control → shutdown env c ≡ c
  unfolding shutdown begin_shutdown
  shutdown-down c down = rw (down-begun c.control down) refl

  runtime-side : (c : RpcClient) → Still c (start_runtime c)
  unfolding start_runtime
  runtime-side c = ground arith

  finish-down : (c : RpcClient) → IsDown c.control → Still c (finish_init c).1
  unfolding finish_init
  finish-down c down = rw (down-finished c.control down) refl

  start-down :
      (mode : ClientInitMode) (c : RpcClient) → IsDown c.control → Still c (start env mode c).1
  start-down eager_session c down =
      rw (ensure-down c down) (ap (λ (d : RpcClient). side d) (shutdown-down c down))
  start-down lazy_session c down = finish-down c down

  restart-down :
      (mode : ClientInitMode) (c : RpcClient)
      → IsDown c.control
      → Still c (restart_init env mode c).1
  restart-down eager_session c down = rw (ensure-down c down) refl
  restart-down lazy_session c down = refl

  prepared-side :
      (mode : ClientInitMode) (c : RpcClient)
      → side (start_runtime (prepare_init env mode c))
        ≡ record (side c) { lifecycle = initial_state env mode }
  unfolding prepare_init prepare_for_init_open
  prepared-side mode c = runtime-side (prepare_init env mode c)

  started :
      (mode : ClientInitMode) (c : RpcClient)
      → IsDown c.control
      → side (start env mode (start_runtime (prepare_init env mode c))).1
        ≡ record (side c) { lifecycle = initial_state env mode }
  started mode c down =
      let e = prepared-side mode c in
      start-down mode _ (subst IsDown (sym (ap (λ (s : Side). s.control) e)) down) ∙ e

  init-Moves :
      (mode : ClientInitMode) (c : RpcClient)
      → IsDown c.control
      → Moves (do_init mode) (side c) (side (init env mode c).1)
  unfolding init is_api_terminal
  init-Moves mode c (inr e) = Still-Moves (do_init mode) c (init env mode c).1 (inr e) (rw e refl)
  init-Moves mode c (inl e) =
      if-kept (is_terminal c.control)
        (λ (r : StatusCode × RpcClient). Moves (do_init mode) (side c) (side r.1))
        (Still-Moves (do_init mode) c c (inl e) refl)
        (if-kept c.workers_running
          (λ (r : StatusCode × RpcClient). Moves (do_init mode) (side c) (side r.1))
          (Still-Moves (do_init mode) c (restart_init env mode c).1 (inl e)
            (restart-down mode c (inl e)))
          (let s = started mode c (inl e) in
            prepared-Moves (do_init mode) c
              (start env mode (start_runtime (prepare_init env mode c))).1 (inl e)
              (ap (λ (x : Side). x.control) s) (ap (λ (x : Side). x.snapshot) s)
              (inr (whole mode e refl))))

  closed-Moves :
      (c : RpcClient)
      → IsDown c.control
      → Moves do_close_session (side c) (side (close_and_enter_terminal_closed env c))
  unfolding close_and_enter_terminal_closed close_live_session_locked close_live_session
      enter_terminal_closed transition_lifecycle apply_transition dispatch_recovery_event
      notify_recovery_state_changed
  closed-Moves c down = record {
    down = down;
    final = λ e. e;
    gone = λ e. ground (arith, e);
    ended = λ e l. inl (ground arith);
  }

  -- Every step of a client that is down keeps it so.
  pub step-Moves :
      (op : Op) (c : RpcClient) → IsDown c.control → Moves op (side c) (side (step env op c))
  unfolding step invoke_async admission_status_for_invoke is_api_open prepare_init reject_invoke
      resolve_future maybe_run_pending_timeouts maybe_run_idle_policy begin_shutdown finish_shutdown
      request_external_recovery handle_external_recovery maybe_run_health_check handle_engine_death
      clear_callbacks clear_recovery_event_callback clear_death_callback prepare_for_init_open
  step-Moves (do_init mode) c d = init-Moves mode c d
  step-Moves (do_invoke call) c d =
      Still-Moves (do_invoke call) c (invoke_async env call c).1 d (rw (down-shut c.control d) refl)
  step-Moves do_take_submit c d =
      Still-Moves do_take_submit c (step env do_take_submit c) d (take_submit-Still env c)
  step-Moves do_ensure c d =
      Still-Moves do_ensure c (step env do_ensure c) d
        (ap (λ (r : StatusCode × RpcClient). side r.1) (ensure-down c d))
  step-Moves do_pending_timeouts c d =
      Still-Moves do_pending_timeouts c (step env do_pending_timeouts c) d (
        fail_each-Still env (fail_waiting env) exec_timeout (take_expired env.now c.store).0
          (record c { store = (take_expired env.now c.store).1 }) (down-shut c.control d))
  step-Moves do_idle c d =
      Still-Moves do_idle c (maybe_run_idle_policy env c) d (rw (down-shut c.control d) refl)
  step-Moves do_shutdown c d =
      Still-Moves do_shutdown c (step env do_shutdown c) d
        (ap (λ (x : RpcClient). side x) (shutdown-down c d))
  step-Moves (do_submit_round credit later prepared) c d =
      similar (do_submit_round credit later prepared) c
        (step env (do_submit_round credit later prepared) c) d
        (round-control env credit later prepared c (down-shut c.control d))
        (λ e. round-Still env credit later prepared c (down-shut c.control d, e))
  step-Moves (do_abort_submit status) c d =
      Still-Moves (do_abort_submit status) c (step env (do_abort_submit status) c) d
        (abort-Still env status c (down-shut c.control d))
  step-Moves (do_response file) c d =
      Still-Moves (do_response file) c (step env (do_response file) c) d
        (drain-Still env file c (down-shut c.control d))
  step-Moves (do_engine_death observed dead) c d =
      Still-Moves (do_engine_death observed dead) c (handle_engine_death env observed dead c) d
        (rw (down-shut c.control d) refl)
  step-Moves (do_external_recovery request) c d =
      Still-Moves (do_external_recovery request) c (request_external_recovery env request c) d
        (rw (down-shut c.control d) refl)
  step-Moves (do_health_check answer) c d =
      Still-Moves (do_health_check answer) c (maybe_run_health_check env answer c) d
        (rw (down-shut c.control d) refl)
  step-Moves (do_set_policy policy) c d =
      Still-Moves (do_set_policy policy) c (step env (do_set_policy policy) c) d refl
  step-Moves (do_prepare_init mode) c d =
      prepared-Moves (do_prepare_init mode) c (step env (do_prepare_init mode) c) d refl refl
        (inr (part mode refl))
  step-Moves do_start_threads c d =
      Still-Moves do_start_threads c (step env do_start_threads c) d (runtime-side c)
  step-Moves do_finish_init c d =
      Still-Moves do_finish_init c (step env do_finish_init c) d (finish-down c d)
  step-Moves do_begin_shutdown c d =
      Still-Moves do_begin_shutdown c (begin_shutdown c).1 d (rw (down-begun c.control d) refl)
  step-Moves do_close_session c d = closed-Moves c d
  step-Moves do_clear_callbacks c d =
      Still-Moves do_clear_callbacks c (step env do_clear_callbacks c) d refl
  step-Moves do_stop_threads c d =
      Still-Moves do_stop_threads c (step env do_stop_threads c) d
        (stop-Still env c (down-shut c.control d))
  step-Moves do_fail_outstanding c d =
      Still-Moves do_fail_outstanding c (step env do_fail_outstanding c) d
        (outstanding-Still env client_closed c (down-shut c.control d))
  step-Moves do_finish_shutdown c d = record {
    down = inr refl;
    final = λ e. refl;
    gone = λ e. e;
    ended = λ e l. inl l;
  }
