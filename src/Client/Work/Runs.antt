-- ===== src/Client/Work/Runs.antt =====
-- `Init`, `Shutdown` and `InvokeAsync` (memrpc/src/client/rpc_client.cpp) keep every steady property of
-- the outstanding work, and so does every step of a client.
use mathlib.Core.Path.{subst}
use mem.Prelude.{ℕ, ◌≡◌, sym, not, List, [], ◌∷◌, ◌++◌, arith, length, add64, if-kept}
use mem.Types.{StatusCode, ok, client_closed, peer_disconnected}
use mem.Client.{RpcCall, PendingInfo, ClientInitMode, eager_session, lazy_session}
use mem.Client.Futures.{new_future}
use mem.Client.Transport.{Env}
use mem.Client.State.{
  RpcClient, is_api_terminal, begin_shutdown, finish_shutdown, clear_callbacks, start_runtime,
  finish_init, admission_status_for_invoke,
}
use mem.Client.Decisions.{
  ensure_live_session, close_and_enter_terminal_closed, close_live_session_locked, fail_all_pending,
  fail_waiting,
}
use mem.Client.Submit.{invoke_async, admit_invoke, reject_invoke, enqueue_submit, decide_on_reject}
use mem.Client.Lifecycle.{
  stop_threads, fail_outstanding_work, shutdown, finish, opened, start, restart_init, init, Op,
  step, do_init, do_invoke, do_take_submit, do_ensure, do_pending_timeouts, do_idle, do_shutdown,
  do_submit_round, do_abort_submit, do_response, do_engine_death, do_external_recovery,
  do_health_check, do_set_policy, do_prepare_init, do_start_threads, do_finish_init,
  do_begin_shutdown, do_close_session, do_clear_callbacks, do_stop_threads, do_fail_outstanding,
  do_finish_shutdown, prepare_init,
}
use mem.Client.Work.{Work, work, Steady}
use mem.Client.Work.Decisions.{ensure-work, fail_all-kept, failure-kept, resolve-kept}
use mem.Client.Work.Steps.{
  drain_submits-kept, fail_queued-kept, take_submit-kept, submit_round-kept, abort_submit-kept,
}
use mem.Client.Work.Recoveries.{
  drain_response-kept, death-kept, request_external-kept, health-kept, timeouts-kept,
  maybe_idle-kept,
}

-- The work after a future is made, and after a call is queued with it.
abbrev pub with_future : Work → Work
with_future w = record w { futures = w.futures ++ (new_future ∷ []) }

abbrev pub with_id : Work → Work
with_id w = record w { next_request_id = add64 w.next_request_id 1 }

abbrev pub with_call : RpcCall → Work → Work
with_call call w = record (with_id (with_future w)) {
  submit_queue =
      w.submit_queue
      ++ (record { call = call; request_id = w.next_request_id; future = length w.futures } ∷ []);
}

-- That a property bears a new call, queued or rejected.
pub record Invited {ℓ} (P : List ℕ → Work → Type ℓ) (w : Work) : Type ℓ where
  pub queued : (call : RpcCall) → P [] w → P [] (with_call call w)
  pub rejected : P [] w → P (length w.futures ∷ []) (with_id (with_future w))

module _ {ℓ} (env : Env) (P : List ℕ → Work → Type ℓ) (steady : Steady P) where
  stop_threads-kept : (c : RpcClient) → P [] (work c) → P [] (work (stop_threads env c))
  unfolding stop_threads
  stop_threads-kept c p =
      if-kept (not c.workers_running) (λ d. P [] (work d)) p
        (drain_submits-kept env P steady [] _ p)

  outstanding-kept :
      (status : StatusCode) (c : RpcClient)
      → P [] (work c)
      → P [] (work (fail_outstanding_work env status c))
  unfolding fail_outstanding_work fail_all_pending
  outstanding-kept status c p =
      fail_queued-kept env P steady [] status _ (fail_all-kept env P steady.stable 2 status [] c p)

  pub shutdown-kept : (c : RpcClient) → P [] (work c) → P [] (work (shutdown env c))
  unfolding shutdown begin_shutdown finish_shutdown clear_callbacks close_and_enter_terminal_closed
      close_live_session_locked
  shutdown-kept c p =
      if-kept (not (begin_shutdown c).0) (λ d. P [] (work d)) p
        (outstanding-kept client_closed _ (stop_threads-kept _ p))

  finish-kept : (c : RpcClient) → P [] (work c) → P [] (work (finish env c).1)
  unfolding finish_init
  finish-kept c p = p

  opened-kept :
      (status : StatusCode) (c : RpcClient) → P [] (work c) → P [] (work (opened env (status, c)).1)
  opened-kept ok c p = finish-kept c p
  opened-kept _ c p = shutdown-kept c p

  ensure-kept : (c : RpcClient) → P [] (work c) → P [] (work (ensure_live_session env c).1)
  ensure-kept c p = subst (P []) (sym (ensure-work env c)) p

  start-kept :
      (mode : ClientInitMode) (c : RpcClient) → P [] (work c) → P [] (work (start env mode c).1)
  start-kept eager_session c p = opened-kept (ensure_live_session env c).0 _ (ensure-kept c p)
  start-kept lazy_session c p = finish-kept c p

  restart-kept :
      (mode : ClientInitMode) (c : RpcClient)
      → P [] (work c)
      → P [] (work (restart_init env mode c).1)
  restart-kept eager_session c p = ensure-kept c p
  restart-kept lazy_session c p = p

  runtime-work : (c : RpcClient) → work (start_runtime c) ≡ work c
  unfolding start_runtime
  runtime-work c = ground arith

  pub init-kept :
      (mode : ClientInitMode) (c : RpcClient) → P [] (work c) → P [] (work (init env mode c).1)
  unfolding init prepare_init
  init-kept mode c p =
      if-kept (is_api_terminal c) (λ (r : StatusCode × RpcClient). P [] (work r.1)) p
        (if-kept c.workers_running (λ (r : StatusCode × RpcClient). P [] (work r.1))
          (restart-kept mode c p) (start-kept mode _ (subst (P []) (sym (runtime-work _)) p)))

  decide_on_reject-kept :
      (xs : List ℕ) (info : PendingInfo) (status : StatusCode) (c : RpcClient)
      → P xs (work c)
      → P xs (work (decide_on_reject env info status c))
  decide_on_reject-kept xs info client_closed c p = p
  decide_on_reject-kept xs info status c p =
      failure-kept env P steady.stable (fail_waiting env)
        (fail_all-kept env P steady.stable 2 peer_disconnected) info status xs c p

  reject-kept :
      (call : RpcCall) (status : StatusCode) (c : RpcClient)
      → Invited P (work c)
      → P [] (work c)
      → P [] (work (reject_invoke env call status c).1)
  unfolding reject_invoke
  reject-kept call status c invited p =
      resolve-kept env P steady.stable [] (length c.futures) status _
        (decide_on_reject-kept (length c.futures ∷ []) _ status _ (invited.rejected p))

  admit-kept :
      (call : RpcCall) (status : StatusCode) (c : RpcClient)
      → Invited P (work c)
      → P [] (work c)
      → P [] (work (admit_invoke env call status c).1)
  unfolding enqueue_submit
  admit-kept call ok c invited p = invited.queued call p
  admit-kept call status c invited p = reject-kept call status c invited p

  pub step-kept :
      (op : Op) (c : RpcClient) → Invited P (work c) → P [] (work c) → P [] (work (step env op c))
  unfolding step invoke_async prepare_init finish_init begin_shutdown finish_shutdown
      clear_callbacks close_and_enter_terminal_closed close_live_session_locked
  step-kept (do_init mode) c invited p = init-kept mode c p
  step-kept (do_invoke call) c invited p =
      admit-kept call (admission_status_for_invoke c) c invited p
  step-kept do_take_submit c invited p = take_submit-kept env P steady [] c p
  step-kept do_ensure c invited p = ensure-kept c p
  step-kept do_pending_timeouts c invited p = timeouts-kept env P steady [] c p
  step-kept do_idle c invited p = maybe_idle-kept env P steady [] c p
  step-kept do_shutdown c invited p = shutdown-kept c p
  step-kept (do_submit_round credit later prepared) c invited p =
      submit_round-kept env P steady [] credit later prepared c p
  step-kept (do_abort_submit status) c invited p = abort_submit-kept env P steady [] status c p
  step-kept (do_response file) c invited p = drain_response-kept env P steady [] file c p
  step-kept (do_engine_death observed dead) c invited p =
      death-kept env P steady [] observed dead c p
  step-kept (do_external_recovery request) c invited p =
      request_external-kept env P steady [] request c p
  step-kept (do_health_check answer) c invited p = health-kept env P steady [] answer c p
  step-kept (do_set_policy policy) c invited p = p
  step-kept (do_prepare_init mode) c invited p = p
  step-kept do_start_threads c invited p = subst (P []) (sym (runtime-work c)) p
  step-kept do_finish_init c invited p = p
  step-kept do_begin_shutdown c invited p = p
  step-kept do_close_session c invited p = p
  step-kept do_clear_callbacks c invited p = p
  step-kept do_stop_threads c invited p = stop_threads-kept c p
  step-kept do_fail_outstanding c invited p = outstanding-kept client_closed c p
  step-kept do_finish_shutdown c invited p = p
