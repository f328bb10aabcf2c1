-- ===== src/Client/Closed/Ends.antt =====
-- The ends of a client's work (`StopThreads` and `FailOutstandingWork` of
-- memrpc/src/client/rpc_client.cpp) where the API is not open.
use mem.Prelude.{◌≡◌, refl, ap, ◌∙◌, false, not, List, [], ◌∷◌, if-kept}
use mem.Types.{StatusCode, peer_disconnected}
use mem.Client.{PendingSubmit}
use mem.Client.Closed.{Side, Still, fail_each-Still, fail_resolve-Still, abort-Still}
use mem.Client.Decisions.{
  fail_waiting, fail_and_resolve, fail_all_pending, fail_all_pending_within, resolve_future,
}
use mem.Client.Lifecycle.{stop_threads, fail_outstanding_work}
use mem.Client.Recovery.{notify_recovery_state_changed}
use mem.Client.State.{RpcClient, control_is_open, runtime_stop_status, make_pending_info}
use mem.Client.Store.{take_all}
use mem.Client.Submit.{
  abort_submit, abort_each, drain_submits, resolve_submits, fail_queued_submissions,
}
use mem.Client.Transport.{Env}

module _ (env : Env) where
  abort_each-Still :
      (ss : List PendingSubmit) (c : RpcClient)
      → control_is_open c.control ≡ false
      → Still c (abort_each env ss c)
  unfolding fail_and_resolve
  abort_each-Still [] c shut = refl
  abort_each-Still (s ∷ rest) c shut =
      let info = make_pending_info s c in
      let here =
        fail_resolve-Still env (fail_waiting env) info (runtime_stop_status c) s.future c shut in
      let d = fail_and_resolve env info (runtime_stop_status c) s.future c in
      abort_each-Still rest d (ap (λ (x : Side). control_is_open x.control) here ∙ shut) ∙ here

  drain_submits-Still :
      (c : RpcClient) → control_is_open c.control ≡ false → Still c (drain_submits env c)
  unfolding drain_submits
  drain_submits-Still c shut =
      let here = abort-Still env (runtime_stop_status c) c shut in
      let d = abort_submit env (runtime_stop_status c) c in
      abort_each-Still d.submit_queue (record d { submit_queue = [] })
        (ap (λ (x : Side). control_is_open x.control) here ∙ shut)
      ∙ here

  pub stop-Still :
      (c : RpcClient) → control_is_open c.control ≡ false → Still c (stop_threads env c)
  unfolding stop_threads notify_recovery_state_changed
  stop-Still c shut =
      if-kept (not c.workers_running) (λ (d : RpcClient). Still c d) refl
        (drain_submits-Still _ shut)

  resolve_submits-Still :
      (status : StatusCode) (ss : List PendingSubmit) (c : RpcClient)
      → Still c (resolve_submits env status ss c)
  unfolding resolve_future
  resolve_submits-Still status [] c = refl
  resolve_submits-Still status (s ∷ rest) c =
      resolve_submits-Still status rest (resolve_future env s.future status c)

  pub outstanding-Still :
      (status : StatusCode) (c : RpcClient)
      → control_is_open c.control ≡ false
      → Still c (fail_outstanding_work env status c)
  unfolding fail_outstanding_work fail_queued_submissions fail_all_pending fail_all_pending_within
      take_all
  outstanding-Still status c shut =
      let d = fail_all_pending env status c in
      resolve_submits-Still status d.submit_queue (record d { submit_queue = [] })
      ∙ fail_each-Still env (fail_all_pending_within env 1 peer_disconnected) status
          (take_all c.store).0 (record c { store = [] }) shut
