-- ===== src/Client/Work/Depth.antt =====
-- The depth of the nested failures in `FailAllPendingWithRecoveryPolicyLocked`
-- (memrpc/src/client/rpc_client.cpp): the inner call finds an empty store, so a depth of two is enough.
use mem.Prelude.{
  not, if◌then◌else◌, ◌==◌, ℕ, suc, ◌≡◌, refl, sym, ap, ◌∙◌, List, [], ◌∷◌, Option, none, some,
}
use mem.Types.{StatusCode, peer_disconnected}
use mem.Client.{
  RpcFailure, RecoveryAction, ignore, restart, idle_close, manual_shutdown, RecoveryDecision,
  PendingRequest, PendingInfo, PendingRequestRecoveryAction, fail_with_recovery_policy,
  resolve_peer_disconnected, keep_current_state,
}
use mem.Client.Store.{RequestMap, take_all}
use mem.Client.Transport.{Env, close_if_matches}
use mem.Client.State.{current_session_id, is_api_open, RpcClient}
use mem.Client.Recovery.{start_recovery}
use mem.Client.Decisions.{
  build_failure_report, maybe_reconnect_immediately, schedule_recovery, act,
  apply_recovery_decision, on_failure_policy, apply_failure_decision, fail_and_resolve_with,
  resolve_future, fail_each, fail_all_pending_within, handle_pending_requests,
}
use mem.Client.Work.{Work, Stable}
use mem.Client.Work.Decisions.{Keeps, failure-kept, fail_all-kept, resolve-kept}

abbrev HasNoPending : List ℕ → Work → Type 0
HasNoPending xs w = w.store ≡ []

HasNoPending-Stable : Stable HasNoPending
HasNoPending-Stable = record { resolve = λ xs w future r p. p; take_store = λ xs w p. refl }

cons-nil : {x : ℕ × PendingRequest} {m : RequestMap} → x ∷ m ≡ [] → ⊥
cons-nil = cc

module _ (env : Env) where
  nothing_fails :
      (f : RpcClient → RpcClient) (status : StatusCode) (m : RequestMap) (c : RpcClient)
      → m ≡ []
      → c.store ≡ []
      → fail_each env f status (take_all m).0 (record c { store = [] }) ≡ c
  unfolding take_all
  nothing_fails f status [] c nil e = ap (λ (m : RequestMap). record c { store = m }) (sym e)
  nothing_fails f status (x ∷ m) c nil e = absurd (cons-nil nil)

  empty-fail_all :
      (n : ℕ) (status : StatusCode) (c : RpcClient)
      → c.store ≡ []
      → fail_all_pending_within env (suc n) status c ≡ c
  unfolding fail_all_pending_within take_all
  empty-fail_all n status c e =
      nothing_fails (fail_all_pending_within env n peer_disconnected) status c.store c e e

  module _ (f g : RpcClient → RpcClient) (same : (c : RpcClient) → c.store ≡ [] → f c ≡ g c) where
    pending-same :
        (action : PendingRequestRecoveryAction) (c : RpcClient)
        → c.store ≡ []
        → handle_pending_requests env f action c ≡ handle_pending_requests env g action c
    pending-same fail_with_recovery_policy c e = same c e
    pending-same resolve_peer_disconnected c e = refl
    pending-same keep_current_state c e = refl

    schedule-same :
        (observed delay_ms : ℕ) (action : PendingRequestRecoveryAction) (c : RpcClient)
        → c.store ≡ []
        → schedule_recovery env f observed delay_ms action c
          ≡ schedule_recovery env g observed delay_ms action c
    unfolding schedule_recovery
    schedule-same observed delay_ms action c e =
        ap
          (λ (d : RpcClient).
            if not (is_api_open c) then c else maybe_reconnect_immediately env delay_ms d)
          (pending-same action
            (record c {
              recovery = start_recovery env.now delay_ms observed c.recovery;
              transport = close_if_matches env observed c.transport;
            })
            e)

    act-same :
        (action : RecoveryAction) (delay_ms observed : ℕ) (pending : PendingRequestRecoveryAction)
        (c : RpcClient)
        → c.store ≡ []
        → act env f action delay_ms observed pending c
          ≡ act env g action delay_ms observed pending c
    act-same ignore delay_ms observed pending c e = refl
    act-same idle_close delay_ms observed pending c e = refl
    act-same manual_shutdown delay_ms observed pending c e = refl
    act-same restart delay_ms observed pending c e = schedule-same observed delay_ms pending c e

    policy-same :
        (p : Option (RpcFailure → RecoveryDecision)) (info : PendingInfo) (status : StatusCode)
        (c : RpcClient)
        → c.store ≡ []
        → on_failure_policy env f p info status c ≡ on_failure_policy env g p info status c
    unfolding apply_recovery_decision
    policy-same none info status c e = refl
    policy-same (some h) info status c e =
        let d = h (build_failure_report env f info status) in
        ap (λ (x : RpcClient). if not (is_api_open c) then c else x)
          (act-same d.action d.delay_ms info.session_id fail_with_recovery_policy c e)

    failure-same :
        (info : PendingInfo) (status : StatusCode) (c : RpcClient)
        → c.store ≡ []
        → apply_failure_decision env f info status c ≡ apply_failure_decision env g info status c
    unfolding apply_failure_decision
    failure-same info status c e =
        ap
          (λ (x : RpcClient).
            if not (is_api_open c)
            then c
            else if not (current_session_id c == info.session_id)
            then c
            else x)
          (policy-same c.policy.on_failure info status c e)

    fail_each-same :
        Keeps env HasNoPending HasNoPending-Stable g
        → (status : StatusCode) (ps : List PendingRequest) (c : RpcClient) → c.store ≡ []
        → fail_each env f status ps c ≡ fail_each env g status ps c
    unfolding fail_and_resolve_with
    fail_each-same keeps status [] c e = refl
    fail_each-same keeps status (q ∷ ps) c e =
        ap (λ (d : RpcClient). fail_each env f status ps (resolve_future env q.future status d))
          (failure-same q.info status c e)
        ∙ fail_each-same keeps status ps _ (
            resolve-kept env HasNoPending HasNoPending-Stable [] q.future status _
              (failure-kept env HasNoPending HasNoPending-Stable g keeps q.info status [] c e))

  -- However deep the nested failures of the requests that wait may go, a depth of two gives the same
  -- client.
  pub depth_enough :
      (n : ℕ) (status : StatusCode) (c : RpcClient)
      → fail_all_pending_within env (suc (suc n)) status c ≡ fail_all_pending_within env 2 status c
  unfolding fail_all_pending_within take_all
  depth_enough n status c =
      fail_each-same (fail_all_pending_within env (suc n) peer_disconnected)
        (fail_all_pending_within env 1 peer_disconnected)
        (λ d e.
          empty-fail_all n peer_disconnected d e ∙ sym (empty-fail_all 0 peer_disconnected d e))
        (fail_all-kept env HasNoPending HasNoPending-Stable 1 peer_disconnected) status
        (take_all c.store).0 (record c { store = [] }) refl
