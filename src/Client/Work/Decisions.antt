-- ===== src/Client/Work/Decisions.antt =====
-- The recovery decisions (`ApplyRecoveryDecisionLocked` and what it calls, memrpc/src/client/rpc_client.cpp)
-- keep every stable property of the outstanding work.
use mathlib.Core.Path.{subst}
use mem.Prelude.{
  ℕ, zero, suc, ◌≡◌, refl, sym, Option, none, some, List, [], ◌∷◌, ◌++◌, arith, Bool-cases, inl,
  inr, ◌==◌,
}
use mem.Types.{StatusCode, ok, peer_disconnected}
use mem.Client.{
  RecoveryAction, ignore, restart, idle_close, manual_shutdown, RecoveryDecision,
  PendingRequestRecoveryAction, fail_with_recovery_policy, resolve_peer_disconnected,
  keep_current_state, RpcFailure, PendingRequest, PendingInfo, status_reply,
}
use mem.Client.Store.{take_all}
use mem.Client.Recovery.{begin_session_open}
use mem.Client.Transport.{open_session, Env}
use mem.Client.State.{on_recovery, RpcClient, is_api_open, touch_activity, current_session_id}
use mem.Client.Decisions.{
  after_open, open_session_locked, ensure_live_session, close_and_enter_idle_closed, resolve_future,
  resolve_each, resolve_all_pending, maybe_reconnect_immediately, handle_pending_requests,
  schedule_recovery, act, apply_recovery_decision, on_failure_policy, apply_failure_decision,
  fail_and_resolve_with, fail_each, fail_all_pending_within, enter_no_session_without_live_session,
}
use mem.Client.Work.{Work, work, futures_of, Stable}

module _ (env : Env) where
  after_open-work :
      (status : StatusCode) (c : RpcClient) → work (after_open env status c).1 ≡ work c
  unfolding touch_activity
  after_open-work ok c = refl
  after_open-work _ c = refl

  open-work : (c : RpcClient) → work (open_session_locked env c).1 ≡ work c
  unfolding open_session_locked
  open-work c = after_open-work _ (record c { transport = (open_session env c.transport).1 })

  pub ensure-work : (c : RpcClient) → work (ensure_live_session env c).1 ≡ work c
  unfolding ensure_live_session
  ensure-work c = ground (
    arith,
    open-work (
        on_recovery (begin_session_open env.now c.recovery.lifecycle_state (current_session_id c))
          c),
  )

  reconnect-work :
      (delay_ms : ℕ) (c : RpcClient) → work (maybe_reconnect_immediately env delay_ms c) ≡ work c
  unfolding maybe_reconnect_immediately
  reconnect-work delay_ms c = ground (arith, ensure-work c)

  pub idle_closed-work :
      (observed : ℕ) (c : RpcClient) → work (close_and_enter_idle_closed env observed c) ≡ work c
  unfolding close_and_enter_idle_closed
  idle_closed-work observed c = ground arith

  pub no_session-work :
      (c : RpcClient) → work (enter_no_session_without_live_session env c) ≡ work c
  unfolding enter_no_session_without_live_session
  no_session-work c = ground arith

  module _ {ℓ} (P : List ℕ → Work → Type ℓ) (stable : Stable P) where
    pub resolve-kept :
        (xs : List ℕ) (future : ℕ) (status : StatusCode) (c : RpcClient)
        → P (future ∷ xs) (work c)
        → P xs (work (resolve_future env future status c))
    unfolding resolve_future
    resolve-kept xs future status c p = stable.resolve xs (work c) future (status_reply status) p

    pub resolve_each-kept :
        (xs : List ℕ) (status : StatusCode) (ps : List PendingRequest) (c : RpcClient)
        → P (futures_of ps ++ xs) (work c)
        → P xs (work (resolve_each env status ps c))
    resolve_each-kept xs status [] c p = p
    resolve_each-kept xs status (q ∷ ps) c p =
        resolve_each-kept xs status ps (resolve_future env q.future status c)
          (resolve-kept (futures_of ps ++ xs) q.future status c p)

    pub resolve_all-kept :
        (xs : List ℕ) (status : StatusCode) (c : RpcClient)
        → P xs (work c)
        → P xs (work (resolve_all_pending env status c))
    unfolding resolve_all_pending take_all
    resolve_all-kept xs status c p =
        resolve_each-kept xs status _ (record c { store = [] }) (stable.take_store xs (work c) p)

    -- The inner call that a decision may make keeps the property.
    abbrev pub Keeps : (RpcClient → RpcClient) → Type ℓ
    Keeps f = (xs : List ℕ) (c : RpcClient) → P xs (work c) → P xs (work (f c))

    module _ (fail : RpcClient → RpcClient) (keeps : Keeps fail) where
      handle_pending-kept :
          (action : PendingRequestRecoveryAction) → Keeps (handle_pending_requests env fail action)
      handle_pending-kept fail_with_recovery_policy xs c p = keeps xs c p
      handle_pending-kept resolve_peer_disconnected xs c p =
          resolve_all-kept xs peer_disconnected c p
      handle_pending-kept keep_current_state xs c p = p

      pub schedule-kept :
          (observed delay_ms : ℕ) (action : PendingRequestRecoveryAction)
          → Keeps (schedule_recovery env fail observed delay_ms action)
      unfolding schedule_recovery
      schedule-kept observed delay_ms action xs c p = elim (Bool-cases (is_api_open c)) [
        | inl is_open ↦
            rw is_open
              (subst (P xs) (sym (reconnect-work delay_ms _)) (handle_pending-kept action xs _ p))
        | inr shut ↦ rw shut p
      ]

      act-kept :
          (action : RecoveryAction) (delay_ms observed : ℕ) (pending : PendingRequestRecoveryAction)
          → Keeps (act env fail action delay_ms observed pending)
      act-kept ignore delay_ms observed pending xs c p = p
      act-kept idle_close delay_ms observed pending xs c p =
          subst (P xs) (sym (idle_closed-work observed c)) p
      act-kept manual_shutdown delay_ms observed pending xs c p = p
      act-kept restart delay_ms observed pending xs c p =
          schedule-kept observed delay_ms pending xs c p

      pub decision-kept :
          (d : RecoveryDecision) (observed : ℕ) (pending : PendingRequestRecoveryAction)
          → Keeps (apply_recovery_decision env fail d observed pending)
      unfolding apply_recovery_decision
      decision-kept d observed pending xs c p = elim (Bool-cases (is_api_open c)) [
        | inl is_open ↦ rw is_open (act-kept d.action d.delay_ms observed pending xs c p)
        | inr shut ↦ rw shut p
      ]

      policy-kept :
          (f : Option (RpcFailure → RecoveryDecision)) (info : PendingInfo) (status : StatusCode)
          → Keeps (on_failure_policy env fail f info status)
      policy-kept none info status xs c p = p
      policy-kept (some f) info status xs c p = decision-kept _ _ fail_with_recovery_policy xs c p

      pub failure-kept :
          (info : PendingInfo) (status : StatusCode)
          → Keeps (apply_failure_decision env fail info status)
      unfolding apply_failure_decision
      failure-kept info status xs c p = elim (Bool-cases (is_api_open c)) [
        | inl is_open ↦ elim (Bool-cases (current_session_id c == info.session_id)) [
          | inl current ↦ rw (is_open, current) (policy-kept c.policy.on_failure info status xs c p)
          | inr stale ↦ rw (is_open, stale) p
        ]
        | inr shut ↦ rw shut p
      ]

      pub fail_each-kept :
          (xs : List ℕ) (status : StatusCode) (ps : List PendingRequest) (c : RpcClient)
          → P (futures_of ps ++ xs) (work c)
          → P xs (work (fail_each env fail status ps c))
      unfolding fail_and_resolve_with
      fail_each-kept xs status [] c p = p
      fail_each-kept xs status (q ∷ ps) c p = fail_each-kept xs status ps _ (
          resolve-kept (futures_of ps ++ xs) q.future status _
            (failure-kept q.info status (q.future ∷ futures_of ps ++ xs) c p))

    -- At whatever depth.
    pub fail_all-kept : (n : ℕ) (status : StatusCode) → Keeps (fail_all_pending_within env n status)
    unfolding fail_all_pending_within take_all
    fail_all-kept zero status xs c p = p
    fail_all-kept (suc n) status xs c p =
        fail_each-kept (fail_all_pending_within env n peer_disconnected)
          (fail_all-kept n peer_disconnected) xs status _ (record c { store = [] })
          (stable.take_store xs (work c) p)
