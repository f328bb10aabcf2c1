-- ===== src/Client/Work/Recoveries.antt =====
-- Responses, watchdog, recoveries, `Init` and `Shutdown` (memrpc/src/client/rpc_client.cpp) keep every
-- steady property of the outstanding work.
use mathlib.Core.Path.{subst}
use mem.Prelude.{
  is_empty, ◌||◌, ◌&&◌, ltb, not, if-kept, if◌then◌else◌, ℕ, ◌≡◌, refl, sym, Option, none, some,
  List, ◌∷◌, arith, Bool, true, false, Bool-cases, inl, inr, ◌==◌,
}
use mem.Types.{
  response_inline_bytes, StatusCode, ok, peer_disconnected, exec_timeout, crashed_during_execution,
  ResponseRingEntry, ResponseMessageKind, reply, event,
}
use mem.Session.{valid, World}
use mem.Session.Queues.{pop_response}
use mem.Client.{
  PendingInfo, PendingRequest, RpcReply, RecoveryAction, ignore, RecoveryDecision,
  EngineDeathReport, ExternalRecoveryRequest, fail_with_recovery_policy, keep_current_state,
  resolve_peer_disconnected,
}
use mem.Client.Store.{has_none, take_found, take_pending, find_pending}
use mem.Client.Transport.{Env, close_if_matches}
use mem.Client.State.{is_api_open, RpcClient, touch_activity, current_session_id}
use mem.Client.Decisions.{fail_waiting}
use mem.Client.Responses.{
  should_request_recovery, decide_on_reply, complete_request, resolve_completed_request,
  build_reply, death_decision, after_death, handle_engine_death_locked, handle_engine_death,
  idle_policy, handle_idle_recovery, is_current, handle_external_recovery,
  request_external_recovery, delivered, deliver_event, resolve_entry_payload, dispatch,
  handle_response, signal_credit, drained, drain_response, maybe_run_pending_timeouts,
  maybe_run_idle_policy, ChannelHealthStatus, maybe_run_health_check,
}
use mem.Client.Work.{Work, work, Steady}
use mem.Client.Work.Decisions.{
  failure-kept, fail_all-kept, fail_each-kept, decision-kept, schedule-kept, resolve_all-kept,
  no_session-work, Keeps,
}

module _ {ℓ} (env : Env) (P : List ℕ → Work → Type ℓ) (steady : Steady P) where
  waiting-kept : Keeps env P steady.stable (fail_waiting env)
  waiting-kept = fail_all-kept env P steady.stable 2 peer_disconnected

  decide-kept :
      (xs : List ℕ) (info : PendingInfo) (status : StatusCode) (c : RpcClient)
      → P xs (work c)
      → P xs (work (decide_on_reply env info status c))
  decide-kept xs info ok c p = p
  decide-kept xs info status c p =
      failure-kept env P steady.stable (fail_waiting env) waiting-kept info status xs c p

  complete-kept :
      (xs : List ℕ) (id : ℕ) (r : RpcReply) (found : Option PendingRequest) (c : RpcClient)
      → find_pending id c.store ≡ found
      → P xs (work c)
      → P xs (
          work (
            complete_request env r
              (take_found id found c.store).0
              (record c { store = (take_found id found c.store).1 })))
  unfolding touch_activity
  complete-kept xs id r none c e p = p
  complete-kept xs id r (some q) c e p =
      steady.stable.resolve xs _ q.future r
        (decide-kept (q.future ∷ xs) q.info r.status _ (steady.take_found xs (work c) id q e p))

  pub completed-kept :
      (xs : List ℕ) (file : Option (List ℕ)) (entry : ResponseRingEntry) (c : RpcClient)
      → P xs (work c)
      → P xs (work (resolve_completed_request env file entry c))
  unfolding resolve_completed_request take_pending
  completed-kept xs file entry c p =
      complete-kept xs entry.request_id (build_reply file entry) _ c refl p

  death_decision-kept :
      (xs : List ℕ) (action : RecoveryAction) (d : RecoveryDecision) (observed : ℕ) (c : RpcClient)
      → P xs (work c)
      → P xs (work (death_decision env action d observed c))
  death_decision-kept xs ignore d observed c p = subst (P xs) (sym (no_session-work env c)) p
  death_decision-kept xs _ d observed c p =
      decision-kept env P steady.stable (fail_waiting env) waiting-kept d observed
        keep_current_state xs c p

  after_death-kept :
      (xs : List ℕ) (policy : Option (EngineDeathReport → RecoveryDecision)) (observed dead : ℕ)
      (c : RpcClient)
      → P xs (work c)
      → P xs (work (after_death env policy observed dead c))
  after_death-kept xs none observed dead c p = subst (P xs) (sym (no_session-work env c)) p
  after_death-kept xs (some f) observed dead c p =
      let d = f (record { dead_session_id = dead }) in
      death_decision-kept xs d.action d observed c p

  death_locked-kept :
      (xs : List ℕ) (observed dead : ℕ) (c : RpcClient)
      → P xs (work c)
      → P xs (work (handle_engine_death_locked env observed dead c))
  unfolding handle_engine_death_locked
  death_locked-kept xs observed dead c p =
      let closed_session = record c { transport = close_if_matches env observed c.transport } in
      let after =
        after_death-kept xs c.policy.on_engine_death observed (if dead == 0 then observed else dead)
          _ (resolve_all-kept env P steady.stable xs crashed_during_execution closed_session p) in
      elim (Bool-cases (observed == 0)) [
        | inl gone ↦ rw gone p
        | inr live ↦ elim (Bool-cases ((if dead == 0 then observed else dead) == observed)) [
          | inl same ↦ rw (live, same) after
          | inr other ↦ rw (live, other) p
        ]
      ]

  pub death-kept :
      (xs : List ℕ) (observed dead : ℕ) (c : RpcClient)
      → P xs (work c)
      → P xs (work (handle_engine_death env observed dead c))
  unfolding handle_engine_death
  death-kept xs observed dead c p = elim (Bool-cases (is_current env observed c)) [
    | inl current ↦ rw current (death_locked-kept xs observed dead c p)
    | inr stale ↦ rw stale p
  ]

  idle_policy-kept :
      (xs : List ℕ) (policy : Option (ℕ → RecoveryDecision)) (observed idle_ms : ℕ) (c : RpcClient)
      → P xs (work c)
      → P xs (work (idle_policy env policy observed idle_ms c))
  idle_policy-kept xs none observed idle_ms c p = p
  idle_policy-kept xs (some f) observed idle_ms c p =
      decision-kept env P steady.stable (fail_waiting env) waiting-kept (f idle_ms) observed
        fail_with_recovery_policy xs c p

  idle-kept :
      (xs : List ℕ) (observed idle_ms : ℕ) (c : RpcClient)
      → P xs (work c)
      → P xs (work (handle_idle_recovery env observed idle_ms c))
  unfolding handle_idle_recovery
  idle-kept xs observed idle_ms c p = elim (Bool-cases (is_current env observed c)) [
    | inl current ↦ rw current (idle_policy-kept xs c.policy.on_idle observed idle_ms c p)
    | inr stale ↦ rw stale p
  ]

  pub maybe_idle-kept :
      (xs : List ℕ) (c : RpcClient) → P xs (work c) → P xs (work (maybe_run_idle_policy env c))
  unfolding maybe_run_idle_policy
  maybe_idle-kept xs c p =
      if-kept (not (is_api_open c) || not (has_none c.store) || not (is_empty c.submit_queue))
        (λ d. P xs (work d)) p
        (if-kept (current_session_id c == 0) (λ d. P xs (work d)) p
          (idle-kept xs (current_session_id c) _ c p))

  external-kept :
      (xs : List ℕ) (observed : ℕ) (request : ExternalRecoveryRequest) (c : RpcClient)
      → P xs (work c)
      → P xs (work (handle_external_recovery env observed request c))
  unfolding handle_external_recovery
  external-kept xs observed request c p =
      if-kept (not (is_current env observed c)) (λ d. P xs (work d)) p
        (if-kept (not (request.session_id == 0) && not (request.session_id == observed))
          (λ d. P xs (work d)) p
          (schedule-kept env P steady.stable (fail_waiting env) waiting-kept observed
            request.delay_ms resolve_peer_disconnected xs c p))

  pub request_external-kept :
      (xs : List ℕ) (request : ExternalRecoveryRequest) (c : RpcClient)
      → P xs (work c)
      → P xs (work (request_external_recovery env request c))
  unfolding request_external_recovery
  request_external-kept xs request c p = external-kept xs (current_session_id c) request c p

  pub health-kept :
      (xs : List ℕ) (answer : ℕ → ChannelHealthStatus) (c : RpcClient)
      → P xs (work c)
      → P xs (work (maybe_run_health_check env answer c))
  unfolding maybe_run_health_check
  health-kept xs answer c p =
      if-kept (not (is_api_open c) || not c.transport.has_bootstrap || current_session_id c == 0)
        (λ d. P xs (work d)) p
        (if-kept (not (should_request_recovery (answer (current_session_id c))))
          (λ d. P xs (work d)) p (external-kept xs (current_session_id c) _ c p))

  delivered-kept :
      (xs : List ℕ) (entry : ResponseRingEntry) (r : StatusCode × List ℕ) (c : RpcClient)
      → P xs (work c)
      → P xs (work (delivered env entry r c))
  unfolding touch_activity
  delivered-kept xs entry (ok, payload) c p = p
  delivered-kept xs entry (_, payload) c p =
      death-kept xs (current_session_id c) (current_session_id c) c p

  event-kept :
      (xs : List ℕ) (file : Option (List ℕ)) (entry : ResponseRingEntry) (c : RpcClient)
      → P xs (work c)
      → P xs (work (deliver_event env file entry c))
  unfolding deliver_event
  event-kept xs file entry c p =
      if-kept (not c.has_event_callback) (λ d. P xs (work d)) p
        (delivered-kept xs entry (resolve_entry_payload file entry) c p)

  dispatch-kept :
      (xs : List ℕ) (kind : ResponseMessageKind) (file : Option (List ℕ))
      (entry : ResponseRingEntry) (c : RpcClient)
      → P xs (work c)
      → P xs (work (dispatch env kind file entry c))
  dispatch-kept xs event file entry c p = event-kept xs file entry c p
  dispatch-kept xs reply file entry c p = completed-kept xs file entry c p

  response-kept :
      (xs : List ℕ) (file : Option (List ℕ)) (entry : ResponseRingEntry) (c : RpcClient)
      → P xs (work c)
      → P xs (work (handle_response env file entry c))
  unfolding handle_response
  response-kept xs file entry c p =
      if-kept (ltb response_inline_bytes entry.result_size) (λ d. P xs (work d))
        (death-kept xs (current_session_id c) (current_session_id c) c p)
        (dispatch-kept xs entry.message_kind file entry c p)

  credit-work : (w : World) (c : RpcClient) → work (signal_credit env w c) ≡ work c
  credit-work w c = ground arith

  drained-kept :
      (xs : List ℕ) (file : Option (List ℕ)) (r : Bool × Option ResponseRingEntry × World)
      (c : RpcClient)
      → P xs (work c)
      → P xs (work (drained env file r c))
  drained-kept xs file (true, some entry, w) c p =
      response-kept xs file entry _ (subst (P xs) (sym (credit-work c.transport.world _)) p)
  drained-kept xs file (true, none, w) c p = p
  drained-kept xs file (false, entry, w) c p = p

  pub drain_response-kept :
      (xs : List ℕ) (file : Option (List ℕ)) (c : RpcClient)
      → P xs (work c)
      → P xs (work (drain_response env file c))
  unfolding drain_response
  drain_response-kept xs file c p =
      if-kept (not (valid c.transport.world.session)) (λ d. P xs (work d)) p
        (drained-kept xs file (pop_response c.transport.world) c p)

  pub timeouts-kept :
      (xs : List ℕ) (c : RpcClient) → P xs (work c) → P xs (work (maybe_run_pending_timeouts env c))
  unfolding maybe_run_pending_timeouts
  timeouts-kept xs c p =
      fail_each-kept env P steady.stable (fail_waiting env) waiting-kept xs exec_timeout _ _
        (steady.take_expired xs (work c) env.now p)
