-- ===== src/Client/Responses.antt =====
-- The response side of the client (`ResponseWorker`, memrpc/src/client/rpc_client.cpp) and the
-- recoveries that the watchdog, the engine's death and a request from outside bring about.
use mem.Prelude.{
  ℕ, Bool, true, false, not, ◌&&◌, ◌||◌, Option, none, some, List, [], ◌∷◌, ◌++◌, if◌then◌else◌,
  ◌==◌, ltb, sub64, take, is_empty,
}
use mem.Types.{
  ResponseMessageKind, StatusCode, ok, peer_disconnected, protocol_mismatch, exec_timeout,
  crashed_during_execution, ResponseRingEntry, reply, event, response_inline_bytes, status_of_code,
}
use mem.Ring.{ring_count}
use mem.Session.{World, valid}
use mem.Session.Queues.{pop_response}
use mem.FilePayload.{payload_kind_inline, payload_kind_file_ref}
use mem.Client.{
  RecoveryAction, RpcReply, ignore, RecoveryDecision, fail_with_recovery_policy,
  resolve_peer_disconnected, keep_current_state, PendingRequest, PendingInfo,
  ExternalRecoveryRequest, EngineDeathReport, RpcEvent,
}
use mem.Client.Futures.{resolve_state}
use mem.Client.Store.{take_pending, take_expired, has_none}
use mem.Client.Transport.{Env, close_if_matches}
use mem.Client.State.{RpcClient, is_api_open, touch_activity, current_session_id}
use mem.Client.Decisions.{
  apply_failure_decision, apply_recovery_decision, fail_waiting, schedule_recovery,
  resolve_all_pending, enter_no_session_without_live_session, fail_each,
}

-- `ResolveEntryPayload`; `file` is what `ResolveFilePayloadFromTransport` gives for the envelope.
unfoldable pub resolve_entry_payload : Option (List ℕ) → ResponseRingEntry → StatusCode × List ℕ
resolve_entry_payload file entry =
    if ltb response_inline_bytes entry.result_size
    then (protocol_mismatch, [])
    else if entry.payload_kind == payload_kind_inline
    then (ok, take entry.result_size entry.payload)
    else if entry.payload_kind == payload_kind_file_ref
    then elim file [ some bytes ↦ (ok, bytes) | none ↦ (peer_disconnected, []) ]
    else (protocol_mismatch, [])

-- The reply of `ResolveCompletedRequest`.
abbrev pub reply_of : StatusCode → StatusCode × List ℕ → RpcReply
reply_of status (ok, payload) = record { status = status; payload = payload }
reply_of status (payload_status, payload) = record { status = payload_status; payload = [] }

unfoldable pub build_reply : Option (List ℕ) → ResponseRingEntry → RpcReply
build_reply file entry =
    reply_of (status_of_code entry.status_code) (resolve_entry_payload file entry)

module _ (env : Env) where
  abbrev pub decide_on_reply : PendingInfo → StatusCode → RpcClient → RpcClient
  decide_on_reply info ok c = c
  decide_on_reply info status c = apply_failure_decision env (fail_waiting env) info status c

  abbrev pub complete_request : RpcReply → Option PendingRequest → RpcClient → RpcClient
  complete_request r none c = c
  complete_request r (some p) c =
      let decided = decide_on_reply p.info r.status c in
      touch_activity env (record decided { futures = resolve_state p.future r decided.futures })

  -- `ResolveCompletedRequest`: a late reply is ignored.
  unfoldable pub resolve_completed_request :
      Option (List ℕ) → ResponseRingEntry → RpcClient → RpcClient
  resolve_completed_request file entry c =
      let (pending, store) = take_pending entry.request_id c.store in
      complete_request (build_reply file entry) pending (record c { store = store })

  abbrev pub death_decision : RecoveryAction → RecoveryDecision → ℕ → RpcClient → RpcClient
  death_decision ignore d observed c = enter_no_session_without_live_session env c
  death_decision _ d observed c =
      apply_recovery_decision env (fail_waiting env) d observed keep_current_state c

  abbrev pub after_death :
      Option (EngineDeathReport → RecoveryDecision) → ℕ → ℕ → RpcClient → RpcClient
  after_death none observed dead c = enter_no_session_without_live_session env c
  after_death (some f) observed dead c =
      let d = f (record { dead_session_id = dead }) in death_decision d.action d observed c

  -- `HandleEngineDeathLocked`
  unfoldable pub handle_engine_death_locked : ℕ → ℕ → RpcClient → RpcClient
  handle_engine_death_locked observed dead c =
      let resolved_dead = if dead == 0 then observed else dead in
      if observed == 0
      then c
      else if not (resolved_dead == observed)
      then c
      else let closed_session = record c {
        transport = close_if_matches env observed c.transport;
      } in
        after_death c.policy.on_engine_death observed resolved_dead
          (resolve_all_pending env crashed_during_execution closed_session)

  -- The tests that the recoveries of the API share: it is open, and the observed session is current.
  abbrev pub is_current : ℕ → RpcClient → Bool
  is_current observed c = is_api_open c && (current_session_id c == observed)

  unfoldable pub handle_engine_death : ℕ → ℕ → RpcClient → RpcClient
  handle_engine_death observed dead c =
      if not (is_current observed c) then c else handle_engine_death_locked observed dead c

  abbrev pub idle_policy : Option (ℕ → RecoveryDecision) → ℕ → ℕ → RpcClient → RpcClient
  idle_policy none observed idle_ms c = c
  idle_policy (some f) observed idle_ms c =
      apply_recovery_decision env (fail_waiting env) (f idle_ms) observed fail_with_recovery_policy
        c

  unfoldable pub handle_idle_recovery : ℕ → ℕ → RpcClient → RpcClient
  handle_idle_recovery observed idle_ms c =
      if not (is_current observed c) then c else idle_policy c.policy.on_idle observed idle_ms c

  -- `HandleExternalRecovery` and its locked part.
  unfoldable pub handle_external_recovery : ℕ → ExternalRecoveryRequest → RpcClient → RpcClient
  handle_external_recovery observed request c =
      if not (is_current observed c)
      then c
      else if not (request.session_id == 0) && not (request.session_id == observed)
      then c
      else schedule_recovery env (fail_waiting env) observed request.delay_ms
          resolve_peer_disconnected c

  -- `RequestExternalRecovery`
  unfoldable pub request_external_recovery : ExternalRecoveryRequest → RpcClient → RpcClient
  request_external_recovery request c = handle_external_recovery (current_session_id c) request c

  abbrev pub delivered : ResponseRingEntry → StatusCode × List ℕ → RpcClient → RpcClient
  delivered entry (ok, payload) c =
      let e : RpcEvent = record {
        event_domain = entry.event_domain;
        event_type = entry.event_type;
        flags = entry.flags;
        payload = payload;
      } in
      touch_activity env (record c { events = c.events ++ (e ∷ []) })
  delivered entry (status, _) c =
      handle_engine_death (current_session_id c) (current_session_id c) c

  -- `DeliverEvent`
  unfoldable pub deliver_event : Option (List ℕ) → ResponseRingEntry → RpcClient → RpcClient
  deliver_event file entry c =
      if not c.has_event_callback then c else delivered entry (resolve_entry_payload file entry) c

  abbrev pub dispatch :
      ResponseMessageKind → Option (List ℕ) → ResponseRingEntry → RpcClient → RpcClient
  dispatch event file entry c = deliver_event file entry c
  dispatch reply file entry c = resolve_completed_request file entry c

  -- `DrainResponseRing` once an entry was popped.
  unfoldable pub handle_response : Option (List ℕ) → ResponseRingEntry → RpcClient → RpcClient
  handle_response file entry c =
      if ltb response_inline_bytes entry.result_size
      then handle_engine_death (current_session_id c) (current_session_id c) c
      else dispatch entry.message_kind file entry c

  abbrev was_full : World → Bool
  was_full w =
      let cursor = w.memory.header.response_ring in
      not (cursor.capacity == 0) && (ring_count cursor == cursor.capacity)

  -- A ring that is no longer full gives the server credit.
  abbrev pub signal_credit : World → RpcClient → RpcClient
  signal_credit w c =
      if was_full w
      then record c { signalled = w.session.handles.resp_credit_event_fd ∷ c.signalled }
      else c

  abbrev pub drained :
      Option (List ℕ) → Bool × Option ResponseRingEntry × World → RpcClient → RpcClient
  drained file (true, some entry, w) c = handle_response file entry (
      signal_credit c.transport.world (record c { transport = record (c.transport) { world = w } }))
  drained file _ c = c

  -- One round of `DrainResponseRing`.
  unfoldable pub drain_response : Option (List ℕ) → RpcClient → RpcClient
  drain_response file c =
      if not (valid c.transport.world.session)
      then c
      else drained file (pop_response c.transport.world) c

  -- `MaybeRunPendingTimeouts`
  unfoldable pub maybe_run_pending_timeouts : RpcClient → RpcClient
  maybe_run_pending_timeouts c =
      let (ps, store) = take_expired env.now c.store in
      fail_each env (fail_waiting env) exec_timeout ps (record c { store = store })

  -- `MaybeRunIdlePolicy`
  unfoldable pub maybe_run_idle_policy : RpcClient → RpcClient
  maybe_run_idle_policy c =
      if not (is_api_open c) || not (has_none c.store) || not (is_empty c.submit_queue)
      then c
      else if current_session_id c == 0
      then c
      else handle_idle_recovery (current_session_id c) (sub64 env.now c.last_activity_ms) c

-- `enum class ChannelHealthStatus`
pub data ChannelHealthStatus : Type 0 where
  healthy timeout malformed unhealthy session_mismatch unsupported : ChannelHealthStatus

-- `ShouldRequestRecoveryForHealthStatus`
unfoldable pub should_request_recovery : ChannelHealthStatus → Bool
should_request_recovery timeout = true
should_request_recovery malformed = true
should_request_recovery unhealthy = true
should_request_recovery session_mismatch = true
should_request_recovery healthy = false
should_request_recovery unsupported = false

module _ (env : Env) where
  -- `MaybeRunHealthCheck`; `answer` is what the channel's `CheckHealth` gives for the session.
  unfoldable pub maybe_run_health_check : (ℕ → ChannelHealthStatus) → RpcClient → RpcClient
  maybe_run_health_check answer c =
      if not (is_api_open c) || not c.transport.has_bootstrap || current_session_id c == 0
      then c
      else if not (should_request_recovery (answer (current_session_id c)))
      then c
      else handle_external_recovery env (current_session_id c)
          (record { session_id = current_session_id c; delay_ms = 0 }) c
