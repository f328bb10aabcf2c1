-- ===== src/Client/Closed/Responses.antt =====
-- Responses and the engine's death leave a client that is shut as it is (memrpc/src/client/rpc_client.cpp).
use mem.Prelude.{
  ℕ, ◌≡◌, refl, ap, ◌∙◌, Bool, true, false, not, Option, none, some, List, arith, if-kept, ltb,
}
use mem.Types.{
  StatusCode, ok, ResponseRingEntry, ResponseMessageKind, reply, event, response_inline_bytes,
}
use mem.Session.{World, valid}
use mem.Session.Queues.{pop_response}
use mem.Client.{PendingInfo, PendingRequest, RpcReply}
use mem.Client.Store.{take_pending}
use mem.Client.Transport.{Env}
use mem.Client.State.{RpcClient, is_api_open, control_is_open, touch_activity, current_session_id}
use mem.Client.Decisions.{fail_waiting}
use mem.Client.Responses.{
  decide_on_reply, complete_request, resolve_completed_request, handle_engine_death, delivered,
  deliver_event, dispatch, handle_response, drained, signal_credit, drain_response,
  resolve_entry_payload, build_reply,
}
use mem.Client.Closed.{Side, side, Still, failure-shut}

module _ (env : Env) where
  decide-Still :
      (info : PendingInfo) (status : StatusCode) (c : RpcClient)
      → control_is_open c.control ≡ false
      → Still c (decide_on_reply env info status c)
  decide-Still info ok c shut = refl
  decide-Still info status c shut =
      ap (λ (d : RpcClient). side d) (failure-shut env (fail_waiting env) info status c shut)

  complete-Still :
      (r : RpcReply) (found : Option PendingRequest) (c : RpcClient)
      → control_is_open c.control ≡ false
      → Still c (complete_request env r found c)
  unfolding touch_activity
  complete-Still r none c shut = refl
  complete-Still r (some p) c shut = decide-Still p.info r.status c shut

  death-Still :
      (observed dead : ℕ) (c : RpcClient)
      → control_is_open c.control ≡ false
      → Still c (handle_engine_death env observed dead c)
  unfolding handle_engine_death is_api_open
  death-Still observed dead c shut = rw shut refl

  delivered-Still :
      (entry : ResponseRingEntry) (r : StatusCode × List ℕ) (c : RpcClient)
      → control_is_open c.control ≡ false
      → Still c (delivered env entry r c)
  unfolding touch_activity
  delivered-Still entry (ok, payload) c shut = refl
  delivered-Still entry (_, payload) c shut =
      death-Still (current_session_id c) (current_session_id c) c shut

  dispatch-Still :
      (kind : ResponseMessageKind) (file : Option (List ℕ)) (entry : ResponseRingEntry)
      (c : RpcClient)
      → control_is_open c.control ≡ false
      → Still c (dispatch env kind file entry c)
  unfolding deliver_event resolve_completed_request
  dispatch-Still event file entry c shut =
      if-kept (not c.has_event_callback) (λ (d : RpcClient). Still c d) refl
        (delivered-Still entry (resolve_entry_payload file entry) c shut)
  dispatch-Still reply file entry c shut =
      complete-Still (build_reply file entry) (take_pending entry.request_id c.store).0
        (record c { store = (take_pending entry.request_id c.store).1 }) shut

  response-Still :
      (file : Option (List ℕ)) (entry : ResponseRingEntry) (c : RpcClient)
      → control_is_open c.control ≡ false
      → Still c (handle_response env file entry c)
  unfolding handle_response
  response-Still file entry c shut =
      if-kept (ltb response_inline_bytes entry.result_size) (λ (d : RpcClient). Still c d)
        (death-Still (current_session_id c) (current_session_id c) c shut)
        (dispatch-Still entry.message_kind file entry c shut)

  credit-Still : (w : World) (c : RpcClient) → Still c (signal_credit env w c)
  credit-Still w c = ground arith

  drained-Still :
      (file : Option (List ℕ)) (r : Bool × Option ResponseRingEntry × World) (c : RpcClient)
      → control_is_open c.control ≡ false
      → Still c (drained env file r c)
  drained-Still file (true, some entry, w) c shut =
      let credit =
        credit-Still c.transport.world
          (record c { transport = record (c.transport) { world = w } }) in
      response-Still file entry _ (ap (λ (s : Side). control_is_open s.control) credit ∙ shut)
      ∙ credit
  drained-Still file (true, none, w) c shut = refl
  drained-Still file (false, entry, w) c shut = refl

  pub drain-Still :
      (file : Option (List ℕ)) (c : RpcClient)
      → control_is_open c.control ≡ false
      → Still c (drain_response env file c)
  unfolding drain_response
  drain-Still file c shut =
      if-kept (not (valid c.transport.world.session)) (λ (d : RpcClient). Still c d) refl
        (drained-Still file (pop_response c.transport.world) c shut)
