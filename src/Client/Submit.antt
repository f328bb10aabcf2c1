-- ===== src/Client/Submit.antt =====
-- Submission (`RpcClient::Impl` and its `SubmitWorker`, memrpc/src/client/rpc_client.cpp): a call is
-- queued, the submit thread takes it in hand, registers it in the request store and pushes it.
use mem.Prelude.{
  ℕ, Bool, not, Option, none, some, List, [], ◌∷◌, ◌++◌, if◌then◌else◌, ◌==◌, add64, to_u32, length,
}
use mem.Types.{
  StatusCode, ok, queue_full, peer_disconnected, payload_too_large, client_closed, Priority, normal,
  high, RequestRingEntry,
}
use mem.Ring.{ring_count}
use mem.Session.{World, valid}
use mem.Session.Queues.{QueueKind, high_request, normal_request, push_request}
use mem.Client.{RpcCall, PendingSubmit, PendingInfo, PendingRequest}
use mem.Client.Futures.{new_future}
use mem.Client.Store.{put, take_pending}
use mem.Client.Transport.{Env}
use mem.Client.State.{
  RpcClient, runtime_stop_status, admission_status_for_invoke, touch_activity, current_session_id,
  make_pending_info,
}
use mem.Client.Decisions.{
  apply_failure_decision, fail_waiting, fail_and_resolve, close_live_session_locked, resolve_future,
}

abbrev pub queue_of : Priority → QueueKind
queue_of normal = normal_request
queue_of high = high_request

-- `std::make_shared<RpcFuture::State>()`: a new future, the last of the list.
abbrev pub make_future : RpcClient → ℕ × RpcClient
make_future c = (length c.futures, record c { futures = c.futures ++ (new_future ∷ []) })

abbrev pub next_id : RpcClient → ℕ × RpcClient
next_id c = (c.next_request_id, record c { next_request_id = add64 c.next_request_id 1 })

-- `EnqueueSubmitLocked`
unfoldable pub enqueue_submit : RpcCall → ℕ → RpcClient → RpcClient
enqueue_submit call future c =
    let (id, c') = next_id c in
    record c' {
      submit_queue =
          c'.submit_queue ++ (record { call = call; request_id = id; future = future } ∷ []);
    }

-- `BuildRequestEntry`
unfoldable pub build_request_entry : PendingSubmit → List ℕ → ℕ → RequestRingEntry
build_request_entry s transport_payload kind = record {
  request_id = s.request_id;
  exec_timeout_ms = s.call.exec_timeout_ms;
  opcode = s.call.opcode;
  priority = elim s.call.priority [ normal ↦ 0 | high ↦ 1 ];
  payload_kind = kind;
  payload_size = to_u32 (length transport_payload);
  payload = transport_payload;
}

module _ (env : Env) where
  abbrev pub decide_on_reject : PendingInfo → StatusCode → RpcClient → RpcClient
  decide_on_reject info client_closed c = c
  decide_on_reject info status c = apply_failure_decision env (fail_waiting env) info status c

  -- `RejectInvoke` after the call's future was made; `make_future` makes the one that it returns.
  unfoldable pub reject_invoke : RpcCall → StatusCode → RpcClient → ℕ × RpcClient
  reject_invoke call status c =
      let (future, made) = make_future c in
      let (id, counted) = next_id made in
      let info : PendingInfo = record {
        opcode = call.opcode;
        priority = call.priority;
        exec_timeout_ms = call.exec_timeout_ms;
        request_id = id;
        session_id = current_session_id counted;
      } in
      (future, resolve_future env future status (decide_on_reject info status counted))

  abbrev pub admit_invoke : RpcCall → StatusCode → RpcClient → ℕ × RpcClient
  admit_invoke call ok c =
      let (future, made) = make_future c in (future, enqueue_submit call future made)
  admit_invoke call status c = reject_invoke call status c

  -- `InvokeAsync`: the future, and the client after it.
  unfoldable pub invoke_async : RpcCall → RpcClient → ℕ × RpcClient
  invoke_async call c = admit_invoke call (admission_status_for_invoke c) c

  abbrev pub take_front : List PendingSubmit → RpcClient → RpcClient
  take_front [] c = c
  take_front (s ∷ rest) c = record c {
    submit_queue = rest;
    in_hand = some (s, make_pending_info s c);
  }

  abbrev pub take_into : Option (PendingSubmit × PendingInfo) → RpcClient → RpcClient
  take_into none c = take_front c.submit_queue c
  take_into (some held) c = c

  -- The head of the submit thread's loop, and of `SubmitOne`, where nothing is in hand.
  unfoldable pub take_submit : RpcClient → RpcClient
  take_submit c = take_into c.in_hand c

  -- `MakePendingWaitDeadline`
  unfoldable pub make_pending_wait_deadline : ℕ → Option ℕ
  make_pending_wait_deadline exec_timeout_ms =
      if exec_timeout_ms == 0 then none else some (add64 env.now exec_timeout_ms)

  -- `BuildPendingRequest`
  unfoldable pub build_pending_request : PendingSubmit → RpcClient → PendingRequest
  build_pending_request s c = record {
    future = s.future;
    info = make_pending_info s c;
    wait_deadline = make_pending_wait_deadline s.call.exec_timeout_ms;
  }

  abbrev pub on_world : World → RpcClient → RpcClient
  on_world w c = record c { transport = record (c.transport) { world = w } }

  abbrev request_count : Priority → World → ℕ
  request_count normal w = ring_count w.memory.header.normal_ring
  request_count high w = ring_count w.memory.header.high_ring

  abbrev request_fd : Priority → World → Option ℕ
  request_fd normal w = w.session.handles.normal_req_event_fd
  request_fd high w = w.session.handles.high_req_event_fd

  -- A push onto an empty ring wakes the server.
  abbrev signal_request : Priority → RpcClient → RpcClient
  signal_request p c =
      if request_count p c.transport.world == 1
      then record c { signalled = request_fd p c.transport.world ∷ c.signalled }
      else c

  abbrev pub after_push : PendingSubmit → StatusCode × World → RpcClient → StatusCode × RpcClient
  after_push s (ok, w) c = (ok, touch_activity env (signal_request s.call.priority (on_world w c)))
  after_push s (status, w) c =
      (status, record (on_world w c) { store = (take_pending s.request_id c.store).1 })

  -- `PushRequestToSession`; `later` is the state of the session at the second test of the push.
  unfoldable pub push_request_to_session :
      ℕ → PendingSubmit → RequestRingEntry → RpcClient → StatusCode × RpcClient
  push_request_to_session later s entry c =
      after_push s (push_request later (queue_of s.call.priority) entry c.transport.world) c

  abbrev pub push_prepared :
      ℕ → Option (List ℕ × ℕ) → PendingSubmit → RpcClient → StatusCode × RpcClient
  push_prepared later none s c = (payload_too_large, c)
  push_prepared later (some (transport_payload, kind)) s c =
      push_request_to_session later s (build_request_entry s transport_payload kind)
        (record c { store = put s.request_id (build_pending_request s c) c.store })

  -- `TryPushRequest`; `prepared` is what `PrepareFilePayloadForTransport` gives for the payload.
  unfoldable pub try_push_request :
      ℕ → Option (List ℕ × ℕ) → PendingSubmit → RpcClient → StatusCode × RpcClient
  try_push_request later prepared s c =
      if not (valid c.transport.world.session)
      then (peer_disconnected, c)
      else push_prepared later prepared s c

  -- `TryAdmitSubmit` after the push; `credit` says that the wait for request credit ended in order.
  abbrev pub admitted : Bool → StatusCode × RpcClient → StatusCode × RpcClient
  admitted credit (ok, c) = (ok, c)
  admitted credit (peer_disconnected, c) = (peer_disconnected, close_live_session_locked env c)
  admitted credit (queue_full, c) =
      if credit then (queue_full, c) else (peer_disconnected, close_live_session_locked env c)
  admitted credit (status, c) = (status, c)

  unfoldable pub try_admit_submit :
      Bool → ℕ → Option (List ℕ × ℕ) → PendingSubmit → RpcClient → StatusCode × RpcClient
  try_admit_submit credit later prepared s c = admitted credit (try_push_request later prepared s c)

  abbrev pub drop_hand : RpcClient → RpcClient
  drop_hand c = record c { in_hand = none }

  -- What `SubmitOne` does with the status of an admission: it is done, tries again, or gives up.
  abbrev pub settle_submit : PendingSubmit → PendingInfo → StatusCode × RpcClient → RpcClient
  settle_submit s info (ok, c) = drop_hand c
  settle_submit s info (peer_disconnected, c) = c
  settle_submit s info (queue_full, c) = c
  settle_submit s info (status, c) = fail_and_resolve env info status s.future (drop_hand c)

  abbrev pub submit_held :
      Bool → ℕ → Option (List ℕ × ℕ) → Option (PendingSubmit × PendingInfo) → RpcClient → RpcClient
  submit_held credit later prepared none c = c
  submit_held credit later prepared (some (s, info)) c =
      settle_submit s info (try_admit_submit credit later prepared s c)

  -- One round of `SubmitOne` on a session that is ready.
  unfoldable pub submit_round : Bool → ℕ → Option (List ℕ × ℕ) → RpcClient → RpcClient
  submit_round credit later prepared c = submit_held credit later prepared c.in_hand c

  abbrev pub abort_held : StatusCode → Option (PendingSubmit × PendingInfo) → RpcClient → RpcClient
  abort_held status none c = c
  abort_held status (some (s, info)) c = fail_and_resolve env info status s.future (drop_hand c)

  -- `ResolveSubmitFailure` where `SubmitOne` gives up with a status: the session cannot be had, or the
  -- workers stop.
  unfoldable pub abort_submit : StatusCode → RpcClient → RpcClient
  abort_submit status c = abort_held status c.in_hand c

  abbrev pub abort_each : List PendingSubmit → RpcClient → RpcClient
  abort_each [] c = c
  abort_each (s ∷ rest) c =
      abort_each rest
        (fail_and_resolve env (make_pending_info s c) (runtime_stop_status c) s.future c)

  -- The end of the submit thread once the workers are stopped: `SubmitOne` fails for what is in hand
  -- and for each submission of the queue.
  unfoldable pub drain_submits : RpcClient → RpcClient
  drain_submits c =
      let dropped = abort_submit (runtime_stop_status c) c in
      abort_each dropped.submit_queue (record dropped { submit_queue = [] })

  abbrev pub resolve_submits : StatusCode → List PendingSubmit → RpcClient → RpcClient
  resolve_submits status [] c = c
  resolve_submits status (s ∷ rest) c =
      resolve_submits status rest (resolve_future env s.future status c)

  -- `FailQueuedSubmissions`
  unfoldable pub fail_queued_submissions : StatusCode → RpcClient → RpcClient
  fail_queued_submissions status c =
      resolve_submits status c.submit_queue (record c { submit_queue = [] })
