-- ===== src/Server/Requests.antt =====
-- What a worker of memrpc/src/server/rpc_server.cpp does with a request: `ProcessEntry`, up to where it
-- waits for its response to be written, and from there on; and `PublishEvent`.
pub mod Answered
use mem.Prelude.{
  ℕ, Bool, true, false, not, ◌||◌, ◌&&◌, Option, none, some, List, [], ◌∷◌, ◌++◌, if◌then◌else◌,
  ◌==◌, ltb, min, length, replicate, drop, to_u32,
}
use mem.Types.{
  StatusCode, ok, peer_disconnected, protocol_mismatch, invalid_argument, engine_internal_error,
  payload_too_large, queue_full, code_of_status, Priority, normal, high, RequestRingEntry,
  ResponseRingEntry, reply, event, request_inline_bytes, response_inline_bytes,
}
use mem.Client.{RpcReply, RpcEvent, status_reply}
use mem.FilePayload.{payload_kind_inline, payload_kind_file_ref}
use mem.FilePayload.Files.{resolve_file_payload_from_transport}
use mem.FilePayload.Writing.{prepare_file_payload_for_transport}
use mem.Session.{valid}
use mem.Session.Queues.{is_alive}
use mem.Server.Completions.{CompletionItem, make_completion, enqueue_completion}
use mem.Server.State.{
  Env, RpcServer, RpcServerCall, RpcHandler, find_key, mark_execution_started,
  mark_execution_finished, mark_session_broken, remove_response_file_payload,
}

-- What a thread of the server comes to: it goes on, or waits for the completion with the number.
pub data Progress : Type 0 where
  done : StatusCode → Progress
  awaits : ℕ → Progress

-- `IsHighPriority`, of the number that `Priority::High` stands for.
unfoldable pub is_high_priority : RequestRingEntry → Bool
is_high_priority e = e.priority == 1

-- `memcpy` to the start of the entry's storage, which is full of zeros.
abbrev pub copy_into : ℕ → List ℕ → List ℕ
copy_into size payload = payload ++ drop (length payload) (replicate size 0)

unfoldable pub build_server_call : RequestRingEntry → List ℕ → RpcServerCall
build_server_call e payload = record {
  opcode = e.opcode;
  priority = if is_high_priority e then high else normal;
  exec_timeout_ms = e.exec_timeout_ms;
  payload = payload;
}

unfoldable pub build_reply_entry : RequestRingEntry → RpcReply → ℕ → ResponseRingEntry
build_reply_entry e r kind = record {
  request_id = e.request_id;
  status_code = code_of_status r.status;
  event_domain = 0;
  event_type = 0;
  flags = 0;
  result_size = to_u32 (length r.payload);
  message_kind = reply;
  payload_kind = kind;
  payload = copy_into response_inline_bytes r.payload;
}

abbrev build_event_entry : RpcEvent → List ℕ → ℕ → ResponseRingEntry
build_event_entry e payload kind = record {
  request_id = 0;
  status_code = 0;
  event_domain = e.event_domain;
  event_type = e.event_type;
  flags = e.flags;
  result_size = to_u32 (length payload);
  message_kind = event;
  payload_kind = kind;
  payload = copy_into response_inline_bytes payload;
}

-- `BuildResponseCompletionItem`, with `RESPONSE_RETRY_BUDGET`.
abbrev pub build_response_completion_item : ResponseRingEntry → ℕ → CompletionItem
build_response_completion_item entry completion = record {
  entry = entry;
  retry_budget_ms = 50;
  break_session_on_failure = true;
  completion = completion;
}

-- The item of an event, with `EVENT_RETRY_BUDGET`.
abbrev event_item : ResponseRingEntry → ℕ → CompletionItem
event_item entry completion = record {
  entry = entry;
  retry_budget_ms = 10;
  break_session_on_failure = false;
  completion = completion;
}

abbrev invoke : RequestRingEntry → RpcHandler → Option (List ℕ) → RpcReply
invoke e handler none = status_reply protocol_mismatch
invoke e handler (some payload) = handler (build_server_call e payload)

abbrev pub unknown_kind : RequestRingEntry → Bool
unknown_kind e =
    not (e.payload_kind == payload_kind_inline) && not (e.payload_kind == payload_kind_file_ref)

abbrev has_fd : Option ℕ → Bool
has_fd none = false
has_fd (some fd) = true

-- The status, the payload to transport with its kind, and the server.
abbrev pub PreparedResponse : Type 0 → Type 0
PreparedResponse Fs = StatusCode × List ℕ × ℕ × RpcServer Fs

module _ {Fs : Type 0} where
  abbrev pub invoke_found :
      Env Fs → RequestRingEntry → Option RpcHandler → RpcServer Fs → RpcReply × RpcServer Fs
  invoke_found env e none s = (status_reply invalid_argument, s)
  invoke_found env e (some handler) s =
      let (payload, fs) =
        resolve_file_payload_from_transport env.posix env.dir (some e.payload) e.payload_size
          e.payload_kind s.fs in
      (invoke e handler payload, record s { fs = fs })

  unfoldable pub invoke_handler : Env Fs → RequestRingEntry → RpcServer Fs → RpcReply × RpcServer Fs
  invoke_handler env e s = invoke_found env e (find_key e.opcode s.handlers) s

  abbrev pub prepared_response :
      List ℕ → RpcServer Fs → Option (List ℕ × ℕ) × Fs → PreparedResponse Fs
  prepared_response payload s (none, fs) =
      (payload_too_large, payload, payload_kind_inline, record s { fs = fs })
  prepared_response payload s (some (bytes, kind), fs) = (ok, bytes, kind, record s { fs = fs })

  -- `PrepareResponsePayloadForTransport`
  unfoldable pub prepare_response_payload : Env Fs → List ℕ → RpcServer Fs → PreparedResponse Fs
  prepare_response_payload env payload s =
      let limit = min s.world.session.max_response_bytes response_inline_bytes in
      if not (valid s.world.session)
      then (peer_disconnected, payload, payload_kind_inline, s)
      else prepared_response payload s (
          prepare_file_payload_for_transport env.posix env.maker env.dir env.stamp payload limit
            s.fs)

  abbrev pub enqueued_response : Env Fs → CompletionItem → RpcServer Fs → Progress × RpcServer Fs
  enqueued_response env item s =
      let (accepted, c) = enqueue_completion item s.completions in
      if accepted then (awaits item.completion, record s { completions = c }) else (
        done peer_disconnected,
        mark_session_broken env (remove_response_file_payload env item.entry s),
      )

  -- A completion state is made for the entry, and the item with both is enqueued.
  abbrev pub send_reply : Env Fs → ResponseRingEntry → RpcServer Fs → Progress × RpcServer Fs
  send_reply env entry s =
      let (completion, c) = make_completion s.completions in
      enqueued_response env (build_response_completion_item entry completion)
        (record s { completions = c })

  abbrev pub write_prepared :
      Env Fs → RequestRingEntry → RpcReply → PreparedResponse Fs → Progress × RpcServer Fs
  write_prepared env e r (ok, payload, kind, s) =
      send_reply env (build_reply_entry e (record { status = r.status; payload = payload }) kind) s
  write_prepared env e r (payload_too_large, payload, kind, s) =
      send_reply env (build_reply_entry e (status_reply payload_too_large) payload_kind_inline) s
  write_prepared env e r (status, payload, kind, s) = (done status, s)

  -- `WriteResponse`, up to `AwaitWriteCompletion`.
  unfoldable pub write_response :
      Env Fs → RequestRingEntry → RpcReply → RpcServer Fs → Progress × RpcServer Fs
  write_response env e r s = write_prepared env e r (prepare_response_payload env r.payload s)

  -- The three conditions on the payload in `ProcessEntry`.
  abbrev pub too_long : RequestRingEntry → RpcServer Fs → Bool
  too_long e s =
      ltb s.world.session.max_request_bytes e.payload_size
      || ltb request_inline_bytes e.payload_size

  abbrev pub invalid_payload : RequestRingEntry → RpcServer Fs → Bool
  invalid_payload e s =
      ((e.payload_kind == payload_kind_inline) && too_long e s)
      || (((e.payload_kind == payload_kind_file_ref) && (e.payload_size == 0 || too_long e s))
          || unknown_kind e)

  -- With whether the request has been marked as an active execution, which it stays until the task ends.
  abbrev pub run_marked : Env Fs → RequestRingEntry → RpcServer Fs → Progress × Bool × RpcServer Fs
  run_marked env e s =
      let (r, s') = invoke_handler env e (mark_execution_started env e.request_id s) in
      let (progress, s'') = write_response env e r s' in (progress, true, s'')

  abbrev pub run_unmarked :
      Env Fs → RequestRingEntry → StatusCode → RpcServer Fs → Progress × Bool × RpcServer Fs
  run_unmarked env e status s =
      let (progress, s') = write_response env e (status_reply status) s in (progress, false, s')

  -- `ProcessEntry`, up to where it waits.
  unfoldable pub process_entry :
      Env Fs → RequestRingEntry → RpcServer Fs → Progress × Bool × RpcServer Fs
  process_entry env e s =
      let rejected = if unknown_kind e then protocol_mismatch else payload_too_large in
      if not (valid s.world.session)
      then (done peer_disconnected, false, s)
      else if invalid_payload e s
      then run_unmarked env e rejected s
      else run_marked env e s

  -- What is left of `ProcessEntry` when the wait is over, or where there is none.
  unfoldable pub finish_entry : RequestRingEntry → Bool → RpcServer Fs → RpcServer Fs
  finish_entry e marked s = if marked then mark_execution_finished e.request_id s else s

  abbrev pub publish_enqueued : Env Fs → CompletionItem → RpcServer Fs → Progress × RpcServer Fs
  publish_enqueued env item s =
      let (accepted, c) = enqueue_completion item s.completions in
      if accepted
      then (awaits item.completion, record s { completions = c })
      else (done queue_full, remove_response_file_payload env item.entry s)

  abbrev pub publish_prepared : Env Fs → RpcEvent → PreparedResponse Fs → Progress × RpcServer Fs
  publish_prepared env e (ok, payload, kind, s) =
      let (completion, c) = make_completion s.completions in
      publish_enqueued env (event_item (build_event_entry e payload kind) completion)
        (record s { completions = c })
  publish_prepared env e (status, payload, kind, s) = (done status, s)

  -- `PublishEvent`, up to where it waits for the completion.
  unfoldable pub publish_event : Env Fs → RpcEvent → RpcServer Fs → Progress × RpcServer Fs
  publish_event env e s =
      if not s.running || not (is_alive s.world)
      then (done peer_disconnected, s)
      else if not (valid s.world.session) || not (has_fd s.world.session.handles.resp_event_fd)
      then (done engine_internal_error, s)
      else publish_prepared env e (prepare_response_payload env e.payload s)
