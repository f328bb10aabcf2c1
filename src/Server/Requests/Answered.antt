-- ===== src/Server/Requests/Answered.antt =====
-- That every request a worker of memrpc/src/server/rpc_server.cpp starts gets its response, or the session
-- is over.
use mem.Prelude.{
  ℕ, ◌+◌, ◌≡◌, ◌≤◌, refl, ap, ◌∙◌, true, false, not, ◌||◌, Option, none, some, List, [], ◌∷◌, ◌++◌,
  Bool-cases, inl, inr, ltb, leb, min, length, drop, replicate, length-append, length-drop,
  length-replicate, arith, leb→le, ltb→ge,
}
use mem.Types.{peer_disconnected, RequestRingEntry, reply, response_inline_bytes}
use mem.Client.{RpcReply}
use mem.FilePayload.{FilePayloadRef}
use mem.FilePayload.Files.{Posix}
use mem.FilePayload.Writing.{
  Maker, Stamp, Prepared, prepare_file_payload_for_transport, send_written, send_envelope,
}
use mem.Session.{World, valid}
use mem.Session.Queues.{is_alive}
use mem.Server.Completions.{CompletionItem, Completions, make_completion, enqueue_completion}
use mem.Server.State.{
  Env, RpcServer, RpcHandler, find_key, remove_response_file_payload, mark_execution_started,
}
use mem.Server.State.Laws.{mark_broken-closed, mark_broken-completions}
use mem.Server.Requests.{
  Progress, done, awaits, build_reply_entry, build_response_completion_item, invoke_found,
  invoke_handler, prepared_response, prepare_response_payload, enqueued_response, send_reply,
  write_prepared, write_response, process_entry, invalid_payload,
}

-- A transported payload fits into the limit.
pub data Fits {Fs : Type 0} (limit : ℕ) : Prepared Fs → Type 0 where
  prepared :
      (bytes : List ℕ) (kind : ℕ) (fs : Fs)
      → length bytes ≤ limit
      → Fits limit (some (bytes, kind), fs)
  unprepared : (fs : Fs) → Fits limit (none, fs)

module _ {Fs : Type 0} (posix : Posix Fs) (maker : Maker Fs) (dir : List ℕ) (limit : ℕ) where
  send_envelope-Fits :
      (ref : FilePayloadRef) (o : Option (List ℕ)) (fs : Fs)
      → Fits limit (send_envelope posix maker dir limit ref o fs)
  send_envelope-Fits ref none fs = unprepared _
  send_envelope-Fits ref (some bytes) fs = elim (Bool-cases (ltb limit (length bytes))) [
    | inl long ↦ rw long (unprepared _)
    | inr fits ↦ rw fits (prepared bytes _ fs (ltb→ge limit (length bytes) fits))
  ]

  send_written-Fits :
      (w : Option FilePayloadRef × Fs) → Fits limit (send_written posix maker dir limit w)
  send_written-Fits (none, fs) = unprepared _
  send_written-Fits (some ref, fs) = send_envelope-Fits ref _ fs

  pub prepare-Fits :
      (stamp : Stamp) (payload : List ℕ) (fs : Fs)
      → Fits limit (prepare_file_payload_for_transport posix maker dir stamp payload limit fs)
  unfolding prepare_file_payload_for_transport
  prepare-Fits stamp payload fs = elim (Bool-cases (leb (length payload) limit)) [
    | inl fits ↦ rw fits (prepared payload _ fs (leb→le (length payload) limit fits))
    | inr long ↦ rw long (send_written-Fits _)
  ]

-- The item of a reply to the request, whose payload lies inside the entry's storage.
pub record IsReplyTo (e : RequestRingEntry) (item : CompletionItem) : Type 0 where
  pub id : item.entry.request_id ≡ e.request_id
  pub kind : item.entry.message_kind ≡ reply
  pub storage : length item.entry.payload ≡ response_inline_bytes
  pub size : item.entry.result_size ≤ response_inline_bytes
  pub breaks : item.break_session_on_failure ≡ true

-- The task waits for a new completion, whose item is the last of the queue, or it has ended and the
-- session is over.
pub data Answered {Fs : Type 0} (e : RequestRingEntry) (c : Completions)
    : Progress × RpcServer Fs → Type 0 where
  queued :
      (item : CompletionItem) (s : RpcServer Fs)
      → IsReplyTo e item
      → item.completion ≡ length c.states
      → s.completions.queue ≡ c.queue ++ (item ∷ [])
      → s.completions.pending ≡ c.pending + 1
      → Answered e c (awaits item.completion, s)
  over :
      (s : RpcServer Fs)
      → is_alive s.world ≡ false
      → s.completions.queue ≡ c.queue
      → s.completions.pending ≡ c.pending
      → Answered e c (done peer_disconnected, s)

module _ {Fs : Type 0} (env : Env Fs) (e : RequestRingEntry) where
  reply-IsReplyTo :
      (r : RpcReply) (kind completion : ℕ)
      → length r.payload ≤ response_inline_bytes
      → IsReplyTo e (build_response_completion_item (build_reply_entry e r kind) completion)
  unfolding build_reply_entry
  reply-IsReplyTo r kind completion fits =
      let z : ℕ = 0 in
      let zeros : List ℕ = replicate response_inline_bytes 0 in
      record {
        id = refl;
        kind = refl;
        storage = omega (
          arith,
          length-append r.payload (drop (length r.payload) zeros),
          length-drop (length r.payload) zeros,
          length-replicate response_inline_bytes z,
        );
        size = omega arith;
        breaks = refl;
      }

  enqueued-Answered :
      (item : CompletionItem) (c : Completions) (s : RpcServer Fs)
      → IsReplyTo e item
      → item.completion ≡ length c.states
      → s.completions.queue ≡ c.queue
      → s.completions.pending ≡ c.pending
      → Answered e c (enqueued_response env item s)
  unfolding enqueue_completion remove_response_file_payload
  enqueued-Answered item c s is_reply new queue pending =
      elim (Bool-cases
        (not s.completions.writer_running || leb s.completions.capacity s.completions.pending)) [
          | inl refused ↦ rw refused (
              over _ (mark_broken-closed env _)
                (ap (λ (x : Completions). x.queue) (mark_broken-completions env _) ∙ queue)
                (ap (λ (x : Completions). x.pending) (mark_broken-completions env _) ∙ pending))
          | inr room ↦ rw room (
              queued item _ is_reply new (ap (λ (q : List CompletionItem). q ++ (item ∷ [])) queue)
                (omega (arith, pending)))
        ]

  send-Answered :
      (r : RpcReply) (kind : ℕ) (c : Completions) (s : RpcServer Fs)
      → length r.payload ≤ response_inline_bytes
      → s.completions ≡ c
      → Answered e c (send_reply env (build_reply_entry e r kind) s)
  unfolding make_completion
  send-Answered r kind c s fits same =
      enqueued-Answered _ c _ (reply-IsReplyTo r kind _ fits)
        (ap (λ (x : Completions). length x.states) same) (ap (λ (x : Completions). x.queue) same)
        (ap (λ (x : Completions). x.pending) same)

  prepared-Answered :
      (r : RpcReply) (limit : ℕ) (p : Prepared Fs) (c : Completions) (s : RpcServer Fs)
      → Fits limit p
      → limit ≤ response_inline_bytes
      → s.completions ≡ c
      → Answered e c (write_prepared env e r (prepared_response r.payload s p))
  prepared-Answered r limit p c s (prepared bytes kind fs fits) small same =
      send-Answered _ kind c _ (omega arith) same
  prepared-Answered r limit p c s (unprepared fs) small same =
      send-Answered _ _ c _ (omega arith) same

  write-Answered :
      (r : RpcReply) (c : Completions) (s : RpcServer Fs)
      → valid s.world.session ≡ true
      → s.completions ≡ c
      → Answered e c (write_response env e r s)
  unfolding write_response prepare_response_payload
  write-Answered r c s is_valid same =
      let limit = min s.world.session.max_response_bytes response_inline_bytes in
      rw is_valid (
        prepared-Answered r limit _ c s
          (prepare-Fits env.posix env.maker env.dir limit env.stamp r.payload s.fs) (omega arith)
          same)

  invoke_found-kept :
      (found : Option RpcHandler) (s : RpcServer Fs)
      → ((invoke_found env e found s).1.world ≡ s.world)
        × ((invoke_found env e found s).1.completions ≡ s.completions)
  invoke_found-kept none s = (refl, refl)
  invoke_found-kept (some handler) s = (refl, refl)

-- Where the session is valid, a worker that starts a request, whatever its payload, its handler and the
-- file system do, comes to one of two ends. It waits for a new completion, and the one item that was
-- added at the end of the queue is a reply with the id of the request, within the storage of a ring entry,
-- whose failure breaks the session. Or it has ended, the session is marked as broken and nothing was
-- queued.
pub process_entry-Answered :
    {Fs : Type 0} (env : Env Fs) (e : RequestRingEntry) (s : RpcServer Fs)
    → valid s.world.session ≡ true
    → let (progress, marked, t) = process_entry env e s in Answered e s.completions (progress, t)
unfolding process_entry invoke_handler mark_execution_started
process_entry-Answered env e s is_valid = elim (Bool-cases (invalid_payload e s)) [
  | inl bad ↦ rw (is_valid, bad) (write-Answered env e _ s.completions s is_valid refl)
  | inr good ↦
      let started = mark_execution_started env e.request_id s in
      let (world, completions) =
        invoke_found-kept env e (find_key e.opcode started.handlers) started in
      rw (is_valid, good)
        (write-Answered env e _ s.completions _
          (ap (λ (w : World). valid w.session) world ∙ is_valid) completions)
]
