-- ===== src/Server/Lifecycle/Tasks.antt =====
-- A task of the server of memrpc/src/server/rpc_server.cpp after its response writer has stopped.
use mathlib.Core.Path.{subst}
use mem.Prelude.{
  ℕ, ◌≡◌, refl, sym, ap, ◌∙◌, Bool, false, not, Option, none, some, if◌then◌else◌, if-kept,
}
use mem.Types.{StatusCode, RequestRingEntry, ResponseRingEntry, peer_disconnected}
use mem.Client.{RpcReply}
use mem.FilePayload.Writing.{Prepared}
use mem.Session.{valid}
use mem.Server.Completions.{CompletionItem, Completions, make_completion, enqueue_completion}
use mem.Server.State.{
  Env, RpcServer, RpcHandler, find_key, mark_session_broken, remove_response_file_payload,
  mark_execution_started,
}
use mem.Server.State.Laws.{mark_broken-completions, mark_broken-tokens}
use mem.Server.Requests.{
  Progress, done, awaits, invoke_found, invoke_handler, PreparedResponse, prepared_response,
  prepare_response_payload, enqueued_response, send_reply, write_prepared, write_response,
  process_entry, invalid_payload,
}

-- A task that has not to wait, and what it leaves alone.
pub data Ended {Fs : Type 0} (tokens : ℕ) : Progress × RpcServer Fs → Type 0 where
  ended :
      (status : StatusCode) (t : RpcServer Fs)
      → t.pending_submitted_tasks ≡ tokens
      → t.completions.writer_running ≡ false
      → Ended tokens (done status, t)

module _ {Fs : Type 0} (env : Env Fs) where
  enqueue_shut :
      (item : CompletionItem) (c : Completions)
      → c.writer_running ≡ false
      → enqueue_completion item c ≡ (false, c)
  unfolding enqueue_completion
  enqueue_shut item c shut = rw shut refl

  enqueued-Ended :
      (item : CompletionItem) (s : RpcServer Fs)
      → s.completions.writer_running ≡ false
      → Ended s.pending_submitted_tasks (enqueued_response env item s)
  unfolding remove_response_file_payload
  enqueued-Ended item s shut =
      let Result : Bool × Completions → Type 0 = λ r. Ended s.pending_submitted_tasks (
        if r.0 then (awaits item.completion, record s { completions = r.1 }) else (
          done peer_disconnected,
          mark_session_broken env (remove_response_file_payload env item.entry s),
        )) in
      subst Result (sym (enqueue_shut item s.completions shut)) (
        ended peer_disconnected _ (mark_broken-tokens env _)
          (ap (λ (c : Completions). c.writer_running) (mark_broken-completions env _) ∙ shut))

  send-Ended :
      (entry : ResponseRingEntry) (s : RpcServer Fs)
      → s.completions.writer_running ≡ false
      → Ended s.pending_submitted_tasks (send_reply env entry s)
  unfolding make_completion
  send-Ended entry s shut = enqueued-Ended _ _ shut

  prepared-Ended :
      (e : RequestRingEntry) (r : RpcReply) (p : Prepared Fs) (s : RpcServer Fs)
      → s.completions.writer_running ≡ false
      → Ended s.pending_submitted_tasks (write_prepared env e r (prepared_response r.payload s p))
  prepared-Ended e r (none, fs) s shut = send-Ended _ (record s { fs = fs }) shut
  prepared-Ended e r (some (bytes, kind), fs) s shut = send-Ended _ (record s { fs = fs }) shut

  write-Ended :
      (e : RequestRingEntry) (r : RpcReply) (s : RpcServer Fs)
      → s.completions.writer_running ≡ false
      → Ended s.pending_submitted_tasks (write_response env e r s)
  unfolding write_response prepare_response_payload
  write-Ended e r s shut =
      let Result : PreparedResponse Fs → Type 0 =
        λ p. Ended s.pending_submitted_tasks (write_prepared env e r p) in
      if-kept (not (valid s.world.session)) Result (ended peer_disconnected s refl shut)
        (prepared-Ended e r _ s shut)

  found-Ended :
      (e : RequestRingEntry) (found : Option RpcHandler) (s : RpcServer Fs)
      → s.completions.writer_running ≡ false
      → let (r, t) = invoke_found env e found s in
        Ended s.pending_submitted_tasks (write_response env e r t)
  found-Ended e none s shut = write-Ended e _ s shut
  found-Ended e (some handler) s shut = write-Ended e _ (record s { fs = _ }) shut

  -- With the writer stopped, a task comes to its end without waiting.
  pub process-Ended :
      (e : RequestRingEntry) (s : RpcServer Fs)
      → s.completions.writer_running ≡ false
      → let (progress, marked, t) = process_entry env e s in
        Ended s.pending_submitted_tasks (progress, t)
  unfolding process_entry invoke_handler mark_execution_started
  process-Ended e s shut =
      let Result : Progress × Bool × RpcServer Fs → Type 0 =
        λ p. Ended s.pending_submitted_tasks (p.0, p.2) in
      if-kept (not (valid s.world.session)) Result (ended peer_disconnected s refl shut) (
        if-kept (invalid_payload e s) Result (write-Ended e _ s shut) (
          found-Ended e (find_key e.opcode s.handlers) (mark_execution_started env e.request_id s)
            shut))
