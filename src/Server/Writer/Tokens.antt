-- ===== src/Server/Writer/Tokens.antt =====
-- That the response writer of memrpc/src/server/rpc_server.cpp leaves the count of the tasks alone.
use mem.Prelude.{ℕ, zero, suc, ◌≡◌, refl, ◌∙◌, Bool, false, List, [], ◌∷◌, if-kept}
use mem.Types.{StatusCode}
use mem.Session.{is_ok}
use mem.Server.Completions.{CompletionItem, Completions, Popped, blocked, ended, popped}
use mem.Server.State.{Env, RpcServer, signal_event_fd, remove_response_file_payload}
use mem.Server.State.Laws.{signal-tokens, mark_broken-tokens}
use mem.Server.Writer.{
  Delivery, settle_item, write_item, after_wait, response_writer_loop, remove_all, fail_pending,
  stop_response_writer, with_completions,
}

module _ {Fs : Type 0} (env : Env Fs) where
  settle-tokens :
      (item : CompletionItem) (status : StatusCode) (s : RpcServer Fs)
      → (settle_item env item status s).pending_submitted_tasks ≡ s.pending_submitted_tasks
  unfolding remove_response_file_payload
  settle-tokens item status s =
      let Same : RpcServer Fs → Type 0 =
        λ t. t.pending_submitted_tasks ≡ s.pending_submitted_tasks in
      if-kept (is_ok status) Same (signal-tokens env _ s)
        (if-kept item.break_session_on_failure Same (mark_broken-tokens env _) refl)

  write-tokens :
      (d : Delivery) (item : CompletionItem) (s : RpcServer Fs)
      → (write_item env d item s).pending_submitted_tasks ≡ s.pending_submitted_tasks
  unfolding write_item
  write-tokens d item s = settle-tokens item _ _

  turn-tokens :
      (d : Delivery) (next : RpcServer Fs → Bool × RpcServer Fs) (r : Popped × Completions)
      (s : RpcServer Fs)
      → ((t : RpcServer Fs) → (next t).1.pending_submitted_tasks ≡ t.pending_submitted_tasks)
      → (after_wait env d next r s).1.pending_submitted_tasks ≡ s.pending_submitted_tasks
  turn-tokens d next (blocked, c) s same = refl
  turn-tokens d next (ended, c) s same = refl
  turn-tokens d next (popped item, c) s same = same _ ∙ write-tokens d item _

  loop-tokens :
      (rounds : ℕ) (d : ℕ → Delivery) (s : RpcServer Fs)
      → (response_writer_loop rounds env d s).1.pending_submitted_tasks ≡ s.pending_submitted_tasks
  unfolding response_writer_loop
  loop-tokens zero d s = refl
  loop-tokens (suc rounds) d s =
      turn-tokens (d rounds) (response_writer_loop rounds env d) _ s (λ t. loop-tokens rounds d t)

  remove_all-tokens :
      (q : List CompletionItem) (s : RpcServer Fs)
      → (remove_all env q s).pending_submitted_tasks ≡ s.pending_submitted_tasks
  unfolding remove_response_file_payload
  remove_all-tokens [] s = refl
  remove_all-tokens (item ∷ q) s = remove_all-tokens q _

  pub stop_writer-tokens :
      (rounds : ℕ) (d : ℕ → Delivery) (s : RpcServer Fs)
      → (stop_response_writer rounds env d s).1.pending_submitted_tasks ≡ s.pending_submitted_tasks
  unfolding stop_response_writer fail_pending
  stop_writer-tokens rounds d s =
      let told : RpcServer Fs = with_completions (λ c. record c { writer_running = false }) s in
      let waked = (signal_event_fd env told.world.session.handles.resp_credit_event_fd told).1 in
      let joined = (response_writer_loop rounds env d waked).1 in
      remove_all-tokens joined.completions.queue joined
      ∙ loop-tokens rounds d waked
      ∙ signal-tokens env told.world.session.handles.resp_credit_event_fd told
