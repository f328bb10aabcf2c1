-- ===== src/Server/Writer/Drained.antt =====
-- What stopping the response writer of memrpc/src/server/rpc_server.cpp leaves behind.
use mathlib.Core.Path.{subst}
use mem.Prelude.{
  sym, ℕ, zero, suc, ◌≡◌, refl, ap, ◌∙◌, Bool, true, false, List, [], ◌∷◌, length, arith,
  if◌then◌else◌, if-kept, All, All-mono, some, get_elem?-set_self, length-set, ◌<◌,
}
use mem.Types.{StatusCode, peer_disconnected}
use mem.Session.{is_ok}
use mem.Server.Completions.{
  CompletionItem, Completions, Popped, blocked, popped, ended, complete_item,
  on_completion_item_finished, wait_and_pop_completion_item, fail_pending_completion_items,
  pop_front,
}
use mem.Server.Completions.Accounted.{fail-nothing, IsReady, IsKnown, set-IsReady}
use mem.Server.State.{Env, RpcServer, signal_event_fd, remove_response_file_payload}
use mem.Server.State.Laws.{signal-completions, mark_broken-completions}
use mem.Server.Writer.{
  Delivery, write_item, settle_item, response_writer_loop, stop_response_writer, with_completions,
  after_wait, push_response_with_retry, fail_pending, remove_all,
}

module _ {Fs : Type 0} (env : Env Fs) where
  settle_item-completions :
      (item : CompletionItem) (status : StatusCode) (s : RpcServer Fs)
      → (settle_item env item status s).completions ≡ s.completions
  unfolding remove_response_file_payload
  settle_item-completions item status s =
      if-kept (is_ok status) (λ (t : RpcServer Fs). t.completions ≡ s.completions)
        (signal-completions env _ s)
        (if-kept item.break_session_on_failure (λ (t : RpcServer Fs). t.completions ≡ s.completions)
          (mark_broken-completions env _) refl)

  -- What writing an item does to the completions.
  write_item-completions :
      (d : Delivery) (item : CompletionItem) (s : RpcServer Fs)
      → (status : StatusCode) × ((write_item env d item s).completions
          ≡ on_completion_item_finished (complete_item item.completion status s.completions))
  unfolding write_item
  write_item-completions d item s =
      let (status, w) = push_response_with_retry d.last item.entry d.attempts s.world in
      (
        status,
        ap
            (λ (c : Completions).
              on_completion_item_finished (complete_item item.completion status c))
            (settle_item-completions item status (record s { world = w })),
      )

  -- Items `q` written: they are answered, and what was answered before still is.
  record Written (q : List CompletionItem) (c c' : Completions) : Type 0 where
    stopped : c'.writer_running ≡ false
    emptied : c'.queue ≡ []
    answered : All (λ item. IsReady item.completion c') q
    kept : (item : CompletionItem) → IsReady item.completion c → IsReady item.completion c'

  finish-length :
      (id : ℕ) (status : StatusCode) (c : Completions)
      → length (on_completion_item_finished (complete_item id status c)).states ≡ length c.states
  unfolding on_completion_item_finished complete_item
  finish-length id status c = length-set c.states id (some status)

  finish-IsReady :
      (item : CompletionItem) (status : StatusCode) (c : Completions)
      → item.completion < length c.states
      → IsReady item.completion
          (on_completion_item_finished (complete_item item.completion status c))
  unfolding on_completion_item_finished complete_item
  finish-IsReady item status c known =
      (status, get_elem?-set_self c.states item.completion (some status) known)

  finish-kept :
      (id : ℕ) (status : StatusCode) (c : Completions) (item : CompletionItem)
      → IsReady item.completion c
      → IsReady item.completion (on_completion_item_finished (complete_item id status c))
  unfolding on_completion_item_finished
  finish-kept id status c item r = set-IsReady id status c item r

  pop-eq :
      (c : Completions) (item : CompletionItem) (rest : List CompletionItem)
      → c.queue ≡ item ∷ rest
      → wait_and_pop_completion_item c ≡ (popped item, record c { queue = rest })
  unfolding wait_and_pop_completion_item
  pop-eq c item rest e = ap (λ (q : List CompletionItem). pop_front q c) e

  stop-eq :
      (c : Completions)
      → c.queue ≡ []
      → c.writer_running ≡ false
      → wait_and_pop_completion_item c ≡ (ended, c)
  unfolding wait_and_pop_completion_item
  stop-eq c e shut =
      ap (λ (q : List CompletionItem). pop_front q c) e
      ∙ ap (λ (r : Bool). ((if r then blocked else ended), c)) shut

  -- A round of the loop, by what the wait gave.
  Turned : ℕ → (ℕ → Delivery) → List CompletionItem → RpcServer Fs → Popped × Completions → Type 0
  Turned rounds d q s r =
      let (returned, t) = after_wait env (d rounds) (response_writer_loop rounds env d) r s in
      (returned ≡ true) × Written q s.completions t.completions

  loop-Written :
      (rounds : ℕ) (d : ℕ → Delivery) (q : List CompletionItem) (s : RpcServer Fs)
      → s.completions.writer_running ≡ false
      → s.completions.queue ≡ q
      → All (IsKnown s.completions) q
      → length q < rounds
      → ((response_writer_loop rounds env d s).0 ≡ true)
        × Written q s.completions (response_writer_loop rounds env d s).1.completions
  unfolding Turned response_writer_loop on_completion_item_finished complete_item
  loop-Written zero d q s shut eq known enough = absurd (omega arith)
  loop-Written (suc rounds) d [] s shut eq known enough =
      subst (Turned rounds d [] s) (sym (stop-eq s.completions eq shut))
        (refl, record { stopped = shut; emptied = eq; answered = tt; kept = λ item r. r })
  loop-Written (suc rounds) d (item ∷ rest) s shut eq known enough =
      let c : Completions = record (s.completions) { queue = rest } in
      let t = write_item env (d rounds) item (record s { completions = c }) in
      let (status, e) = write_item-completions (d rounds) item (record s { completions = c }) in
      let size : length t.completions.states ≡ length c.states =
        ap (λ (x : Completions). length x.states) e ∙ finish-length item.completion status c in
      let known' : All (IsKnown t.completions) rest =
        All-mono (λ i k. omega (arith, k, size)) rest known.1 in
      let (returned, more) =
        loop-Written rounds d rest t (ap (λ (x : Completions). x.writer_running) e ∙ shut)
          (ap (λ (x : Completions). x.queue) e) known' (omega arith) in
      rw (pop-eq s.completions item rest eq) (
        returned,
        record {
          stopped = more.stopped;
          emptied = more.emptied;
          answered = (
            more.kept item
                (subst (IsReady item.completion) (sym e) (finish-IsReady item status c known.0)),
            more.answered,
          );
          kept = λ i r.
              more.kept i
                (subst (IsReady i.completion) (sym e) (finish-kept item.completion status c i r));
        },
      )

  remove_all-completions :
      (q : List CompletionItem) (s : RpcServer Fs)
      → (remove_all env q s).completions ≡ s.completions
  unfolding remove_response_file_payload
  remove_all-completions [] s = refl
  remove_all-completions (item ∷ q) s = remove_all-completions q _

  fail_pending-completions :
      (status : StatusCode) (s : RpcServer Fs)
      → s.completions.queue ≡ []
      → (fail_pending env status s).completions ≡ record (s.completions) { queue = []; pending = 0 }
  unfolding fail_pending
  fail_pending-completions status s e =
      ap (λ (c : Completions). fail_pending_completion_items status c)
        (remove_all-completions s.completions.queue s)
      ∙ fail-nothing status s.completions e

-- What a thread that waits for an item of the queue finds after the writer has been stopped: more rounds
-- of its loop than there are queued items let the writer's thread return, whatever becomes of the pushes;
-- then every queued item has been answered, none is queued or pending, and no more are accepted.
pub stop_writer_answers :
    {Fs : Type 0} (env : Env Fs) (rounds : ℕ) (d : ℕ → Delivery) (s : RpcServer Fs)
    → All (IsKnown s.completions) s.completions.queue
    → length s.completions.queue < rounds
    → let (returned, t) = stop_response_writer rounds env d s in
      (returned ≡ true)
      × All (λ item. IsReady item.completion t.completions) s.completions.queue
      × (t.completions.queue ≡ [])
      × (t.completions.pending ≡ 0)
      × (t.completions.writer_running ≡ false)
unfolding stop_response_writer
stop_writer_answers env rounds d s known enough =
    let told : RpcServer _ = with_completions (λ c. record c { writer_running = false }) s in
    let fd = told.world.session.handles.resp_credit_event_fd in
    let waked = (signal_event_fd env fd told).1 in
    let e = signal-completions env fd told in
    let known' = subst (λ (c : Completions). All (IsKnown c) s.completions.queue) (sym e) known in
    let (returned, w) =
      loop-Written env rounds d s.completions.queue waked
        (ap (λ (c : Completions). c.writer_running) e) (ap (λ (c : Completions). c.queue) e) known'
        enough in
    let joined = (response_writer_loop rounds env d waked).1 in
    let f = fail_pending-completions env peer_disconnected joined w.emptied in
    (
      returned,
      subst (λ (c : Completions). All (λ item. IsReady item.completion c) s.completions.queue)
          (sym f) w.answered,
      ap (λ (c : Completions). c.queue) f,
      ap (λ (c : Completions). c.pending) f,
      ap (λ (c : Completions). c.writer_running) f ∙ w.stopped,
    )

-- What was answered before the writer is stopped still is.
pub stop_writer_keeps :
    {Fs : Type 0} (env : Env Fs) (rounds : ℕ) (d : ℕ → Delivery) (s : RpcServer Fs)
    → All (IsKnown s.completions) s.completions.queue
    → length s.completions.queue < rounds
    → (item : CompletionItem) → IsReady item.completion s.completions
    → IsReady item.completion (stop_response_writer rounds env d s).1.completions
unfolding stop_response_writer
stop_writer_keeps env rounds d s known enough item ready =
    let told : RpcServer _ = with_completions (λ c. record c { writer_running = false }) s in
    let fd = told.world.session.handles.resp_credit_event_fd in
    let waked = (signal_event_fd env fd told).1 in
    let e = signal-completions env fd told in
    let known' = subst (λ (c : Completions). All (IsKnown c) s.completions.queue) (sym e) known in
    let (returned, w) =
      loop-Written env rounds d s.completions.queue waked
        (ap (λ (c : Completions). c.writer_running) e) (ap (λ (c : Completions). c.queue) e) known'
        enough in
    let joined = (response_writer_loop rounds env d waked).1 in
    subst (IsReady item.completion)
      (sym (fail_pending-completions env peer_disconnected joined w.emptied))
      (w.kept item (subst (IsReady item.completion) (sym e) ready))
