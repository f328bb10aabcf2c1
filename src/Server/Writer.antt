-- ===== src/Server/Writer.antt =====
-- The response writer of memrpc/src/server/rpc_server.cpp: waiting for credit, the push that is retried,
-- and what the thread does with one item.
pub mod Exactly
pub mod Drained
pub mod Tokens
use mem.Prelude.{
  ℕ, zero, suc, Bool, true, false, not, ◌||◌, ◌&&◌, Option, none, some, List, [], ◌∷◌,
  if◌then◌else◌,
}
use mem.Types.{StatusCode, ok, queue_full, peer_disconnected, ResponseRingEntry}
use mem.Session.{World, is_ok}
use mem.Session.Queues.{push_response, pop_response}
use mem.Server.Completions.{
  CompletionItem, Completions, Popped, blocked, ended, popped, wait_and_pop_completion_item,
  complete_item, on_completion_item_finished, fail_pending_completion_items,
}
use mem.Server.State.{
  Env, RpcServer, mark_session_broken, signal_event_fd, remove_response_file_payload,
}

-- `enum class PollEventFdResult` of memrpc/include/memrpc/core/runtime_utils.h
pub data PollEventFdResult : Type 0 where
  ready timeout retry failed : PollEventFdResult

-- One round of the loop of `WaitForResponseCredit`: whether the writer still runs, whether time is left,
-- and what polling gives.
pub record CreditRound : Type 0 where
  pub writer_running : Bool
  pub time_left : Bool
  pub polled : PollEventFdResult

-- The loop of `WaitForResponseCredit`. The deadline ends it: after the rounds that are listed no time
-- is left.
abbrev pub credit_rounds : List CreditRound → PollEventFdResult
credit_rounds [] = timeout
credit_rounds (r ∷ rs) =
    let later = credit_rounds rs in
    if not r.writer_running
    then failed
    else if not r.time_left
    then timeout
    else elim r.polled [ retry ↦ later | ready ↦ ready | timeout ↦ timeout | failed ↦ failed ]

unfoldable pub wait_for_response_credit : Option ℕ → List CreditRound → PollEventFdResult
wait_for_response_credit none rounds = failed
wait_for_response_credit (some fd) rounds = credit_rounds rounds

-- One failed attempt of `PushResponseWithRetry` before the deadline: the state that the header holds
-- after the push, what waiting for credit goes through, and how many responses the client takes out of
-- the ring meanwhile.
pub record Attempt : Type 0 where
  pub later : ℕ
  pub credit : List CreditRound
  pub pops : ℕ

abbrev pub client_pops : ℕ → World → World
client_pops zero w = w
client_pops (suc n) w = client_pops n (pop_response w).2

-- What is returned after waiting for credit, or the next attempt.
abbrev pub after_credit : PollEventFdResult → StatusCode × World → World → StatusCode × World
after_credit ready again w = again
after_credit timeout again w = (queue_full, w)
after_credit retry again w = (peer_disconnected, w)
after_credit failed again w = (peer_disconnected, w)

abbrev is_full : StatusCode → Bool
is_full queue_full = true
is_full _ = false

-- `PushResponseWithRetry`: `last` is what the header holds after the last push, when the deadline has
-- passed.
unfoldable pub push_response_with_retry :
    ℕ → ResponseRingEntry → List Attempt → World → StatusCode × World
push_response_with_retry last entry [] w = push_response last entry w
push_response_with_retry last entry (a ∷ rest) w =
    let (status, w') = push_response a.later entry w in
    let freed = client_pops a.pops w' in
    let again = push_response_with_retry last entry rest freed in
    let waited = wait_for_response_credit w'.session.handles.resp_credit_event_fd a.credit in
    if not (is_full status) then (status, w') else after_credit waited again freed

-- What lies outside the writer while it writes one item.
pub record Delivery : Type 0 where
  pub attempts : List Attempt
  pub last : ℕ

module _ {Fs : Type 0} where
  abbrev signal_response : Env Fs → RpcServer Fs → RpcServer Fs
  signal_response env s = (signal_event_fd env s.world.session.handles.resp_event_fd s).1

  -- The writer after a push with the given status.
  abbrev pub settle_item : Env Fs → CompletionItem → StatusCode → RpcServer Fs → RpcServer Fs
  settle_item env item status s =
      if is_ok status
      then signal_response env s
      else let removed = remove_response_file_payload env item.entry s in
        if item.break_session_on_failure then mark_session_broken env removed else removed

  abbrev pub with_completions : (Completions → Completions) → RpcServer Fs → RpcServer Fs
  with_completions f s = record s { completions = f s.completions }

  -- The body of `ResponseWriterLoop` for one item.
  unfoldable pub write_item : Env Fs → Delivery → CompletionItem → RpcServer Fs → RpcServer Fs
  write_item env d item s =
      let (status, w) = push_response_with_retry d.last item.entry d.attempts s.world in
      let settled = settle_item env item status (record s { world = w }) in
      with_completions (λ c. on_completion_item_finished (complete_item item.completion status c))
        settled

  abbrev pub after_wait :
      Env Fs
      → Delivery
      → (RpcServer Fs → Bool × RpcServer Fs)
      → Popped × Completions
      → RpcServer Fs
      → Bool × RpcServer Fs
  after_wait env d next (blocked, c) s = (false, record s { completions = c })
  after_wait env d next (ended, c) s = (true, record s { completions = c })
  after_wait env d next (popped item, c) s =
      next (write_item env d item (record s { completions = c }))

  -- `ResponseWriterLoop`, for at most so many items: whether it has returned. Where it has not, it
  -- waits for an item or has used up the rounds.
  unfoldable pub response_writer_loop :
      ℕ → Env Fs → (ℕ → Delivery) → RpcServer Fs → Bool × RpcServer Fs
  response_writer_loop zero env d s = (false, s)
  response_writer_loop (suc rounds) env d s =
      after_wait env (d rounds) (response_writer_loop rounds env d)
        (wait_and_pop_completion_item s.completions) s

  abbrev pub remove_all : Env Fs → List CompletionItem → RpcServer Fs → RpcServer Fs
  remove_all env [] s = s
  remove_all env (item ∷ rest) s =
      remove_all env rest (remove_response_file_payload env item.entry s)

  -- `FailPendingCompletionItems`
  unfoldable pub fail_pending : Env Fs → StatusCode → RpcServer Fs → RpcServer Fs
  fail_pending env status s =
      with_completions (fail_pending_completion_items status) (remove_all env s.completions.queue s)

  -- `StopResponseWriter`, with the thread's loop where it waits for the thread.
  unfoldable pub stop_response_writer :
      ℕ → Env Fs → (ℕ → Delivery) → RpcServer Fs → Bool × RpcServer Fs
  stop_response_writer rounds env d s =
      let told = with_completions (λ c. record c { writer_running = false }) s in
      let waked = (signal_event_fd env told.world.session.handles.resp_credit_event_fd told).1 in
      let (returned, joined) = response_writer_loop rounds env d waked in
      (returned, fail_pending env peer_disconnected joined)
