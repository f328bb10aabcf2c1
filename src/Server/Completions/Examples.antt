-- ===== src/Server/Completions/Examples.antt =====
-- Instances of the theorems on the completion queue (memrpc/src/server/rpc_server.cpp).
use mem.Prelude.{◌+◌, ◌≡◌, ◌≤◌, refl, true, false, [], ◌∷◌, ◌++◌, length, arith, All}
use mem.Types.{ok}
use mem.Session.Examples.{response}
use mem.Server.Completions.{
  CompletionItem, State, Steps, start, next, new_state, exited, writing, makes, enqueues, pops,
  completes, finishes, stops, make_completion, enqueue_completion, wait_and_pop_completion_item,
  complete_item, on_completion_item_finished,
}
use mem.Server.Completions.Accounted.{
  IsReady, in_hand, busy, completions_accounted, writer_exit_resolves,
}

abbrev item : CompletionItem
item = record {
  entry = response;
  retry_budget_ms = 50;
  break_session_on_failure = true;
  completion = 0;
}

-- The writer has taken the one item.
writing_one : (s : State) × Steps (new_state 2) s × (s.writer ≡ writing item)
unfolding make_completion enqueue_completion wait_and_pop_completion_item
writing_one = (_, next (next (next start makes) (enqueues item (omega arith))) (pops refl), refl)

completions_accounted_example :
    let s = writing_one.0 in
    (s.enqueued ≡ s.finished ++ (in_hand s.writer ++ s.completions.queue))
    × (s.completions.pending ≡ length s.completions.queue + busy s.writer)
    × (s.completions.pending ≤ 2)
completions_accounted_example = completions_accounted 2 writing_one.1

-- The writer is stopped with the item in its hand.
stopped_writer :
    (s : State) × Steps (new_state 2) s × (s.writer ≡ exited) × (s.enqueued ≡ item ∷ [])
unfolding make_completion enqueue_completion wait_and_pop_completion_item complete_item
    on_completion_item_finished
stopped_writer = (
  _,
  next
      (next
        (next
          (next (next (next (next start makes) (enqueues item (omega arith))) (pops refl)) stops)
          (completes item ok refl))
        (finishes item refl))
      (pops refl),
  refl,
  refl,
)

writer_exit_resolves_example :
    All (λ i. IsReady i.completion stopped_writer.0.completions) stopped_writer.0.enqueued
    × (enqueue_completion item stopped_writer.0.completions ≡ (false, stopped_writer.0.completions))
writer_exit_resolves_example = writer_exit_resolves 2 item stopped_writer.1 stopped_writer.2
