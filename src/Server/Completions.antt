-- ===== src/Server/Completions.antt =====
-- The completion queue of `RpcServer::Impl` in memrpc/src/server/rpc_server.cpp: the threads that have a
-- response to send enqueue it and wait, and the response writer takes it, writes it and says so.
pub mod Accounted
mod Examples
use mem.Prelude.{
  ◌<◌, ℕ, suc, ◌+◌, ◌-◌, ◌≡◌, Bool, true, false, not, ◌||◌, Option, none, some, List, [], ◌∷◌, ◌++◌,
  if◌then◌else◌, leb, length, set, map,
}
use mem.Types.{StatusCode, ResponseRingEntry}

-- `struct CompletionItem`, with the number of its completion state, which every item of the server has.
pub record CompletionItem : Type 0 where
  pub entry : ResponseRingEntry
  pub retry_budget_ms : ℕ
  pub break_session_on_failure : Bool
  pub completion : ℕ

-- The completion queue, and the `CompletionState` objects by their number: `none` where not ready.
pub record Completions : Type 0 where
  pub queue : List CompletionItem
  pub capacity : ℕ
  pub pending : ℕ
  pub writer_running : Bool
  pub states : List (Option StatusCode)

-- What `WaitAndPopCompletionItem` comes to where the writer is awake.
pub data Popped : Type 0 where
  blocked ended : Popped
  popped : CompletionItem → Popped

-- `std::make_shared<CompletionState>()`
unfoldable pub make_completion : Completions → ℕ × Completions
make_completion c = (length c.states, record c { states = c.states ++ (none ∷ []) })

unfoldable pub enqueue_completion : CompletionItem → Completions → Bool × Completions
enqueue_completion item c =
    if not c.writer_running || leb c.capacity c.pending
    then (false, c)
    else (true, record c { queue = c.queue ++ (item ∷ []); pending = suc c.pending })

abbrev pub pop_front : List CompletionItem → Completions → Popped × Completions
pop_front [] c = ((if c.writer_running then blocked else ended), c)
pop_front (item ∷ rest) c = (popped item, record c { queue = rest })

unfoldable pub wait_and_pop_completion_item : Completions → Popped × Completions
wait_and_pop_completion_item c = pop_front c.queue c

unfoldable pub complete_item : ℕ → StatusCode → Completions → Completions
complete_item completion status c = record c { states = set c.states completion (some status) }

unfoldable pub on_completion_item_finished : Completions → Completions
on_completion_item_finished c = record c { pending = c.pending - 1 }

abbrev pub complete_all : StatusCode → List CompletionItem → Completions → Completions
complete_all status [] c = c
complete_all status (item ∷ rest) c =
    complete_all status rest (complete_item item.completion status c)

-- `FailPendingCompletionItems`, but for the payload files, which it removes besides.
unfoldable pub fail_pending_completion_items : StatusCode → Completions → Completions
fail_pending_completion_items status c =
    complete_all status c.queue (record c { queue = []; pending = 0 })

-- Where the response writer stands in `ResponseWriterLoop`.
pub data Writer : Type 0 where
  idle exited : Writer
  writing completed : CompletionItem → Writer

-- `enqueued` lists the items that were accepted, and `finished` those whose completion is set.
pub record State : Type 0 where
  pub completions : Completions
  pub writer : Writer
  pub enqueued : List CompletionItem
  pub finished : List CompletionItem

abbrev pub new_state : ℕ → State
new_state capacity = record {
  completions = record {
    queue = [];
    capacity = capacity;
    pending = 0;
    writer_running = true;
    states = [];
  };
  writer = idle;
  enqueued = [];
  finished = [];
}

abbrev pub accepted : CompletionItem → Bool → List CompletionItem
accepted item true = item ∷ []
accepted item false = []

abbrev pub writer_after : Popped → Writer
writer_after blocked = idle
writer_after ended = exited
writer_after (popped item) = writing item

-- One step of a thread, between which the others may run.
pub data Step (s : State) : State → Type 0 where
  makes : Step s (record s { completions = (make_completion s.completions).1 })
  enqueues :
      (item : CompletionItem)
      → item.completion < length s.completions.states
      → Step s (record s {
        completions = (enqueue_completion item s.completions).1;
        enqueued = s.enqueued ++ accepted item (enqueue_completion item s.completions).0;
      })
  pops :
      s.writer ≡ idle
      → Step s (record s {
        completions = (wait_and_pop_completion_item s.completions).1;
        writer = writer_after (wait_and_pop_completion_item s.completions).0;
      })
  completes :
      (item : CompletionItem) (status : StatusCode)
      → s.writer ≡ writing item
      → Step s (record s {
        completions = complete_item item.completion status s.completions;
        writer = completed item;
        finished = s.finished ++ (item ∷ []);
      })
  finishes :
      (item : CompletionItem)
      → s.writer ≡ completed item
      → Step s (record s { completions = on_completion_item_finished s.completions; writer = idle })
  stops : Step s (record s { completions = record (s.completions) { writer_running = false } })
  fails :
      (status : StatusCode)
      → s.writer ≡ exited
      → Step s (record s {
        completions = fail_pending_completion_items status s.completions;
        finished = s.finished ++ s.completions.queue;
      })

pub data Steps (s : State) : State → Type 0 where
  start : Steps s s
  next : {t u : State} → Steps s t → Step t u → Steps s u
