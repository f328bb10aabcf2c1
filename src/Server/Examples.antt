-- ===== src/Server/Examples.antt =====
-- Instances of the theorems on the server (memrpc/src/server/rpc_server.cpp), with tests.
use native.Mathlib.Nat.{dvd_of_mod-eq-zero}
use mem.Prelude.{ℕ, ◌≡◌, refl, true, false, none, List, [], ◌∷◌, arith, All}
use mem.Types.{ok}
use mem.Ring.Refine.{Represents}
use mem.FilePayload.Files.{Posix, unlinked, failed}
use mem.FilePayload.Writing.{Maker, made, directory, listed}
use mem.Session.{World, valid}
use mem.Session.Examples.{attached, handles, request, response, no_entries}
use mem.Ring.{push_entry, push_ring_entry, pop_entry, pop_ring_entry}
use mem.Session.Queues.{
  normal_request, is_alive, resolve_response_ring, push_response, pop_response,
}
use mem.Session.Queues.Refine.{Queues, Holding}
use mem.Server.Completions.{CompletionItem}
use mem.Server.Completions.Accounted.{IsReady}
use mem.Server.Executor.{new_state}
use mem.Server.State.{Env, RpcServer}
use mem.Server.Writer.{
  Attempt, Delivery, ready, wait_for_response_credit, push_response_with_retry,
  stop_response_writer,
}
use mem.Server.Writer.Exactly.{Sent, push_with_retry-Sent}
use mem.Server.Writer.Drained.{stop_writer_answers}
use mem.Server.Requests.{process_entry}
use mem.Server.Requests.Answered.{Answered, process_entry-Answered}
use mem.Server.Dispatch.{new_drain, drain_queue}
use mem.Server.Dispatch.Submitted.{Moved, IsConsistent, drain_queue-Moved}
use mem.Server.Dispatch.Pool.{Pool, rest, pool_executor, pool-IsConsistent}
use mem.Server.Lifecycle.{Waiting}

fresh_ring {ℓ} :
    {E : Type ℓ} (a b : E) → Represents (record { cursor = no_entries; entries = a ∷ b ∷ [] }) []
fresh_ring a b = record {
  valid = record {
    positive = omega arith;
    limited = omega arith;
    storage = omega arith;
    head_u32 = omega arith;
    tail_u32 = omega arith;
    divides = dvd_of_mod-eq-zero 2 refl;
  };
  count = refl;
  bounded = omega arith;
  holds = tt;
}

full_ring {ℓ} :
    {E : Type ℓ} (a b : E)
    → Represents
        (record { cursor = record no_entries { tail = 2 }; entries = a ∷ b ∷ [] })
        (a ∷ b ∷ [])
full_ring a b = record {
  valid = record {
    positive = omega arith;
    limited = omega arith;
    storage = omega arith;
    head_u32 = omega arith;
    tail_u32 = omega arith;
    divides = dvd_of_mod-eq-zero 2 refl;
  };
  count = refl;
  bounded = omega arith;
  holds = (refl, (refl, tt));
}

-- Two normal requests and two responses wait.
abbrev loaded : World
loaded = record attached {
  session = record (attached.session) {
    handles = handles;
    max_request_bytes = 64;
    max_response_bytes = 64;
  };
  memory = record (attached.memory) {
    header = record (attached.memory.header) {
      normal_ring = record no_entries { tail = 2 };
      response_ring = record no_entries { tail = 2 };
    };
  };
}

abbrev waiting : Queues
waiting = record { high = []; normal = request ∷ request ∷ []; response = response ∷ response ∷ [] }

loaded-Holding : Holding loaded waiting
loaded-Holding = record {
  attached = refl;
  mapped = refl;
  state = refl;
  high = fresh_ring request request;
  normal = full_ring request request;
  response = full_ring response response;
}

-- The ring is full at the first attempt, the client takes an entry, and there is credit.
abbrev one_attempt : List Attempt
one_attempt =
    record {
      later = 0;
      credit = record { writer_running = true; time_left = true; polled = ready } ∷ [];
      pops = 1;
    }
    ∷ []

push_with_retry-Sent_example :
    Sent response waiting (push_response_with_retry 0 response one_attempt loaded)
push_with_retry-Sent_example = push_with_retry-Sent response one_attempt (refl, tt) loaded-Holding

retried_push_succeeds : (push_response_with_retry 0 response one_attempt loaded).0 ≡ ok
unfolding push_response_with_retry push_response is_alive resolve_response_ring push_ring_entry
    push_entry wait_for_response_credit pop_response pop_ring_entry pop_entry
retried_push_succeeds = refl

-- No file can be made or read.
abbrev no_files : Posix ℕ
no_files = record {
  unlink = λ path fs. (unlinked, fs);
  open_read = λ path fs. (false, fs);
  file_size = λ path fs. none;
  read = λ path offset count fs. (failed, fs);
  close = λ path fs. fs;
}

abbrev no_maker : Maker ℕ
no_maker = record {
  mkdir = λ path fs. (made, fs);
  stat = λ path fs. directory;
  opendir = λ path fs. listed [];
  create = λ path fs. (false, fs);
  write = λ path bytes fs. (failed, fs);
  close_written = λ path fs. (true, fs);
}

abbrev env : Env ℕ
env = record {
  posix = no_files;
  maker = no_maker;
  dir = 100 ∷ [];
  stamp = record { pid = 1; clock = 2; seq = 3 };
  now = 1000;
  signals = λ fd. true;
}

abbrev item : CompletionItem
item = record {
  entry = response;
  retry_budget_ms = 50;
  break_session_on_failure = true;
  completion = 0;
}

-- A running server with a handler that answers with its payload, an item in its queue, and two tasks.
abbrev busy_server : RpcServer ℕ
busy_server = record {
  world = loaded;
  fs = 0;
  completions = record {
    queue = item ∷ [];
    capacity = 2;
    pending = 1;
    writer_running = true;
    states = none ∷ [];
  };
  handlers = (3, λ call. record { status = ok; payload = call.payload }) ∷ [];
  active_executions = (1, 900) ∷ [];
  pending_submitted_tasks = 2;
  running = true;
  signalled = [];
}

abbrev no_delivery : ℕ → Delivery
no_delivery round = record { attempts = []; last = 0 }

stop_writer_answers_example :
    let (returned, t) = stop_response_writer 2 env no_delivery busy_server in
    (returned ≡ true)
    × All (λ i. IsReady i.completion t.completions) busy_server.completions.queue
    × (t.completions.queue ≡ [])
    × (t.completions.pending ≡ 0)
    × (t.completions.writer_running ≡ false)
stop_writer_answers_example =
    stop_writer_answers env 2 no_delivery busy_server (omega arith, tt) (omega arith)

process_entry-Answered_example :
    let (progress, marked, t) = process_entry env request busy_server in
    Answered request busy_server.completions (progress, t)
unfolding valid
process_entry-Answered_example = process_entry-Answered env request busy_server refl

abbrev pool : Pool
pool = new_state 1

abbrev idle_workers : Pool → Pool
idle_workers s = s

pool-IsConsistent_example : IsConsistent (pool_executor idle_workers) (λ s. s.accepted)
pool-IsConsistent_example = pool-IsConsistent idle_workers (λ s. rest)

-- The pool takes one of the two normal requests.
drain_queue-Moved_example :
    Moved
      (pool_executor idle_workers)
      (λ s. s.accepted)
      3
      normal_request
      (new_drain (pool_executor idle_workers) busy_server pool)
      waiting
      (drain_queue (pool_executor idle_workers) 3 env normal_request busy_server pool)
drain_queue-Moved_example =
    drain_queue-Moved (pool_executor idle_workers) (λ s. s.accepted) env 3 normal_request
      busy_server pool waiting pool-IsConsistent_example loaded-Holding

-- The task whose response is the item in the queue.
abbrev waiting_task : Waiting
waiting_task = record { entry = request; marked = true; item = item }
