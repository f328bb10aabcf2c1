-- ===== src/Server/Executor/Examples.antt =====
-- Instances of the theorems on the thread pool (memrpc/src/server/rpc_server.cpp).
use mem.Prelude.{ℕ, ◌≡◌, ◌≤◌, refl, true, false, some, [], ◌∷◌, ◌++◌, length, max}
use mem.Server.Executor.{
  State, Steps, start, next, submits, turns, stops, finishes, new_state, all_returned, try_submit,
  thread_pool_executor, worker_turn, request_stop,
}
use mem.Server.Executor.Order.{executor_fifo, stop_drains}

-- Two tasks for a pool of one thread, which takes the first one before the second comes.
busy_pool : (s : State ℕ) × Steps (new_state 1) s × (s.accepted ≡ 7 ∷ 8 ∷ []) × (s.started ≡ 7 ∷ [])
unfolding thread_pool_executor try_submit worker_turn
busy_pool = (_, next (next (next start (submits 7)) (turns 0 refl)) (submits 8), refl, refl)

executor_fifo_example :
    (busy_pool.0.accepted ≡ busy_pool.0.started ++ busy_pool.0.executor.queue)
    × (length busy_pool.0.executor.queue ≤ max 1 1)
executor_fifo_example = executor_fifo 1 busy_pool.1

-- A pool that is stopped with a task in its queue.
stopped_pool :
    (s : State ℕ) × Steps (new_state 1) s
    × (all_returned s.executor.workers ≡ true)
    × (s.accepted ≡ 7 ∷ [])
unfolding thread_pool_executor try_submit worker_turn request_stop
stopped_pool = (
  _,
  next (next (next (next (next start (submits 7)) stops) (turns 0 refl)) (finishes 0 7 refl))
      (turns 0 refl),
  refl,
  refl,
)

stop_drains_example :
    (stopped_pool.0.accepted ≡ stopped_pool.0.started)
    × (try_submit (some 9) stopped_pool.0.executor ≡ (false, stopped_pool.0.executor))
stop_drains_example = stop_drains 1 9 stopped_pool.1 stopped_pool.2
