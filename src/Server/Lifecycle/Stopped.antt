-- ===== src/Server/Lifecycle/Stopped.antt =====
-- That stopping the server of memrpc/src/server/rpc_server.cpp comes to its end.
use mem.Prelude.{get_elem?, ◌⊎◌, ℕ, ◌≡◌, false, some, List, All}
use mem.Server.Completions.{Completions}
use mem.Server.Completions.Accounted.{IsReady}
use mem.Server.State.{Env, RpcServer}
use mem.Server.Lifecycle.{Waiting}

module _ {Fs : Type 0} (env : Env Fs) where
  -- So many tasks are left, and the writer is stopped.
  Left : ℕ → RpcServer Fs → Type 0
  Left n s = (s.pending_submitted_tasks ≡ n) × (s.completions.writer_running ≡ false)

  -- The completions of the waiting tasks are ready.
  AllReady : List Waiting → Completions → Type 0
  AllReady waiting c = All (λ (w : Waiting). IsReady w.item.completion c) waiting

-- The completion of a waiting task is ready, or its item is queued.
abbrev pub IsAwaited : Completions → Waiting → Type 0
IsAwaited c w = IsReady w.item.completion c ⊎ ((i : ℕ) × (get_elem? c.queue i ≡ some w.item))
