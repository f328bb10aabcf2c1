-- ===== src/Server/State/Laws.antt =====
-- What the shared operations of the server's threads (memrpc/src/server/rpc_server.cpp) leave alone.
use mem.Prelude.{ℕ, ◌≡◌, refl, ap, ◌∙◌, false, Option, arith, Bool-cases, inl, inr}
use mem.Session.{World}
use mem.Session.Queues.{is_alive, set_state, broken}
use mem.Server.State.{Env, RpcServer, signal_event_fd, mark_session_broken}

set_broken-closed : (w : World) → is_alive (set_state broken w) ≡ false
unfolding set_state is_alive
set_broken-closed w = elim (Bool-cases w.session.has_header) [
  | inl header ↦ rw header refl
  | inr bare ↦ rw bare refl
]

module _ {Fs : Type 0} (env : Env Fs) where
  pub signal-completions :
      (fd : Option ℕ) (s : RpcServer Fs) → (signal_event_fd env fd s).1.completions ≡ s.completions
  unfolding signal_event_fd
  signal-completions fd s = ground arith

  pub signal-tokens :
      (fd : Option ℕ) (s : RpcServer Fs)
      → (signal_event_fd env fd s).1.pending_submitted_tasks ≡ s.pending_submitted_tasks
  unfolding signal_event_fd
  signal-tokens fd s = ground arith

  pub signal-world :
      (fd : Option ℕ) (s : RpcServer Fs) → (signal_event_fd env fd s).1.world ≡ s.world
  unfolding signal_event_fd
  signal-world fd s = ground arith

  pub mark_broken-completions :
      (s : RpcServer Fs) → (mark_session_broken env s).completions ≡ s.completions
  unfolding mark_session_broken
  mark_broken-completions s = signal-completions _ _

  -- A session that is marked as broken is no longer alive.
  pub mark_broken-closed : (s : RpcServer Fs) → is_alive (mark_session_broken env s).world ≡ false
  unfolding mark_session_broken
  mark_broken-closed s = ap is_alive (signal-world _ _) ∙ set_broken-closed s.world

  pub mark_broken-tokens :
      (s : RpcServer Fs)
      → (mark_session_broken env s).pending_submitted_tasks ≡ s.pending_submitted_tasks
  unfolding mark_session_broken
  mark_broken-tokens s = signal-tokens _ _
