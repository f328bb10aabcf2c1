-- ===== src/Scan/Consistent.antt =====
-- The state of the session service of virus_executor_service/src/service/ves_session_service.cpp over
-- all runs.
use mem.Prelude.{true, false, none, some, List, [], ◌∷◌, ◌≡◌}
use mem.Types.{BootstrapHandles}
use mem.Client.{RpcEvent}
use mem.Session.{is_ok}
use mem.Scan.Sessions.{
  host_or_new, Parts, EngineSessionService, ensure_session_initialized, open_locked,
  publish_event_blocking, begin_close, end_close,
}

-- A service that is initialised has a server, and a host, and is not closing; one that is not has no
-- server, no session and no event publisher.
pub record IsConsistent {H R : Type 0} (s : EngineSessionService H R) : Type 0 where
  pub served : s.is_initialized ≡ true → (r : R) × (s.rpc_server ≡ some r)
  pub hosted : s.is_initialized ≡ true → (h : H) × (s.session_host ≡ some h)
  pub opened : s.is_initialized ≡ true → s.closing ≡ false
  pub unserved : s.is_initialized ≡ false → s.rpc_server ≡ none
  pub no_session : s.is_initialized ≡ false → s.session_id ≡ 0
  pub no_publisher : s.is_initialized ≡ false → s.event_publisher_running ≡ false

-- What holds whatever comes between the two holds of the lock in `OpenSession`.
pub record IsServed {H R : Type 0} (s : EngineSessionService H R) : Type 0 where
  pub served : s.is_initialized ≡ true → (r : R) × (s.rpc_server ≡ some r)
  pub hosted : s.is_initialized ≡ true → (h : H) × (s.session_host ≡ some h)
  pub opened : s.is_initialized ≡ true → s.closing ≡ false
  pub unserved : s.is_initialized ≡ false → s.rpc_server ≡ none

-- The steps of the calls of a service's users: each is one hold of the lock, so that other calls may
-- come between the two holds of `OpenSession` and the two of `CloseSession`. `EnsureInitialized` is
-- the first hold of `OpenSession` and of `InvokeAnyCall`.
pub data Op : Type 0 where
  ensure_op : Op
  open_locked_op : BootstrapHandles → Op
  publish_op : RpcEvent → Op
  begin_close_op end_close_op : Op

unfoldable pub step :
    {H R : Type 0} → Parts H R → Op → EngineSessionService H R → EngineSessionService H R
step parts ensure_op s = (ensure_session_initialized parts s).1
step parts (open_locked_op handles) s = (open_locked parts handles s).1
step parts (publish_op event) s = (publish_event_blocking parts event s).1
step parts begin_close_op s = (begin_close parts s).1
step parts end_close_op s = end_close parts s

-- What is outside may answer otherwise at every step.
unfoldable pub run :
    {H R : Type 0} → List (Parts H R × Op) → EngineSessionService H R → EngineSessionService H R
run [] s = s
run ((parts, op) ∷ ops) s = run ops (step parts op s)

-- A step of the run in which `EnsureInitialized` makes a host whose `EnsureSession` fails.
pub data EnsureFails {H R : Type 0}
    : List (Parts H R × Op) → EngineSessionService H R → Type 0 where
  fails_now :
      (parts : Parts H R) (ops : List (Parts H R × Op)) (s : EngineSessionService H R)
      → s.closing ≡ false
      → s.is_initialized ≡ false
      → is_ok (parts.ensure_session (host_or_new parts s.session_host)).0 ≡ false
      → EnsureFails ((parts, ensure_op) ∷ ops) s
  fails_later :
      (parts : Parts H R) (op : Op) (ops : List (Parts H R × Op)) (s : EngineSessionService H R)
      → EnsureFails ops (step parts op s)
      → EnsureFails ((parts, op) ∷ ops) s

-- A consistent service keeps no host unless it is initialised.
pub record IsSound {H R : Type 0} (s : EngineSessionService H R) : Type 0 where
  pub consistent : IsConsistent s
  pub no_host : s.is_initialized ≡ false → s.session_host ≡ none
