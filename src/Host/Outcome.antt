-- ===== src/Host/Outcome.antt =====
-- What `EnsureInitialized` of memrpc/src/bootstrap/shared_memory_session_host.cpp leaves behind.
use mem.Prelude.{
  ℕ, Bool, true, false, not, ◌&&◌, Option, none, some, [], ◌∷◌, ◌≡◌, refl, ◌++◌, if-kept,
}
use mem.Types.{
  StatusCode, ok, engine_internal_error, BootstrapHandles, make_default_bootstrap_handles,
  protocol_version,
}
use mem.Session.{SharedMemory}
use mem.Host.{
  HostKernel, SessionHost, SharedMemorySessionConfig, has_valid_config, ensure_initialized,
  reset_handles, create_event_fds, initialize_shared_memory, finalize_initialized_session,
  initialized_memory, create_events, finalize, with_fd, is_some,
}

abbrev pub has_all_fds : BootstrapHandles → Bool
has_all_fds h =
    is_some h.shm_fd
    && is_some h.high_req_event_fd
    && is_some h.normal_req_event_fd
    && is_some h.resp_event_fd
    && is_some h.req_credit_event_fd
    && is_some h.resp_credit_event_fd

-- The outcomes of the creation of a session with the configuration `c`: the host holds a new object
-- and all its descriptors, or it holds no descriptor.
pub data Outcome (k : HostKernel) (c : SharedMemorySessionConfig)
    : StatusCode × SessionHost → Type 0 where
  created :
      (w : SessionHost)
      → w.initialized ≡ true
      → w.config ≡ c
      → w.memory ≡ some (initialized_memory k.random c)
      → (w.handles).session_id ≡ k.random
      → has_all_fds w.handles ≡ true
      → Outcome k c (ok, w)
  failed :
      (w : SessionHost)
      → w.initialized ≡ false
      → w.config ≡ c
      → w.handles ≡ make_default_bootstrap_handles
      → Outcome k c (engine_internal_error, w)

module _ (k : HostKernel) where
  created-Outcome :
      (x : Bool × BootstrapHandles) (h : SessionHost)
      → (x.0 ≡ true → has_all_fds x.1 ≡ true)
      → (x.1).session_id ≡ k.random
      → h.memory ≡ some (initialized_memory k.random h.config)
      → Outcome k h.config (create_events x h)
  unfolding reset_handles
  created-Outcome (true, handles) h all id memory = created _ refl refl memory id (all refl)
  created-Outcome (false, handles) h all id memory = failed _ refl refl refl

  finalize-Outcome :
      (fd : ℕ) (h : SessionHost)
      → h.initialized ≡ false
      → h.handles ≡ make_default_bootstrap_handles
      → Outcome k h.config (finalize_initialized_session k fd h)
  unfolding finalize_initialized_session initialize_shared_memory create_event_fds
  finalize-Outcome fd h idle bare =
      let refused = failed (record h { closed = h.closed ++ (fd ∷ []) }) idle refl bare in
      let fds : BootstrapHandles = record (h.handles) {
        shm_fd = some fd;
        protocol_version = protocol_version;
        session_id = k.random;
      } in
      let made : SessionHost = record h { memory = some (initialized_memory k.random h.config) } in
      let Result : StatusCode × Option SharedMemory → Type 0 =
        λ r. Outcome k h.config (finalize k fd r h) in
      if-kept (not k.truncates) Result refused (
        if-kept (not k.maps) Result refused (
          if-kept (not k.inits_mutex) Result refused
            (created-Outcome (create_event_fds k fds) made (λ all. all) refl refl)))

  opened-Outcome :
      (fd : Option ℕ) (h : SessionHost)
      → h.initialized ≡ false
      → h.handles ≡ make_default_bootstrap_handles
      → Outcome k h.config (with_fd k fd h)
  opened-Outcome none h idle bare = failed h idle refl bare
  opened-Outcome (some fd) h idle bare = finalize-Outcome fd h idle bare

-- Where a host without a session and with a configuration that it accepts creates one, whatever the
-- operating system answers, it returns Ok and holds an initialised object and all six descriptors,
-- with the id of the session in the handles and in the header, or it returns EngineInternalError, holds no
-- descriptor and is not initialised.
pub ensure_initialized-Outcome :
    (k : HostKernel) (h : SessionHost)
    → h.initialized ≡ false
    → has_valid_config h.config ≡ true
    → Outcome k h.config (ensure_initialized k h)
unfolding ensure_initialized reset_handles
ensure_initialized-Outcome k h idle valid = rw (idle, valid) (opened-Outcome k _ _ refl refl)
