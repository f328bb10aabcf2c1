-- ===== src/Scan/Heartbeats.antt =====
-- What a heartbeat of virus_executor_service/src/service/virus_executor_service.cpp tells.
use mem.Prelude.{
  ℕ, ◌≡◌, ◌≢◌, refl, ap, ◌∙◌, Bool, true, false, not, Option, none, some, ◌==◌, leb, if-split,
  if-kept, false-ne-true, Bool-cases, inl, inr, ==→≢, arith,
}
use mem.Server.Lifecycle.{RpcServerRuntimeStats}
use mem.Scan.Sessions.{Parts, EngineSessionService}
use mem.Scan.Consistent.{IsConsistent}
use mem.Scan.Ability.{
  VesHeartbeatStatus, ok_idle, ok_busy, degraded_long_running, VesHeartbeatReply, new_reply,
  populate_healthy_reply, VirusExecutorService, session_stats, with_session, answer_heartbeat,
  heartbeat,
}

abbrev pub is_healthy : VesHeartbeatStatus → Bool
is_healthy ok_idle = true
is_healthy ok_busy = true
is_healthy degraded_long_running = true
is_healthy _ = false

-- The session that a heartbeat tells of.
pub record TellsOf {H R : Type 0} (stats : R → RpcServerRuntimeStats) (s : EngineSessionService H R)
    (reply : VesHeartbeatReply) : Type 0 where
  pub initialised : s.is_initialized ≡ true
  pub server :
      (r : R) × (s.rpc_server ≡ some r)
      × (reply.in_flight ≡ (stats r).active_request_executions)
      × (reply.last_task_age_ms ≡ (stats r).oldest_execution_age_ms)
  pub session : (reply.session_id ≡ s.session_id) × (s.session_id ≢ 0)

not_lem : (a : Bool) → not a ≡ false → a ≡ true
not_lem a h = ground arith

-- A session is one of an initialised service.
session_there :
    {H R : Type 0} (s : EngineSessionService H R)
    → IsConsistent s
    → s.session_id ≢ 0
    → s.is_initialized ≡ true
session_there s c live = elim (Bool-cases s.is_initialized) [
  | inl done ↦ done
  | inr idle ↦ absurd (live (c.no_session idle))
]

module _ {H R : Type 0} (parts : Parts H R) (stats : R → RpcServerRuntimeStats) where
  Told : VirusExecutorService H R → VesHeartbeatReply → Type 0
  Told v reply =
      is_healthy reply.status ≡ true
      → (v.stopping ≡ false)
        × (v.service.is_initialized ≡ true)
        × ((s : EngineSessionService H R) × (v.session_service ≡ some s) × TellsOf stats s reply)

  -- What a reply of a healthy service says, whichever of its three states it is in.
  Filled : RpcServerRuntimeStats → ℕ → VesHeartbeatReply → Type 0
  Filled st id reply =
      (reply.in_flight ≡ st.active_request_executions)
      × (reply.last_task_age_ms ≡ st.oldest_execution_age_ms)
      × (reply.session_id ≡ id)

  populate-Filled :
      (st : RpcServerRuntimeStats) (id : ℕ) → Filled st id (populate_healthy_reply st id new_reply)
  unfolding Filled populate_healthy_reply
  populate-Filled st id =
      if-kept (st.active_request_executions == 0) (Filled st id) (refl, refl, refl)
        (if-kept (leb 100 st.oldest_execution_age_ms) (Filled st id) (refl, refl, refl)
          (refl, refl, refl))

  populated-TellsOf :
      (s : EngineSessionService H R) (r : R)
      → s.is_initialized ≡ true
      → s.rpc_server ≡ some r
      → s.session_id ≢ 0
      → TellsOf stats s
          (populate_healthy_reply (session_stats parts stats s.rpc_server) s.session_id new_reply)
  unfolding Filled
  populated-TellsOf s r done server live =
      let st = session_stats parts stats s.rpc_server in
      let (flight, age, id) = populate-Filled st s.session_id in
      let same = ap (session_stats parts stats) server in
      record {
        initialised = done;
        server = (
          r,
          server,
          flight ∙ ap (λ (x : RpcServerRuntimeStats). x.active_request_executions) same,
          age ∙ ap (λ (x : RpcServerRuntimeStats). x.oldest_execution_age_ms) same,
        );
        session = (id, live);
      }

  with_session-Told :
      (v : VirusExecutorService H R) (s : EngineSessionService H R)
      → v.stopping ≡ false
      → v.session_service ≡ some s
      → IsConsistent s
      → Told v (with_session parts stats v.service s)
  unfolding Told
  with_session-Told v s running here c =
      if-split (not v.service.is_initialized) (Told v) (λ bare e. absurd (false-ne-true e))
        (λ ready.
          if-split (s.session_id == 0) (Told v) (λ closed e. absurd (false-ne-true e))
            (λ live e.
              let id = ==→≢ s.session_id 0 live in
              let done = session_there s c id in
              let (r, server) = c.served done in
              (
                running,
                not_lem v.service.is_initialized ready,
                (s, here, populated-TellsOf s r done server id),
              )))

  answer-Told :
      (v : VirusExecutorService H R) (o : Option (EngineSessionService H R))
      → v.stopping ≡ false
      → v.session_service ≡ o
      → ((s : EngineSessionService H R) → o ≡ some s → IsConsistent s)
      → Told v (answer_heartbeat parts stats v.service o)
  unfolding Told
  answer-Told v none running here c e = absurd (false-ne-true e)
  answer-Told v (some s) running here c e = with_session-Told v s running here (c s refl) e

-- A healthy heartbeat tells of a live session. Where the session service is consistent, and the heartbeat's
-- status is idle, busy or long running, the service is not stopping, its engine is
-- initialised, and its session service is initialised with a session, of which the reply has
-- the id, and a server, of which the reply has the work in flight and its age.
pub heartbeat-Healthy :
    {H R : Type 0} (parts : Parts H R) (stats : R → RpcServerRuntimeStats)
    (v : VirusExecutorService H R)
    → ((s : EngineSessionService H R) → v.session_service ≡ some s → IsConsistent s)
    → is_healthy (heartbeat parts stats v).status ≡ true
    → (v.stopping ≡ false)
      × (v.service.is_initialized ≡ true)
      × ((s : EngineSessionService H R) × (v.session_service ≡ some s)
          × TellsOf stats s (heartbeat parts stats v))
unfolding Told heartbeat
heartbeat-Healthy parts stats v c =
    if-split v.stopping (Told parts stats v) (λ stopping e. absurd (false-ne-true e))
      (λ running. answer-Told parts stats v v.session_service running refl c)
