-- ===== src/Scan/Examples.antt =====
-- Instances of the theorems on the scan service.
use mathlib.Core.Path.{subst}
use mem.Types.{BootstrapHandles, make_default_bootstrap_handles}
use mem.Server.Lifecycle.{RpcServerRuntimeStats}
use mem.Scan.Sessions.{Parts, EngineSessionService, open_service_session, begin_close}
use mem.Scan.Consistent.{
  IsConsistent, IsServed, IsSound, EnsureFails, Op, ensure_op, open_locked_op, begin_close_op,
  end_close_op, step, run,
}
use mem.Scan.Runs.{run-IsConsistent}
use mem.Scan.Closing.{close_excludes}
use mem.Scan.Ability.{VirusExecutorService, new_session_service, no_stats, heartbeat}
use mem.Scan.Heartbeats.{is_healthy, TellsOf, heartbeat-Healthy}
use mem.Prelude.{
  ◌⊎◌, false-ne-true, ◌≢◌, sym, ℕ, ◌≡◌, refl, some, true, false, List, [], ◌∷◌, ◌++◌, length, arith,
  ◌↔◌,
}
use mem.Types.{invalid_argument, ok}
use mem.Scan.{VesOpenSessionRequest, encode_open_session_request, decode_open_session_request}
use mem.Scan.Codecs.{open_session_roundtrip}
use mem.Scan.Rules.{evaluate_sample_path}
use mem.Scan.Samples.{Behaves, evaluate_sample_path-Behaves}
use mem.Scan.Engines.{
  new_engine_service, configure_engines, is_valid_ves_open_session_request, or_scan, has,
}
use mem.Scan.Configured.{configure_engines_iff}

some-inj : {A : Type 0} {a b : A} → some a ≡ some b → a ≡ b
some-inj = cc

abbrev three_kinds : VesOpenSessionRequest
three_kinds = record { version = 1; engine_kinds = 3 ∷ 1 ∷ 3 ∷ [] }

abbrev two_kinds : VesOpenSessionRequest
two_kinds = record { version = 1; engine_kinds = 1 ∷ 3 ∷ [] }

open_session_roundtrip_example :
    (bs : List ℕ) × (encode_open_session_request three_kinds ≡ some bs)
    × (decode_open_session_request true (some (bs ++ 0 ∷ [])) (length bs) ≡ some three_kinds)
open_session_roundtrip_example =
    open_session_roundtrip three_kinds (0 ∷ []) (omega arith) (omega arith)
      (omega arith, (omega arith, (omega arith, tt)))

three_kinds-valid : is_valid_ves_open_session_request three_kinds ≡ true
unfolding is_valid_ves_open_session_request
three_kinds-valid = refl

two_kinds-valid : is_valid_ves_open_session_request two_kinds ≡ true
unfolding is_valid_ves_open_session_request
two_kinds-valid = refl

configure_engines_iff_example :
    ((configure_engines two_kinds (configure_engines three_kinds new_engine_service).1).0 ≡ ok) ↔ (
      (kind : ℕ)
      → has kind (or_scan three_kinds.engine_kinds) ≡ has kind (or_scan two_kinds.engine_kinds))
configure_engines_iff_example =
    configure_engines_iff three_kinds two_kinds new_engine_service refl three_kinds-valid
      two_kinds-valid

abbrev sample : List ℕ
sample = b'v' ∷ b'i' ∷ b'r' ∷ b'u' ∷ b's' ∷ b's' ∷ b'l' ∷ b'e' ∷ b'e' ∷ b'p' ∷ b'1' ∷ b'2' ∷ []

sample_behavior :
    evaluate_sample_path sample ≡ record { threat_level = 1; sleep_ms = 12; should_crash = false }
unfolding evaluate_sample_path mem.Scan.Rules.parse_sleep_ms mem.Scan.Rules.find_text
sample_behavior = refl

evaluate_sample_path-Behaves_example : Behaves sample (evaluate_sample_path sample)
evaluate_sample_path-Behaves_example = evaluate_sample_path-Behaves sample

abbrev stats_of : ℕ → RpcServerRuntimeStats
stats_of work = record no_stats { active_request_executions = work; oldest_execution_age_ms = 120 }

abbrev handles : BootstrapHandles
handles = record make_default_bootstrap_handles { session_id = 5 }

-- A host and a server that succeed; the server's state is the number of requests that it executes.
abbrev parts : Parts ℕ ℕ
parts = record {
  new_host = 0;
  ensure_session = λ h. (ok, h);
  server_handles = λ h. handles;
  open_host = λ h. ((ok, handles), h);
  close_host = λ h. h;
  new_server = λ hs. 2;
  start = λ r. (ok, r);
  stop = λ r. r;
  publish = λ event r. (ok, r);
  registered = [];
}

abbrev opened_session : EngineSessionService ℕ ℕ
opened_session = record new_session_service {
  is_initialized = true;
  session_host = some 0;
  rpc_server = some 2;
  session_id = 5;
  event_publisher_running = true;
}

open_run : open_service_session parts handles new_session_service ≡ ((ok, handles), opened_session)
unfolding open_service_session mem.Scan.Sessions.ensure_session_initialized
    mem.Scan.Sessions.start_event_publisher mem.Scan.Sessions.open_locked
open_run = refl

new-IsConsistent : IsConsistent {H = ℕ} {R = ℕ} new_session_service
new-IsConsistent = record {
  served = λ e. absurd (false-ne-true e);
  hosted = λ e. absurd (false-ne-true e);
  opened = λ e. absurd (false-ne-true e);
  unserved = λ e. refl;
  no_session = λ e. refl;
  no_publisher = λ e. refl;
}

new-IsSound : IsSound {H = ℕ} {R = ℕ} new_session_service
new-IsSound = record { consistent = new-IsConsistent; no_host = λ e. refl }

-- A host that cannot make its session.
abbrev failing : Parts ℕ ℕ
failing = record parts { ensure_session = λ h. (invalid_argument, h) }

-- The steps of two calls that open a session, of which the second finds a closed service and fails, and of a close.
abbrev calls : List (Parts ℕ ℕ × Op)
calls =
    (parts, ensure_op)
    ∷ ((parts, begin_close_op)
        ∷ ((parts, end_close_op) ∷ ((failing, ensure_op) ∷ ((parts, open_locked_op handles) ∷ []))))

-- The session is opened on a service that is not initialised.
orphan_session : run calls new_session_service ≡ record new_session_service {
  session_host = some 0;
  session_id = 5;
  event_publisher_running = true;
}
unfolding run step mem.Scan.Sessions.ensure_session_initialized begin_close
    mem.Scan.Sessions.end_close mem.Scan.Sessions.open_locked
    mem.Scan.Sessions.start_event_publisher
orphan_session = refl

run-IsConsistent_example :
    IsServed (run calls new_session_service)
    × (IsConsistent (run calls new_session_service) ⊎ EnsureFails calls new_session_service)
run-IsConsistent_example = run-IsConsistent calls new_session_service new-IsSound

ensure-ne-end : ensure_op ≢ end_close_op
ensure-ne-end = cc

open-ne-end : open_locked_op handles ≢ end_close_op
open-ne-end = cc

abbrev interrupting : List (Parts ℕ ℕ × Op)
interrupting = (parts, ensure_op) ∷ ((parts, open_locked_op handles) ∷ [])

close_excludes_example :
    run interrupting (begin_close parts opened_session).1 ≡ (begin_close parts opened_session).1
close_excludes_example =
    close_excludes parts interrupting opened_session refl refl (ensure-ne-end, (open-ne-end, tt))

abbrev working : VirusExecutorService ℕ ℕ
working = record {
  stopping = false;
  session_service = some opened_session;
  service = record new_engine_service { is_initialized = true };
  published = true;
  unload_requested = false;
}

opened-IsConsistent : (s : EngineSessionService ℕ ℕ) → some opened_session ≡ some s → IsConsistent s
opened-IsConsistent s e = subst IsConsistent (some-inj e) (record {
  served = λ e. (2, refl);
  hosted = λ e. (0, refl);
  opened = λ e. refl;
  unserved = λ e. absurd (false-ne-true (sym e));
  no_session = λ e. absurd (false-ne-true (sym e));
  no_publisher = λ e. absurd (false-ne-true (sym e));
})

is_busy : is_healthy (heartbeat parts stats_of working).status ≡ true
unfolding heartbeat mem.Scan.Ability.populate_healthy_reply
is_busy = refl

heartbeat-Healthy_example :
    (working.stopping ≡ false)
    × (working.service.is_initialized ≡ true)
    × ((s : EngineSessionService ℕ ℕ) × (working.session_service ≡ some s)
        × TellsOf stats_of s (heartbeat parts stats_of working))
heartbeat-Healthy_example = heartbeat-Healthy parts stats_of working opened-IsConsistent is_busy
