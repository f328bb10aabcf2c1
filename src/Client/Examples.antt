-- ===== src/Client/Examples.antt =====
-- Runs of a client and instances of its theorems.
use mem.Client.Submit.{
  abort_submit, build_pending_request, build_request_entry, drain_submits, enqueue_submit,
  fail_queued_submissions, invoke_async, make_pending_wait_deadline, push_request_to_session,
  reject_invoke, submit_round, take_submit, try_admit_submit, try_push_request,
}
use mem.Client.Recovery.{
  apply_transition, begin_session_open, build_transition_report, clear_recovery_event_callback,
  cooldown_remaining, dispatch_recovery_event, enter_idle_closed, enter_no_session,
  enter_terminal_closed, finalize_session_open, get_snapshot, handle_session_open_failure,
  is_cooling_down, notify_recovery_state_changed, prepare_for_init_open, recovery_pending,
  set_recovery_event_callback, start_recovery, transition_lifecycle,
}
use mem.Prelude.{◌≡◌, refl, inl, true, none, some, List, [], ◌∷◌, arith, get_elem?}
use mem.Types.{ok, client_closed, crashed_during_execution, normal}
use mem.Session.Examples.{x86_64, memory, kernel, handles}
use mem.Client.{
  RpcCall, RecoveryPolicy, restart, eager_session, lazy_session, status_reply, PendingRequest,
}
use mem.Client.Futures.{FutureState, is_ready, new_future, resolve_state, wait}
use mem.Client.Store.{
  erase, find_pending, has_none, put, size, take_all, take_expired, take_pending,
}
use mem.Client.Transport.{
  Env, clear_death_callback, close_if_matches, close_live_session, has_live_session,
  install_death_callback, open_session,
}
use mem.Client.{api_open}
use mem.Client.State.{
  RpcClient, admission_status_for_invoke, begin_shutdown, can_ensure_live_session, clear_callbacks,
  current_session_id, finish_init, finish_shutdown, is_api_open, is_api_terminal, make_pending_info,
  new_client, runtime_stop_status, start_runtime, touch_activity,
}
use mem.Client.Decisions.{
  apply_failure_decision, apply_recovery_decision, close_and_enter_idle_closed,
  close_and_enter_terminal_closed, close_live_session_locked, ensure_live_session,
  enter_no_session_without_live_session, fail_all_pending, fail_all_pending_within,
  fail_and_resolve, fail_and_resolve_with, maybe_reconnect_immediately, open_session_locked,
  resolve_all_pending, resolve_future, schedule_recovery,
}
use mem.Client.Lifecycle.{
  Op, do_engine_death, do_init, do_invoke, do_set_policy, do_submit_round, do_take_submit,
  fail_outstanding_work, init, run, shutdown, step, stop_threads,
}
use mem.Client.Responses.{
  build_reply, deliver_event, drain_response, handle_engine_death, handle_engine_death_locked,
  handle_external_recovery, handle_idle_recovery, handle_response, maybe_run_health_check,
  maybe_run_idle_policy, maybe_run_pending_timeouts, request_external_recovery,
  resolve_completed_request, resolve_entry_payload, should_request_recovery,
}
use mem.Session.{
  close_handles, current_mapped_size, lock_shared_mutex, release_client_attachment, reset, valid,
}
use mem.Session.Attach.{
  adopt, after_map, after_remap, attach, attach_fd, header_config, header_is_valid,
  map_and_validate_header, process_is_alive, remap_with_actual_layout, take_bootstrap_handles,
  try_acquire_client_attachment,
}
use mem.Session.Queues.{
  is_alive, pop_request, pop_response, push_request, push_response, resolve_request_ring,
  resolve_response_ring, set_state,
}
use mem.Layout.{align_offset, compute_layout, has_aligned_payload_sizes, validate_layout_config}
use mem.Ring.{
  pop_entry, pop_ring_entry, push_entry, push_ring_entry, ring_count, validate_ring_cursor,
}
use mem.Client.Closed.{side}
use mem.Client.Closed.Final.{shutdown_is_final, through_shutdown, Prepared}
use mem.Prelude.{inl, ◌⊎◌}
use mem.Client.{api_closing, api_closed, idle_closed, closed}
use mem.Client.Lifecycle.{
  prepare_init, do_prepare_init, do_start_threads, do_finish_init, do_clear_callbacks,
  do_stop_threads, do_fail_outstanding,
}
use mem.Client.Work.{work}
use mem.Client.Work.Owners.{Owned}
use mem.Client.Work.Outcome.{unready-Owned, run_keeps_replies}
use mem.Client.Work.Shutdown.{shutdown_resolves_all}
use mem.Client.Work.Depth.{depth_enough}

abbrev env : Env
env = record {
  abi = x86_64;
  now = 1000;
  open_answer = λ n. record { status = ok; handles = handles; memory = memory; kernel = kernel };
  kernel = kernel;
}

abbrev call : RpcCall
call = record { opcode = 7; priority = normal; exec_timeout_ms = 100; payload = 1 ∷ 2 ∷ [] }

-- The engine restarts where it dies.
abbrev policy : RecoveryPolicy
policy = record {
  on_failure = none;
  on_idle = none;
  on_engine_death = some (λ report. record { action = restart; delay_ms = 0 });
}

abbrev lazy_ops : List (Env × Op)
lazy_ops =
    (env, do_init lazy_session)
    ∷ (env, do_invoke call)
    ∷ (env, do_take_submit)
    ∷ (env, do_invoke call)
    ∷ []

abbrev eager_ops : List (Env × Op)
eager_ops =
    (env, do_set_policy policy)
    ∷ (env, do_init eager_session)
    ∷ (env, do_invoke call)
    ∷ (env, do_take_submit)
    ∷ (env, do_submit_round true 0 (some (1 ∷ 2 ∷ [], 0)))
    ∷ (env, do_engine_death 77 77)
    ∷ (env, do_invoke call)
    ∷ []

-- A client whose first call the engine's death resolved, another that waits with a policy that restarts.
abbrev resolved_client : RpcClient
resolved_client = record (new_client true) {
  control = api_open;
  workers_running = true;
  futures = record { ready = true; reply = status_reply crashed_during_execution } ∷ [];
  next_request_id = 2;
}

abbrev waiting : PendingRequest
waiting = record {
  future = 0;
  info = record {
    opcode = 7;
    priority = normal;
    exec_timeout_ms = 100;
    request_id = 1;
    session_id = 0;
  };
  wait_deadline = none;
}

abbrev failing_client : RpcClient
failing_client = record (new_client true) {
  control = api_open;
  policy = record {
    on_failure = some (λ failure. record { action = restart; delay_ms = 5 });
    on_idle = none;
    on_engine_death = none;
  };
  store = (1, waiting) ∷ [];
  futures = new_future ∷ [];
  next_request_id = 2;
}

abbrev eager_client : RpcClient
eager_client = run eager_ops (new_client true)

-- An engine that dies with a request of the client on its ring: the request is resolved, the session is
-- opened again, and the next call waits in the queue.
eager_run :
    eager_client.futures
    ≡ record { ready = true; reply = status_reply crashed_during_execution } ∷ new_future ∷ []
unfolding stop_threads fail_outstanding_work shutdown init prepare_init step install_death_callback
    clear_death_callback has_live_session open_session close_live_session close_if_matches
    open_session_locked ensure_live_session close_live_session_locked close_and_enter_idle_closed
    enter_no_session_without_live_session close_and_enter_terminal_closed resolve_future
    resolve_all_pending maybe_reconnect_immediately schedule_recovery apply_recovery_decision
    apply_failure_decision fail_and_resolve_with fail_all_pending_within fail_all_pending
    fail_and_resolve is_ready wait resolve_state enqueue_submit build_request_entry reject_invoke
    invoke_async take_submit make_pending_wait_deadline build_pending_request
    push_request_to_session try_push_request try_admit_submit submit_round abort_submit
    drain_submits fail_queued_submissions is_api_open can_ensure_live_session is_api_terminal
    finish_init begin_shutdown finish_shutdown start_runtime runtime_stop_status
    admission_status_for_invoke clear_callbacks touch_activity current_session_id make_pending_info
    resolve_entry_payload build_reply resolve_completed_request handle_engine_death_locked
    handle_engine_death handle_idle_recovery handle_external_recovery request_external_recovery
    deliver_event handle_response drain_response maybe_run_pending_timeouts maybe_run_idle_policy
    should_request_recovery maybe_run_health_check set_recovery_event_callback
    clear_recovery_event_callback prepare_for_init_open cooldown_remaining recovery_pending
    apply_transition build_transition_report dispatch_recovery_event transition_lifecycle
    notify_recovery_state_changed begin_session_open finalize_session_open enter_no_session
    enter_idle_closed enter_terminal_closed handle_session_open_failure start_recovery
    is_cooling_down get_snapshot put find_pending erase take_pending take_all take_expired has_none
    size lock_shared_mutex close_handles release_client_attachment current_mapped_size reset valid
    process_is_alive map_and_validate_header header_config header_is_valid remap_with_actual_layout
    try_acquire_client_attachment adopt after_remap after_map take_bootstrap_handles attach_fd
    attach is_alive set_state resolve_request_ring resolve_response_ring push_request pop_request
    push_response pop_response align_offset has_aligned_payload_sizes compute_layout
    validate_layout_config ring_count validate_ring_cursor push_entry pop_entry push_ring_entry
    pop_ring_entry
eager_run = refl

-- The first call is in hand, and the second one in the queue.
unready-Owned_example : Owned [] (work (run lazy_ops (new_client true))) 1
unfolding step init prepare_init is_api_terminal start_runtime prepare_for_init_open finish_init
    invoke_async admission_status_for_invoke is_api_open enqueue_submit take_submit
    make_pending_info current_session_id
unready-Owned_example = unready-Owned lazy_ops true 1 new_future (omega arith) refl refl

abbrev shut_down : FutureState
shut_down = record { ready = true; reply = status_reply client_closed }

shutdown_resolves_all_example : shut_down.ready ≡ true
unfolding step init prepare_init is_api_terminal start_runtime prepare_for_init_open finish_init
    invoke_async admission_status_for_invoke is_api_open enqueue_submit take_submit
    make_pending_info current_session_id shutdown begin_shutdown close_and_enter_terminal_closed
    close_live_session_locked clear_callbacks stop_threads drain_submits abort_submit
    fail_and_resolve fail_and_resolve_with apply_failure_decision resolve_future resolve_state
    runtime_stop_status fail_outstanding_work fail_all_pending fail_all_pending_within take_all
    fail_queued_submissions finish_shutdown
shutdown_resolves_all_example =
    shutdown_resolves_all lazy_ops true env 1 shut_down (omega arith) refl (inl refl) refl

-- What the engine's death resolved stays so.
run_keeps_replies_example :
    get_elem? (run ((env, do_invoke call) ∷ (env, do_take_submit) ∷ []) resolved_client).futures 0
    ≡ some (record { ready = true; reply = status_reply crashed_during_execution })
run_keeps_replies_example =
    run_keeps_replies ((env, do_invoke call) ∷ (env, do_take_submit) ∷ []) resolved_client 0
      (record { ready = true; reply = status_reply crashed_during_execution }) refl refl

depth_enough_example :
    fail_all_pending_within env 5 crashed_during_execution failing_client
    ≡ fail_all_pending_within env 2 crashed_during_execution failing_client
depth_enough_example = depth_enough env 3 crashed_during_execution failing_client

abbrev shutdown_parts : List (Env × Op)
shutdown_parts =
    (env, do_clear_callbacks) ∷ (env, do_stop_threads) ∷ (env, do_fail_outstanding) ∷ []

abbrev late_init : List (Env × Op)
late_init =
    (env, do_prepare_init lazy_session) ∷ (env, do_start_threads) ∷ (env, do_finish_init) ∷ []

-- An `Init` that made its tests before a `Shutdown` goes on after it: the threads run, and the lifecycle
-- is not `Closed`.
late_init_runs :
    (let d =
        through_shutdown env [] shutdown_parts late_init (begin_shutdown (new_client true)).1 in
      (d.workers_running ≡ true)
      × (side d ≡ record { control = api_closed; lifecycle = idle_closed; snapshot = 0 }))
unfolding begin_shutdown close_and_enter_terminal_closed close_live_session_locked step
    clear_callbacks stop_threads fail_outstanding_work fail_queued_submissions fail_all_pending
    fail_all_pending_within take_all finish_shutdown prepare_init prepare_for_init_open
    start_runtime finish_init close_live_session clear_death_callback install_death_callback
late_init_runs = (refl, refl)

shutdown_is_final_example :
    (let d =
        through_shutdown env lazy_ops shutdown_parts lazy_ops (begin_shutdown resolved_client).1 in
      (d.control ≡ api_closed)
      × (d.transport.snapshot ≡ 0)
      × (get_elem? (invoke_async env call d).1.futures (invoke_async env call d).0
          ≡ some (record { ready = true; reply = status_reply client_closed }))
      × ((d.recovery.lifecycle_state ≡ closed)
          ⊎ (Prepared api_closing shutdown_parts ⊎ Prepared api_closed lazy_ops)))
unfolding begin_shutdown
shutdown_is_final_example =
    shutdown_is_final env lazy_ops shutdown_parts lazy_ops call resolved_client refl
