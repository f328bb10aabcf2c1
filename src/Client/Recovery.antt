-- ===== src/Client/Recovery.antt =====
-- `ClientRecoveryState` of memrpc/src/client/rpc_client.cpp.
use mem.Prelude.{
  ℕ, ◌-◌, Bool, true, false, List, [], ◌∷◌, ◌++◌, if◌then◌else◌, ltb, leb, ◌==◌, add64, to_u32,
}
use mem.Client.{
  ClientLifecycleState, uninitialized, active, no_session, cooldown, idle_closed, recovering,
  closed, RecoveryEventReport, RecoveryRuntimeSnapshot,
}

-- `enum class CooldownWindowChange`, with the new end of the window.
pub data CooldownWindowChange : Type 0 where
  keep clear : CooldownWindowChange
  set_until : ℕ → CooldownWindowChange

-- `class ClientRecoveryState`: `has_callback` says that an event callback is set, and `reports` lists
-- what it was called with, in order.
pub record ClientRecoveryState : Type 0 where
  pub has_callback : Bool
  pub lifecycle_state : ClientLifecycleState
  pub cooldown_until_ms : ℕ
  pub notification_generation : ℕ
  pub reports : List RecoveryEventReport

abbrev pub new_recovery : ClientRecoveryState
new_recovery = record {
  has_callback = false;
  lifecycle_state = uninitialized;
  cooldown_until_ms = 0;
  notification_generation = 0;
  reports = [];
}

unfoldable pub set_recovery_event_callback : Bool → ClientRecoveryState → ClientRecoveryState
set_recovery_event_callback given r = record r { has_callback = given }

unfoldable pub clear_recovery_event_callback : ClientRecoveryState → ClientRecoveryState
clear_recovery_event_callback r = record r { has_callback = false }

unfoldable pub prepare_for_init_open :
    ClientLifecycleState → ClientRecoveryState → ClientRecoveryState
prepare_for_init_open initial r = record r { cooldown_until_ms = 0; lifecycle_state = initial }

-- `CooldownRemaining`, in milliseconds.
unfoldable pub cooldown_remaining : ℕ → ℕ → ℕ
cooldown_remaining now until = if leb until now then 0 else until - now

abbrev pub is_pending : ClientLifecycleState → Bool
is_pending recovering = true
is_pending cooldown = true
is_pending _ = false

-- `HasPendingRecoveryLocked`
unfoldable pub recovery_pending : ClientRecoveryState → Bool
recovery_pending r = is_pending r.lifecycle_state

abbrev pub next_window : CooldownWindowChange → ℕ → ℕ
next_window keep until = until
next_window clear until = 0
next_window (set_until ms) until = ms

-- `ApplyTransitionLocked`
unfoldable pub apply_transition :
    ClientLifecycleState → CooldownWindowChange → ClientRecoveryState → ClientRecoveryState
apply_transition next change r = record r {
  lifecycle_state = next;
  cooldown_until_ms = next_window change r.cooldown_until_ms;
}

-- `BuildTransitionReportLocked`, on the state after the transition.
unfoldable pub build_transition_report :
    ℕ
    → ClientLifecycleState
    → ClientLifecycleState
    → ℕ
    → ℕ
    → ClientRecoveryState
    → RecoveryEventReport
build_transition_report now previous next delay_ms session_id r = record {
  previous_state = previous;
  state = next;
  recovery_pending = recovery_pending r;
  cooldown_delay_ms = delay_ms;
  cooldown_remaining_ms = to_u32 (cooldown_remaining now r.cooldown_until_ms);
  session_id = session_id;
  monotonic_ms = now;
}

-- `DispatchRecoveryEvent`
unfoldable pub dispatch_recovery_event :
    RecoveryEventReport → ClientRecoveryState → ClientRecoveryState
dispatch_recovery_event report r =
    if r.has_callback then record r { reports = r.reports ++ (report ∷ []) } else r

-- `TransitionLifecycle` at the time `now`.
unfoldable pub transition_lifecycle :
    ℕ
    → ClientLifecycleState
    → ℕ
    → ℕ
    → CooldownWindowChange
    → ClientRecoveryState
    → ClientRecoveryState
transition_lifecycle now next delay_ms session_id change r =
    let r' = apply_transition next change r in
    dispatch_recovery_event
      (build_transition_report now r.lifecycle_state next delay_ms session_id r') r'

unfoldable pub notify_recovery_state_changed : ClientRecoveryState → ClientRecoveryState
notify_recovery_state_changed r = record r {
  notification_generation = add64 r.notification_generation 1;
}

unfoldable pub begin_session_open :
    ℕ → ClientLifecycleState → ℕ → ClientRecoveryState → ClientRecoveryState
begin_session_open now recovering session_id r = r
begin_session_open now uninitialized session_id r = r
begin_session_open now _ session_id r = transition_lifecycle now recovering 0 session_id keep r

-- A transition that clears the cooldown window, and its notification.
abbrev pub enter : ℕ → ClientLifecycleState → ℕ → ClientRecoveryState → ClientRecoveryState
enter now next session_id r =
    notify_recovery_state_changed (transition_lifecycle now next 0 session_id clear r)

unfoldable pub finalize_session_open : ℕ → ℕ → ClientRecoveryState → ClientRecoveryState
finalize_session_open now = enter now active

unfoldable pub enter_no_session : ℕ → ℕ → ClientRecoveryState → ClientRecoveryState
enter_no_session now = enter now no_session

unfoldable pub enter_idle_closed : ℕ → ℕ → ClientRecoveryState → ClientRecoveryState
enter_idle_closed now = enter now idle_closed

unfoldable pub enter_terminal_closed : ℕ → ℕ → ClientRecoveryState → ClientRecoveryState
enter_terminal_closed now = enter now closed

unfoldable pub handle_session_open_failure : ℕ → ℕ → ClientRecoveryState → ClientRecoveryState
handle_session_open_failure now session_id r =
    if is_pending r.lifecycle_state then enter_no_session now session_id r else r

unfoldable pub start_recovery : ℕ → ℕ → ℕ → ClientRecoveryState → ClientRecoveryState
start_recovery now delay_ms session_id r = notify_recovery_state_changed (
    transition_lifecycle now (if delay_ms == 0 then recovering else cooldown) delay_ms session_id
      (set_until (add64 now delay_ms)) r)

-- `CooldownActive`
unfoldable pub is_cooling_down : ℕ → ClientRecoveryState → Bool
is_cooling_down now r = ltb now r.cooldown_until_ms

unfoldable pub get_snapshot : ℕ → ℕ → ClientRecoveryState → RecoveryRuntimeSnapshot
get_snapshot now session_id r = record {
  lifecycle_state = r.lifecycle_state;
  recovery_pending = recovery_pending r;
  cooldown_remaining_ms = to_u32 (cooldown_remaining now r.cooldown_until_ms);
  current_session_id = session_id;
}
