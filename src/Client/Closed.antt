-- ===== src/Client/Closed.antt =====
-- A client that was shut down (`RpcClient::Shutdown`, memrpc/src/client/rpc_client.cpp) stays closed.
pub mod Responses
pub mod Ends
pub mod Moves
pub mod Steps
pub mod Final
use mem.Prelude.{
  ℕ, ◌≡◌, refl, ap, ◌∙◌, Bool, true, false, not, Option, none, some, List, [], ◌∷◌, arith, if-kept,
  ltb,
}
use mem.Types.{
  StatusCode, ok, peer_disconnected, queue_full, ResponseRingEntry, ResponseMessageKind, reply,
  event, response_inline_bytes,
}
use mem.Session.{World, valid}
use mem.Session.Queues.{pop_response}
use mem.Client.{
  ApiLifecycleState, ClientLifecycleState, PendingInfo, PendingRequest, PendingSubmit, RpcReply,
}
use mem.Client.Store.{take_pending}
use mem.Client.Recovery.{notify_recovery_state_changed}
use mem.Client.Transport.{Env, close_live_session}
use mem.Client.State.{RpcClient, is_api_open, control_is_open, touch_activity, current_session_id}
use mem.Client.Decisions.{
  apply_failure_decision, fail_and_resolve_with, fail_and_resolve, fail_each, fail_waiting,
  resolve_future, close_live_session_locked,
}
use mem.Client.Submit.{
  take_front, take_into, take_submit, submit_round, submit_held, abort_submit, abort_held,
  drop_hand, settle_submit, try_admit_submit, admitted, try_push_request, push_prepared,
  push_request_to_session, after_push,
}
use mem.Client.Responses.{
  decide_on_reply, complete_request, resolve_completed_request, handle_engine_death, delivered,
  deliver_event, dispatch, handle_response, drained, signal_credit, drain_response,
  resolve_entry_payload, build_reply,
}

-- What the users of a client see of its life.
pub record Side : Type 0 where
  pub control : ApiLifecycleState
  pub lifecycle : ClientLifecycleState
  pub snapshot : ℕ

abbrev pub side : RpcClient → Side
side c = record {
  control = c.control;
  lifecycle = c.recovery.lifecycle_state;
  snapshot = c.transport.snapshot;
}

-- The API is not open, and there is no session.
abbrev pub IsShut : Side → Type 0
IsShut s = (control_is_open s.control ≡ false) × (s.snapshot ≡ 0)

-- An operation that leaves a client that is shut as it is, as far as its users see.
abbrev pub Still : RpcClient → RpcClient → Type 0
Still c d = side d ≡ side c

module _ (env : Env) where
  pub failure-shut :
      (f : RpcClient → RpcClient) (info : PendingInfo) (status : StatusCode) (c : RpcClient)
      → control_is_open c.control ≡ false
      → apply_failure_decision env f info status c ≡ c
  unfolding apply_failure_decision is_api_open
  failure-shut f info status c shut = rw shut refl

  pub fail_resolve-Still :
      (f : RpcClient → RpcClient) (info : PendingInfo) (status : StatusCode) (future : ℕ)
      (c : RpcClient)
      → control_is_open c.control ≡ false
      → Still c (fail_and_resolve_with env f info status future c)
  unfolding fail_and_resolve_with resolve_future
  fail_resolve-Still f info status future c shut =
      ap (λ (d : RpcClient). side d) (failure-shut f info status c shut)

  pub fail_each-Still :
      (f : RpcClient → RpcClient) (status : StatusCode) (ps : List PendingRequest) (c : RpcClient)
      → control_is_open c.control ≡ false
      → Still c (fail_each env f status ps c)
  fail_each-Still f status [] c shut = refl
  fail_each-Still f status (p ∷ ps) c shut =
      let here = fail_resolve-Still f p.info status p.future c shut in
      let d = fail_and_resolve_with env f p.info status p.future c in
      fail_each-Still f status ps d (ap (λ (s : Side). control_is_open s.control) here ∙ shut)
      ∙ here

  front-Still : (ss : List PendingSubmit) (c : RpcClient) → Still c (take_front env ss c)
  front-Still [] c = refl
  front-Still (s ∷ rest) c = refl

  into-Still :
      (held : Option (PendingSubmit × PendingInfo)) (c : RpcClient) → Still c (take_into env held c)
  into-Still none c = front-Still c.submit_queue c
  into-Still (some h) c = refl

  pub take_submit-Still : (c : RpcClient) → Still c (take_submit env c)
  unfolding take_submit
  take_submit-Still c = into-Still c.in_hand c

  abort_held-Still :
      (status : StatusCode) (held : Option (PendingSubmit × PendingInfo)) (c : RpcClient)
      → control_is_open c.control ≡ false
      → Still c (abort_held env status held c)
  unfolding fail_and_resolve
  abort_held-Still status none c shut = refl
  abort_held-Still status (some (s, info)) c shut =
      fail_resolve-Still (fail_waiting env) info status s.future (drop_hand env c) shut

  pub abort-Still :
      (status : StatusCode) (c : RpcClient)
      → control_is_open c.control ≡ false
      → Still c (abort_submit env status c)
  unfolding abort_submit
  abort-Still status c shut = abort_held-Still status c.in_hand c shut

  after_push-Still :
      (s : PendingSubmit) (r : StatusCode × World) (c : RpcClient)
      → Still c (after_push env s r c).1
  unfolding touch_activity
  after_push-Still s (ok, w) c = ground arith
  after_push-Still s (_, w) c = refl

  prepared-Still :
      (later : ℕ) (prepared : Option (List ℕ × ℕ)) (s : PendingSubmit) (c : RpcClient)
      → Still c (push_prepared env later prepared s c).1
  unfolding push_request_to_session
  prepared-Still later none s c = refl
  prepared-Still later (some (payload, kind)) s c = after_push-Still s _ _

  pub push-Still :
      (later : ℕ) (prepared : Option (List ℕ × ℕ)) (s : PendingSubmit) (c : RpcClient)
      → Still c (try_push_request env later prepared s c).1
  unfolding try_push_request
  push-Still later prepared s c =
      if-kept (not (valid c.transport.world.session)) (λ (r : StatusCode × RpcClient). Still c r.1)
        refl (prepared-Still later prepared s c)

  close-Still :
      (c : RpcClient) → c.transport.snapshot ≡ 0 → Still c (close_live_session_locked env c)
  unfolding close_live_session_locked close_live_session notify_recovery_state_changed
  close-Still c none_live = ground (arith, none_live)

  admitted-Still :
      (credit : Bool) (r : StatusCode × RpcClient)
      → r.1.transport.snapshot ≡ 0
      → Still r.1 (admitted env credit r).1
  admitted-Still credit (ok, c) e = refl
  admitted-Still credit (peer_disconnected, c) e = close-Still c e
  admitted-Still true (queue_full, c) e = refl
  admitted-Still false (queue_full, c) e = close-Still c e
  admitted-Still credit (_, c) e = refl

  pub settle-Still :
      (s : PendingSubmit) (info : PendingInfo) (r : StatusCode × RpcClient)
      → control_is_open r.1.control ≡ false
      → Still r.1 (settle_submit env s info r)
  unfolding fail_and_resolve
  settle-Still s info (ok, c) shut = refl
  settle-Still s info (peer_disconnected, c) shut = refl
  settle-Still s info (queue_full, c) shut = refl
  settle-Still s info (status, c) shut =
      fail_resolve-Still (fail_waiting env) info status s.future (drop_hand env c) shut

  held-Still :
      (credit : Bool) (later : ℕ) (prepared : Option (List ℕ × ℕ))
      (held : Option (PendingSubmit × PendingInfo)) (c : RpcClient)
      → IsShut (side c)
      → Still c (submit_held env credit later prepared held c)
  unfolding try_admit_submit
  held-Still credit later prepared none c shut = refl
  held-Still credit later prepared (some (s, info)) c shut =
      let pushed = push-Still later prepared s c in
      let r = try_push_request env later prepared s c in
      let admission =
        admitted-Still credit r (ap (λ (x : Side). x.snapshot) pushed ∙ shut.1) ∙ pushed in
      settle-Still s info (admitted env credit r)
        (ap (λ (x : Side). control_is_open x.control) admission ∙ shut.0)
      ∙ admission

  pub round-Still :
      (credit : Bool) (later : ℕ) (prepared : Option (List ℕ × ℕ)) (c : RpcClient)
      → IsShut (side c)
      → Still c (submit_round env credit later prepared c)
  unfolding submit_round
  round-Still credit later prepared c shut = held-Still credit later prepared c.in_hand c shut
