-- ===== src/Client/Closed/Moves.antt =====
-- What a step makes of a client whose `Shutdown` has begun (memrpc/src/client/rpc_client.cpp): its
-- control state is `Closing` or `Closed`, and `Init` may be at any of its parts.
use mathlib.Core.Path.{subst}
use mem.Prelude.{
  inl, inr, ◌⊎◌, sym, ℕ, Bool, Option, none, some, true, ◌≡◌, refl, ap, ◌∙◌, false, List,
}
use mem.Types.{ok, queue_full, StatusCode, peer_disconnected}
use mem.Client.{
  ClientInitMode, PendingInfo, ApiLifecycleState, api_closed, api_closing, closed, PendingSubmit,
}
use mem.Client.Closed.{push-Still, settle-Still, Side, side, Still}
use mem.Client.Decisions.{close_live_session_locked}
use mem.Client.Lifecycle.{do_prepare_init, Op, do_init}
use mem.Client.State.{finished, may_ensure, begun, RpcClient, control_is_open}
use mem.Client.Submit.{submit_round, submit_held, try_admit_submit, admitted, try_push_request}
use mem.Client.Transport.{Env}

abbrev pub IsDown : ApiLifecycleState → Type 0
IsDown x = (x ≡ api_closing) ⊎ (x ≡ api_closed)

-- An operation by which an `Init` sets the lifecycle: `PrepareForInitOpen`, and a whole `Init` where
-- the API is not closed yet.
pub data Prepares (x : ApiLifecycleState) (op : Op) : Type 0 where
  part : (mode : ClientInitMode) → op ≡ do_prepare_init mode → Prepares x op
  whole : (mode : ClientInitMode) → x ≡ api_closing → op ≡ do_init mode → Prepares x op

-- What a step leaves as it is: that the client is down, that it is closed, that it has no session, and
-- that its lifecycle has ended, unless an `Init` sets that.
pub record Moves (op : Op) (s t : Side) : Type 0 where
  pub down : IsDown t.control
  pub final : s.control ≡ api_closed → t.control ≡ api_closed
  pub gone : s.snapshot ≡ 0 → t.snapshot ≡ 0
  pub ended : s.snapshot ≡ 0 → s.lifecycle ≡ closed → (t.lifecycle ≡ closed) ⊎ Prepares s.control op

pub down-shut : (x : ApiLifecycleState) → IsDown x → control_is_open x ≡ false
down-shut x (inl e) = rw e refl
down-shut x (inr e) = rw e refl

pub down-ensure : (x : ApiLifecycleState) → IsDown x → may_ensure x ≡ false
down-ensure x (inl e) = rw e refl
down-ensure x (inr e) = rw e refl

pub down-begun : (x : ApiLifecycleState) → IsDown x → begun x ≡ (false, x)
down-begun x (inl e) = rw e refl
down-begun x (inr e) = rw e refl

pub down-finished : (x : ApiLifecycleState) → IsDown x → finished x ≡ (false, x)
down-finished x (inl e) = rw e refl
down-finished x (inr e) = rw e refl

-- A step that keeps the control state, and the whole side where there is no session.
pub similar :
    (op : Op) (c d : RpcClient)
    → IsDown c.control
    → d.control ≡ c.control
    → (c.transport.snapshot ≡ 0 → Still c d)
    → Moves op (side c) (side d)
similar op c d down same still = record {
  down = subst IsDown (sym same) down;
  final = λ e. same ∙ e;
  gone = λ e. ap (λ (s : Side). s.snapshot) (still e) ∙ e;
  ended = λ e l. inl (ap (λ (s : Side). s.lifecycle) (still e) ∙ l);
}

pub Still-Moves :
    (op : Op) (c d : RpcClient) → IsDown c.control → Still c d → Moves op (side c) (side d)
Still-Moves op c d down e = similar op c d down (ap (λ (s : Side). s.control) e) (λ none_live. e)

-- A step that changes the lifecycle only, as an `Init` does.
pub prepared-Moves :
    (op : Op) (c d : RpcClient)
    → IsDown c.control
    → d.control ≡ c.control
    → d.transport.snapshot ≡ c.transport.snapshot
    → (d.recovery.lifecycle_state ≡ c.recovery.lifecycle_state) ⊎ Prepares c.control op
    → Moves op (side c) (side d)
prepared-Moves op c d down same live (inl e) = record {
  down = subst IsDown (sym same) down;
  final = λ x. same ∙ x;
  gone = λ x. live ∙ x;
  ended = λ x l. inl (e ∙ l);
}
prepared-Moves op c d down same live (inr p) = record {
  down = subst IsDown (sym same) down;
  final = λ x. same ∙ x;
  gone = λ x. live ∙ x;
  ended = λ x l. inr p;
}

module _ (env : Env) where
  admitted-control :
      (credit : Bool) (r : StatusCode × RpcClient) → (admitted env credit r).1.control ≡ r.1.control
  unfolding close_live_session_locked
  admitted-control credit (ok, c) = refl
  admitted-control credit (peer_disconnected, c) = refl
  admitted-control true (queue_full, c) = refl
  admitted-control false (queue_full, c) = refl
  admitted-control credit (_, c) = refl

  held-control :
      (credit : Bool) (later : ℕ) (prepared : Option (List ℕ × ℕ))
      (held : Option (PendingSubmit × PendingInfo)) (c : RpcClient)
      → control_is_open c.control ≡ false
      → (submit_held env credit later prepared held c).control ≡ c.control
  unfolding try_admit_submit
  held-control credit later prepared none c shut = refl
  held-control credit later prepared (some (s, info)) c shut =
      let r = try_push_request env later prepared s c in
      let pushed = ap (λ (x : Side). x.control) (push-Still env later prepared s c) in
      let admission = admitted-control credit r ∙ pushed in
      ap (λ (x : Side). x.control)
        (settle-Still env s info (admitted env credit r) (ap control_is_open admission ∙ shut))
      ∙ admission

  pub round-control :
      (credit : Bool) (later : ℕ) (prepared : Option (List ℕ × ℕ)) (c : RpcClient)
      → control_is_open c.control ≡ false
      → (submit_round env credit later prepared c).control ≡ c.control
  unfolding submit_round
  round-control credit later prepared c shut = held-control credit later prepared c.in_hand c shut
