-- ===== src/Client/Closed/Final.antt =====
-- `Shutdown` is final (memrpc/src/client/rpc_client.cpp), whatever runs between its parts and after it.
use mathlib.Core.Path.{subst}
use mem.Prelude.{
  inl, inr, ◌⊎◌, get_elem?, length, get_elem?-append_length, get_elem?-set_self, get_elem?_lt, ◌++◌,
  ◌≡◌, refl, List, [], ◌∷◌, arith, some, true,
}
use mem.Types.{client_closed}
use mem.Client.{RpcCall, ApiLifecycleState, status_reply, api_closed, api_closing, closed}
use mem.Client.Closed.{Side, side}
use mem.Client.Closed.Moves.{IsDown, Prepares, part, whole}
use mem.Client.Closed.Steps.{step-Moves}
use mem.Client.Decisions.{
  resolve_future, close_and_enter_terminal_closed, close_live_session_locked,
}
use mem.Client.Futures.{new_future, resolve_state}
use mem.Client.Lifecycle.{Op, step, run}
use mem.Client.Recovery.{
  enter_terminal_closed, transition_lifecycle, apply_transition, dispatch_recovery_event,
  notify_recovery_state_changed,
}
use mem.Client.State.{
  begun, finish_shutdown, RpcClient, is_api_open, begin_shutdown, admission_status_for_invoke,
}
use mem.Client.Submit.{invoke_async, reject_invoke}
use mem.Client.Transport.{Env, close_live_session}

or_right {ℓ} : {A B C : Type ℓ} → (B → C) → A ⊎ B → A ⊎ C
or_right f (inl a) = inl a
or_right f (inr b) = inr (f b)

-- That an `Init` sets the lifecycle among the operations, of a client whose control state is given.
pub data Prepared (x : ApiLifecycleState) : List (Env × Op) → Type 0 where
  here :
      (env : Env) (op : Op) (ops : List (Env × Op)) → Prepares x op → Prepared x ((env, op) ∷ ops)
  later : (first : Env × Op) (ops : List (Env × Op)) → Prepared x ops → Prepared x (first ∷ ops)

-- What holds of a client after operations if it is down before them.
record Ran (ops : List (Env × Op)) (s t : Side) : Type 0 where
  down : IsDown t.control
  final : s.control ≡ api_closed → t.control ≡ api_closed
  gone : s.snapshot ≡ 0 → t.snapshot ≡ 0
  ended : s.snapshot ≡ 0 → s.lifecycle ≡ closed → (t.lifecycle ≡ closed) ⊎ Prepared api_closing ops
  kept :
      s.control ≡ api_closed
      → s.snapshot ≡ 0
      → s.lifecycle ≡ closed
      → (t.lifecycle ≡ closed) ⊎ Prepared api_closed ops

early : (x : ApiLifecycleState) (op : Op) → IsDown x → Prepares x op → Prepares api_closing op
early x op down (part mode e) = part mode e
early x op down (whole mode closing e) = whole mode refl e

module _ (env : Env) (op : Op) (rest : List (Env × Op)) where
  first-ended :
      (s t u : Side)
      → IsDown s.control
      → t.snapshot ≡ 0
      → Ran rest t u
      → (t.lifecycle ≡ closed) ⊎ Prepares s.control op
      → (u.lifecycle ≡ closed) ⊎ Prepared api_closing ((env, op) ∷ rest)
  first-ended s t u down gone r (inr p) = inr (here env op rest (early s.control op down p))
  first-ended s t u down gone r (inl e) = or_right (later (env, op) rest) (r.ended gone e)

  first-kept :
      (s t u : Side)
      → s.control ≡ api_closed
      → t.control ≡ api_closed
      → t.snapshot ≡ 0
      → Ran rest t u
      → (t.lifecycle ≡ closed) ⊎ Prepares s.control op
      → (u.lifecycle ≡ closed) ⊎ Prepared api_closed ((env, op) ∷ rest)
  first-kept s t u e final gone r (inr p) = inr (here env op rest (subst (λ x. Prepares x op) e p))
  first-kept s t u e final gone r (inl l) = or_right (later (env, op) rest) (r.kept final gone l)

run-Ran :
    (ops : List (Env × Op)) (c : RpcClient) → IsDown c.control → Ran ops (side c) (side (run ops c))
run-Ran [] c down = record {
  down = down;
  final = λ e. e;
  gone = λ e. e;
  ended = λ e l. inl l;
  kept = λ x e l. inl l;
}
run-Ran ((env, op) ∷ ops) c down =
    let m = step-Moves env op c down in
    let r = run-Ran ops (step env op c) m.down in
    record {
      down = r.down;
      final = λ e. r.final (m.final e);
      gone = λ e. r.gone (m.gone e);
      ended = λ e l.
          first-ended env op ops (side c) (side (step env op c)) (side (run ops (step env op c)))
            down (m.gone e) r (m.ended e l);
      kept = λ x e l.
          first-kept env op ops (side c) (side (step env op c)) (side (run ops (step env op c))) x
            (m.final x) (m.gone e) r (m.ended e l);
    }

begun-closing : (x : ApiLifecycleState) → (begun x).0 ≡ true → (begun x).1 ≡ api_closing
begun-closing x e = ground (arith, e)

module _ (env : Env) where
  closed-side :
      (c : RpcClient)
      → (side (close_and_enter_terminal_closed env c)).snapshot ≡ 0
        × (side (close_and_enter_terminal_closed env c)).lifecycle ≡ closed
  unfolding close_and_enter_terminal_closed close_live_session_locked close_live_session
      enter_terminal_closed transition_lifecycle apply_transition dispatch_recovery_event
      notify_recovery_state_changed
  closed-side c = (ground arith, ground arith)

  -- A call of a client whose API is not open makes a future that is ready.
  shut_invoke :
      (call : RpcCall) (c : RpcClient)
      → c.control ≡ api_closed
      → get_elem? (invoke_async env call c).1.futures (invoke_async env call c).0
        ≡ some (record { ready = true; reply = status_reply client_closed })
  unfolding invoke_async admission_status_for_invoke is_api_open reject_invoke resolve_future
      resolve_state
  shut_invoke call c e =
      let fs = c.futures ++ (new_future ∷ []) in
      let at = get_elem?-append_length c.futures new_future in
      rw (e, at)
        (get_elem?-set_self fs (length c.futures)
          (record { ready = true; reply = status_reply client_closed })
          (get_elem?_lt fs (length c.futures) at))

-- A client through a `Shutdown` that has begun: `CloseSessionAndEnterTerminalClosedLocked` and
-- `FinishShutdown`, with operations before, between and after the two.
abbrev pub through_shutdown :
    Env → List (Env × Op) → List (Env × Op) → List (Env × Op) → RpcClient → RpcClient
through_shutdown env before between after c =
    run after (finish_shutdown (run between (close_and_enter_terminal_closed env (run before c))))

record Through (between after : List (Env × Op)) (d : RpcClient) : Type 0 where
  control : d.control ≡ api_closed
  snapshot : d.transport.snapshot ≡ 0
  lifecycle :
      (d.recovery.lifecycle_state ≡ closed)
      ⊎ (Prepared api_closing between ⊎ Prepared api_closed after)

ends-closed :
    (between after : List (Env × Op)) (d : RpcClient)
    → d.transport.snapshot ≡ 0
    → (d.recovery.lifecycle_state ≡ closed) ⊎ Prepared api_closing between
    → ((run after (finish_shutdown d)).recovery.lifecycle_state ≡ closed)
      ⊎ (Prepared api_closing between ⊎ Prepared api_closed after)
unfolding finish_shutdown
ends-closed between after d gone (inr p) = inr (inl p)
ends-closed between after d gone (inl e) =
    or_right inr ((run-Ran after (finish_shutdown d) (inr refl)).kept refl gone e)

after-Through :
    (between after : List (Env × Op)) (d : RpcClient)
    → d.transport.snapshot ≡ 0
    → (d.recovery.lifecycle_state ≡ closed) ⊎ Prepared api_closing between
    → Through between after (run after (finish_shutdown d))
unfolding finish_shutdown
after-Through between after d gone ended =
    let r = run-Ran after (finish_shutdown d) (inr refl) in
    record {
      control = r.final refl;
      snapshot = r.gone gone;
      lifecycle = ends-closed between after d gone ended;
    }

begun-Through :
    (env : Env) (before between after : List (Env × Op)) (c : RpcClient)
    → IsDown c.control
    → Through between after (through_shutdown env before between after c)
unfolding close_and_enter_terminal_closed close_live_session_locked
begun-Through env before between after c down =
    let b = run before c in
    let s = close_and_enter_terminal_closed env b in
    let r = run-Ran between s (run-Ran before c down).down in
    let ended = closed-side env b in
    after-Through between after (run between s) (r.gone ended.0) (r.ended ended.0 ended.1)

-- Once `Shutdown` has begun on a client it is final. Other operations and parts of other calls may
-- come before its `CloseSessionAndEnterTerminalClosedLocked`, between that and its `FinishShutdown`,
-- and after that; `Shutdown`'s parts in between may be among them. At the end the API is closed, there
-- is no session, and a call is answered at once with a future that is ready and says `ClientClosed`.
-- The lifecycle is `Closed` too, unless an `Init` that passed its test before the API was closed sets
-- it: a whole one while the API is closing, or the part `PrepareForInitOpen` of one.
pub shutdown_is_final :
    (env : Env) (before between after : List (Env × Op)) (call : RpcCall) (c : RpcClient)
    → (begin_shutdown c).0 ≡ true
    → (let d = through_shutdown env before between after (begin_shutdown c).1 in
        (d.control ≡ api_closed)
        × (d.transport.snapshot ≡ 0)
        × (get_elem? (invoke_async env call d).1.futures (invoke_async env call d).0
            ≡ some (record { ready = true; reply = status_reply client_closed }))
        × ((d.recovery.lifecycle_state ≡ closed)
            ⊎ (Prepared api_closing between ⊎ Prepared api_closed after)))
unfolding begin_shutdown
shutdown_is_final env before between after call c begins =
    let c' = record c { control = (begun c.control).1 } in
    let t = begun-Through env before between after c' (inl (begun-closing c.control begins)) in
    (
      t.control,
      t.snapshot,
      shut_invoke env call (through_shutdown env before between after c') t.control,
      t.lifecycle,
    )
