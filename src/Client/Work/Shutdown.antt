-- ===== src/Client/Work/Shutdown.antt =====
-- `RpcClient::Shutdown` (memrpc/src/client/rpc_client.cpp) leaves no future unresolved.
use mathlib.Core.Path.{subst}
use mem.Prelude.{
  arith, suc, ◌<◌, length, u64_mod, ap, ℕ, ◌≡◌, refl, ◌⊎◌, inl, inr, true, Option, none, some, List,
  [], ◌∷◌, get_elem?, Bool-cases,
}
use mem.Types.{StatusCode, client_closed, peer_disconnected}
use mem.Client.{Bool, PendingSubmit, PendingInfo}
use mem.Client.Futures.{FutureState}
use mem.Client.Store.{RequestMap, take_all, take_expired, erase}
use mem.Client.Transport.{Env}
use mem.Client.State.{
  new_client, RpcClient, begin_shutdown, finish_shutdown, runtime_stop_status, clear_callbacks,
}
use mem.Client.Decisions.{
  fail_all_pending, fail_all_pending_within, close_and_enter_terminal_closed,
  close_live_session_locked, fail_waiting, fail_and_resolve_with, fail_and_resolve,
}
use mem.Client.Submit.{drain_submits, abort_submit, abort_held, fail_queued_submissions, drop_hand}
use mem.Client.Work.Outcome.{run-Accounted, new-Accounted}
use mem.Client.Lifecycle.{Op, run, shutdown, stop_threads, fail_outstanding_work}
use mem.Client.Work.{queued_futures, Work, work, Stable, Steady}
use mem.Client.Work.Decisions.{fail_each-kept, fail_all-kept, failure-kept, resolve-kept}
use mem.Client.Work.Steps.{abort_each-kept, resolve_submits-kept}
use mem.Client.Work.Owners.{Accounted, Owned, Among, stored_futures, held_futures}
use mem.Client.Work.Accounted.{Accounted-Steady}
use mem.Client.Work.Runs.{shutdown-kept}

abbrev IsFree : List ℕ → Work → Type 0
IsFree xs w = w.in_hand ≡ none

abbrev IsIdle : List ℕ → Work → Type 0
IsIdle xs w = (w.in_hand ≡ none) × (w.submit_queue ≡ [])

abbrev HasNoRequest : List ℕ → Work → Type 0
HasNoRequest xs w = (w.in_hand ≡ none) × (w.store ≡ [])

abbrev HasNoWork : List ℕ → Work → Type 0
HasNoWork xs w = (w.in_hand ≡ none) × (w.submit_queue ≡ []) × (w.store ≡ [])

IsFree-Stable : Stable IsFree
IsFree-Stable = record { resolve = λ xs w future r p. p; take_store = λ xs w p. p }

HasNoRequest-Stable : Stable HasNoRequest
HasNoRequest-Stable = record { resolve = λ xs w future r p. p; take_store = λ xs w p. (p.0, refl) }

-- Nothing moves where there is nothing.
held-none :
    {s : PendingSubmit × PendingInfo} {h : Option (PendingSubmit × PendingInfo)}
    → h ≡ some s
    → h ≡ none
    → ⊥
held-none = cc

cons-nil : {x : PendingSubmit} {xs ys : List PendingSubmit} → ys ≡ x ∷ xs → ys ≡ [] → ⊥
cons-nil = cc

IsIdle-Steady : Steady IsIdle
IsIdle-Steady = record {
  stable = record { resolve = λ xs w future r p. p; take_store = λ xs w p. p };
  take_expired = λ xs w now p. p;
  take_found = λ xs w id q e p. p;
  take_queue = λ xs w p. (p.0, refl);
  take_front = λ xs w s rest info queue free p. absurd (cons-nil queue p.1);
  drop = λ xs w s info e p. absurd (held-none e p.0);
  admit = λ xs w s info q e same p. absurd (held-none e p.0);
  take_back = λ xs w s info q e p. p;
}

HasNoWork-Steady : Steady HasNoWork
unfolding take_expired erase
HasNoWork-Steady = record {
  stable = record { resolve = λ xs w future r p. p; take_store = λ xs w p. (p.0, p.1, refl) };
  take_expired = λ xs w now p. (p.0, p.1, ap (λ (m : RequestMap). (take_expired now m).1) p.2);
  take_found = λ xs w id q e p. (p.0, p.1, ap (erase id) p.2);
  take_queue = λ xs w p. (p.0, refl, p.2);
  take_front = λ xs w s rest info queue free p. absurd (cons-nil queue p.1);
  drop = λ xs w s info e p. absurd (held-none e p.0);
  admit = λ xs w s info q e same p. absurd (held-none e p.0);
  take_back = λ xs w s info q e p. absurd (held-none e p.0);
}

no_owner : (w : Work) (i : ℕ) → HasNoWork [] w → Owned [] w i → ⊥
no_owner w i n (inl a) = a
no_owner w i n (inr (inl a)) = subst (λ (m : RequestMap). Among i (stored_futures m)) n.2 a
no_owner w i n (inr (inr (inl a))) =
    subst (λ (ss : List PendingSubmit). Among i (queued_futures ss)) n.1 a
no_owner w i n (inr (inr (inr a))) =
    subst (λ (h : Option (PendingSubmit × PendingInfo)). Among i (held_futures h)) n.0 a

module _ (env : Env) where
  abort_held-IsFree :
      (status : StatusCode) (held : Option (PendingSubmit × PendingInfo)) (c : RpcClient)
      → c.in_hand ≡ held
      → (abort_held env status held c).in_hand ≡ none
  unfolding fail_and_resolve fail_and_resolve_with
  abort_held-IsFree status none c e = e
  abort_held-IsFree status (some (s, info)) c e =
      resolve-kept env IsFree IsFree-Stable [] s.future status _ (
        failure-kept env IsFree IsFree-Stable (fail_waiting env)
          (fail_all-kept env IsFree IsFree-Stable 2 peer_disconnected) info status []
          (drop_hand env c) refl)

  drain-IsIdle : (c : RpcClient) → IsIdle [] (work (drain_submits env c))
  unfolding drain_submits abort_submit
  drain-IsIdle c =
      let dropped = abort_submit env (runtime_stop_status c) c in
      abort_each-kept env IsIdle IsIdle-Steady [] dropped.submit_queue
        (record dropped { submit_queue = [] })
        (abort_held-IsFree (runtime_stop_status c) c.in_hand c refl, refl)

  -- The submit thread has something in hand only while it runs.
  stop-IsFree :
      (c : RpcClient)
      → (c.workers_running ≡ true) ⊎ (c.in_hand ≡ none)
      → (stop_threads env c).in_hand ≡ none
  unfolding stop_threads
  stop-IsFree c (inl runs) = rw runs (drain-IsIdle _).0
  stop-IsFree c (inr free) = elim (Bool-cases c.workers_running) [
    | inl runs ↦ rw runs (drain-IsIdle _).0
    | inr stopped ↦ rw stopped free
  ]

  waiting-HasNoRequest :
      (status : StatusCode) (c : RpcClient)
      → c.in_hand ≡ none
      → HasNoRequest [] (work (fail_all_pending env status c))
  unfolding fail_all_pending fail_all_pending_within take_all
  waiting-HasNoRequest status c free =
      fail_each-kept env HasNoRequest HasNoRequest-Stable
        (fail_all_pending_within env 1 peer_disconnected)
        (fail_all-kept env HasNoRequest HasNoRequest-Stable 1 peer_disconnected) [] status
        (take_all c.store).0 (record c { store = [] }) (free, refl)

  outstanding-HasNoWork :
      (status : StatusCode) (c : RpcClient)
      → c.in_hand ≡ none
      → HasNoWork [] (work (fail_outstanding_work env status c))
  unfolding fail_outstanding_work fail_queued_submissions
  outstanding-HasNoWork status c free =
      let d = fail_all_pending env status c in
      let (free', empty) = waiting-HasNoRequest status c free in
      resolve_submits-kept env HasNoWork HasNoWork-Steady [] status d.submit_queue
        (record d { submit_queue = [] }) (free', refl, empty)

  shutdown-HasNoWork :
      (c : RpcClient)
      → (begin_shutdown c).0 ≡ true
      → (c.workers_running ≡ true) ⊎ (c.in_hand ≡ none)
      → HasNoWork [] (work (shutdown env c))
  unfolding shutdown begin_shutdown finish_shutdown clear_callbacks close_and_enter_terminal_closed
      close_live_session_locked
  shutdown-HasNoWork c begins idle =
      rw begins (outstanding-HasNoWork client_closed _ (stop-IsFree _ idle))

  shutdown_resolves :
      (c : RpcClient) (i : ℕ) (s : FutureState)
      → Accounted [] (work c)
      → (begin_shutdown c).0 ≡ true
      → (c.workers_running ≡ true) ⊎ (c.in_hand ≡ none)
      → get_elem? (shutdown env c).futures i ≡ some s
      → s.ready ≡ true
  shutdown_resolves c i s a begins idle at = elim (Bool-cases s.ready) [
    | inl ready ↦ ready
    | inr waits ↦ absurd (
        no_owner (work (shutdown env c)) i (shutdown-HasNoWork c begins idle)
          ((shutdown-kept env Accounted Accounted-Steady c a).0 i s at waits))
  ]

-- After any sequence of operations of a new client in which the request ids do not wrap, where
-- `Shutdown` begins and the submit thread has something in hand only if it runs, every future that the
-- client ever made is ready once `Shutdown` returns.
pub shutdown_resolves_all :
    (ops : List (Env × Op)) (given : Bool) (env : Env) (i : ℕ) (s : FutureState)
    → suc (length ops) < u64_mod
    → (begin_shutdown (run ops (new_client given))).0 ≡ true
    → ((run ops (new_client given)).workers_running ≡ true)
      ⊎ ((run ops (new_client given)).in_hand ≡ none)
    → get_elem? (shutdown env (run ops (new_client given))).futures i ≡ some s
    → s.ready ≡ true
shutdown_resolves_all ops given env i s fits begins idle at =
    shutdown_resolves env (run ops (new_client given)) i s
      (run-Accounted ops (new_client given) (omega arith) (new-Accounted given)) begins idle at
