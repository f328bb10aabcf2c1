-- ===== src/Client/Work/Steps.antt =====
-- The steps of submission (memrpc/src/client/rpc_client.cpp) keep every steady property of the
-- outstanding work.
use mathlib.Core.Path.{subst}
use mem.Prelude.{
  ℕ, ◌≡◌, refl, Option, none, some, List, [], ◌∷◌, ◌++◌, arith, Bool, true, false, Bool-cases, inl,
  inr,
}
use mem.Types.{StatusCode, ok, peer_disconnected, queue_full}
use mem.Session.{World, valid}
use mem.Session.Queues.{push_request}
use mem.Client.{PendingSubmit, PendingInfo}
use mem.Client.Transport.{Env}
use mem.Client.State.{RpcClient, runtime_stop_status, touch_activity, make_pending_info}
use mem.Client.Decisions.{
  fail_and_resolve, fail_and_resolve_with, fail_waiting, close_live_session_locked,
}
use mem.Client.Store
use mem.Client.Submit.{
  take_front, take_into, submit_held, abort_held, abort_submit, abort_each, drain_submits,
  resolve_submits, fail_queued_submissions, take_submit, after_push, push_request_to_session,
  push_prepared, try_push_request, admitted, try_admit_submit, drop_hand, settle_submit,
  submit_round, build_pending_request, build_request_entry, queue_of,
}
use mem.Client.Work.{Work, work, queued_futures, Steady}
use mem.Client.Work.Decisions.{resolve-kept, failure-kept, fail_all-kept}

module _ {ℓ} (env : Env) (P : List ℕ → Work → Type ℓ) (steady : Steady P) where
  pub fail_and_resolve-kept :
      (xs : List ℕ) (info : PendingInfo) (status : StatusCode) (future : ℕ) (c : RpcClient)
      → P (future ∷ xs) (work c)
      → P xs (work (fail_and_resolve env info status future c))
  unfolding fail_and_resolve fail_and_resolve_with
  fail_and_resolve-kept xs info status future c p =
      resolve-kept env P steady.stable xs future status _ (
        failure-kept env P steady.stable (fail_waiting env)
          (fail_all-kept env P steady.stable 2 peer_disconnected) info status (future ∷ xs) c p)

  abort_held-kept :
      (xs : List ℕ) (status : StatusCode) (held : Option (PendingSubmit × PendingInfo))
      (c : RpcClient)
      → c.in_hand ≡ held
      → P xs (work c)
      → P xs (work (abort_held env status held c))
  abort_held-kept xs status none c e p = p
  abort_held-kept xs status (some (s, info)) c e p =
      fail_and_resolve-kept xs info status s.future (drop_hand env c)
        (steady.drop xs (work c) s info e p)

  pub abort_submit-kept :
      (xs : List ℕ) (status : StatusCode) (c : RpcClient)
      → P xs (work c)
      → P xs (work (abort_submit env status c))
  unfolding abort_submit
  abort_submit-kept xs status c p = abort_held-kept xs status c.in_hand c refl p

  pub abort_each-kept :
      (xs : List ℕ) (ss : List PendingSubmit) (c : RpcClient)
      → P (queued_futures ss ++ xs) (work c)
      → P xs (work (abort_each env ss c))
  abort_each-kept xs [] c p = p
  abort_each-kept xs (s ∷ rest) c p = abort_each-kept xs rest _ (
      fail_and_resolve-kept (queued_futures rest ++ xs) (make_pending_info s c)
        (runtime_stop_status c) s.future c p)

  pub drain_submits-kept :
      (xs : List ℕ) (c : RpcClient) → P xs (work c) → P xs (work (drain_submits env c))
  unfolding drain_submits
  drain_submits-kept xs c p =
      abort_each-kept xs _ _
        (steady.take_queue xs _ (abort_submit-kept xs (runtime_stop_status c) c p))

  pub resolve_submits-kept :
      (xs : List ℕ) (status : StatusCode) (ss : List PendingSubmit) (c : RpcClient)
      → P (queued_futures ss ++ xs) (work c)
      → P xs (work (resolve_submits env status ss c))
  resolve_submits-kept xs status [] c p = p
  resolve_submits-kept xs status (s ∷ rest) c p =
      resolve_submits-kept xs status rest _
        (resolve-kept env P steady.stable (queued_futures rest ++ xs) s.future status c p)

  pub fail_queued-kept :
      (xs : List ℕ) (status : StatusCode) (c : RpcClient)
      → P xs (work c)
      → P xs (work (fail_queued_submissions env status c))
  unfolding fail_queued_submissions
  fail_queued-kept xs status c p =
      resolve_submits-kept xs status c.submit_queue (record c { submit_queue = [] })
        (steady.take_queue xs (work c) p)

  front-kept :
      (xs : List ℕ) (ss : List PendingSubmit) (c : RpcClient)
      → c.submit_queue ≡ ss
      → c.in_hand ≡ none
      → P xs (work c)
      → P xs (work (take_front env ss c))
  front-kept xs [] c queue free p = p
  front-kept xs (s ∷ rest) c queue free p =
      steady.take_front xs (work c) s rest (make_pending_info s c) queue free p

  take_into-kept :
      (xs : List ℕ) (held : Option (PendingSubmit × PendingInfo)) (c : RpcClient)
      → c.in_hand ≡ held
      → P xs (work c)
      → P xs (work (take_into env held c))
  take_into-kept xs none c free p = front-kept xs c.submit_queue c refl free p
  take_into-kept xs (some held) c e p = p

  pub take_submit-kept :
      (xs : List ℕ) (c : RpcClient) → P xs (work c) → P xs (work (take_submit env c))
  unfolding take_submit
  take_submit-kept xs c p = take_into-kept xs c.in_hand c refl p

  -- What an admission leaves: the request has an owner besides the hand once it succeeds, and is
  -- still in hand otherwise.
  abbrev Settled : List ℕ → PendingSubmit → PendingInfo → StatusCode × RpcClient → Type ℓ
  Settled xs s info (ok, c) = P xs (work (drop_hand env c))
  Settled xs s info (_, c) = P xs (work c) × (c.in_hand ≡ some (s, info))

  after_push-Settled :
      (xs : List ℕ) (s : PendingSubmit) (info : PendingInfo) (r : StatusCode × World)
      (c : RpcClient)
      → c.in_hand ≡ some (s, info)
      → P xs (work c)
      → Settled xs s info (
          after_push env s r
            (record c { store = Store.put s.request_id (build_pending_request env s c) c.store }))
  unfolding touch_activity build_pending_request
  after_push-Settled xs s info (ok, w) c e p =
      subst (P xs) (ground arith)
        (steady.admit xs (work c) s info (build_pending_request env s c) e refl p)
  after_push-Settled xs s info (_, w) c e p =
      (steady.take_back xs (work c) s info (build_pending_request env s c) e p, e)

  prepared-Settled :
      (xs : List ℕ) (later : ℕ) (prepared : Option (List ℕ × ℕ)) (s : PendingSubmit)
      (info : PendingInfo) (c : RpcClient)
      → c.in_hand ≡ some (s, info)
      → P xs (work c)
      → Settled xs s info (push_prepared env later prepared s c)
  unfolding push_request_to_session
  prepared-Settled xs later none s info c e p = (p, e)
  prepared-Settled xs later (some (payload, kind)) s info c e p =
      after_push-Settled xs s info
        (push_request later (queue_of s.call.priority) (build_request_entry s payload kind)
          c.transport.world)
        c e p

  push-Settled :
      (xs : List ℕ) (later : ℕ) (prepared : Option (List ℕ × ℕ)) (s : PendingSubmit)
      (info : PendingInfo) (c : RpcClient)
      → c.in_hand ≡ some (s, info)
      → P xs (work c)
      → Settled xs s info (try_push_request env later prepared s c)
  unfolding try_push_request
  push-Settled xs later prepared s info c e p =
      elim (Bool-cases (valid c.transport.world.session)) [
        | inl live ↦ rw live (prepared-Settled xs later prepared s info c e p)
        | inr gone ↦ rw gone (p, e)
      ]

  admitted-Settled :
      (xs : List ℕ) (credit : Bool) (s : PendingSubmit) (info : PendingInfo)
      (r : StatusCode × RpcClient)
      → Settled xs s info r
      → Settled xs s info (admitted env credit r)
  unfolding close_live_session_locked
  admitted-Settled xs credit s info (ok, c) p = p
  admitted-Settled xs credit s info (peer_disconnected, c) p = p
  admitted-Settled xs true s info (queue_full, c) p = p
  admitted-Settled xs false s info (queue_full, c) p = p
  admitted-Settled xs credit s info (_, c) p = p

  settle-kept :
      (xs : List ℕ) (s : PendingSubmit) (info : PendingInfo) (r : StatusCode × RpcClient)
      → Settled xs s info r
      → P xs (work (settle_submit env s info r))
  settle-kept xs s info (ok, c) p = p
  settle-kept xs s info (peer_disconnected, c) p = p.0
  settle-kept xs s info (queue_full, c) p = p.0
  settle-kept xs s info (status, c) p =
      fail_and_resolve-kept xs info status s.future (drop_hand env c)
        (steady.drop xs (work c) s info p.1 p.0)

  submit_held-kept :
      (xs : List ℕ) (credit : Bool) (later : ℕ) (prepared : Option (List ℕ × ℕ))
      (held : Option (PendingSubmit × PendingInfo)) (c : RpcClient)
      → c.in_hand ≡ held
      → P xs (work c)
      → P xs (work (submit_held env credit later prepared held c))
  unfolding try_admit_submit
  submit_held-kept xs credit later prepared none c e p = p
  submit_held-kept xs credit later prepared (some (s, info)) c e p =
      settle-kept xs s info _
        (admitted-Settled xs credit s info _ (push-Settled xs later prepared s info c e p))

  pub submit_round-kept :
      (xs : List ℕ) (credit : Bool) (later : ℕ) (prepared : Option (List ℕ × ℕ)) (c : RpcClient)
      → P xs (work c)
      → P xs (work (submit_round env credit later prepared c))
  unfolding submit_round
  submit_round-kept xs credit later prepared c p =
      submit_held-kept xs credit later prepared c.in_hand c refl p
