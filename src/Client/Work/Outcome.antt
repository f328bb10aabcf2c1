-- ===== src/Client/Work/Outcome.antt =====
-- What becomes of the futures of a client (memrpc/src/client/rpc_client.cpp) over any sequence of its
-- operations, and at its shutdown.
use mathlib.Core.List.{append_assoc}
use mathlib.Core.Path.{subst}
use mem.Prelude.{
  true, get_elem?, ℕ, suc, ◌+◌, ◌≤◌, ◌<◌, ◌≡◌, refl, sym, ap, ◌∙◌, inl, inr, List, [], ◌∷◌, ◌++◌,
  arith, length, add64, u64_mod, get_elem?_last,
}
use mem.Client.{false, none, Bool, PendingSubmit, RpcCall}
use mem.Client.Futures.{FutureState, new_future}
use mem.Client.Transport.{Env}
use mem.Client.State.{new_client, RpcClient}
use mem.Client.Lifecycle.{Op, step, run}
use mem.Client.Work.{some, Work, work, Steady}
use mem.Client.Work.Ids.{Rising, Rising-next, Rising-raise}
use mem.Client.Work.Owners.{Owned, queued_ids, held_ids, Tracked, Ordered, Accounted, queue_owns}
use mem.Client.Work.Accounted.{Accounted-Steady}
use mem.Client.Work.Replies.{Kept-Steady, Kept-Invited, Keeping}
use mem.Client.Work.Runs.{Invited, with_future, with_id, with_call, step-kept}

nothing_at : {s : FutureState} → none ≡ some s → ⊥
nothing_at = cc

queued_ids-append :
    (ss : List PendingSubmit) (s : PendingSubmit)
    → queued_ids (ss ++ (s ∷ [])) ≡ queued_ids ss ++ (s.request_id ∷ [])
queued_ids-append [] s = refl
queued_ids-append (t ∷ ss) s = ap (◌∷◌ t.request_id) (queued_ids-append ss s)

module _ (w : Work) (fits : suc w.next_request_id < u64_mod) where
  next_id-suc : suc w.next_request_id ≡ add64 w.next_request_id 1
  next_id-suc = omega arith

  queued-Ordered : (call : RpcCall) → Ordered w → Ordered (with_call call w)
  queued-Ordered call o =
      let s : PendingSubmit = record {
        call = call;
        request_id = w.next_request_id;
        future = length w.futures;
      } in
      record {
        bound = o.bound;
        below = o.below;
        rising =
            subst (Rising o.bound (held_ids w.in_hand ++ queued_ids (w.submit_queue ++ (s ∷ []))))
              next_id-suc
              (subst (λ (ids : List ℕ). Rising o.bound ids (suc w.next_request_id))
                (append_assoc (held_ids w.in_hand) (queued_ids w.submit_queue)
                    (w.next_request_id ∷ [])
                  ∙ ap (◌++◌ (held_ids w.in_hand)) (sym (queued_ids-append w.submit_queue s)))
                (Rising-next o.bound (held_ids w.in_hand ++ queued_ids w.submit_queue)
                  w.next_request_id o.rising));
      }

  rejected-Ordered : Ordered w → Ordered (with_id (with_future w))
  rejected-Ordered o = record {
    bound = o.bound;
    below = o.below;
    rising =
        Rising-raise o.bound (held_ids w.in_hand ++ queued_ids w.submit_queue) w.next_request_id
          (add64 w.next_request_id 1) (omega (arith, next_id-suc)) o.rising;
  }

  queued-Tracked : (call : RpcCall) → Tracked [] w → Tracked [] (with_call call w)
  queued-Tracked call t i s at waits =
      let s' : PendingSubmit = record {
        call = call;
        request_id = w.next_request_id;
        future = length w.futures;
      } in
      elim (get_elem?_last w.futures new_future i at) [
        | inl old ↦ elim (t i s old waits) [
          | inl a ↦ absurd a
          | inr a ↦ elim a [
            | inl b ↦ inr (inl b)
            | inr b ↦ elim b [
              | inl c ↦ inr (inr (inl (queue_owns i w.submit_queue s' (inl c))))
              | inr c ↦ inr (inr (inr c))
            ]
          ]
        ]
        | inr new ↦ inr (inr (inl (queue_owns i w.submit_queue s' (inr new))))
      ]

  rejected-Tracked : Tracked [] w → Tracked (length w.futures ∷ []) (with_id (with_future w))
  rejected-Tracked t i s at waits = elim (get_elem?_last w.futures new_future i at) [
    | inl old ↦ elim (t i s old waits) [ inl a ↦ absurd a | inr a ↦ inr a ]
    | inr new ↦ inl (inl new)
  ]

  Accounted-Invited : Invited Accounted w
  Accounted-Invited = record {
    queued = λ call p. (queued-Tracked call p.0, queued-Ordered call p.1);
    rejected = λ p. (rejected-Tracked p.0, rejected-Ordered p.1);
  }

-- A step takes at most one id.
module _ (n : ℕ) where
  Counted : List ℕ → Work → Type 0
  Counted xs w = w.next_request_id ≤ suc n

  Counted-Steady : Steady Counted
  unfolding Counted
  Counted-Steady = record {
    stable = record { resolve = λ xs w future r p. p; take_store = λ xs w p. p };
    take_expired = λ xs w now p. p;
    take_found = λ xs w id q e p. p;
    take_queue = λ xs w p. p;
    take_front = λ xs w s rest info queue free p. p;
    drop = λ xs w s info e p. p;
    admit = λ xs w s info q e same p. p;
    take_back = λ xs w s info q e p. p;
  }

next_id-step :
    (env : Env) (op : Op) (c : RpcClient)
    → suc c.next_request_id < u64_mod
    → (step env op c).next_request_id ≤ suc c.next_request_id
unfolding Counted
next_id-step env op c fits =
    step-kept env (Counted c.next_request_id) (Counted-Steady c.next_request_id) op c
      (record { queued = λ call p. omega arith; rejected = λ p. omega arith }) (omega arith)

pub run-Accounted :
    (ops : List (Env × Op)) (c : RpcClient)
    → c.next_request_id + length ops < u64_mod
    → Accounted [] (work c)
    → Accounted [] (work (run ops c))
run-Accounted [] c fits a = a
run-Accounted ((env, op) ∷ ops) c fits a =
    run-Accounted ops (step env op c) (omega (arith, next_id-step env op c (omega arith)))
      (step-kept env Accounted Accounted-Steady op c (Accounted-Invited (work c) (omega arith)) a)

pub new-Accounted : (given : Bool) → Accounted [] (work (new_client given))
new-Accounted given =
    (λ i s at waits. absurd (nothing_at at), record { bound = 0; below = tt; rising = omega arith })

-- Over any sequence of operations of a new client, as long as the request ids do not wrap, a future
-- that is not ready belongs to a request in the store, in the submit thread's hand or in its queue.
pub unready-Owned :
    (ops : List (Env × Op)) (given : Bool) (i : ℕ) (s : FutureState)
    → suc (length ops) < u64_mod
    → get_elem? (run ops (new_client given)).futures i ≡ some s
    → s.ready ≡ false
    → Owned [] (work (run ops (new_client given))) i
unready-Owned ops given i s fits at waits =
    (run-Accounted ops (new_client given) (omega arith) (new-Accounted given)).0 i s at waits

-- Over any sequence of operations of a client, a future that is ready keeps its reply: it is resolved
-- at most once.
pub run_keeps_replies :
    (ops : List (Env × Op)) (c : RpcClient) (i : ℕ) (s : FutureState)
    → get_elem? c.futures i ≡ some s
    → s.ready ≡ true
    → get_elem? (run ops c).futures i ≡ some s
run_keeps_replies [] c i s at ready = at
run_keeps_replies ((env, op) ∷ ops) c i s at ready =
    run_keeps_replies ops (step env op c) i s
      (step-kept env (Keeping c.futures) (Kept-Steady c.futures) op c
        (Kept-Invited c.futures (work c)) (λ j s' e r. e) i s at ready)
      ready
