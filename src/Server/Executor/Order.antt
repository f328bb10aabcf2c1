-- ===== src/Server/Executor/Order.antt =====
-- What the thread pool of memrpc/src/server/rpc_server.cpp does with the tasks that it accepts.
use mathlib.Core.Path.{subst}
use mathlib.Core.List.{append-nil, append_assoc}
use mem.Prelude.{
  if◌then◌else◌, ℕ, zero, suc, max, ◌≡◌, ◌≢◌, ◌≤◌, ◌<◌, refl, sym, ap, ◌∙◌, Bool, true, false, not,
  ◌||◌, some, List, [], ◌∷◌, ◌++◌, leb, length, length-append, arith, get_elem?, set, Bool-cases,
  ◌⊎◌, inl, inr, get_elem?-set_cases, length-set, length-replicate, replicate,
}
use mem.Server.Executor.{
  returns, waits, Worker, waiting, running_task, returned, ThreadPoolExecutor, Turn,
  thread_pool_executor, try_submit, worker_turn, worker_after, with_worker, request_stop,
  all_returned, State, new_state, submitted, taken, Step, submits, turns, finishes, stops, joined,
  Steps, start, next, take_front,
}

open_closed : {b : Bool} → b ≡ true → b ≢ false
open_closed = cc

module _ {ℓ} {T : Type ℓ} where
  -- No more tasks can come, and none is left.
  abbrev pub IsDrained : ThreadPoolExecutor T → Type ℓ
  IsDrained e = (e.running ≡ false) × (e.queue ≡ [])

  -- Tasks leave the queue in the order in which they were accepted, and a worker returns from a
  -- drained executor only.
  record Inv (n : ℕ) (s : State T) : Type ℓ where
    capacity : s.executor.queue_capacity ≡ max 1 n
    order : s.accepted ≡ s.started ++ s.executor.queue
    bounded : length s.executor.queue ≤ max 1 n
    returned_drained :
        (i : ℕ) → get_elem? s.executor.workers i ≡ some returned → IsDrained s.executor
    staffed : (0 < length s.executor.workers) ⊎ IsDrained s.executor

  no_worker_yet : (n i : ℕ) → get_elem? (replicate {A = Worker T} n waiting) i ≢ some returned
  no_worker_yet zero i e = cc
  no_worker_yet (suc n) zero e = cc
  no_worker_yet (suc n) (suc i) e = no_worker_yet n i e

  new-Inv : (n : ℕ) → Inv n (new_state n)
  unfolding thread_pool_executor
  new-Inv n = record {
    capacity = refl;
    order = refl;
    bounded = omega arith;
    returned_drained = λ i e. absurd (no_worker_yet (max 1 n) i e);
    staffed = inl (omega (arith, length-replicate {A = Worker T} (max 1 n) waiting));
  }

  running-ne-returned : {task : T} → running_task task ≢ returned
  running-ne-returned = cc

  waiting-ne-returned : (the_worker : Worker T) → the_worker ≡ waiting → the_worker ≢ returned
  waiting-ne-returned _ e e2 = cc

  cons-ne-nil : {x : T} {xs : List T} → (x ∷ xs) ≢ []
  cons-ne-nil = cc

  submit_refused :
      (task : T) (e : ThreadPoolExecutor T)
      → e.running ≡ false
      → try_submit (some task) e ≡ (false, e)
  unfolding try_submit
  submit_refused task e h = rw h

  submits-Inv :
      {n : ℕ} {s : State T} (task : T)
      → Inv n s
      → Inv n (record s {
        executor = (try_submit (some task) s.executor).1;
        accepted = s.accepted ++ submitted task (try_submit (some task) s.executor).0;
      })
  unfolding try_submit
  submits-Inv {n} {s} task p =
      elim (Bool-cases
        (not s.executor.running || leb s.executor.queue_capacity (length s.executor.queue))) [
          | inl refused ↦ rw refused (record {
            capacity = p.capacity;
            order = append-nil s.accepted ∙ p.order;
            bounded = p.bounded;
            returned_drained = p.returned_drained;
            staffed = p.staffed;
          })
          | inr accepted ↦
              let open_still : s.executor.running ≡ true = ground (arith, accepted) in
              rw accepted (record {
                capacity = p.capacity;
                order =
                    ap (λ (xs : List T). xs ++ (task ∷ [])) p.order
                    ∙ append_assoc s.started s.executor.queue (task ∷ []);
                bounded =
                    ground
                      (arith, accepted, p.capacity, length-append s.executor.queue (task ∷ []));
                returned_drained =
                    λ i e. absurd (open_closed open_still (p.returned_drained i e).0);
                staffed = elim p.staffed [
                  | inl some_worker ↦ inl some_worker
                  | inr drained ↦ absurd (open_closed open_still drained.0)
                ];
              })
        ]

  abbrev after_turn : ℕ → Turn T × ThreadPoolExecutor T → State T → State T
  after_turn i (turn, e) s = record s {
    executor = with_worker i (worker_after turn) e;
    started = s.started ++ taken turn;
  }

  -- A worker that takes a task, or waits.
  still_staffed :
      (i : ℕ) (w : Worker T) (ws : List (Worker T)) {D : Type ℓ}
      → (0 < length ws) ⊎ D
      → (0 < length (set ws i w)) ⊎ D
  still_staffed i w ws (inl some_worker) = inl (omega (arith, length-set ws i w))
  still_staffed i w ws (inr d) = inr d

  turn-Inv :
      {n : ℕ} {s : State T} (q : List T) (i : ℕ)
      → s.executor.queue ≡ q
      → Inv n s
      → get_elem? s.executor.workers i ≡ some waiting
      → Inv n (after_turn i (take_front q s.executor) s)
  turn-Inv {n} {s} (task ∷ rest) i eq p here = record {
    capacity = p.capacity;
    order = p.order ∙ ap (◌++◌ s.started) eq ∙ sym (append_assoc s.started (task ∷ []) rest);
    bounded = omega (arith, p.bounded, ap length eq);
    returned_drained = λ j e.
        elim (get_elem?-set_cases s.executor.workers i j (running_task task) e) [
          | inl clash ↦ absurd (running-ne-returned clash)
          | inr old ↦ absurd (cons-ne-nil (sym eq ∙ (p.returned_drained j old).1))
        ];
    staffed = elim (still_staffed i (running_task task) s.executor.workers p.staffed) [
      | inl some_worker ↦ inl some_worker
      | inr drained ↦ absurd (cons-ne-nil (sym eq ∙ drained.1))
    ];
  }
  turn-Inv {n} {s} [] i eq p here =
      let Result : Bool → Type ℓ =
        λ r. Inv n (after_turn i ((if r then waits else returns), s.executor) s) in
      elim (Bool-cases s.executor.running) [
        | inl open_still ↦ subst Result (sym open_still) (record {
          capacity = p.capacity;
          order =
              p.order ∙ ap (λ (xs : List T). xs ++ s.executor.queue) (sym (append-nil s.started));
          bounded = p.bounded;
          returned_drained = λ j e. elim (get_elem?-set_cases s.executor.workers i j waiting e) [
            | inl clash ↦ absurd (waiting-ne-returned waiting refl clash)
            | inr old ↦ p.returned_drained j old
          ];
          staffed = still_staffed i waiting s.executor.workers p.staffed;
        })
        | inr closed ↦ subst Result (sym closed) (record {
          capacity = p.capacity;
          order =
              p.order ∙ ap (λ (xs : List T). xs ++ s.executor.queue) (sym (append-nil s.started));
          bounded = p.bounded;
          returned_drained = λ j e. (closed, eq);
          staffed = still_staffed i returned s.executor.workers p.staffed;
        })
      ]

  finish-Inv :
      {n : ℕ} {s : State T} (i : ℕ)
      → Inv n s
      → Inv n (record s { executor = with_worker i waiting s.executor })
  finish-Inv {n} {s} i p = record {
    capacity = p.capacity;
    order = p.order;
    bounded = p.bounded;
    returned_drained = λ j e. elim (get_elem?-set_cases s.executor.workers i j waiting e) [
      | inl clash ↦ absurd (waiting-ne-returned waiting refl clash)
      | inr old ↦ p.returned_drained j old
    ];
    staffed = still_staffed i waiting s.executor.workers p.staffed;
  }

  stop-Inv :
      {n : ℕ} {s : State T} → Inv n s → Inv n (record s { executor = request_stop s.executor })
  unfolding request_stop
  stop-Inv p = record {
    capacity = p.capacity;
    order = p.order;
    bounded = p.bounded;
    returned_drained = λ j e. (refl, (p.returned_drained j e).1);
    staffed = elim p.staffed [
      | inl some_worker ↦ inl some_worker
      | inr drained ↦ inr (refl, drained.1)
    ];
  }

  -- Where all workers have returned the executor is drained.
  returned-IsDrained :
      {n : ℕ} {s : State T}
      → Inv n s
      → all_returned s.executor.workers ≡ true
      → IsDrained s.executor
  returned-IsDrained {s} p all = elim p.staffed [
    | inl some_worker ↦ p.returned_drained 0 (first-returned s.executor.workers some_worker all)
    | inr drained ↦ drained
  ]
    where
      first-returned :
          (ws : List (Worker T))
          → 0 < length ws
          → all_returned ws ≡ true
          → get_elem? ws 0 ≡ some returned
      first-returned [] some_worker e = absurd (omega arith)
      first-returned (returned ∷ ws) some_worker e = refl
      first-returned (waiting ∷ ws) some_worker e = cc
      first-returned (running_task task ∷ ws) some_worker e = cc

  join-Inv :
      {n : ℕ} {s : State T}
      → Inv n s
      → all_returned s.executor.workers ≡ true
      → Inv n (record s { executor = record (s.executor) { workers = [] } })
  join-Inv p all = record {
    capacity = p.capacity;
    order = p.order;
    bounded = p.bounded;
    returned_drained = λ j e. cc;
    staffed = inr (returned-IsDrained p all);
  }

  Step-Inv : {n : ℕ} {s t : State T} → Step s t → Inv n s → Inv n t
  unfolding worker_turn
  Step-Inv (submits task) p = submits-Inv task p
  Step-Inv {s} (turns i here) p = turn-Inv s.executor.queue i refl p here
  Step-Inv (finishes i task here) p = finish-Inv i p
  Step-Inv stops p = stop-Inv p
  Step-Inv (joined closed all) p = join-Inv p all

  Steps-Inv : {n : ℕ} {s t : State T} → Steps s t → Inv n s → Inv n t
  Steps-Inv start p = p
  Steps-Inv (next before now) p = Step-Inv now (Steps-Inv before p)

  -- In any interleaving of submissions, worker threads and a stop, the pool's workers take the
  -- accepted tasks in the order of their acceptance, each once, and never more tasks are queued than
  -- the pool has threads.
  pub executor_fifo :
      (n : ℕ) {s : State T}
      → Steps (new_state n) s
      → (s.accepted ≡ s.started ++ s.executor.queue) × (length s.executor.queue ≤ max 1 n)
  executor_fifo n steps = let p = Steps-Inv steps (new-Inv n) in (p.order, p.bounded)

  -- Where all workers have returned, so that `Stop` can return, a worker has taken every accepted
  -- task, and the pool accepts none any more.
  pub stop_drains :
      (n : ℕ) {s : State T} (task : T)
      → Steps (new_state n) s
      → all_returned s.executor.workers ≡ true
      → (s.accepted ≡ s.started) × (try_submit (some task) s.executor ≡ (false, s.executor))
  stop_drains n {s} task steps all =
      let p = Steps-Inv steps (new-Inv n) in
      let drained = returned-IsDrained p all in
      (
        p.order ∙ ap (◌++◌ s.started) drained.1 ∙ append-nil s.started,
        submit_refused task s.executor drained.0,
      )
