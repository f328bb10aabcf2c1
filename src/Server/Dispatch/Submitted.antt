-- ===== src/Server/Dispatch/Submitted.antt =====
-- What the dispatcher of memrpc/src/server/rpc_server.cpp does with the requests that it pops.
use mathlib.Core.Path.{subst}
use mathlib.Core.List.{append_assoc, append-nil}
use mem.Prelude.{
  ℕ, zero, suc, ◌+◌, ◌≡◌, ◌≢◌, ◌<◌, refl, sym, ap, ◌∙◌, ◌⊎◌, inl, inr, Bool, true, false, not,
  Option, List, [], ◌∷◌, ◌++◌, ◌||◌, if◌then◌else◌, Bool-cases, if-kept, length, arith,
}
use mem.Types.{RequestRingEntry}
use mem.Ring.Queue.{dequeue}
use mem.Session.{World}
use mem.Session.Queues.{QueueKind, pop_request}
use mem.Session.Queues.Refine.{Queues, queue_of, set_queue, Holding}
use mem.Server.Dispatch.Rings.{queue_of-set_queue, set_queue_twice, set_queue_same, pop-eq}
use mem.Server.State.{Env, RpcServer, make_submitted_task_token}
use mem.Server.State.Laws.{signal-world, signal-tokens}
use mem.Server.Dispatch.{
  was_full, cursor_of, TaskExecutor, Drain, submit_captured, take_popped, drain_rounds, give_credit,
  new_drain, drain_queue,
}

-- The contract of an executor: as long as only the dispatcher submits, a submission that follows
-- `HasCapacity` is accepted. `accepted` lists the tasks that the executor has accepted so far.
pub record IsConsistent {E : Type 0} (ops : TaskExecutor E) (accepted : E → List RequestRingEntry)
    : Type 0 where
  pub submits :
      (e : RequestRingEntry) (x : E)
      → ops.has_capacity x ≡ true
      → ((ops.try_submit e (ops.lets_go x)).0 ≡ true)
        × (accepted (ops.try_submit e (ops.lets_go x)).1 ≡ accepted (ops.lets_go x) ++ (e ∷ []))
  pub keeps : (x : E) → accepted (ops.lets_go x) ≡ accepted x

false-ne-true : false ≢ true
false-ne-true = cc

module _ {Fs E : Type 0} (ops : TaskExecutor E) (accepted : E → List RequestRingEntry) where
  -- What rounds of the loop do, from `d` on: they move `more` from the ring to the executor.
  pub record Moved (rounds : ℕ) (kind : QueueKind) (d : Drain Fs E) (q : Queues)
      (r : Bool × Drain Fs E) : Type 0 where
    pub more : List RequestRingEntry
    pub rest : List RequestRingEntry
    pub split : queue_of kind q ≡ more ++ rest
    pub popped : r.1.popped ≡ d.popped ++ more
    pub none_lost : r.1.lost ≡ d.lost
    pub accepts : accepted r.1.executor ≡ accepted d.executor ++ more
    pub tokens : r.1.server.pending_submitted_tasks ≡ d.server.pending_submitted_tasks + length more
    pub holding : Holding r.1.server.world (set_queue kind rest q)
    pub stops : r.0 ≡ true → (rest ≡ []) ⊎ (ops.has_capacity r.1.executor ≡ false)
    pub ends : length (queue_of kind q) < rounds → r.0 ≡ true

  stay-Moved :
      (rounds : ℕ) (kind : QueueKind) (d : Drain Fs E) (q : Queues) (ended : Bool)
      → Holding d.server.world q
      → (ended ≡ true → (queue_of kind q ≡ []) ⊎ (ops.has_capacity d.executor ≡ false))
      → (length (queue_of kind q) < rounds → ended ≡ true)
      → Moved rounds kind d q (ended, d)
  stay-Moved rounds kind d q ended h stops ends = record {
    more = [];
    rest = queue_of kind q;
    split = refl;
    popped = sym (append-nil d.popped);
    none_lost = refl;
    accepts = sym (append-nil (accepted d.executor));
    tokens = omega arith;
    holding = subst (Holding d.server.world) (sym (set_queue_same kind q)) h;
    stops = stops;
    ends = ends;
  }

  -- One request has moved, and the rounds after it move more.
  step-Moved :
      (rounds : ℕ) (kind : QueueKind) (d d' : Drain Fs E) (q : Queues) (e : RequestRingEntry)
      (l : List RequestRingEntry) {r : Bool × Drain Fs E}
      → queue_of kind q ≡ e ∷ l
      → d'.popped ≡ d.popped ++ (e ∷ [])
      → d'.lost ≡ d.lost
      → accepted d'.executor ≡ accepted d.executor ++ (e ∷ [])
      → d'.server.pending_submitted_tasks ≡ suc d.server.pending_submitted_tasks
      → Moved rounds kind d' (set_queue kind l q) r
      → Moved (suc rounds) kind d q r
  step-Moved rounds kind d d' q e l here popped lost accepts tokens m =
      let inner = queue_of-set_queue kind l q in
      record {
        more = e ∷ m.more;
        rest = m.rest;
        split = here ∙ ap (◌∷◌ e) (sym inner ∙ m.split);
        popped =
            m.popped
            ∙ ap (λ (xs : List RequestRingEntry). xs ++ m.more) popped
            ∙ append_assoc d.popped (e ∷ []) m.more;
        none_lost = m.none_lost ∙ lost;
        accepts =
            m.accepts
            ∙ ap (λ (xs : List RequestRingEntry). xs ++ m.more) accepts
            ∙ append_assoc (accepted d.executor) (e ∷ []) m.more;
        tokens = omega (arith, m.tokens, tokens);
        holding = subst (Holding _) (set_queue_twice kind m.rest l q) m.holding;
        stops = m.stops;
        ends = λ enough. m.ends (omega (arith, enough, ap length here, ap length inner));
      }

  -- The submission after a popped request.
  submit-accepted :
      (e : RequestRingEntry) (d : Drain Fs E) (r : Bool × E)
      → r.0 ≡ true
      → ((submit_captured ops e d r).popped ≡ d.popped ++ (e ∷ []))
        × ((submit_captured ops e d r).lost ≡ d.lost)
        × ((submit_captured ops e d r).executor ≡ ops.lets_go r.1)
        × ((submit_captured ops e d r).server ≡ d.server)
  submit-accepted e d (true, x) h = (refl, refl, refl, refl)
  submit-accepted e d (false, x) h = absurd (false-ne-true h)

  module _ (law : IsConsistent ops accepted) where
    turn-Moved :
        (rounds : ℕ) (kind : QueueKind) (d : Drain Fs E) (q : Queues) (l : List RequestRingEntry)
        → Holding d.server.world q
        → ops.has_capacity d.executor ≡ true
        → queue_of kind q ≡ l
        → ((d' : Drain Fs E) (q' : Queues)
            → Holding d'.server.world q'
            → Moved rounds kind d' q' (drain_rounds ops rounds kind d'))
        → Moved (suc rounds) kind d q (
            take_popped ops kind d (drain_rounds ops rounds kind) (pop_request kind d.server.world))
    unfolding dequeue make_submitted_task_token
    turn-Moved rounds kind d q [] h room here more =
        let (e, h') = pop-eq kind [] h here in
        let Result : Bool × Option RequestRingEntry × World → Type 0 = λ p.
          Moved (suc rounds) kind d q (take_popped ops kind d (drain_rounds ops rounds kind) p) in
        subst Result (sym e) (record {
          more = [];
          rest = [];
          split = here;
          popped = sym (append-nil d.popped);
          none_lost = refl;
          accepts = sym (append-nil (accepted d.executor));
          tokens = omega arith;
          holding = h';
          stops = λ ended. inl refl;
          ends = λ lt. refl;
        })
    turn-Moved rounds kind d q (x ∷ l) h room here more =
        let (e, h') = pop-eq kind (x ∷ l) h here in
        let Result : Bool × Option RequestRingEntry × World → Type 0 = λ p.
          Moved (suc rounds) kind d q (take_popped ops kind d (drain_rounds ops rounds kind) p) in
        let w = (pop_request kind d.server.world).2 in
        let submitted = ops.try_submit x (ops.lets_go d.executor) in
        let taken : Drain Fs E = record d {
          server = make_submitted_task_token (record (d.server) { world = w });
          drained = true;
          ring_became_not_full = d.ring_became_not_full || was_full (cursor_of kind w.memory);
        } in
        let (given, added) = law.submits x d.executor room in
        let (popped, lost, executor, server) = submit-accepted x taken submitted given in
        let d' = submit_captured ops x taken submitted in
        subst Result (sym e) (
          step-Moved rounds kind d d' q x l here popped lost
            (ap accepted executor
              ∙ law.keeps submitted.1
              ∙ added
              ∙ ap (λ (xs : List RequestRingEntry). xs ++ (x ∷ [])) (law.keeps d.executor))
            (ap (λ (s : RpcServer Fs). s.pending_submitted_tasks) server)
            (more d' (set_queue kind l q)
              (subst (λ (s : RpcServer Fs). Holding s.world (set_queue kind l q)) (sym server) h')))

    drain-Moved :
        (rounds : ℕ) (kind : QueueKind) (d : Drain Fs E) (q : Queues)
        → Holding d.server.world q
        → Moved rounds kind d q (drain_rounds ops rounds kind d)
    drain-Moved zero kind d q h =
        stay-Moved zero kind d q false h (λ e. absurd (false-ne-true e))
          (λ lt. absurd (omega arith))
    drain-Moved (suc rounds) kind d q h = elim (Bool-cases (ops.has_capacity d.executor)) [
      | inr full ↦ rw full (stay-Moved (suc rounds) kind d q true h (λ e. inr full) (λ lt. refl))
      | inl room ↦ rw room (
          turn-Moved rounds kind d q (queue_of kind q) h room refl
            (λ d' q' h'. drain-Moved rounds kind d' q' h'))
    ]

credit-Moved :
    {Fs E : Type 0} (ops : TaskExecutor E) (accepted : E → List RequestRingEntry) (env : Env Fs)
    (rounds : ℕ) (kind : QueueKind) (start : Drain Fs E) (q : Queues) (ended : Bool)
    (d : Drain Fs E)
    → Moved ops accepted rounds kind start q (ended, d)
    → Moved ops accepted rounds kind start q (ended, give_credit ops env d)
credit-Moved {Fs} {E} ops accepted env rounds kind start q ended d m =
    let fd = d.server.world.session.handles.req_credit_event_fd in
    let Result : Drain Fs E → Type 0 = λ x. Moved ops accepted rounds kind start q (ended, x) in
    if-kept d.ring_became_not_full Result
      (record {
        more = m.more;
        rest = m.rest;
        split = m.split;
        popped = m.popped;
        none_lost = m.none_lost;
        accepts = m.accepts;
        tokens = signal-tokens env fd d.server ∙ m.tokens;
        holding =
            subst (λ (w : World). Holding w (set_queue kind m.rest q))
              (sym (signal-world env fd d.server)) m.holding;
        stops = m.stops;
        ends = m.ends;
      })
      m

-- With an executor that accepts what a single producer submits after `HasCapacity`, draining a request
-- ring of a live session hands the requests over in their order: those popped are the oldest ones of the
-- ring, the executor accepts each of them once and in that order, none is lost, and each counts as a
-- submitted task. The loop ends after at most one round more than there are requests, and it ends where
-- the ring is empty or the executor has no capacity.
pub drain_queue-Moved :
    {Fs E : Type 0} (ops : TaskExecutor E) (accepted : E → List RequestRingEntry) (env : Env Fs)
    (rounds : ℕ) (kind : QueueKind) (s : RpcServer Fs) (x : E) (q : Queues)
    → IsConsistent ops accepted
    → Holding s.world q
    → Moved ops accepted rounds kind (new_drain ops s x) q (drain_queue ops rounds env kind s x)
unfolding drain_queue
drain_queue-Moved ops accepted env rounds kind s x q law h =
    let drained = drain_rounds ops rounds kind (new_drain ops s x) in
    let Result : Bool → Type 0 = λ b.
      Moved ops accepted rounds kind (new_drain ops s x) q
        (if not b then (true, new_drain ops s x) else (drained.0, give_credit ops env drained.1)) in
    subst Result (sym h.attached) (
      credit-Moved ops accepted env rounds kind (new_drain ops s x) q drained.0 drained.1
        (drain-Moved ops accepted law rounds kind (new_drain ops s x) q h))
