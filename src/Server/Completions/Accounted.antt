-- ===== src/Server/Completions/Accounted.antt =====
-- What becomes of the items of the completion queue of memrpc/src/server/rpc_server.cpp.
use mathlib.Core.Path.{subst}
use mathlib.Core.List.{append-nil, append_assoc}
use mem.Prelude.{
  ℕ, ◌+◌, ◌≡◌, ◌≢◌, ◌≤◌, ◌<◌, refl, sym, ap, ◌∙◌, Bool, true, false, not, ◌||◌, none, some, List,
  [], ◌∷◌, ◌++◌, if◌then◌else◌, leb, length, length-append, length-set, arith, get_elem?,
  Bool-cases, inl, inr, All, All-append, All-mono, All-suffix, get_elem?-append, get_elem?-set_self,
  get_elem?-set_either,
}
use mem.Types.{StatusCode}
use mem.Server.Completions.{
  CompletionItem, Completions, Popped, blocked, ended, make_completion, enqueue_completion,
  pop_front, wait_and_pop_completion_item, complete_item, on_completion_item_finished,
  fail_pending_completion_items, Writer, idle, exited, writing, completed, State, new_state,
  accepted, writer_after, Step, makes, enqueues, pops, completes, finishes, stops, fails, Steps,
  start, next,
}

abbrev pub IsReady : ℕ → Completions → Type 0
IsReady completion c = (status : StatusCode) × (get_elem? c.states completion ≡ some (some status))

abbrev pub IsKnown : Completions → CompletionItem → Type 0
IsKnown c item = item.completion < length c.states

-- The item that the writer has taken and not yet completed, and what it counts for.
abbrev pub in_hand : Writer → List CompletionItem
in_hand (writing item) = item ∷ []
in_hand _ = []

abbrev pub busy : Writer → ℕ
busy (writing item) = 1
busy (completed item) = 1
busy _ = 0

record Inv (capacity : ℕ) (s : State) : Type 0 where
  limit : s.completions.capacity ≡ capacity
  counted : s.completions.pending ≡ length s.completions.queue + busy s.writer
  bounded : s.completions.pending ≤ capacity
  order : s.enqueued ≡ s.finished ++ (in_hand s.writer ++ s.completions.queue)
  known : All (IsKnown s.completions) s.enqueued
  ready : All (λ item. IsReady item.completion s.completions) s.finished
  closed : s.writer ≡ exited → (s.completions.writer_running ≡ false) × (s.completions.queue ≡ [])

new-Inv : (capacity : ℕ) → Inv capacity (new_state capacity)
new-Inv capacity = record {
  limit = refl;
  counted = refl;
  bounded = omega arith;
  order = refl;
  known = tt;
  ready = tt;
  closed = λ e. cc;
}

open_closed : {b : Bool} → b ≡ true → b ≢ false
open_closed = cc

move_in :
    {before : List CompletionItem} (done hand queue : List CompletionItem) (item : CompletionItem)
    → before ≡ done ++ (hand ++ queue)
    → before ++ (item ∷ []) ≡ done ++ (hand ++ (queue ++ (item ∷ [])))
move_in done hand queue item e = simp (e, append_assoc)

enqueues-Inv :
    {capacity : ℕ} {s : State} (item : CompletionItem)
    → item.completion < length s.completions.states
    → Inv capacity s
    → Inv capacity (record s {
      completions = (enqueue_completion item s.completions).1;
      enqueued = s.enqueued ++ accepted item (enqueue_completion item s.completions).0;
    })
unfolding enqueue_completion
enqueues-Inv {s} item here p =
    elim (Bool-cases
      (not s.completions.writer_running || leb s.completions.capacity s.completions.pending)) [
        | inl refused ↦ rw (refused, append-nil s.enqueued) p
        | inr room ↦
            let open_still : s.completions.writer_running ≡ true = ground (arith, room) in
            rw room (record {
              limit = p.limit;
              counted = omega (arith, p.counted, length-append s.completions.queue (item ∷ []));
              bounded = ground (arith, room, p.limit);
              order = move_in s.finished (in_hand s.writer) s.completions.queue item p.order;
              known = All-append (IsKnown s.completions) s.enqueued (item ∷ []) p.known (here, tt);
              ready = p.ready;
              closed = λ e. absurd (open_closed open_still (p.closed e).0);
            })
      ]

after_pop : Popped × Completions → State → State
unfolding wait_and_pop_completion_item
after_pop (turn, c) s = record s { completions = c; writer = writer_after turn }

pops-Inv :
    {capacity : ℕ} {s : State} (q : List CompletionItem)
    → s.completions.queue ≡ q
    → Inv capacity s
    → s.writer ≡ idle
    → Inv capacity (after_pop (pop_front q s.completions) s)
unfolding after_pop
pops-Inv {s} (item ∷ rest) eq p w = record {
  limit = p.limit;
  counted = p.counted ∙ rw (eq, w) (omega arith);
  bounded = p.bounded;
  order = p.order ∙ rw (eq, w) refl;
  known = p.known;
  ready = p.ready;
  closed = λ e. cc;
}
pops-Inv {capacity} {s} [] eq p w =
    let Result : Bool → Type 0 =
      λ r. Inv capacity (after_pop ((if r then blocked else ended), s.completions) s) in
    elim (Bool-cases s.completions.writer_running) [
      | inl open_still ↦ subst Result (sym open_still) (record {
        limit = p.limit;
        counted = p.counted ∙ rw w refl;
        bounded = p.bounded;
        order = p.order ∙ rw w refl;
        known = p.known;
        ready = p.ready;
        closed = λ e. cc;
      })
      | inr shut ↦ subst Result (sym shut) (record {
        limit = p.limit;
        counted = p.counted ∙ rw w refl;
        bounded = p.bounded;
        order = p.order ∙ rw w refl;
        known = p.known;
        ready = p.ready;
        closed = λ e. (shut, eq);
      })
    ]

pub set-IsReady :
    (completion : ℕ) (status : StatusCode) (c : Completions) (item : CompletionItem)
    → IsReady item.completion c
    → IsReady item.completion (complete_item completion status c)
unfolding complete_item
set-IsReady completion status c item (old, e) =
    elim (get_elem?-set_either c.states completion item.completion (some status) e) [
      | inl new ↦ (status, new)
      | inr kept ↦ (old, kept)
    ]

completes-Inv :
    {capacity : ℕ} {s : State} (item : CompletionItem) (status : StatusCode)
    → s.writer ≡ writing item
    → Inv capacity s
    → Inv capacity (record s {
      completions = complete_item item.completion status s.completions;
      writer = completed item;
      finished = s.finished ++ (item ∷ []);
    })
unfolding complete_item
completes-Inv {s} item status w p =
    let moved : s.enqueued ≡ s.finished ++ (item ∷ s.completions.queue) = p.order ∙ rw w refl in
    let written : CompletionItem → Type 0 =
      λ i. IsReady i.completion (complete_item item.completion status s.completions) in
    let bound =
      All-suffix (IsKnown s.completions) s.finished _
        (subst (All (IsKnown s.completions)) moved p.known) in
    record {
      limit = p.limit;
      counted = p.counted ∙ rw w refl;
      bounded = p.bounded;
      order = moved ∙ sym (append_assoc s.finished (item ∷ []) s.completions.queue);
      known =
          All-mono
            (λ i k. omega (arith, k, length-set s.completions.states item.completion (some status)))
            s.enqueued p.known;
      ready =
          All-append written s.finished (item ∷ [])
            (All-mono (set-IsReady item.completion status s.completions) s.finished p.ready)
            (
              (
                status,
                get_elem?-set_self s.completions.states item.completion (some status) bound.0,
              ),
              tt,
            );
      closed = λ e. cc;
    }

finishes-Inv :
    {capacity : ℕ} {s : State} (item : CompletionItem)
    → s.writer ≡ completed item
    → Inv capacity s
    → Inv capacity
        (record s { completions = on_completion_item_finished s.completions; writer = idle })
unfolding on_completion_item_finished
finishes-Inv {s} item w p = record {
  limit = p.limit;
  counted = omega (arith, p.counted ∙ ap (λ (x : Writer). length s.completions.queue + busy x) w);
  bounded = omega (arith, p.bounded);
  order = p.order ∙ rw w refl;
  known = p.known;
  ready = p.ready;
  closed = λ e. cc;
}

stops-Inv :
    {capacity : ℕ} {s : State}
    → Inv capacity s
    → Inv capacity (record s { completions = record (s.completions) { writer_running = false } })
stops-Inv p = record {
  limit = p.limit;
  counted = p.counted;
  bounded = p.bounded;
  order = p.order;
  known = p.known;
  ready = p.ready;
  closed = λ e. (refl, (p.closed e).1);
}

makes-Inv :
    {capacity : ℕ} {s : State}
    → Inv capacity s
    → Inv capacity (record s { completions = (make_completion s.completions).1 })
unfolding make_completion
makes-Inv {s} p = record {
  limit = p.limit;
  counted = p.counted;
  bounded = p.bounded;
  order = p.order;
  known =
      All-mono (λ i k. omega (arith, k, length-append s.completions.states (none ∷ []))) s.enqueued
        p.known;
  ready =
      All-mono (λ i r. (r.0, get_elem?-append s.completions.states (none ∷ []) i.completion r.1))
        s.finished p.ready;
  closed = p.closed;
}

-- A writer that has returned leaves nothing to fail.
pub fail-nothing :
    (status : StatusCode) (c : Completions)
    → c.queue ≡ []
    → fail_pending_completion_items status c ≡ record c { queue = []; pending = 0 }
unfolding fail_pending_completion_items
fail-nothing status c e = rw e refl

fails-Inv :
    {capacity : ℕ} {s : State} (status : StatusCode)
    → s.writer ≡ exited
    → Inv capacity s
    → Inv capacity (record s {
      completions = fail_pending_completion_items status s.completions;
      finished = s.finished ++ s.completions.queue;
    })
fails-Inv {s} status w p =
    let empty = (p.closed w).1 in
    rw (fail-nothing status s.completions empty) (record {
      limit = p.limit;
      counted = rw w refl;
      bounded = omega arith;
      order = p.order ∙ rw (w, empty) (sym (append-nil _));
      known = p.known;
      ready = rw (empty, append-nil s.finished) p.ready;
      closed = λ e. ((p.closed e).0, refl);
    })

Step-Inv : {capacity : ℕ} {s t : State} → Step s t → Inv capacity s → Inv capacity t
unfolding wait_and_pop_completion_item after_pop
Step-Inv makes p = makes-Inv p
Step-Inv (enqueues item here) p = enqueues-Inv item here p
Step-Inv {s} (pops w) p = pops-Inv s.completions.queue refl p w
Step-Inv (completes item status w) p = completes-Inv item status w p
Step-Inv (finishes item w) p = finishes-Inv item w p
Step-Inv stops p = stops-Inv p
Step-Inv (fails status w) p = fails-Inv status w p

Steps-Inv : {capacity : ℕ} {s t : State} → Steps s t → Inv capacity s → Inv capacity t
Steps-Inv start p = p
Steps-Inv (next before now) p = Step-Inv now (Steps-Inv before p)

-- In any interleaving, the response writer takes the accepted items in the order of their acceptance,
-- no more of them are pending than the capacity allows, and the count of the pending ones is the number
-- of those that are queued and, where the writer has one, the one that it works on.
pub completions_accounted :
    (capacity : ℕ) {s : State}
    → Steps (new_state capacity) s
    → (s.enqueued ≡ s.finished ++ (in_hand s.writer ++ s.completions.queue))
      × (s.completions.pending ≡ length s.completions.queue + busy s.writer)
      × (s.completions.pending ≤ capacity)
completions_accounted capacity steps =
    let p = Steps-Inv steps (new-Inv capacity) in (p.order, p.counted, p.bounded)

-- Once the response writer has returned, every thread that waits for an accepted item is told a
-- status, and none is accepted any more.
pub writer_exit_resolves :
    (capacity : ℕ) {s : State} (later : CompletionItem)
    → Steps (new_state capacity) s
    → s.writer ≡ exited
    → All (λ item. IsReady item.completion s.completions) s.enqueued
      × (enqueue_completion later s.completions ≡ (false, s.completions))
unfolding enqueue_completion
writer_exit_resolves capacity {s} later steps w =
    let p = Steps-Inv steps (new-Inv capacity) in
    let (shut, empty) = p.closed w in
    let all_finished : s.enqueued ≡ s.finished = p.order ∙ rw (w, empty) (append-nil s.finished) in
    (rw all_finished p.ready, rw shut refl)
