-- ===== src/Server/Writer/Exactly.antt =====
-- What a retried push of memrpc/src/server/rpc_server.cpp does to the response ring.
use mathlib.Core.Path.{subst}
use mathlib.Core.List.{append_assoc}
use mem.Prelude.{
  ℕ, zero, suc, ◌≡◌, ◌≢◌, refl, sym, ap, ◌∙◌, ◌⊎◌, inl, inr, List, [], ◌∷◌, ◌++◌, leb, length,
  Bool-cases, All,
}
use mem.Types.{StatusCode, ok, queue_full, peer_disconnected, ResponseRingEntry}
use mem.Ring.Queue.{enqueue, dequeue}
use mem.Session.{World}
use mem.Session.Queues.{alive, push_response, pop_response, response_ring}
use mem.Session.Queues.Refine.{Queues, Holding, push_response_refines, pop_response_refines}
use mem.Server.Writer.{
  PollEventFdResult, ready, timeout, retry, failed, Attempt, client_pops, after_credit,
  push_response_with_retry,
}

-- The response queue after the client has taken some entries from its front.
abbrev pub with_response : List ResponseRingEntry → Queues → Queues
with_response rest q = record q { response = rest }

-- A push that reports `Ok` has put the entry at the end once, and one that reports anything else has put
-- in nothing; the client has taken nothing but the oldest entries.
pub record Sent (entry : ResponseRingEntry) (q : Queues) (result : StatusCode × World)
    : Type 0 where
  pub taken : List ResponseRingEntry
  pub rest : List ResponseRingEntry
  pub split : q.response ≡ taken ++ rest
  pub delivered :
      ((result.0 ≡ ok) × Holding result.1 (with_response (rest ++ (entry ∷ [])) q))
      ⊎ ((result.0 ≢ ok) × Holding result.1 (with_response rest q))

peer-ne-ok : peer_disconnected ≢ ok
peer-ne-ok = cc

full-ne-ok : queue_full ≢ ok
full-ne-ok = cc

-- The result of one push on a live session.
push-Sent :
    (entry : ResponseRingEntry) {w : World} {q : Queues}
    → Holding w q
    → (((push_response alive entry w).0 ≡ ok)
        × Holding (push_response alive entry w).1 (with_response (q.response ++ (entry ∷ [])) q))
      ⊎ (((push_response alive entry w).0 ≡ queue_full) × Holding (push_response alive entry w).1 q)
unfolding enqueue
push-Sent entry {w} {q} h =
    let cap = (response_ring w.memory).cursor.capacity in
    let (s, h') = push_response_refines entry h in
    let After : StatusCode × List ResponseRingEntry → Type 0 =
      λ r. Holding (push_response alive entry w).1 (with_response r.1 q) in
    elim (Bool-cases (leb cap (length q.response))) [
      | inl full ↦
          let e : enqueue cap q.response entry ≡ (queue_full, q.response) = rw full refl in
          inr (s ∙ ap (λ r. r.0) e, subst After e h')
      | inr room ↦
          let e : enqueue cap q.response entry ≡ (ok, q.response ++ (entry ∷ [])) = rw room refl in
          inl (s ∙ ap (λ r. r.0) e, subst After e h')
    ]

client_pops-Holding :
    (n : ℕ) {w : World} {q : Queues}
    → Holding w q
    → (taken : List ResponseRingEntry) × (rest : List ResponseRingEntry) × (q.response
        ≡ taken ++ rest)
      × Holding (client_pops n w) (with_response rest q)
unfolding dequeue
client_pops-Holding zero {q} h = ([], q.response, refl, h)
client_pops-Holding (suc n) {w} {q} h =
    let (b, out, h') = pop_response_refines h in
    let (taken, rest, split, h'') = client_pops-Holding n h' in
    dequeued q.response taken rest split h''
  where
    dequeued :
        (l taken rest : List ResponseRingEntry)
        → (dequeue l).2 ≡ taken ++ rest
        → Holding (client_pops n (pop_response w).2) (with_response rest q)
        → (taken : List ResponseRingEntry) × (rest : List ResponseRingEntry) × (l ≡ taken ++ rest)
          × Holding (client_pops n (pop_response w).2) (with_response rest q)
    dequeued [] taken rest split h'' = (taken, rest, split, h'')
    dequeued (x ∷ l) taken rest split h'' = (x ∷ taken, rest, ap (◌∷◌ x) split, h'')

-- What was taken first, and what was taken before a later attempt.
after-Sent :
    {entry : ResponseRingEntry} {q : Queues} {result : StatusCode × World}
    (taken rest : List ResponseRingEntry)
    → q.response ≡ taken ++ rest
    → Sent entry (with_response rest q) result
    → Sent entry q result
after-Sent taken rest split s = record {
  taken = taken ++ s.taken;
  rest = s.rest;
  split = split ∙ ap (◌++◌ taken) s.split ∙ sym (append_assoc taken s.taken s.rest);
  delivered = s.delivered;
}

stopped-Sent :
    {entry : ResponseRingEntry} {q : Queues} (status : StatusCode) {w : World}
    (taken rest : List ResponseRingEntry)
    → status ≢ ok
    → q.response ≡ taken ++ rest
    → Holding w (with_response rest q)
    → Sent entry q (status, w)
stopped-Sent status taken rest bad split h = record {
  taken = taken;
  rest = rest;
  split = split;
  delivered = inr (bad, h);
}

credit-Sent :
    {entry : ResponseRingEntry} {q : Queues} (waited : PollEventFdResult)
    {again : StatusCode × World} {w : World} (taken rest : List ResponseRingEntry)
    → q.response ≡ taken ++ rest
    → Holding w (with_response rest q)
    → Sent entry (with_response rest q) again
    → Sent entry q (after_credit waited again w)
credit-Sent ready taken rest split h s = after-Sent taken rest split s
credit-Sent timeout taken rest split h s = stopped-Sent queue_full taken rest full-ne-ok split h
credit-Sent retry taken rest split h s =
    stopped-Sent peer_disconnected taken rest peer-ne-ok split h
credit-Sent failed taken rest split h s =
    stopped-Sent peer_disconnected taken rest peer-ne-ok split h

-- While the session stays alive, a push of a response that is retried until its deadline, however often
-- it waits for credit and whatever the client takes out of the ring meanwhile, reports `Ok` exactly
-- where the entry stands at the end of the response queue, once; otherwise it is not there. What was
-- queued before stays in front of it in its order, less the oldest entries that the client took.
pub push_with_retry-Sent :
    (entry : ResponseRingEntry) (attempts : List Attempt) {w : World} {q : Queues}
    → All (λ a. a.later ≡ alive) attempts
    → Holding w q
    → Sent entry q (push_response_with_retry alive entry attempts w)
unfolding push_response_with_retry
push_with_retry-Sent entry [] {w} {q} lives h = elim (push-Sent entry h) [
  | inl (sent, h') ↦ record {
    taken = [];
    rest = q.response;
    split = refl;
    delivered = inl (sent, h');
  }
  | inr (full, h') ↦ record {
    taken = [];
    rest = q.response;
    split = refl;
    delivered = inr (rw full full-ne-ok, h');
  }
]
push_with_retry-Sent entry (a ∷ rest) {w} {q} (live, lives) h = elim (push-Sent entry h) [
  | inl (sent, h') ↦
      rw (live, sent)
        (record { taken = []; rest = q.response; split = refl; delivered = inl (refl, h') })
  | inr (full, h') ↦
      let (taken, left, split, freed) = client_pops-Holding a.pops h' in
      let again = push_with_retry-Sent entry rest lives freed in
      rw (live, full) (credit-Sent _ taken left split freed again)
]
