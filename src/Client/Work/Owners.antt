-- ===== src/Client/Work/Owners.antt =====
-- No request is lost (memrpc/src/client/rpc_client.cpp): a future that is not ready belongs to a
-- request in the store, in the submit thread's hand or in its queue.
use mem.Prelude.{
  ℕ, ◌≤◌, ◌≡◌, ◌≢◌, refl, sym, ◌∙◌, ◌⊎◌, inl, inr, true, false, Option, none, some, List, [], ◌∷◌,
  ◌++◌, map, arith, get_elem?, ◌==◌, Bool-cases, ==→≡, ==→≢, get_elem?-set_self, get_elem?-set_ne,
  get_elem?_lt,
}
use mem.Client.{PendingSubmit, PendingInfo, PendingRequest, RpcReply}
use mem.Client.Futures.{FutureState, resolve_state, resolve_at, resolved}
use mem.Client.Store.{RequestMap, find_pending, erase, put, take_expired}
use mem.Client.Work.{Work, futures_of, queued_futures, Stable}
use mem.Client.Work.Ids.{Below, Rising}

abbrev pub Among : ℕ → List ℕ → Type 0
Among i [] = ⊥
Among i (x ∷ xs) = (i ≡ x) ⊎ Among i xs

pub Among-left : (i : ℕ) (xs ys : List ℕ) → Among i xs → Among i (xs ++ ys)
Among-left i [] ys a = absurd a
Among-left i (x ∷ xs) ys (inl e) = inl e
Among-left i (x ∷ xs) ys (inr a) = inr (Among-left i xs ys a)

pub Among-right : (i : ℕ) (xs ys : List ℕ) → Among i ys → Among i (xs ++ ys)
Among-right i [] ys a = a
Among-right i (x ∷ xs) ys a = inr (Among-right i xs ys a)

abbrev pub stored_futures : RequestMap → List ℕ
stored_futures m = futures_of (map (λ (e : ℕ × PendingRequest). e.1) m)

abbrev pub held_futures : Option (PendingSubmit × PendingInfo) → List ℕ
held_futures none = []
held_futures (some (s, info)) = s.future ∷ []

-- The owners of a future: the operation that runs, the store, the queue and the hand.
abbrev pub Owned : List ℕ → Work → ℕ → Type 0
Owned xs w i =
    Among i xs
    ⊎ (Among i (stored_futures w.store)
        ⊎ (Among i (queued_futures w.submit_queue) ⊎ Among i (held_futures w.in_hand)))

abbrev pub Tracked : List ℕ → Work → Type 0
Tracked xs w =
    (i : ℕ) (s : FutureState) → get_elem? w.futures i ≡ some s → s.ready ≡ false → Owned xs w i

-- What the store's operations do to the futures that it owns.
pub put_owns :
    (id : ℕ) (p : PendingRequest) (i : ℕ) (m : RequestMap) (lo : ℕ)
    → lo ≤ id
    → Below lo m
    → (i ≡ p.future) ⊎ Among i (stored_futures m)
    → Among i (stored_futures (put id p m))
unfolding put
put_owns id p i [] lo le b (inl e) = inl e
put_owns id p i [] lo le b (inr a) = inr a
put_owns id p i ((id', q) ∷ m) lo le b a = elim (Bool-cases (id == id')) [
  | inl same ↦ absurd (omega (arith, ==→≡ id id' same))
  | inr other ↦ rw other (elim a [
    | inl e ↦ inr (put_owns id p i m lo le b.1 (inl e))
    | inr a ↦ elim a [ inl e ↦ inl e | inr a ↦ inr (put_owns id p i m lo le b.1 (inr a)) ]
  ])
]

pub erase_owns :
    (id : ℕ) (p : PendingRequest) (i : ℕ) (m : RequestMap)
    → find_pending id m ≡ some p
    → Among i (stored_futures m)
    → (i ≡ p.future) ⊎ Among i (stored_futures (erase id m))
unfolding find_pending erase
erase_owns id p i [] e a = absurd a
erase_owns id p i ((id', q) ∷ m) e a = ground (arith, erase_owns id p i m)

pub expired_owns :
    (now i : ℕ) (m : RequestMap)
    → Among i (stored_futures m)
    → Among i (futures_of (take_expired now m).0) ⊎ Among i (stored_futures (take_expired now m).1)
unfolding take_expired
expired_owns now i [] a = absurd a
expired_owns now i ((id, q) ∷ m) a = ground (arith, expired_owns now i m)

pub queue_owns :
    (i : ℕ) (ss : List PendingSubmit) (s : PendingSubmit)
    → Among i (queued_futures ss) ⊎ (i ≡ s.future)
    → Among i (queued_futures (ss ++ (s ∷ [])))
queue_owns i [] s (inl a) = absurd a
queue_owns i [] s (inr e) = inl e
queue_owns i (t ∷ ss) s (inl (inl e)) = inl e
queue_owns i (t ∷ ss) s (inl (inr a)) = inr (queue_owns i ss s (inl a))
queue_owns i (t ∷ ss) s (inr e) = inr (queue_owns i ss s (inr e))

resolved_ready : (r : RpcReply) (s : FutureState) → (resolved r s).ready ≡ true
resolved_ready r s = ground arith

-- A future that is not ready after one was resolved was not ready before, and is another one.
unready :
    (fs : List FutureState) (future : ℕ) (r : RpcReply) (found : Option FutureState) (i : ℕ)
    (s : FutureState)
    → get_elem? fs future ≡ found
    → get_elem? (resolve_at fs future r found) i ≡ some s
    → s.ready ≡ false
    → (get_elem? fs i ≡ some s) × (i ≢ future)
unready fs future r none i s e at waits = (at, λ same. cc)
unready fs future r (some s') i s e at waits = elim (Bool-cases (future == i)) [
  | inl same ↦ absurd (
      ground (
        arith,
        same,
        at,
        waits,
        resolved_ready r s',
        get_elem?-set_self fs future (resolved r s') (get_elem?_lt fs future e),
      ))
  | inr other ↦ (
    sym (get_elem?-set_ne fs (resolved r s') (==→≢ future i other)) ∙ at,
    λ e. ==→≢ future i other (sym e),
  )
]

-- The ids rise from the store's bound on, through the hand and the queue, up to the next one.
abbrev pub held_ids : Option (PendingSubmit × PendingInfo) → List ℕ
held_ids none = []
held_ids (some (s, info)) = s.request_id ∷ []

abbrev pub queued_ids : List PendingSubmit → List ℕ
queued_ids ss = map (λ (s : PendingSubmit). s.request_id) ss

pub record Ordered (w : Work) : Type 0 where
  pub bound : ℕ
  pub below : Below bound w.store
  pub rising : Rising bound (held_ids w.in_hand ++ queued_ids w.submit_queue) w.next_request_id

abbrev pub Accounted : List ℕ → Work → Type 0
Accounted xs w = Tracked xs w × Ordered w

resolve-Tracked :
    (xs : List ℕ) (w : Work) (future : ℕ) (r : RpcReply)
    → Tracked (future ∷ xs) w
    → Tracked xs (record w { futures = resolve_state future r w.futures })
unfolding resolve_state
resolve-Tracked xs w future r t i s at waits =
    let (old, other) = unready w.futures future r _ i s refl at waits in
    elim (t i s old waits) [
      | inl a ↦ elim a [ inl same ↦ absurd (other same) | inr b ↦ inl b ]
      | inr a ↦ inr a
    ]

pub Accounted-Stable : Stable Accounted
Accounted-Stable = record {
  resolve = λ xs w future r p. (
    resolve-Tracked xs w future r p.0,
    record { bound = p.1.bound; below = p.1.below; rising = p.1.rising },
  );
  take_store = λ xs w p. (
    λ i s at waits. elim (p.0 i s at waits) [
      | inl a ↦ inl (Among-right i (stored_futures w.store) xs a)
      | inr a ↦ elim a [
        | inl b ↦ inl (Among-left i (stored_futures w.store) xs b)
        | inr b ↦ inr (inr b)
      ]
    ],
    record { bound = p.1.bound; below = tt; rising = p.1.rising },
  );
}
