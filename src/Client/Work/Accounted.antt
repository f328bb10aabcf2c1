-- ===== src/Client/Work/Accounted.antt =====
-- Every move of a request (memrpc/src/client/rpc_client.cpp) keeps the account of the futures and of
-- the request ids.
use mathlib.Core.List.{append-nil}
use mathlib.Core.Path.{subst}
use mem.Prelude.{ℕ, suc, ◌≡◌, sym, ◌∙◌, inl, inr, Option, none, some, List, [], ◌∷◌, ◌++◌, arith}
use mem.Client.{PendingSubmit, PendingInfo, PendingRequest}
use mem.Client.Store.{RequestMap, find_pending, erase, put, take_pending}
use mem.Client.Store
use mem.Client.Work.{Work, futures_of, queued_futures, Steady}
use mem.Client.Work.Ids.{
  Rising, Below-weaken, Below-put, Below-erase, Below-expired, take-put, Rising-lower,
  Rising-prefix,
}
use mem.Client.Work.Owners.{
  Among, Among-left, Among-right, held_futures, held_ids, queued_ids, Ordered, Accounted,
  Accounted-Stable, put_owns, erase_owns, expired_owns,
}

-- The ids with a submission in hand, and with none.
Rising-held :
    (w : Work) (s : PendingSubmit) (info : PendingInfo) (o : Ordered w)
    → w.in_hand ≡ some (s, info)
    → Rising o.bound (s.request_id ∷ queued_ids w.submit_queue) w.next_request_id
Rising-held w s info o e =
    subst
      (λ (h : Option (PendingSubmit × PendingInfo)).
        Rising o.bound (held_ids h ++ queued_ids w.submit_queue) w.next_request_id)
      e o.rising

held_owns :
    (w : Work) (i : ℕ) {held : Option (PendingSubmit × PendingInfo)}
    → w.in_hand ≡ held
    → Among i (held_futures w.in_hand)
    → Among i (held_futures held)
held_owns w i e a =
    subst (λ (h : Option (PendingSubmit × PendingInfo)). Among i (held_futures h)) e a

queued_owns :
    (w : Work) (i : ℕ) {ss : List PendingSubmit}
    → w.submit_queue ≡ ss
    → Among i (queued_futures w.submit_queue)
    → Among i (queued_futures ss)
queued_owns w i e a = subst (λ (ss : List PendingSubmit). Among i (queued_futures ss)) e a

expired-Accounted :
    (xs : List ℕ) (w : Work) (now : ℕ)
    → Accounted xs w
    → Accounted
        (futures_of (Store.take_expired now w.store).0 ++ xs)
        (record w { store = (Store.take_expired now w.store).1 })
expired-Accounted xs w now (t, o) = (
  λ i s at waits. elim (t i s at waits) [
    | inl a ↦ inl (Among-right i (futures_of (Store.take_expired now w.store).0) xs a)
    | inr a ↦ elim a [
      | inl b ↦ elim (expired_owns now i w.store b) [
        | inl c ↦ inl (Among-left i (futures_of (Store.take_expired now w.store).0) xs c)
        | inr c ↦ inr (inl c)
      ]
      | inr b ↦ inr (inr b)
    ]
  ],
  record { bound = o.bound; below = Below-expired o.bound now w.store o.below; rising = o.rising },
)

found-Accounted :
    (xs : List ℕ) (w : Work) (id : ℕ) (p : PendingRequest)
    → find_pending id w.store ≡ some p
    → Accounted xs w
    → Accounted (p.future ∷ xs) (record w { store = erase id w.store })
found-Accounted xs w id p e (t, o) = (
  λ i s at waits. elim (t i s at waits) [
    | inl a ↦ inl (inr a)
    | inr a ↦ elim a [
      | inl b ↦ elim (erase_owns id p i w.store e b) [ inl c ↦ inl (inl c) | inr c ↦ inr (inl c) ]
      | inr b ↦ inr (inr b)
    ]
  ],
  record { bound = o.bound; below = Below-erase o.bound id w.store o.below; rising = o.rising },
)

queue-Accounted :
    (xs : List ℕ) (w : Work)
    → Accounted xs w
    → Accounted (queued_futures w.submit_queue ++ xs) (record w { submit_queue = [] })
queue-Accounted xs w (t, o) = (
  λ i s at waits. elim (t i s at waits) [
    | inl a ↦ inl (Among-right i (queued_futures w.submit_queue) xs a)
    | inr a ↦ elim a [
      | inl b ↦ inr (inl b)
      | inr b ↦ elim b [
        | inl c ↦ inl (Among-left i (queued_futures w.submit_queue) xs c)
        | inr c ↦ inr (inr (inr c))
      ]
    ]
  ],
  record {
    bound = o.bound;
    below = o.below;
    rising =
        subst (λ (ids : List ℕ). Rising o.bound ids w.next_request_id)
          (sym (append-nil (held_ids w.in_hand)))
          (Rising-prefix o.bound (held_ids w.in_hand) (queued_ids w.submit_queue) w.next_request_id
            o.rising);
  },
)

front-Accounted :
    (xs : List ℕ) (w : Work) (s : PendingSubmit) (rest : List PendingSubmit) (info : PendingInfo)
    → w.submit_queue ≡ s ∷ rest
    → w.in_hand ≡ none
    → Accounted xs w
    → Accounted xs (record w { submit_queue = rest; in_hand = some (s, info) })
front-Accounted xs w s rest info queue free (t, o) = (
  λ i s' at waits. elim (t i s' at waits) [
    | inl a ↦ inl a
    | inr a ↦ elim a [
      | inl b ↦ inr (inl b)
      | inr b ↦ elim b [
        | inl c ↦ elim (queued_owns w i queue c) [
          | inl e ↦ inr (inr (inr (inl e)))
          | inr d ↦ inr (inr (inl d))
        ]
        | inr c ↦ absurd (held_owns w i free c)
      ]
    ]
  ],
  record {
    bound = o.bound;
    below = o.below;
    rising =
        subst (λ (ss : List PendingSubmit). Rising o.bound (queued_ids ss) w.next_request_id) queue
          (subst
            (λ (h : Option (PendingSubmit × PendingInfo)).
              Rising o.bound (held_ids h ++ queued_ids w.submit_queue) w.next_request_id)
            free o.rising);
  },
)

drop-Accounted :
    (xs : List ℕ) (w : Work) (s : PendingSubmit) (info : PendingInfo)
    → w.in_hand ≡ some (s, info)
    → Accounted xs w
    → Accounted (s.future ∷ xs) (record w { in_hand = none })
drop-Accounted xs w s info e (t, o) =
    let r = Rising-held w s info o e in
    (
      λ i s' at waits. elim (t i s' at waits) [
        | inl a ↦ inl (inr a)
        | inr a ↦ elim a [
          | inl b ↦ inr (inl b)
          | inr b ↦ elim b [
            | inl c ↦ inr (inr (inl c))
            | inr c ↦ elim (held_owns w i e c) [ inl same ↦ inl (inl same) | inr d ↦ absurd d ]
          ]
        ]
      ],
      record {
        bound = o.bound;
        below = o.below;
        rising =
            Rising-lower (suc s.request_id) o.bound (queued_ids w.submit_queue) w.next_request_id
              (omega (arith, r.0)) r.1;
      },
    )

admit-Accounted :
    (xs : List ℕ) (w : Work) (s : PendingSubmit) (info : PendingInfo) (p : PendingRequest)
    → w.in_hand ≡ some (s, info)
    → p.future ≡ s.future
    → Accounted xs w
    → Accounted xs (record w { store = put s.request_id p w.store; in_hand = none })
admit-Accounted xs w s info p e same (t, o) =
    let r = Rising-held w s info o e in
    (
      λ i s' at waits. elim (t i s' at waits) [
        | inl a ↦ inl a
        | inr a ↦ elim a [
          | inl b ↦ inr (inl (put_owns s.request_id p i w.store o.bound r.0 o.below (inr b)))
          | inr b ↦ elim b [
            | inl c ↦ inr (inr (inl c))
            | inr c ↦ elim (held_owns w i e c) [
              | inl own ↦ inr (
                  inl
                    (put_owns s.request_id p i w.store o.bound r.0 o.below (inl (own ∙ sym same))))
              | inr d ↦ absurd d
            ]
          ]
        ]
      ],
      record {
        bound = suc s.request_id;
        below =
            Below-put (suc s.request_id) s.request_id p w.store (omega arith)
              (Below-weaken o.bound (suc s.request_id) w.store (omega (arith, r.0)) o.below);
        rising = r.1;
      },
    )

back-Accounted :
    (xs : List ℕ) (w : Work) (s : PendingSubmit) (info : PendingInfo) (p : PendingRequest)
    → w.in_hand ≡ some (s, info)
    → Accounted xs w
    → Accounted xs (record w { store = (take_pending s.request_id (put s.request_id p w.store)).1 })
back-Accounted xs w s info p e a =
    let r = Rising-held w s info a.1 e in
    subst (λ (m : RequestMap). Accounted xs (record w { store = m }))
      (sym (take-put a.1.bound s.request_id p w.store r.0 a.1.below)) a

pub Accounted-Steady : Steady Accounted
Accounted-Steady = record {
  stable = Accounted-Stable;
  take_expired = expired-Accounted;
  take_found = found-Accounted;
  take_queue = queue-Accounted;
  take_front = front-Accounted;
  drop = drop-Accounted;
  admit = admit-Accounted;
  take_back = back-Accounted;
}
