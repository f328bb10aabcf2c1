-- ===== src/Client/Work.antt =====
-- The outstanding work of a client (`RpcClient::Impl`, memrpc/src/client/rpc_client.cpp): what its
-- operations may do to futures and to the requests that own them, as an interface of laws.
pub mod Decisions
pub mod Steps
pub mod Recoveries
pub mod Runs
pub mod Ids
pub mod Owners
pub mod Accounted
pub mod Replies
pub mod Outcome
pub mod Shutdown
pub mod Depth
use mathlib.Core.List.{List, [], ◌∷◌, ◌++◌, map}
use mem.Prelude.{ℕ, ◌≡◌, Option, none, some}
use mem.Client.{PendingSubmit, PendingInfo, PendingRequest, RpcReply}
use mem.Client.Futures.{FutureState, resolve_state}
use mem.Client.Store
use mem.Client.Store.{RequestMap, find_pending, erase, put, take_pending}
use mem.Client.State.{RpcClient}

-- The part of the client that knows of futures.
pub record Work : Type 0 where
  pub store : RequestMap
  pub submit_queue : List PendingSubmit
  pub in_hand : Option (PendingSubmit × PendingInfo)
  pub futures : List FutureState
  pub next_request_id : ℕ

abbrev pub work : RpcClient → Work
work c = record {
  store = c.store;
  submit_queue = c.submit_queue;
  in_hand = c.in_hand;
  futures = c.futures;
  next_request_id = c.next_request_id;
}

abbrev pub futures_of : List PendingRequest → List ℕ
futures_of ps = map (λ (p : PendingRequest). p.future) ps

abbrev pub queued_futures : List PendingSubmit → List ℕ
queued_futures ss = map (λ (s : PendingSubmit). s.future) ss

-- A property of the work and of the futures that an operation holds in its own variables, which stays
-- true where the operation resolves what it holds, and where it takes all waiting requests.
pub record Stable {ℓ} (P : List ℕ → Work → Type ℓ) : Type ℓ where
  pub resolve :
      (xs : List ℕ) (w : Work) (future : ℕ) (r : RpcReply)
      → P (future ∷ xs) w
      → P xs (record w { futures = resolve_state future r w.futures })
  pub take_store :
      (xs : List ℕ) (w : Work)
      → P xs w
      → P
          (futures_of (map (λ (e : ℕ × PendingRequest). e.1) w.store) ++ xs)
          (record w { store = [] })

-- The other moves of a request: from the queue into the submit thread's hand, from there into the
-- store, and out of each of them.
pub record Steady {ℓ} (P : List ℕ → Work → Type ℓ) : Type ℓ where
  pub stable : Stable P
  pub take_expired :
      (xs : List ℕ) (w : Work) (now : ℕ)
      → P xs w
      → P
          (futures_of (Store.take_expired now w.store).0 ++ xs)
          (record w { store = (Store.take_expired now w.store).1 })
  pub take_found :
      (xs : List ℕ) (w : Work) (id : ℕ) (p : PendingRequest)
      → find_pending id w.store ≡ some p
      → P xs w
      → P (p.future ∷ xs) (record w { store = erase id w.store })
  pub take_queue :
      (xs : List ℕ) (w : Work)
      → P xs w
      → P (queued_futures w.submit_queue ++ xs) (record w { submit_queue = [] })
  pub take_front :
      (xs : List ℕ) (w : Work) (s : PendingSubmit) (rest : List PendingSubmit) (info : PendingInfo)
      → w.submit_queue ≡ s ∷ rest
      → w.in_hand ≡ none
      → P xs w
      → P xs (record w { submit_queue = rest; in_hand = some (s, info) })
  pub drop :
      (xs : List ℕ) (w : Work) (s : PendingSubmit) (info : PendingInfo)
      → w.in_hand ≡ some (s, info)
      → P xs w
      → P (s.future ∷ xs) (record w { in_hand = none })
  pub admit :
      (xs : List ℕ) (w : Work) (s : PendingSubmit) (info : PendingInfo) (p : PendingRequest)
      → w.in_hand ≡ some (s, info)
      → p.future ≡ s.future
      → P xs w
      → P xs (record w { store = put s.request_id p w.store; in_hand = none })
  pub take_back :
      (xs : List ℕ) (w : Work) (s : PendingSubmit) (info : PendingInfo) (p : PendingRequest)
      → w.in_hand ≡ some (s, info)
      → P xs w
      → P xs (record w { store = (take_pending s.request_id (put s.request_id p w.store)).1 })
