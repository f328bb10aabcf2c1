-- ===== src/Client/Store/Laws.antt =====
-- What the request store promises (`ClientRequestStore`, memrpc/src/client/rpc_client.cpp).
use mem.Prelude.{ℕ, ◌≡◌, some, [], ◌∷◌, arith}
use mem.Client.{PendingRequest}
use mem.Client.Store.{RequestMap, put, find_pending}

pub find-put_self :
    (id : ℕ) (p : PendingRequest) (m : RequestMap) → find_pending id (put id p m) ≡ some p
unfolding find_pending put
find-put_self id p [] = ground arith
find-put_self id p ((id', q) ∷ m) = ground (arith, find-put_self id p m)
