-- ===== src/Client/Store.antt =====
-- `ClientRequestStore` of memrpc/src/client/rpc_client.cpp: the admitted requests by their id. The
-- order of the hash map is not specified, and is the order of the list here.
pub mod Laws
use mem.Prelude.{
  ℕ, Bool, true, false, Option, none, some, List, [], ◌∷◌, map, if◌then◌else◌, ◌==◌, leb, length,
  is_empty, to_u32,
}
use mem.Client.{PendingRequest}

abbrev pub RequestMap : Type 0
RequestMap = List (ℕ × PendingRequest)

-- `pending_[requestId] = pending`
unfoldable pub put : ℕ → PendingRequest → RequestMap → RequestMap
put id p [] = (id, p) ∷ []
put id p ((id', q) ∷ m) =
    let rest = put id p m in if id == id' then (id, p) ∷ m else (id', q) ∷ rest

unfoldable pub find_pending : ℕ → RequestMap → Option PendingRequest
find_pending id [] = none
find_pending id ((id', q) ∷ m) = let rest = find_pending id m in if id == id' then some q else rest

-- `erase` of the one element with the id.
unfoldable pub erase : ℕ → RequestMap → RequestMap
erase id [] = []
erase id ((id', q) ∷ m) = let rest = erase id m in if id == id' then m else (id', q) ∷ rest

abbrev pub take_found : ℕ → Option PendingRequest → RequestMap → Option PendingRequest × RequestMap
take_found id none m = (none, m)
take_found id (some p) m = (some p, erase id m)

-- `Take`
unfoldable pub take_pending : ℕ → RequestMap → Option PendingRequest × RequestMap
take_pending id m = take_found id (find_pending id m) m

unfoldable pub take_all : RequestMap → List PendingRequest × RequestMap
take_all m = (map (λ (e : ℕ × PendingRequest). e.1) m, [])

-- The test of `TakeExpired`.
abbrev pub expired : ℕ → Option ℕ → Bool
expired now none = false
expired now (some deadline) = leb deadline now

unfoldable pub take_expired : ℕ → RequestMap → List PendingRequest × RequestMap
take_expired now [] = ([], [])
take_expired now ((id, p) ∷ m) =
    let (out, rest) = take_expired now m in
    if expired now p.wait_deadline then (p ∷ out, rest) else (out, (id, p) ∷ rest)

-- `Empty`
unfoldable pub has_none : RequestMap → Bool
has_none m = is_empty m

unfoldable pub size : RequestMap → ℕ
size m = to_u32 (length m)
