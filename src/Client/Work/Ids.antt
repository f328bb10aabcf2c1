-- ===== src/Client/Work/Ids.antt =====
-- Request ids (`nextRequestId_` of memrpc/src/client/rpc_client.cpp): those in the store, in hand and
-- in the queue rise in this order, so a submission in hand never meets its own id in the store.
use mem.Prelude.{
  ℕ, suc, ◌≤◌, ◌<◌, ◌≡◌, refl, ap, List, [], ◌∷◌, ◌++◌, arith, ◌==◌, Bool-cases, inl, inr, eq→==,
  ne→==,
}
use mem.Client.{PendingRequest}
use mem.Client.Store.{RequestMap, put, erase, take_pending, take_expired, expired}
use mem.Client.Store.Laws.{find-put_self}

-- All ids of the store are below the number.
abbrev pub Below : ℕ → RequestMap → Type 0
Below n [] = Unit
Below n (e ∷ m) = (e.0 < n) × Below n m

-- The ids rise from one number up to another.
abbrev pub Rising : ℕ → List ℕ → ℕ → Type 0
Rising lo [] hi = lo ≤ hi
Rising lo (x ∷ xs) hi = (lo ≤ x) × Rising (suc x) xs hi

pub Below-weaken : (n k : ℕ) (m : RequestMap) → n ≤ k → Below n m → Below k m
Below-weaken n k [] le b = tt
Below-weaken n k (e ∷ m) le b = (omega arith, Below-weaken n k m le b.1)

pub Below-put :
    (n : ℕ) (id : ℕ) (p : PendingRequest) (m : RequestMap)
    → id < n
    → Below n m
    → Below n (put id p m)
unfolding put
Below-put n id p [] lt b = (lt, tt)
Below-put n id p ((id', q) ∷ m) lt b = elim (Bool-cases (id == id')) [
  | inl same ↦ rw same (lt, b.1)
  | inr other ↦ rw other (b.0, Below-put n id p m lt b.1)
]

pub Below-erase : (n : ℕ) (id : ℕ) (m : RequestMap) → Below n m → Below n (erase id m)
unfolding erase
Below-erase n id [] b = tt
Below-erase n id ((id', q) ∷ m) b = elim (Bool-cases (id == id')) [
  | inl same ↦ rw same b.1
  | inr other ↦ rw other (b.0, Below-erase n id m b.1)
]

pub Below-expired : (n : ℕ) (now : ℕ) (m : RequestMap) → Below n m → Below n (take_expired now m).1
unfolding take_expired
Below-expired n now [] b = tt
Below-expired n now ((id, q) ∷ m) b = elim (Bool-cases (expired now q.wait_deadline)) [
  | inl late ↦ rw late (Below-expired n now m b.1)
  | inr waits ↦ rw waits (b.0, Below-expired n now m b.1)
]

-- An id that is not in the store is put and taken back without a trace.
pub erase-put :
    (n : ℕ) (id : ℕ) (p : PendingRequest) (m : RequestMap)
    → n ≤ id
    → Below n m
    → erase id (put id p m) ≡ m
unfolding erase put
erase-put n id p [] le b = rw (eq→== {a = id} {b = id} refl) refl
erase-put n id p ((id', q) ∷ m) le b =
    let other = ne→== {a = id} {b = id'} (λ e. absurd (omega (arith, e))) in
    rw (other, other) (ap (◌∷◌ (id', q)) (erase-put n id p m le b.1))

pub take-put :
    (n : ℕ) (id : ℕ) (p : PendingRequest) (m : RequestMap)
    → n ≤ id
    → Below n m
    → (take_pending id (put id p m)).1 ≡ m
unfolding take_pending
take-put n id p m le b = rw (find-put_self id p m) (erase-put n id p m le b)

pub Rising-le : (lo : ℕ) (xs : List ℕ) (hi : ℕ) → Rising lo xs hi → lo ≤ hi
Rising-le lo [] hi r = r
Rising-le lo (x ∷ xs) hi r = omega (arith, Rising-le (suc x) xs hi r.1)

pub Rising-lower :
    (lo lo' : ℕ) (xs : List ℕ) (hi : ℕ) → lo' ≤ lo → Rising lo xs hi → Rising lo' xs hi
Rising-lower lo lo' [] hi le r = omega arith
Rising-lower lo lo' (x ∷ xs) hi le r = (omega arith, r.1)

pub Rising-raise :
    (lo : ℕ) (xs : List ℕ) (hi hi' : ℕ) → hi ≤ hi' → Rising lo xs hi → Rising lo xs hi'
Rising-raise lo [] hi hi' le r = omega arith
Rising-raise lo (x ∷ xs) hi hi' le r = (r.0, Rising-raise (suc x) xs hi hi' le r.1)

pub Rising-prefix : (lo : ℕ) (xs ys : List ℕ) (hi : ℕ) → Rising lo (xs ++ ys) hi → Rising lo xs hi
Rising-prefix lo [] ys hi r = Rising-le lo ys hi r
Rising-prefix lo (x ∷ xs) ys hi r = (r.0, Rising-prefix (suc x) xs ys hi r.1)

-- The next id goes to the end.
pub Rising-next :
    (lo : ℕ) (xs : List ℕ) (hi : ℕ) → Rising lo xs hi → Rising lo (xs ++ (hi ∷ [])) (suc hi)
Rising-next lo [] hi r = (r, omega arith)
Rising-next lo (x ∷ xs) hi r = (r.0, Rising-next (suc x) xs hi r.1)
