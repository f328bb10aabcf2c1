-- ===== src/Client/Work/Replies.antt =====
-- A future that is ready keeps its reply (`ResolveState`, memrpc/src/client/rpc_client.cpp).
use mem.Prelude.{
  ℕ, ◌≡◌, refl, ◌∙◌, true, Option, none, some, List, [], ◌∷◌, arith, get_elem?, get_elem?-set_self,
  get_elem?-set_ne, get_elem?_lt, get_elem?-append, inl, inr, ◌==◌, Bool-cases, ==→≢,
}
use mem.Client.{RpcReply}
use mem.Client.Futures.{FutureState, new_future, resolve_state, resolve_at, resolved}
use mem.Client.Work.{Work, Steady}
use mem.Client.Work.Runs.{Invited}

-- What is ready in the first list stands in the second as it is.
abbrev pub Kept : List FutureState → List FutureState → Type 0
Kept before after =
    (i : ℕ) (s : FutureState)
    → get_elem? before i ≡ some s
    → s.ready ≡ true
    → get_elem? after i ≡ some s

ready-kept :
    (fs : List FutureState) (future : ℕ) (r : RpcReply) (found : Option FutureState) (i : ℕ)
    (s : FutureState)
    → get_elem? fs future ≡ found
    → get_elem? fs i ≡ some s
    → s.ready ≡ true
    → get_elem? (resolve_at fs future r found) i ≡ some s
ready-kept fs future r none i s e at ready = at
ready-kept fs future r (some s') i s e at ready = elim (Bool-cases (future == i)) [
  | inl same ↦ ground (
    arith,
    same,
    e,
    at,
    ready,
    get_elem?-set_self fs future (resolved r s') (get_elem?_lt fs future e),
  )
  | inr other ↦ get_elem?-set_ne fs (resolved r s') (==→≢ future i other) ∙ at
]

pub Kept-resolve :
    (fs gs : List FutureState) (future : ℕ) (r : RpcReply)
    → Kept fs gs
    → Kept fs (resolve_state future r gs)
unfolding resolve_state
Kept-resolve fs gs future r kept i s at ready =
    ready-kept gs future r _ i s refl (kept i s at ready) ready

module _ (before : List FutureState) where
  abbrev pub Keeping : List ℕ → Work → Type 0
  Keeping xs w = Kept before w.futures

  pub Kept-Steady : Steady Keeping
  Kept-Steady = record {
    stable = record {
      resolve = λ xs w future r p. Kept-resolve before w.futures future r p;
      take_store = λ xs w p. p;
    };
    take_expired = λ xs w now p. p;
    take_found = λ xs w id q e p. p;
    take_queue = λ xs w p. p;
    take_front = λ xs w s rest info queue free p. p;
    drop = λ xs w s info e p. p;
    admit = λ xs w s info q e same p. p;
    take_back = λ xs w s info q e p. p;
  }

  pub Kept-Invited : (w : Work) → Invited Keeping w
  Kept-Invited w = record {
    queued = λ call p i s at ready. get_elem?-append w.futures (new_future ∷ []) i (p i s at ready);
    rejected = λ p i s at ready. get_elem?-append w.futures (new_future ∷ []) i (p i s at ready);
  }
