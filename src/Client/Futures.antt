-- ===== src/Client/Futures.antt =====
-- `RpcFuture` and `ResolveState` of memrpc/src/client/rpc_client.cpp. The shared states are a list,
-- and a future is an index into it.
use mem.Prelude.{ℕ, Bool, true, false, Option, none, some, List, get_elem?, set}
use mem.Types.{StatusCode, ok, peer_disconnected}
use mem.Client.{RpcReply, status_reply}

-- `struct RpcFuture::State`
pub record FutureState : Type 0 where
  pub ready : Bool
  pub reply : RpcReply

abbrev pub new_future : FutureState
new_future = record { ready = false; reply = status_reply ok }

-- `RpcFuture::IsReady`, of a future that may have no state.
unfoldable pub is_ready : Option FutureState → Bool
is_ready none = false
is_ready (some s) = s.ready

-- What `RpcFuture::Wait` returns and writes once the state is ready; `none` while it blocks.
unfoldable pub wait : Option FutureState → Option (StatusCode × RpcReply)
wait none = some (peer_disconnected, status_reply peer_disconnected)
wait (some s) = elim s.ready [ true ↦ some (s.reply.status, s.reply) | false ↦ none ]

abbrev pub resolved : RpcReply → FutureState → FutureState
resolved reply s = elim s.ready [ true ↦ s | false ↦ record { ready = true; reply = reply } ]

abbrev pub resolve_at : List FutureState → ℕ → RpcReply → Option FutureState → List FutureState
resolve_at fs future reply none = fs
resolve_at fs future reply (some s) = set fs future (resolved reply s)

-- `ResolveState`: a null state and one that is ready stay as they are.
unfoldable pub resolve_state : ℕ → RpcReply → List FutureState → List FutureState
resolve_state future reply fs = resolve_at fs future reply (get_elem? fs future)
