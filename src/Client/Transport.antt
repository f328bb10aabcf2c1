-- ===== src/Client/Transport.antt =====
-- `ClientSessionTransport` of memrpc/src/client/rpc_client.cpp: the bootstrap channel, the session
-- that it opens, and the snapshot of the session's id.
use mem.Prelude.{[], ℕ, suc, Bool, true, false, not, ◌||◌, some, if◌then◌else◌, ◌==◌}
use mem.Types.{StatusCode, ok, invalid_argument, BootstrapHandles}
use mem.Layout.{Abi}
use mem.Session.{no_memory, empty_session, World, SharedMemory, Kernel, client, reset, valid}
use mem.Session.Attach.{attach}
use mem.Session.Queues.{alive, set_state}

-- What the bootstrap channel answers to one `OpenSession`: its status, the handles, the memory object
-- behind them, and what the operating system answers while the client attaches.
pub record OpenAnswer : Type 0 where
  pub status : StatusCode
  pub handles : BootstrapHandles
  pub memory : SharedMemory
  pub kernel : Kernel

-- What lies outside the client during one operation: the monotonic clock in milliseconds, read once,
-- the answer to each `OpenSession` by its number, and what the system answers where a session is closed.
pub record Env : Type 0 where
  pub abi : Abi
  pub now : ℕ
  pub open_answer : ℕ → OpenAnswer
  pub kernel : Kernel

-- `opens` and `closes` count the calls of the channel's `OpenSession` and `CloseSession`, and
-- `has_death_callback` says that the channel's death callback and its lease are set.
pub record ClientSessionTransport : Type 0 where
  pub has_bootstrap : Bool
  pub has_death_callback : Bool
  pub world : World
  pub snapshot : ℕ
  pub opens : ℕ
  pub closes : ℕ

-- `InstallDeathCallbackLocked`, with a callback that may be empty.
unfoldable pub install_death_callback : Bool → ClientSessionTransport → ClientSessionTransport
install_death_callback given t =
    if not t.has_bootstrap || not given
    then record t { has_death_callback = false }
    else record t { has_death_callback = true }

-- The transport of a new client, with no session. Only a session in it has a memory object, so which
-- one stands here is never seen.
abbrev pub new_transport : Bool → ClientSessionTransport
new_transport given = install_death_callback true (record {
  has_bootstrap = given;
  has_death_callback = false;
  world = record { session = empty_session; memory = no_memory; mappings = 0; closed = [] };
  snapshot = 0;
  opens = 0;
  closes = 0;
})

unfoldable pub clear_death_callback : ClientSessionTransport → ClientSessionTransport
clear_death_callback t = record t { has_death_callback = false }

unfoldable pub has_live_session : ClientSessionTransport → Bool
has_live_session t = not (t.snapshot == 0)

-- The end of `OpenSession`, by the status of `Attach`.
abbrev publish :
    ℕ → StatusCode × World → ClientSessionTransport → StatusCode × ClientSessionTransport
publish session_id (ok, w) t = (ok, record t { world = set_state alive w; snapshot = session_id })
publish session_id (status, w) t = (status, record t { world = w })

abbrev attach_opened :
    Env → OpenAnswer → StatusCode → ClientSessionTransport → StatusCode × ClientSessionTransport
attach_opened env a ok t =
    publish a.handles.session_id (attach env.abi a.kernel (some a.handles) client a.memory t.world)
      t
attach_opened env a status t = (status, t)

-- `OpenSession`
unfoldable pub open_session : Env → ClientSessionTransport → StatusCode × ClientSessionTransport
open_session env t =
    if not t.has_bootstrap
    then (invalid_argument, t)
    else let answer = env.open_answer t.opens in
      attach_opened env answer answer.status (record t { opens = suc t.opens })

-- The call of the channel's `CloseSession`, whose status is only logged.
abbrev close_bootstrap : ClientSessionTransport → ClientSessionTransport
close_bootstrap t = if t.has_bootstrap then record t { closes = suc t.closes } else t

-- `CloseLiveSession`
unfoldable pub close_live_session : Env → ClientSessionTransport → ClientSessionTransport
close_live_session env t =
    close_bootstrap (record t { world = reset env.kernel t.world; snapshot = 0 })

-- `CloseLiveSessionIfSnapshotMatches`
unfoldable pub close_if_matches : Env → ℕ → ClientSessionTransport → ClientSessionTransport
close_if_matches env expected t =
    if not (t.snapshot == expected)
    then t
    else if t.snapshot == 0 || not (valid t.world.session)
    then t
    else close_bootstrap (record t { world = reset env.kernel t.world; snapshot = 0 })
