-- ===== src/Registry/Server.antt =====
-- `class RegistryServer` of virus_executor_service/src/transport/registry_server.cpp.
use mem.Prelude.{
  same_list, ℕ, Bool, true, false, not, Option, none, some, List, [], ◌∷◌, if◌then◌else◌, length,
  is_empty,
}
use mem.Registry.{
  RegistryOp, register_op, get_op, load_op, unload_op, unnamed_op, RegistryRequest,
  RegistryResponse, minus_one, decode_registry_request, encode_registry_response,
}
use mem.Registry.Messages.{Link, send_message, recv_message}
use mem.Registry.Services.{Services, assign, find, erase}

-- What is outside the class. Where the lock is not held, other threads may register and unregister
-- services, so an answer comes with the services as they are then. `connect` answers whether a socket
-- is made and connected to the path, and the callbacks may be missing.
pub record Env : Type 0 where
  pub connect : List ℕ → Services → Bool × Services
  pub load_cb : Option (ℕ → Services → Bool × Services)
  pub unload_cb : Option (ℕ → Services → Services)

abbrev pub empty_response : RegistryResponse
empty_response = record { err_code = 0; payload = [] }

abbrev pub failed_response : RegistryResponse
failed_response = record { err_code = minus_one; payload = [] }

unfoldable pub register_service : ℕ → List ℕ → Services → Services
register_service sa_id path services = assign sa_id path services

unfoldable pub unregister_service : ℕ → Services → Services
unregister_service sa_id services = erase sa_id services

unfoldable pub try_get_service_path : ℕ → Services → Option (List ℕ)
try_get_service_path sa_id services = find sa_id services

abbrev pub remove_found : ℕ → List ℕ → Option (List ℕ) → Services → Bool × Services
remove_found sa_id path none services = (false, services)
remove_found sa_id path (some found) services =
    if not (same_list found path) then (false, services) else (true, erase sa_id services)

unfoldable pub remove_stale_service : ℕ → List ℕ → Services → Bool × Services
remove_stale_service sa_id path services = remove_found sa_id path (find sa_id services) services

unfoldable pub populate_service_response :
    Option (List ℕ) → RegistryResponse → Bool × RegistryResponse
populate_service_response none resp = (false, resp)
populate_service_response (some path) resp = (true, record { err_code = 0; payload = path })

module _ (env : Env) where
  -- `IsReachableServiceSocket`
  unfoldable pub is_reachable_service_socket : List ℕ → Services → Bool × Services
  is_reachable_service_socket path services =
      if is_empty path then (false, services) else env.connect path services

  unfoldable pub try_load_service : ℕ → Services → Bool × Services
  try_load_service sa_id services = elim env.load_cb [
    | none ↦ (false, services)
    | some load ↦ load sa_id services
  ]

  -- What is left of a path that was found: `found`, after the check of its socket.
  abbrev pub check_found : ℕ → Option (List ℕ) → Services → Bool × Services
  check_found sa_id none services = (false, services)
  check_found sa_id (some path) services =
      let (reachable, services') = is_reachable_service_socket path services in
      if reachable
      then (true, services')
      else (false, (remove_stale_service sa_id path services').1)

  abbrev pub load_missing : ℕ → Bool × Services → Bool × Services
  load_missing sa_id (true, services) = (true, services)
  load_missing sa_id (false, services) = try_load_service sa_id services

  abbrev pub populate_loaded : Bool × RegistryResponse → RegistryResponse
  populate_loaded (true, resp) = resp
  populate_loaded (false, resp) = record resp { err_code = minus_one }

  abbrev pub answer_load : ℕ → Bool × Services → RegistryResponse × Services
  answer_load sa_id (false, services) = (failed_response, services)
  answer_load sa_id (true, services) = (
    populate_loaded
        (populate_service_response (try_get_service_path sa_id services) empty_response),
    services,
  )

  unfoldable pub handle_load_request : RegistryRequest → Services → RegistryResponse × Services
  handle_load_request req services = answer_load req.sa_id (
      load_missing req.sa_id
        (check_found req.sa_id (try_get_service_path req.sa_id services) services))

  abbrev pub unloaded : ℕ → Option (ℕ → Services → Services) → Services → Services
  unloaded sa_id none services = services
  unloaded sa_id (some unload) services = unload sa_id services

  -- The switch; an op without a name passes it.
  abbrev pub process_op : RegistryOp → RegistryRequest → Services → RegistryResponse × Services
  process_op register_op req services = (empty_response, assign req.sa_id req.payload services)
  process_op get_op req services =
      let (populated, resp) =
        populate_service_response (try_get_service_path req.sa_id services) empty_response in
      (record resp { err_code = if populated then 0 else minus_one }, services)
  process_op load_op req services = handle_load_request req services
  process_op unload_op req services =
      (empty_response, unloaded req.sa_id env.unload_cb (erase req.sa_id services))
  process_op (unnamed_op code) req services = (empty_response, services)

  unfoldable pub process_request : RegistryRequest → Services → RegistryResponse × Services
  process_request req services = process_op req.op req services

abbrev pub decode_received : Option (List ℕ) → Option RegistryRequest
decode_received none = none
decode_received (some msg) = decode_registry_request (some msg) (length msg) true

module _ {S : Type 0} (link : Link S) where
  -- `DecodeClientRequest`
  unfoldable pub decode_client_request : S → Option RegistryRequest × S
  decode_client_request up =
      let (msg, up') = recv_message link true up in (decode_received msg, up')

  abbrev pub send_encoded : Option (List ℕ) → S → S
  send_encoded none down = down
  send_encoded (some msg) down = (send_message link msg down).1

  -- `SendClientResponse`
  unfoldable pub send_client_response : RegistryResponse → S → S
  send_client_response resp down = send_encoded (encode_registry_response true resp) down

  abbrev pub respond : Env → Option RegistryRequest → S → Services → S × Services
  respond env none down services = (down, services)
  respond env (some req) down services =
      let (resp, services') = process_request env req services in
      (send_client_response resp down, services')

  -- `HandleClient` on the two directions of a connection: what is left in them, and the services.
  unfoldable pub handle_client : Env → S × S → Services → (S × S) × Services
  handle_client env (up, down) services =
      let (req, up') = decode_client_request up in
      let (down', services') = respond env req down services in ((up', down'), services')

  -- What `accept` answers in a round of `AcceptLoop`, and what `running_` says when the round begins and
  -- when `accept` fails.
  pub record Accept : Type 0 where
    pub running : Bool
    pub connection : Option (S × S)
    pub still_running : Bool

  abbrev pub accepted : Env → (Services → Services) → Accept → Services → Services
  accepted env next a services = elim a.connection [
    | none ↦ if a.still_running then next services else services
    | some c ↦ next (handle_client env c services).1
  ]

  unfoldable pub accept_loop : Env → List Accept → Services → Services
  accept_loop env [] services = services
  accept_loop env (a ∷ more) services =
      let round = accepted env (accept_loop env more) a services in
      if a.running then round else services

-- The threads and the socket of the server. `listening` says whether `listen_fd_` is a descriptor.
pub record Listener : Type 0 where
  pub listening : Bool
  pub running : Bool
  pub accepting : Bool

abbrev pub new_listener : Listener
new_listener = record { listening = false; running = false; accepting = false }

-- `Start`, with what `socket`, `bind` and `listen` answer.
unfoldable pub start : Bool → Bool → Bool → Listener → Bool × Listener
start socket_made bound listens l =
    if not socket_made
    then (false, record l { listening = false })
    else if not bound
    then (false, record l { listening = false })
    else if not listens
    then (false, record l { listening = false })
    else (true, record { listening = true; running = true; accepting = true })

unfoldable pub stop : Listener → Listener
stop l = record { listening = false; running = false; accepting = false }
