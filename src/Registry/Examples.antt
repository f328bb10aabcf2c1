-- ===== src/Registry/Examples.antt =====
-- The registry over sockets that carry all bytes at once, and instances of its theorems.
use mem.Prelude.{
  ℕ, zero, suc, ◌≤◌, ◌≡◌, ◌≢◌, refl, sym, ap, ◌∙◌, Bool, true, false, Option, none, some, List, [],
  ◌∷◌, ◌++◌, length, take, drop, arith, length-take,
}
use mem.Registry.{
  RegistryOp, register_op, get_op, load_op, unload_op, RegistryRequest, RegistryResponse, minus_one,
}
use mem.Registry.Messages.{Link, send_message, recv_message}
use mem.Registry.Frames.{IsStream}
use mem.Registry.Services.{Services, erase, find, assign}
use mem.Registry.Server.{
  Env, handle_client, process_request, handle_load_request, is_reachable_service_socket,
}
use mem.Registry.Client.{
  send_request, get_service_path, register_service_path, registry_request_failed,
}
use mem.Registry.Calls.{send_request-answered}
use mem.Registry.Directory.{process_requests, latest_path, process_requests_refine}
use mem.Registry.Loading.{stale_path_removed}
use mem.Registry.Loads.{Loads, handle_load_request-Loads}
use mem.Registry.Found.{registered_path_found}

abbrev given : ℕ → List ℕ → Option (List ℕ) × List ℕ
given count [] = (none, [])
given count (x ∷ bytes) = (some (take count (x ∷ bytes)), drop count (x ∷ bytes))

abbrev pipe : Link (List ℕ)
pipe = record {
  send = λ bytes s. (some (length bytes), s ++ bytes);
  recv = λ all count s. given count s;
}

take-length : (xs : List ℕ) → take (length xs) xs ≡ xs
take-length [] = refl
take-length (x ∷ xs) = ap (◌∷◌ x) (take-length xs)

take-drop : (n : ℕ) (xs : List ℕ) → take n xs ++ drop n xs ≡ xs
take-drop zero xs = refl
take-drop (suc n) [] = refl
take-drop (suc n) (x ∷ xs) = ap (◌∷◌ x) (take-drop n xs)

none-ne-some : {A : Type 0} {a : A} → none ≢ some a
none-ne-some = cc

some-inj : {A : Type 0} {a b : A} → some a ≡ some b → a ≡ b
some-inj = cc

given_lem :
    (count : ℕ) (bytes s : List ℕ)
    → (given count s).0 ≡ some bytes
    → (length bytes ≤ count) × (s ≡ bytes ++ (given count s).1)
given_lem count bytes [] e = absurd (none-ne-some e)
given_lem count bytes (x ∷ s) e =
    let shown = some-inj e in
    let long = ap length shown in
    (
      omega (arith, length-take count (x ∷ s), long),
      sym (take-drop count (x ∷ s)) ∙ ap (λ (l : List ℕ). l ++ drop count (x ∷ s)) shown,
    )

pipe-IsStream : IsStream pipe (λ s. s)
pipe-IsStream = record {
  sends = λ bytes n s e.
      let same = some-inj e in
      (
        omega (arith, same),
        ap (λ (l : List ℕ). s ++ l) (sym (take-length bytes) ∙ ap (λ (k : ℕ). take k bytes) same),
      );
  refuses = λ bytes s e. absurd (none-ne-some (sym e));
  receives = λ all count bytes s e. given_lem count bytes s e;
}

-- No socket is reachable, and the callbacks do nothing.
abbrev env : Env
env = record {
  connect = λ path services. (false, services);
  load_cb = none;
  unload_cb = some (λ sa_id services. services);
}

abbrev path : List ℕ
path = b'/' ∷ b's' ∷ []

abbrev services : Services
services = (7, path) ∷ []

abbrev load_seven : RegistryRequest
load_seven = record { op = load_op; sa_id = 7; payload = [] }

abbrev requests : List RegistryRequest
requests =
    record { op = register_op; sa_id = 8; payload = path }
    ∷ (record { op = unload_op; sa_id = 7; payload = [] } ∷ [])

abbrev added : Services
added = (7, path) ∷ ((8, path) ∷ [])

get_over_pipe :
    send_request pipe (some ([], [])) (handle_client pipe env) get_op 7 [] services
    ≡ (path, services)
unfolding send_request mem.Registry.Client.send_registry_request_message
    mem.Registry.encode_registry_request send_message recv_message handle_client
    mem.Registry.Server.decode_client_request mem.Registry.decode_registry_request
    mem.Registry.Server.send_client_response process_request mem.Registry.encode_registry_response
    mem.Registry.Server.populate_service_response mem.Registry.Server.try_get_service_path find
    mem.Registry.Client.decode_registry_response_payload mem.Registry.decode_registry_response
get_over_pipe = refl

register_over_pipe :
    register_service_path pipe (some ([], [])) (handle_client pipe env) 8 path services
    ≡ (true, added)
unfolding send_request mem.Registry.Client.send_registry_request_message
    mem.Registry.encode_registry_request send_message recv_message handle_client
    mem.Registry.Server.decode_client_request mem.Registry.decode_registry_request
    mem.Registry.Server.send_client_response process_request mem.Registry.encode_registry_response
    mem.Registry.Server.populate_service_response mem.Registry.Server.try_get_service_path find
    mem.Registry.Client.decode_registry_response_payload mem.Registry.decode_registry_response
    register_service_path assign
register_over_pipe = refl

asked_over_pipe :
    get_service_path pipe (some ([], [])) (handle_client pipe env) 8 added ≡ (path, added)
unfolding send_request mem.Registry.Client.send_registry_request_message
    mem.Registry.encode_registry_request send_message recv_message handle_client
    mem.Registry.Server.decode_client_request mem.Registry.decode_registry_request
    mem.Registry.Server.send_client_response process_request mem.Registry.encode_registry_response
    mem.Registry.Server.populate_service_response mem.Registry.Server.try_get_service_path find
    mem.Registry.Client.decode_registry_response_payload mem.Registry.decode_registry_response
    get_service_path
asked_over_pipe = refl

cons-ne-nil : {x : ℕ} {xs : List ℕ} → x ∷ xs ≢ []
cons-ne-nil = cc

path-failed : path ≢ registry_request_failed
path-failed = cc

send_request-answered_example :
    ((process_request env (record { op = get_op; sa_id = 7; payload = [] }) services).0.err_code
      ≡ 0)
    × ((send_request pipe (some ([], [])) (handle_client pipe env) get_op 7 [] services).0
        ≡ (process_request env
            (record { op = get_op; sa_id = 7; payload = [] })
            services).0.payload)
    × ((send_request pipe (some ([], [])) (handle_client pipe env) get_op 7 [] services).1
        ≡ (process_request env (record { op = get_op; sa_id = 7; payload = [] }) services).1)
send_request-answered_example =
    send_request-answered pipe (λ s. s) env get_op 7 [] services [] [] pipe-IsStream
      (record { op = refl; sa_id = omega arith; payload = omega arith }) refl refl
      (λ e. path-failed (sym (ap (λ (r : List ℕ × Services). r.0) get_over_pipe) ∙ e))

registered_path_found_example :
    (get_service_path pipe (some ([], [])) (handle_client pipe env) 8 added).0 ≡ path
registered_path_found_example =
    registered_path_found pipe (λ s. s) env 8 path services added [] [] [] [] pipe-IsStream
      (omega arith) (omega arith) refl refl refl refl
      (ap (λ (r : Bool × Services). r.0) register_over_pipe)
      (sym (ap (λ (r : Bool × Services). find 8 r.1) register_over_pipe))
      (λ e. cons-ne-nil (sym (ap (λ (r : List ℕ × Services). r.0) asked_over_pipe) ∙ e))

quiet : (sa_id other : ℕ) (s : Services) → find other s ≡ find other s
quiet sa_id other s = refl

register-ne-load : register_op ≢ load_op
register-ne-load = cc

unload-ne-load : unload_op ≢ load_op
unload-ne-load = cc

process_requests_refine_example :
    find 7 (process_requests env requests services) ≡ latest_path 7 requests (find 7 services)
process_requests_refine_example =
    process_requests_refine env requests 7 services quiet (register-ne-load, (unload-ne-load, tt))

-- A callback that starts the service on another path.
abbrev loader : Env
loader = record env { load_cb = some (λ sa_id services. (true, (sa_id, 1 ∷ []) ∷ services)) }

loaded_anew :
    handle_load_request loader load_seven services
    ≡ (record { err_code = 0; payload = 1 ∷ [] }, (7, 1 ∷ []) ∷ [])
unfolding handle_load_request mem.Registry.Server.try_get_service_path is_reachable_service_socket
    mem.Registry.Server.remove_stale_service mem.Registry.Server.try_load_service
    mem.Registry.Server.populate_service_response find erase
loaded_anew = refl

handle_load_request-Loads_example :
    Loads loader 7 services (handle_load_request loader load_seven services)
handle_load_request-Loads_example = handle_load_request-Loads loader load_seven services

found_seven : find 7 services ≡ some path
unfolding find
found_seven = refl

unreachable : is_reachable_service_socket env path services ≡ (false, services)
unfolding is_reachable_service_socket
unreachable = refl

stale_path_removed_example :
    ((handle_load_request env load_seven services).0.err_code ≡ minus_one)
    × (find 7 (handle_load_request env load_seven services).1 ≢ some path)
stale_path_removed_example =
    stale_path_removed env load_seven path services services refl found_seven unreachable
