-- ===== src/Registry/Client.antt =====
-- `class RegistryClient` of virus_executor_service/src/transport/registry_client.cpp and the backend
-- that stands on it, registry_backend.cpp.
use mem.Prelude.{
  same_list, ℕ, Bool, true, false, not, Option, none, some, List, [], ◌∷◌, if◌then◌else◌, ◌==◌,
  length,
}
use mem.Registry.{
  RegistryOp, register_op, get_op, load_op, unload_op, RegistryResponse, encode_registry_request,
  decode_registry_response,
}
use mem.Registry.Messages.{Link, send_message, recv_message}

-- `REGISTRY_REQUEST_FAILED`
abbrev pub registry_request_failed : List ℕ
registry_request_failed = 1 ∷ []

-- `DecodeRegistryResponsePayload`
abbrev pub successful : Option RegistryResponse → Option (List ℕ)
successful none = none
successful (some resp) = if not (resp.err_code == 0) then none else some resp.payload

unfoldable pub decode_registry_response_payload : List ℕ → Option (List ℕ)
decode_registry_response_payload msg =
    successful (decode_registry_response (some msg) (length msg) true)

abbrev pub or_failed : Option (List ℕ) → List ℕ
or_failed none = registry_request_failed
or_failed (some payload) = payload

abbrev pub empty_if_failed : List ℕ → List ℕ
empty_if_failed r = if same_list r registry_request_failed then [] else r

abbrev pub decode_reply : Option (List ℕ) → List ℕ
decode_reply none = registry_request_failed
decode_reply (some msg) = or_failed (decode_registry_response_payload msg)

module _ {S : Type 0} (link : Link S) where
  abbrev pub send_encoded_request : Option (List ℕ) → S → Bool × S
  send_encoded_request none up = (false, up)
  send_encoded_request (some msg) up = send_message link msg up

  -- `SendRegistryRequestMessage`
  unfoldable pub send_registry_request_message : RegistryOp → ℕ → List ℕ → S → Bool × S
  send_registry_request_message op sa_id payload up =
      send_encoded_request
        (encode_registry_request true (record { op = op; sa_id = sa_id; payload = payload })) up

module _ {S P : Type 0} (link : Link S) where
  -- The rest of `SendRequest` on a connection. `peer` is what the other side does with it until the
  -- client has its answer, on a state of its own.
  abbrev pub exchange : (S × S → P → (S × S) × P) → Bool × S → S → P → List ℕ × P
  exchange peer (false, up) down p = (registry_request_failed, (peer (up, down) p).1)
  exchange peer (true, up) down p =
      let ((up', down'), p') = peer (up, down) p in
      (decode_reply (recv_message link true down').0, p')

  -- `SendRequest`: `connected` is the connection, or `none` where there is no socket or it does not connect.
  unfoldable pub send_request :
      Option (S × S) → (S × S → P → (S × S) × P) → RegistryOp → ℕ → List ℕ → P → List ℕ × P
  send_request none peer op sa_id payload p = (registry_request_failed, p)
  send_request (some (up, down)) peer op sa_id payload p =
      exchange peer (send_registry_request_message link op sa_id payload up) down p

  module _ (connected : Option (S × S)) (peer : S × S → P → (S × S) × P) where
    unfoldable pub get_service_path : ℕ → P → List ℕ × P
    get_service_path sa_id p =
        let (r, p') = send_request connected peer get_op sa_id [] p in (empty_if_failed r, p')

    unfoldable pub load_service_path : ℕ → P → List ℕ × P
    load_service_path sa_id p =
        let (r, p') = send_request connected peer load_op sa_id [] p in (empty_if_failed r, p')

    unfoldable pub unload_service : ℕ → P → Bool × P
    unload_service sa_id p =
        let (r, p') = send_request connected peer unload_op sa_id [] p in
        (not (same_list r registry_request_failed), p')

    unfoldable pub register_service_path : ℕ → List ℕ → P → Bool × P
    register_service_path sa_id path p =
        let (r, p') = send_request connected peer register_op sa_id path p in
        (not (same_list r registry_request_failed), p')
