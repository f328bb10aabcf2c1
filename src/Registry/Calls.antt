-- ===== src/Registry/Calls.antt =====
-- A call of the registry's client (virus_executor_service/src/transport/registry_client.cpp) that the
-- registry's server (registry_server.cpp) answers.
use mathlib.Core.Path.{subst}
use mem.Prelude.{
  ℕ, ◌≤◌, ◌<◌, ◌^◌, ◌≡◌, ◌≢◌, refl, sym, Bool, true, false, Option, none, some, List, [], ◌==◌, ltb,
  length, arith, if-kept, Bool-cases, ==→≡, inl, inr,
}
use mem.Registry.{
  RegistryOp, RegistryRequest, RegistryResponse, minus_one, register_op, get_op, load_op, unload_op,
  unnamed_op, encode_registry_response, decode_registry_request,
}
use mem.Registry.Protocol.{
  IsRequest, request_bytes, response_bytes, encode-request_bytes, encode-response_bytes,
  decode-request_bytes, decode-response_bytes,
}
use mem.Registry.Messages.{Link, recv_message}
use mem.Registry.Frames.{IsStream}
use mem.Registry.Arrivals.{send_recv, recv-silent}
use mem.Registry.Services.{Services}
use mem.Registry.Server.{
  populate_loaded, try_get_service_path, populate_service_response, Env, empty_response, process_op,
  process_request, handle_load_request, answer_load, handle_client, respond, decode_received,
  decode_client_request, send_client_response,
}
use mem.Registry.Client.{
  registry_request_failed, successful, decode_registry_response_payload, or_failed,
  send_registry_request_message, decode_reply, exchange, send_request,
}

not_above : (limit n : ℕ) → ltb limit n ≡ false → n ≤ limit
not_above limit n h = ground arith

encode-none :
    (resp : RegistryResponse)
    → ltb 65535 (length resp.payload) ≡ true
    → encode_registry_response true resp ≡ none
unfolding encode_registry_response
encode-none resp long = rw long refl

IsWord : RegistryResponse × Services → Type 0
IsWord r = r.0.err_code < 2 ^ 32

module _ (env : Env) where
  loaded_word :
      (o : Option (List ℕ))
      → (populate_loaded env (populate_service_response o empty_response)).err_code < 2 ^ 32
  unfolding populate_service_response
  loaded_word none = omega arith
  loaded_word (some path) = omega arith

  answer_load-IsWord : (sa_id : ℕ) (r : Bool × Services) → IsWord (answer_load env sa_id r)
  unfolding IsWord populate_service_response try_get_service_path
  answer_load-IsWord sa_id (false, services) = omega arith
  answer_load-IsWord sa_id (true, services) = loaded_word (try_get_service_path sa_id services)

  process_op-IsWord :
      (op : RegistryOp) (req : RegistryRequest) (services : Services)
      → IsWord (process_op env op req services)
  unfolding IsWord handle_load_request
  process_op-IsWord register_op req services = omega arith
  process_op-IsWord get_op req services =
      if-kept (populate_service_response (try_get_service_path req.sa_id services) empty_response).0
        (λ (k : ℕ). k < 2 ^ 32) {x = 0} {y = minus_one} (omega arith) (omega arith)
  process_op-IsWord load_op req services = answer_load-IsWord req.sa_id _
  process_op-IsWord unload_op req services = omega arith
  process_op-IsWord (unnamed_op code) req services = omega arith

module _ {S : Type 0} (link : Link S) (queued : S → List ℕ) (law : IsStream link queued) where
  -- What the client makes of a response: its payload, and only where there is no error.
  Answers : RegistryResponse → List ℕ → Type 0
  Answers resp r = r ≢ registry_request_failed → (resp.err_code ≡ 0) × (r ≡ resp.payload)

  successful-Answers : (resp : RegistryResponse) → Answers resp (or_failed (successful (some resp)))
  unfolding Answers
  successful-Answers resp answered = elim (Bool-cases (resp.err_code == 0)) [
    | inl fine ↦ (==→≡ resp.err_code 0 fine, rw fine refl)
    | inr bad ↦ absurd (answered (rw bad refl))
  ]

  received-Answers :
      (resp : RegistryResponse) (o : Option (List ℕ))
      → resp.err_code < 2 ^ 32
      → length resp.payload ≤ 65535
      → ((m : List ℕ) → o ≡ some m → m ≡ response_bytes resp)
      → Answers resp (decode_reply o)
  unfolding Answers decode_registry_response_payload
  received-Answers resp none word small same = λ answered. absurd (answered refl)
  received-Answers resp (some m) word small same =
      subst (λ (x : List ℕ). Answers resp (decode_reply (some x))) (sym (same m refl))
        (subst (λ (o : Option RegistryResponse). Answers resp (or_failed (successful o)))
          (sym (decode-response_bytes resp word small)) (successful-Answers resp))

  reply-Answers :
      (resp : RegistryResponse) (down : S)
      → resp.err_code < 2 ^ 32
      → queued down ≡ []
      → Answers resp (decode_reply (recv_message link true (send_client_response link resp down)).0)
  unfolding Answers send_client_response
  reply-Answers resp down word empty = elim (Bool-cases (ltb 65535 (length resp.payload))) [
    | inl long ↦
        rw (encode-none resp long, recv-silent link queued law down empty)
          (λ answered. absurd (answered refl))
    | inr fits ↦
        let small : length resp.payload ≤ 65535 = not_above 65535 (length resp.payload) fits in
        rw (encode-response_bytes resp small) (
          received-Answers resp _ word small (λ m e.
            send_recv link queued law (response_bytes resp) m down (omega (arith, small)) empty e))
  ]

  -- The client's answer and the services then: those of `ProcessRequest` on the client's request.
  Answered : Env → RegistryRequest → Services → List ℕ × Services → Type 0
  Answered env req services r =
      r.0 ≢ registry_request_failed
      → let (resp, services') = process_request env req services in
        (resp.err_code ≡ 0) × (r.0 ≡ resp.payload) × (r.1 ≡ services')

  respond-Answered :
      (env : Env) (req : RegistryRequest) (services : Services) (o : Option (List ℕ)) (down : S)
      → IsRequest req
      → queued down ≡ []
      → ((m : List ℕ) → o ≡ some m → m ≡ request_bytes req)
      → let (down', services') = respond link env (decode_received o) down services in
        Answered env req services (decode_reply (recv_message link true down').0, services')
  unfolding Answered Answers process_request IsWord
  respond-Answered env req services none down is empty same =
      λ answered. absurd (answered (rw (recv-silent link queued law down empty) refl))
  respond-Answered env req services (some m) down is empty same =
      let (resp, services') = process_request env req services in
      let Result : Option RegistryRequest → Type 0 = λ o. Answered env req services (
        decode_reply (recv_message link true (respond link env o down services).0).0,
        (respond link env o down services).1,
      ) in
      let decoded : decode_registry_request (some m) (length m) true ≡ some req =
        subst (λ (x : List ℕ). decode_registry_request (some x) (length x) true ≡ some req)
          (sym (same m refl)) (decode-request_bytes req is) in
      subst Result (sym decoded) (λ answered.
        let (code, payload) =
          reply-Answers resp down (process_op-IsWord env req.op req services) empty answered in
        (code, payload, refl))

  exchange-Answered :
      (env : Env) (req : RegistryRequest) (services : Services) (sent : Bool × S) (down : S)
      → IsRequest req
      → queued down ≡ []
      → ((m : List ℕ) → (recv_message link true sent.1).0 ≡ some m → m ≡ request_bytes req)
      → Answered env req services (exchange link (handle_client link env) sent down services)
  unfolding Answered handle_client decode_client_request
  exchange-Answered env req services (false, up) down is empty same =
      λ answered. absurd (answered refl)
  exchange-Answered env req services (true, up) down is empty same =
      respond-Answered env req services (recv_message link true up).0 down is empty same

-- A call that does not fail was answered by the server. Where the connection's two directions are empty
-- streams and the request can be encoded, whatever the sockets do, the result of the client's
-- `SendRequest` is the mark of a failure, or the server processed the client's request without an error,
-- the result is the payload of its response, and the services are those after it.
pub send_request-answered :
    {S : Type 0} (link : Link S) (queued : S → List ℕ) (env : Env) (op : RegistryOp) (sa_id : ℕ)
    (payload : List ℕ) (services : Services) (up down : S)
    → IsStream link queued
    → IsRequest (record { op = op; sa_id = sa_id; payload = payload })
    → queued up ≡ []
    → queued down ≡ []
    → let (r, services') =
        send_request link (some (up, down)) (handle_client link env) op sa_id payload services in
      let (resp, processed) =
        process_request env (record { op = op; sa_id = sa_id; payload = payload }) services in
      r ≢ registry_request_failed
      → (resp.err_code ≡ 0) × (r ≡ resp.payload) × (services' ≡ processed)
unfolding send_request send_registry_request_message Answered
send_request-answered link queued env op sa_id payload services up down law is up_empty down_empty =
    let req : RegistryRequest = record { op = op; sa_id = sa_id; payload = payload } in
    let encoded = encode-request_bytes req is.payload in
    rw encoded (
      exchange-Answered link queued law env req services _ down is down_empty (λ m e.
        send_recv link queued law (request_bytes req) m up (omega (arith, is.payload)) up_empty e))
