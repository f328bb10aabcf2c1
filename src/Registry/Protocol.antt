-- ===== src/Registry/Protocol.antt =====
-- The codec of virus_executor_service/src/transport/registry_protocol.cpp: what is decoded from what was encoded.
use mem.Prelude.{
  ℕ, ◌+◌, ◌≤◌, ◌<◌, ◌^◌, ◌≡◌, refl, true, false, some, List, ◌∷◌, ◌++◌, ltb, length, take_self,
  arith,
}
use mem.Codec.{le_bytes, le_word, le_word-le_bytes4}
use mem.Registry.{
  code_of_op, op_of_code, RegistryRequest, RegistryResponse, encode_registry_request,
  decode_registry_request, encode_registry_response, decode_registry_response,
}

pub le_word-le_bytes2 : (value : ℕ) → value < 2 ^ 16 → le_word (le_bytes 2 value) ≡ value
le_word-le_bytes2 value h = omega arith

pub within : (limit n : ℕ) → n ≤ limit → ltb limit n ≡ false
within limit n h = ground arith

add_zero : (n : ℕ) → n + 0 ≡ n
add_zero n = omega arith

abbrev pub request_bytes : RegistryRequest → List ℕ
request_bytes req =
    code_of_op req.op ∷ (le_bytes 4 req.sa_id ++ (le_bytes 2 (length req.payload) ++ req.payload))

abbrev pub response_bytes : RegistryResponse → List ℕ
response_bytes resp = le_bytes 4 resp.err_code ++ (le_bytes 2 (length resp.payload) ++ resp.payload)

-- A request that an encoder can take: its op is a name of the enumeration or another byte.
pub record IsRequest (req : RegistryRequest) : Type 0 where
  pub op : op_of_code (code_of_op req.op) ≡ req.op
  pub sa_id : req.sa_id < 2 ^ 32
  pub payload : length req.payload ≤ 65535

pub encode-request_bytes :
    (req : RegistryRequest)
    → length req.payload ≤ 65535
    → encode_registry_request true req ≡ some (request_bytes req)
unfolding encode_registry_request
encode-request_bytes req h = rw (within 65535 (length req.payload) h) refl

pub encode-response_bytes :
    (resp : RegistryResponse)
    → length resp.payload ≤ 65535
    → encode_registry_response true resp ≡ some (response_bytes resp)
unfolding encode_registry_response
encode-response_bytes resp h = rw (within 65535 (length resp.payload) h) refl

pub decode-request_bytes :
    (req : RegistryRequest)
    → IsRequest req
    → decode_registry_request (some (request_bytes req)) (length (request_bytes req)) true
      ≡ some req
unfolding decode_registry_request
decode-request_bytes req is =
    let plen = length req.payload in
    let count : le_word (le_bytes 2 plen) ≡ plen =
      le_word-le_bytes2 plen (omega (arith, is.payload)) in
    let id = le_word-le_bytes4 req.sa_id is.sa_id in
    let size = length (request_bytes req) in
    rw (count, id, add_zero (code_of_op req.op), is.op, take_self req.payload plen (omega arith))
      (rw (within size 7 (omega arith), within size (7 + plen) (omega arith)) refl)

pub decode-response_bytes :
    (resp : RegistryResponse)
    → resp.err_code < 2 ^ 32
    → length resp.payload ≤ 65535
    → decode_registry_response (some (response_bytes resp)) (length (response_bytes resp)) true
      ≡ some resp
unfolding decode_registry_response
decode-response_bytes resp code small =
    let plen = length resp.payload in
    let count : le_word (le_bytes 2 plen) ≡ plen = le_word-le_bytes2 plen (omega (arith, small)) in
    let id = le_word-le_bytes4 resp.err_code code in
    let size = length (response_bytes resp) in
    rw (count, id, take_self resp.payload plen (omega arith))
      (rw (within size 6 (omega arith), within size (6 + plen) (omega arith)) refl)
