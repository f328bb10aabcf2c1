-- ===== src/Registry.antt =====
-- The registry of the services' sockets, virus_executor_service/src/transport/registry_protocol.cpp,
-- registry_server.cpp, registry_client.cpp and registry_backend.cpp: the requests and responses, and
-- their bytes. An `int32_t` is its bit pattern, and logging is left out.
pub mod Protocol
pub mod Messages
pub mod Rounds
pub mod Frames
pub mod Arrivals
pub mod Services
pub mod Server
pub mod Client
pub mod Calls
pub mod Directory
pub mod Loading
pub mod Loads
pub mod Found
mod Examples
use mem.Prelude.{
  ℕ, zero, suc, ◌+◌, ◌-◌, Bool, true, false, not, ◌&&◌, ◌||◌, Option, none, some, List, [], ◌∷◌,
  ◌++◌, if◌then◌else◌, ◌==◌, ltb, length, take, drop, is_empty, ◌≡◌, refl,
}
use mem.Codec.{le_bytes, le_word}

-- The enumeration has one byte, and a decoded byte need not be one of its names.
pub data RegistryOp : Type 0 where
  register_op get_op load_op unload_op : RegistryOp
  unnamed_op : ℕ → RegistryOp

abbrev pub code_of_op : RegistryOp → ℕ
code_of_op register_op = 1
code_of_op get_op = 2
code_of_op load_op = 3
code_of_op unload_op = 4
code_of_op (unnamed_op code) = code

abbrev pub op_of_code : ℕ → RegistryOp
op_of_code code =
    if code == 1
    then register_op
    else (if code == 2
        then get_op
        else (if code == 3 then load_op else (if code == 4 then unload_op else unnamed_op code)))

pub record RegistryRequest : Type 0 where
  pub op : RegistryOp
  pub sa_id : ℕ
  pub payload : List ℕ

pub record RegistryResponse : Type 0 where
  pub err_code : ℕ
  pub payload : List ℕ

-- The bit pattern of -1.
abbrev pub minus_one : ℕ
minus_one = 4294967295

-- `has_out` says that the pointer to write through is not null.
unfoldable pub encode_registry_request : Bool → RegistryRequest → Option (List ℕ)
encode_registry_request has_out req =
    let plen = length req.payload in
    if not has_out || ltb 65535 plen
    then none
    else some (code_of_op req.op ∷ (le_bytes 4 req.sa_id ++ (le_bytes 2 plen ++ req.payload)))

-- `bytes` may be null, and points to at least `len` bytes otherwise.
unfoldable pub decode_registry_request : Option (List ℕ) → ℕ → Bool → Option RegistryRequest
decode_registry_request none len has_req = none
decode_registry_request (some bytes) len has_req =
    let plen = le_word (take 2 (drop 5 bytes)) in
    if not has_req || ltb len 7
    then none
    else if ltb len (7 + plen)
    then none
    else some (record {
      op = op_of_code (le_word (take 1 bytes));
      sa_id = le_word (take 4 (drop 1 bytes));
      payload = take plen (drop 7 bytes);
    })

unfoldable pub encode_registry_response : Bool → RegistryResponse → Option (List ℕ)
encode_registry_response has_out resp =
    let plen = length resp.payload in
    if not has_out || ltb 65535 plen
    then none
    else some (le_bytes 4 resp.err_code ++ (le_bytes 2 plen ++ resp.payload))

unfoldable pub decode_registry_response : Option (List ℕ) → ℕ → Bool → Option RegistryResponse
decode_registry_response none len has_resp = none
decode_registry_response (some bytes) len has_resp =
    let plen = le_word (take 2 (drop 4 bytes)) in
    if not has_resp || ltb len 6
    then none
    else if ltb len (6 + plen)
    then none
    else some (record { err_code = le_word (take 4 bytes); payload = take plen (drop 6 bytes) })
