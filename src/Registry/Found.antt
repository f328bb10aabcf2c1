-- ===== src/Registry/Found.antt =====
-- Two calls of the registry's client (virus_executor_service/src/transport/registry_client.cpp): one that registers a
-- service, and one that asks for it.
use mem.Prelude.{
  same_list, false-ne-true, ℕ, ◌≤◌, ◌<◌, ◌^◌, ◌≡◌, ◌≢◌, refl, sym, ap, ◌∙◌, Bool, true, false, not,
  Option, some, List, [], if◌then◌else◌, length, arith,
}
use mem.Registry.{register_op, get_op}
use mem.Registry.Messages.{Link}
use mem.Registry.Frames.{IsStream}
use mem.Registry.Services.{Services, find, find-assign_self}
use mem.Registry.Server.{
  Env, handle_client, process_request, empty_response, try_get_service_path,
  populate_service_response,
}
use mem.Registry.Client.{
  registry_request_failed, send_request, empty_if_failed, get_service_path, register_service_path,
}
use mem.Registry.Calls.{send_request-answered}

if-same : (b : Bool) (r : List ℕ) → (if b then [] else r) ≢ [] → (if b then [] else r) ≡ r
if-same true r h = absurd (h refl)
if-same false r h = refl

module _ {S : Type 0} (link : Link S) (queued : S → List ℕ) (law : IsStream link queued) where
  -- A registration that succeeds.
  registered :
      (env : Env) (sa_id : ℕ) (path : List ℕ) (services : Services) (up down : S)
      → sa_id < 2 ^ 32
      → length path ≤ 65535
      → queued up ≡ []
      → queued down ≡ []
      → let (done, services') =
          register_service_path link
            (some (up, down))
            (handle_client link env)
            sa_id
            path
            services in
        done ≡ true → find sa_id services' ≡ some path
  unfolding register_service_path process_request
  registered env sa_id path services up down word small up_empty down_empty done =
      let (code, payload, same) =
        send_request-answered link queued env register_op sa_id path services up down law
          (record { op = refl; sa_id = word; payload = small }) up_empty down_empty
          (λ failed.
            false-ne-true (
              sym (ap (λ (r : List ℕ). not (same_list r registry_request_failed)) failed)
              ∙ done)) in
      ap (find sa_id) same ∙ find-assign_self sa_id path services

  -- A path that is found.
  asked :
      (env : Env) (sa_id : ℕ) (path : List ℕ) (services : Services) (up down : S)
      → sa_id < 2 ^ 32
      → queued up ≡ []
      → queued down ≡ []
      → find sa_id services ≡ some path
      → let (found, services') =
          get_service_path link (some (up, down)) (handle_client link env) sa_id services in
        found ≢ [] → found ≡ path
  unfolding get_service_path process_request try_get_service_path populate_service_response
  asked env sa_id path services up down word up_empty down_empty here found =
      let (code, payload, same) =
        send_request-answered link queued env get_op sa_id [] services up down law
          (record { op = refl; sa_id = word; payload = omega arith }) up_empty down_empty
          (λ failed. found (ap empty_if_failed failed)) in
      let r =
        (send_request link (some (up, down)) (handle_client link env) get_op sa_id [] services).0 in
      if-same (same_list r registry_request_failed) r found
      ∙ payload
      ∙ ap (λ (o : Option (List ℕ)). (populate_service_response o empty_response).1.payload) here

-- A registered service is found. Where `RegisterService` of the client succeeds, and `GetServicePath` is called
-- on another connection while the service's path is still the same, it gives the registered
-- path or nothing, whatever the sockets do.
pub registered_path_found :
    {S : Type 0} (link : Link S) (queued : S → List ℕ) (env : Env) (sa_id : ℕ) (path : List ℕ)
    (services later : Services) (up down up' down' : S)
    → IsStream link queued
    → sa_id < 2 ^ 32
    → length path ≤ 65535
    → queued up ≡ []
    → queued down ≡ []
    → queued up' ≡ []
    → queued down' ≡ []
    → let (done, services') =
        register_service_path link (some (up, down)) (handle_client link env) sa_id path services in
      let found =
        (get_service_path link (some (up', down')) (handle_client link env) sa_id later).0 in
      done ≡ true → find sa_id later ≡ find sa_id services' → found ≢ [] → found ≡ path
registered_path_found link queued env sa_id path services later up down up' down' law word small
      up_empty down_empty up_empty' down_empty' done unchanged =
    asked link queued law env sa_id path later up' down' word up_empty' down_empty' (
      unchanged
      ∙ registered link queued law env sa_id path services up down word small up_empty down_empty
          done)
