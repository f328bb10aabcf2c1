-- ===== src/Registry/Loads.antt =====
-- `HandleLoadRequest` of virus_executor_service/src/transport/registry_server.cpp: all that a load may
-- do.
use mathlib.Core.Path.{subst}
use mem.Prelude.{
  ◌∷◌, ℕ, ◌≡◌, refl, sym, ap, Bool, true, false, Option, none, some, List, [], if◌then◌else◌, inl,
  inr, ◌⊎◌,
}
use mem.Registry.{RegistryRequest, RegistryResponse, minus_one}
use mem.Registry.Services.{Services, find}
use mem.Registry.Server.{
  Env, empty_response, try_get_service_path, remove_stale_service, check_found, load_missing,
  populate_service_response, is_reachable_service_socket, try_load_service, populate_loaded,
  answer_load, handle_load_request,
}
use mem.Registry.Loading.{Frees, removed-Frees}

-- The answer of a load that succeeded: the path that is registered then.
abbrev RegisteredAnswer : ℕ → Services → RegistryResponse × Services → Type 0
RegisteredAnswer sa_id services r =
    (r.1 ≡ services)
    × (((path : List ℕ) × (find sa_id services ≡ some path)
          × (r.0.err_code ≡ 0)
          × (r.0.payload ≡ path))
        ⊎ ((find sa_id services ≡ none) × (r.0.err_code ≡ minus_one) × (r.0.payload ≡ [])))

abbrev RefusedAnswer : Services → RegistryResponse × Services → Type 0
RefusedAnswer services r = (r.1 ≡ services) × (r.0.err_code ≡ minus_one) × (r.0.payload ≡ [])

-- The loads by the callback, from given services: it is asked, and its answer is what counts.
pub data Asks (env : Env) (sa_id : ℕ) (services : Services)
    : RegistryResponse × Services → Type 0 where
  no_callback :
      (r : RegistryResponse × Services)
      → env.load_cb ≡ none
      → RefusedAnswer services r
      → Asks env sa_id services r
  asked :
      (load : ℕ → Services → Bool × Services) (r : RegistryResponse × Services)
      → env.load_cb ≡ some load
      → (load sa_id services).0 ≡ true
      → RegisteredAnswer sa_id (load sa_id services).1 r
      → Asks env sa_id services r
  denied :
      (load : ℕ → Services → Bool × Services) (r : RegistryResponse × Services)
      → env.load_cb ≡ some load
      → (load sa_id services).0 ≡ false
      → RefusedAnswer (load sa_id services).1 r
      → Asks env sa_id services r

-- The path's socket: there is a path, and it connects.
abbrev probe : Env → List ℕ → Services → Bool × Services
probe env [] services = (false, services)
probe env (x ∷ path) services = env.connect (x ∷ path) services

-- What a load may do, by the path that the service has and what its socket answers.
pub data Loads (env : Env) (sa_id : ℕ) (services : Services)
    : RegistryResponse × Services → Type 0 where
  running :
      (path : List ℕ) (r : RegistryResponse × Services)
      → find sa_id services ≡ some path
      → (probe env path services).0 ≡ true
      → RegisteredAnswer sa_id (probe env path services).1 r
      → Loads env sa_id services r
  stale :
      (path : List ℕ) (left : Services) (r : RegistryResponse × Services)
      → find sa_id services ≡ some path
      → (probe env path services).0 ≡ false
      → Frees sa_id path (probe env path services).1 left
      → Asks env sa_id left r
      → Loads env sa_id services r
  missing :
      (r : RegistryResponse × Services)
      → find sa_id services ≡ none
      → Asks env sa_id services r
      → Loads env sa_id services r

module _ (env : Env) where
  populated-answer :
      (sa_id : ℕ) (services : Services) (o : Option (List ℕ))
      → find sa_id services ≡ o
      → RegisteredAnswer sa_id services
          (populate_loaded env (populate_service_response o empty_response), services)
  unfolding populate_service_response
  populated-answer sa_id services none e = (refl, inr (e, refl, refl))
  populated-answer sa_id services (some path) e = (refl, inl (path, e, refl, refl))

  registered-answer :
      (sa_id : ℕ) (services : Services)
      → RegisteredAnswer sa_id services (answer_load env sa_id (true, services))
  unfolding try_get_service_path
  registered-answer sa_id services = populated-answer sa_id services (find sa_id services) refl

  loaded-Asks :
      (sa_id : ℕ) (services : Services) (load : ℕ → Services → Bool × Services)
      (o : Bool × Services)
      → env.load_cb ≡ some load
      → load sa_id services ≡ o
      → Asks env sa_id services (answer_load env sa_id o)
  loaded-Asks sa_id services load (true, s) e l =
      asked load _ e (ap (λ (o : Bool × Services). o.0) l) (
        subst
          (λ (o : Bool × Services). RegisteredAnswer sa_id o.1 (answer_load env sa_id (true, s)))
          (sym l) (registered-answer sa_id s))
  loaded-Asks sa_id services load (false, s) e l =
      denied load _ e (ap (λ (o : Bool × Services). o.0) l)
        (ap (λ (o : Bool × Services). o.1) (sym l), refl, refl)

  given-Asks :
      (sa_id : ℕ) (services : Services) (cb : Option (ℕ → Services → Bool × Services))
      → env.load_cb ≡ cb
      → Asks env sa_id services (
          answer_load env sa_id
            (elim cb [ none ↦ (false, services) | some load ↦ load sa_id services ]))
  given-Asks sa_id services none e = no_callback _ e (refl, refl, refl)
  given-Asks sa_id services (some load) e =
      loaded-Asks sa_id services load (load sa_id services) e refl

  callback-Asks :
      (sa_id : ℕ) (services : Services) (cb : Option (ℕ → Services → Bool × Services))
      → env.load_cb ≡ cb
      → Asks env sa_id services (answer_load env sa_id (load_missing env sa_id (false, services)))
  unfolding try_load_service
  callback-Asks sa_id services cb e =
      let by_callback : Option (ℕ → Services → Bool × Services) → Bool × Services = elim [
        | none ↦ (false, services)
        | some load ↦ load sa_id services
      ] in
      subst (λ cb. Asks env sa_id services (answer_load env sa_id (by_callback cb))) (sym e)
        (given-Asks sa_id services cb e)

  probe-reachable :
      (path : List ℕ) (services : Services)
      → is_reachable_service_socket env path services ≡ probe env path services
  unfolding is_reachable_service_socket
  probe-reachable [] services = refl
  probe-reachable (x ∷ path) services = refl

  found-Loads :
      (sa_id : ℕ) (path : List ℕ) (services : Services) (o : Bool × Services)
      → find sa_id services ≡ some path
      → probe env path services ≡ o
      → Loads env sa_id services (
          answer_load env sa_id (
            load_missing env sa_id
              (if o.0 then (true, o.1) else (false, (remove_stale_service sa_id path o.1).1))))
  found-Loads sa_id path services (true, s) here e =
      running path _ here (ap (λ (o : Bool × Services). o.0) e) (
        subst
          (λ (o : Bool × Services). RegisteredAnswer sa_id o.1 (answer_load env sa_id (true, s)))
          (sym e) (registered-answer sa_id s))
  found-Loads sa_id path services (false, s) here e =
      let left = (remove_stale_service sa_id path s).1 in
      stale path left _ here (ap (λ (o : Bool × Services). o.0) e)
        (subst (λ (o : Bool × Services). Frees sa_id path o.1 left) (sym e)
          (removed-Frees sa_id path s))
        (callback-Asks sa_id left env.load_cb refl)

  checked-Loads :
      (sa_id : ℕ) (services : Services) (o : Option (List ℕ))
      → find sa_id services ≡ o
      → Loads env sa_id services
          (answer_load env sa_id (load_missing env sa_id (check_found env sa_id o services)))
  checked-Loads sa_id services none here =
      missing _ here (callback-Asks sa_id services env.load_cb refl)
  checked-Loads sa_id services (some path) here =
      rw (probe-reachable path services) (found-Loads sa_id path services _ here refl)

-- What a load does. Whatever the sockets, the callback and the other threads do: a path whose socket
-- connects is kept, and the load answers with the path registered then, without asking the callback. A
-- path whose socket does not connect is freed, unless a newer one has replaced it, and nothing else is
-- changed. Then, as where there is no path, the callback is asked with the services as they are, and
-- the load answers with the path that is registered afterwards, with the error -1 where there is none,
-- or where there is no callback or it fails.
pub handle_load_request-Loads :
    (env : Env) (req : RegistryRequest) (services : Services)
    → Loads env req.sa_id services (handle_load_request env req services)
unfolding handle_load_request try_get_service_path
handle_load_request-Loads env req services =
    checked-Loads env req.sa_id services (find req.sa_id services) refl
