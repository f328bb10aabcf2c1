-- ===== src/Registry/Directory.antt =====
-- The registry server of virus_executor_service/src/transport/registry_server.cpp as a directory: which path each
-- service has.
use mem.Prelude.{
  ℕ, ◌≡◌, ◌≢◌, refl, ap, ◌∙◌, Bool, true, false, Option, none, some, List, [], ◌∷◌, if◌then◌else◌,
  ◌==◌, Bool-cases, inl, inr, ==→≡, ==→≢, All,
}
use mem.Registry.{RegistryOp, register_op, get_op, load_op, unload_op, unnamed_op, RegistryRequest}
use mem.Registry.Services.{
  Services, assign, find, erase, find-assign_self, find-assign_ne, find-erase_self, find-erase_ne,
}
use mem.Registry.Server.{Env, process_op, process_request, unloaded}

-- Requests one after the other.
pub process_requests : Env → List RegistryRequest → Services → Services
process_requests env [] services = services
process_requests env (req ∷ reqs) services =
    process_requests env reqs (process_request env req services).1

-- A path by the requests alone: the last of those that name the service decides.
abbrev pub path_after : RegistryOp → List ℕ → Option (List ℕ) → Option (List ℕ)
path_after register_op path old = some path
path_after unload_op path old = none
path_after _ path old = old

abbrev pub latest_path : ℕ → List RegistryRequest → Option (List ℕ) → Option (List ℕ)
latest_path sa_id [] old = old
latest_path sa_id (req ∷ reqs) old =
    latest_path sa_id reqs (if sa_id == req.sa_id then path_after req.op req.payload old else old)

-- The callback on an unload registers and unregisters nothing itself.
abbrev pub IsQuiet : Env → Type 0
IsQuiet env =
    (sa_id other : ℕ) (services : Services)
    → find other (unloaded env sa_id env.unload_cb services) ≡ find other services

abbrev pub NotLoad : RegistryRequest → Type 0
NotLoad req = req.op ≢ load_op

unchanged : (same : Bool) (old : Option (List ℕ)) → old ≡ (if same then old else old)
unchanged true old = refl
unchanged false old = refl

erased :
    (req : RegistryRequest) (sa_id : ℕ) (services : Services)
    → find sa_id (erase req.sa_id services)
      ≡ (if sa_id == req.sa_id then none else find sa_id services)
erased req sa_id services = elim (Bool-cases (sa_id == req.sa_id)) [
  | inl same ↦ rw same (
      ap (λ (k : ℕ). find k (erase req.sa_id services)) (==→≡ sa_id req.sa_id same)
      ∙ find-erase_self req.sa_id services)
  | inr apart ↦ rw apart (find-erase_ne req.sa_id sa_id services (==→≢ sa_id req.sa_id apart))
]

module _ (env : Env) (quiet : IsQuiet env) where
  op-Refines :
      (op : RegistryOp) (req : RegistryRequest) (sa_id : ℕ) (services : Services)
      → op ≢ load_op
      → find sa_id (process_op env op req services).1 ≡ (
          if sa_id == req.sa_id
          then path_after op req.payload (find sa_id services)
          else find sa_id services)
  op-Refines register_op req sa_id services plain = elim (Bool-cases (sa_id == req.sa_id)) [
    | inl same ↦ rw same (
        ap (λ (k : ℕ). find k (assign req.sa_id req.payload services)) (==→≡ sa_id req.sa_id same)
        ∙ find-assign_self req.sa_id req.payload services)
    | inr apart ↦
        rw apart (find-assign_ne req.sa_id sa_id req.payload services (==→≢ sa_id req.sa_id apart))
  ]
  op-Refines unload_op req sa_id services plain =
      quiet req.sa_id sa_id (erase req.sa_id services) ∙ erased req sa_id services
  op-Refines get_op req sa_id services plain = unchanged (sa_id == req.sa_id) (find sa_id services)
  op-Refines (unnamed_op code) req sa_id services plain =
      unchanged (sa_id == req.sa_id) (find sa_id services)
  op-Refines load_op req sa_id services plain = absurd (plain refl)

  requests-Refine :
      (reqs : List RegistryRequest) (sa_id : ℕ) (services : Services) (old : Option (List ℕ))
      → All NotLoad reqs
      → find sa_id services ≡ old
      → find sa_id (process_requests env reqs services) ≡ latest_path sa_id reqs old
  unfolding process_requests process_request
  requests-Refine [] sa_id services old plain e = e
  requests-Refine (req ∷ reqs) sa_id services old plain e =
      requests-Refine reqs sa_id (process_op env req.op req services).1 _ plain.1 (
        op-Refines req.op req sa_id services plain.0
        ∙ ap
            (λ (o : Option (List ℕ)).
              if sa_id == req.sa_id then path_after req.op req.payload o else o)
            e)

-- The server is a directory. Where the callback on an unload changes no registration, after any
-- requests other than loads, every service has the path that the last request that names
-- it gives it, or the one it had.
pub process_requests_refine :
    (env : Env) (reqs : List RegistryRequest) (sa_id : ℕ) (services : Services)
    → IsQuiet env
    → All NotLoad reqs
    → find sa_id (process_requests env reqs services) ≡ latest_path sa_id reqs (find sa_id services)
process_requests_refine env reqs sa_id services quiet plain =
    requests-Refine env quiet reqs sa_id services (find sa_id services) plain refl
