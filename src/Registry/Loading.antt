-- ===== src/Registry/Loading.antt =====
-- `HandleLoadRequest` of virus_executor_service/src/transport/registry_server.cpp: what a load answers.
use mem.Prelude.{
  if-split, if-kept, same_list→≡, arith, false-ne-true, same_list, same_list_self, ℕ, ◌≡◌, ◌≢◌,
  refl, sym, ap, ◌∙◌, Bool, true, false, not, Option, none, some, List, if◌then◌else◌,
}
use mem.Registry.{RegistryRequest, minus_one}
use mem.Registry.Services.{Services, find, find-erase_self, find-erase_ne}
use mem.Registry.Server.{
  Env, try_get_service_path, remove_found, remove_stale_service, is_reachable_service_socket,
  try_load_service, handle_load_request,
}

none-ne-some : {A : Type 0} {a : A} → none ≢ some a
none-ne-some = cc

some-inj : {A : Type 0} {a b : A} → some a ≡ some b → a ≡ b
some-inj = cc

not_lem : (a : Bool) → not a ≡ false → a ≡ true
not_lem a h = ground arith

by_path :
    {A : Type 0} (b : Bool) (P : A → Type 0) {x y : A}
    → (b ≡ false → P x)
    → P y
    → P (if not b then x else y)
by_path true P p q = q
by_path false P p q = p refl

-- What is left of a service behind the removal of a stale path.
removed-Gone :
    (sa_id : ℕ) (path : List ℕ) (o : Option (List ℕ)) (services : Services)
    → find sa_id services ≡ o
    → find sa_id (remove_found sa_id path o services).1 ≢ some path
removed-Gone sa_id path none services e = λ gone. none-ne-some (sym e ∙ gone)
removed-Gone sa_id path (some found) services e =
    by_path (same_list found path) (λ (r : Bool × Services). find sa_id r.1 ≢ some path)
      (λ newer gone. false-ne-true (
        sym newer
        ∙ ap (λ (p : List ℕ). same_list p path) (some-inj (sym e ∙ gone))
        ∙ same_list_self path))
      (λ gone. none-ne-some (sym (find-erase_self sa_id services) ∙ gone))

-- A stale path is freed, and nothing else: not a newer path of the service, and no other service.
pub record Frees (sa_id : ℕ) (path : List ℕ) (services services' : Services) : Type 0 where
  pub gone : find sa_id services' ≢ some path
  pub newer : find sa_id services ≢ some path → services' ≡ services
  pub others : (other : ℕ) → other ≢ sa_id → find other services' ≡ find other services

removed-newer :
    (sa_id : ℕ) (path : List ℕ) (o : Option (List ℕ)) (services : Services)
    → find sa_id services ≡ o
    → find sa_id services ≢ some path
    → (remove_found sa_id path o services).1 ≡ services
removed-newer sa_id path none services e other = refl
removed-newer sa_id path (some found) services e other =
    if-split (not (same_list found path)) (λ (r : Bool × Services). r.1 ≡ services) (λ newer. refl)
      (λ same.
        absurd (other (e ∙ ap some (same_list→≡ found path (not_lem (same_list found path) same)))))

removed-others :
    (sa_id : ℕ) (path : List ℕ) (o : Option (List ℕ)) (services : Services) (other : ℕ)
    → other ≢ sa_id
    → find other (remove_found sa_id path o services).1 ≡ find other services
removed-others sa_id path none services other ne = refl
removed-others sa_id path (some found) services other ne =
    if-kept (not (same_list found path))
      (λ (r : Bool × Services). find other r.1 ≡ find other services) refl
      (find-erase_ne sa_id other services ne)

pub removed-Frees :
    (sa_id : ℕ) (path : List ℕ) (services : Services)
    → Frees sa_id path services (remove_stale_service sa_id path services).1
unfolding remove_stale_service
removed-Frees sa_id path services = record {
  gone = removed-Gone sa_id path (find sa_id services) services refl;
  newer = removed-newer sa_id path (find sa_id services) services refl;
  others = removed-others sa_id path (find sa_id services) services;
}

-- A stale path is gone. Where a service has a path, no callback loads services, and the path's socket
-- is not reachable, a load of the service fails, and the service does not have the path afterwards.
pub stale_path_removed :
    (env : Env) (req : RegistryRequest) (path : List ℕ) (services services' : Services)
    → env.load_cb ≡ none
    → find req.sa_id services ≡ some path
    → is_reachable_service_socket env path services ≡ (false, services')
    → let (resp, left) = handle_load_request env req services in
      (resp.err_code ≡ minus_one) × (find req.sa_id left ≢ some path)
unfolding handle_load_request try_get_service_path try_load_service remove_stale_service
stale_path_removed env req path services services' absent found unreachable =
    rw (found, unreachable, absent)
      (refl, removed-Gone req.sa_id path (find req.sa_id services') services' refl)
