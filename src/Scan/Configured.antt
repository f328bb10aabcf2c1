-- ===== src/Scan/Configured.antt =====
-- `ConfigureEngines` of virus_executor_service/src/service/ves_engine_service.cpp: which sessions may be opened
-- beside each other.
use mem.Prelude.{
  ℕ, ◌≡◌, ◌≢◌, refl, ap, ◌∙◌, Bool, true, false, not, List, [], ◌∷◌, if◌then◌else◌, leb, is_empty,
  if-kept, ◌↔◌, same_list, same_list→≡, same_list_self,
}
use mem.Types.{StatusCode, ok, invalid_argument}
use mem.Scan.{VesOpenSessionRequest}
use mem.Scan.Engines.{
  insert, sort, unique, unique_from, normalize_ves_engine_kinds, is_valid_ves_open_session_request,
  or_scan, resolve_engine_kinds, VesEngineService, configure_engines, has,
}
use mem.Scan.Kinds.{normalize_iff}

insert-filled : (x : ℕ) (ys : List ℕ) → is_empty (unique (insert x ys)) ≡ false
unfolding insert
insert-filled x [] = refl
insert-filled x (y ∷ ys) = if-kept (leb x y) (λ (l : List ℕ). is_empty (unique l) ≡ false) refl refl

or_scan-normalize :
    (kinds : List ℕ)
    → or_scan (normalize_ves_engine_kinds kinds) ≡ normalize_ves_engine_kinds (or_scan kinds)
unfolding normalize_ves_engine_kinds sort insert unique_from
or_scan-normalize [] = refl
or_scan-normalize (kind ∷ kinds) = rw (insert-filled kind (sort kinds)) refl

-- The kinds that a request asks for, before they are sorted.
resolve-kinds :
    (request : VesOpenSessionRequest)
    → resolve_engine_kinds request ≡ normalize_ves_engine_kinds (or_scan request.engine_kinds)
unfolding resolve_engine_kinds
resolve-kinds request = or_scan-normalize request.engine_kinds

invalid-ne-ok : invalid_argument ≢ ok
invalid-ne-ok = cc

abbrev verdict : VesEngineService → Bool → StatusCode × VesEngineService
verdict s same = if not same then (invalid_argument, s) else (ok, s)

accepts : (s : VesEngineService) (same : Bool) → (verdict s same).0 ≡ ok → same ≡ true
accepts s true e = refl
accepts s false e = absurd (invalid-ne-ok e)

compared_iff :
    (s : VesEngineService) (xs ys : List ℕ) → ((verdict s (same_list xs ys)).0 ≡ ok) ↔ (xs ≡ ys)
compared_iff s xs ys = (
  λ e. same_list→≡ xs ys (accepts s (same_list xs ys) e),
  λ e.
      ap (λ (l : List ℕ). (verdict s (same_list l ys)).0) e
      ∙ ap (λ (b : Bool). (verdict s b).0) (same_list_self ys),
)

-- The engines are configured once, as a set. Where two requests are valid and no engines are configured, after the
-- first the second is accepted exactly where both ask for the same kinds, in whatever order
-- and however often, and a request for no kind asks for the scan engine.
pub configure_engines_iff :
    (first second : VesOpenSessionRequest) (s : VesEngineService)
    → s.engines_configured ≡ false
    → is_valid_ves_open_session_request first ≡ true
    → is_valid_ves_open_session_request second ≡ true
    → ((configure_engines second (configure_engines first s).1).0 ≡ ok) ↔ (
        (kind : ℕ) → has kind (or_scan first.engine_kinds) ≡ has kind (or_scan second.engine_kinds))
unfolding configure_engines
configure_engines_iff first second s fresh valid_first valid_second =
    let a = or_scan first.engine_kinds in
    let b = or_scan second.engine_kinds in
    let same = normalize_iff a b in
    rw (valid_first, valid_second, fresh, resolve-kinds first, resolve-kinds second)
      (let c =
          compared_iff
            (record s {
              configured_engine_kinds = normalize_ves_engine_kinds a;
              engines_configured = true;
            })
            (normalize_ves_engine_kinds a) (normalize_ves_engine_kinds b) in
        (λ e. same.0 (c.0 e), λ h. c.1 (same.1 h)))
