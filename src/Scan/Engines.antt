-- ===== src/Scan/Engines.antt =====
-- `class VesEngineService` of virus_executor_service/src/service/ves_engine_service.cpp, with the lists of engine
-- kinds of include/transport/ves_control_interface.h.
use mem.Prelude.{
  same_list, ℕ, Bool, true, false, not, ◌||◌, ◌&&◌, Option, none, some, List, [], ◌∷◌,
  if◌then◌else◌, ◌==◌, ltb, leb, length, is_empty,
}
use mem.Types.{StatusCode, ok, invalid_argument}
use mem.Scan.{
  ScanTask, ScanFileReply, VesOpenSessionRequest, ves_open_session_request_version,
  ves_open_session_max_engine_kinds, scan_engine,
}
use mem.Scan.Rules.{evaluate_sample_path}
use mem.Registry.{minus_one}

-- `std::sort`, of which only the sorted result counts.
unfoldable pub insert : ℕ → List ℕ → List ℕ
insert x [] = x ∷ []
insert x (y ∷ ys) = let rest = insert x ys in if leb x y then x ∷ (y ∷ ys) else y ∷ rest

unfoldable pub sort : List ℕ → List ℕ
sort [] = []
sort (x ∷ xs) = insert x (sort xs)

-- `std::unique` behind the element `x`, and `erase` of what it leaves at the end.
unfoldable pub unique_from : ℕ → List ℕ → List ℕ
unique_from x [] = []
unique_from x (y ∷ ys) =
    let same = unique_from x ys in let next = unique_from y ys in if x == y then same else y ∷ next

abbrev pub unique : List ℕ → List ℕ
unique [] = []
unique (x ∷ xs) = x ∷ unique_from x xs

unfoldable pub normalize_ves_engine_kinds : List ℕ → List ℕ
normalize_ves_engine_kinds kinds = unique (sort kinds)

abbrev all_nonzero : List ℕ → Bool
all_nonzero [] = true
all_nonzero (kind ∷ kinds) = not (kind == 0) && all_nonzero kinds

unfoldable pub is_valid_ves_open_session_request : VesOpenSessionRequest → Bool
is_valid_ves_open_session_request request =
    if not (request.version == ves_open_session_request_version)
      || ltb ves_open_session_max_engine_kinds (length request.engine_kinds)
    then false
    else all_nonzero request.engine_kinds

abbrev pub or_scan : List ℕ → List ℕ
or_scan kinds = if is_empty kinds then scan_engine ∷ [] else kinds

unfoldable pub resolve_engine_kinds : VesOpenSessionRequest → List ℕ
resolve_engine_kinds request = or_scan (normalize_ves_engine_kinds request.engine_kinds)

pub record VesEngineService : Type 0 where
  pub is_initialized : Bool
  pub configured_engine_kinds : List ℕ
  pub engines_configured : Bool

abbrev pub new_engine_service : VesEngineService
new_engine_service = record {
  is_initialized = false;
  configured_engine_kinds = [];
  engines_configured = false;
}

unfoldable pub initialize : VesEngineService → VesEngineService
initialize s = if s.is_initialized then s else record s { is_initialized = true }

unfoldable pub configure_engines :
    VesOpenSessionRequest → VesEngineService → StatusCode × VesEngineService
configure_engines request s =
    let resolved = resolve_engine_kinds request in
    if not (is_valid_ves_open_session_request request)
    then (invalid_argument, s)
    else if not s.engines_configured
    then (ok, record s { configured_engine_kinds = resolved; engines_configured = true })
    else if not (same_list s.configured_engine_kinds resolved)
    then (invalid_argument, s)
    else (ok, s)

unfoldable pub reset_engines : VesEngineService → VesEngineService
reset_engines s = record s { configured_engine_kinds = []; engines_configured = false }

-- `std::find` for a kind.
abbrev pub has : ℕ → List ℕ → Bool
has kind [] = false
has kind (k ∷ kinds) = kind == k || has kind kinds

unfoldable pub is_scan_engine_enabled : VesEngineService → Bool
is_scan_engine_enabled s = not s.engines_configured || has scan_engine s.configured_engine_kinds

-- `ScanFile`: `none` where the process is aborted. The sleep is left out.
unfoldable pub scan_file : ScanTask → VesEngineService → Option ScanFileReply
scan_file request s =
    let behavior = evaluate_sample_path request.path in
    if not s.is_initialized || not (is_scan_engine_enabled s)
    then some (record { code = minus_one; threat_level = 0 })
    else if behavior.should_crash
    then none
    else some (record { code = 0; threat_level = behavior.threat_level })
