-- ===== src/Scan/Closing.antt =====
-- A close of the session service of virus_executor_service/src/service/ves_session_service.cpp that
-- other calls interrupt.
use mem.Scan.Consistent.{
  Op, ensure_op, open_locked_op, publish_op, begin_close_op, end_close_op, step, run,
}
use mem.Prelude.{All, ◌≢◌, true, false, none, List, [], ◌∷◌, ◌≡◌, refl, ap, ◌∙◌}
use mem.Scan.Sessions.{
  Parts, EngineSessionService, ensure_session_initialized, open_locked, publish_event_blocking,
  begin_close,
}

abbrev pub NotEnd : {H R : Type 0} → Parts H R × Op → Type 0
NotEnd op = op.1 ≢ end_close_op

module _ {H R : Type 0} where
  closing-step :
      (parts : Parts H R) (op : Op) (s : EngineSessionService H R)
      → s.is_initialized ≡ false
      → s.closing ≡ true
      → s.session_host ≡ none
      → op ≢ end_close_op
      → step parts op s ≡ s
  unfolding step open_locked publish_event_blocking begin_close ensure_session_initialized
  closing-step parts ensure_op s idle closing host other = rw closing refl
  closing-step parts (open_locked_op handles) s idle closing host other = rw host refl
  closing-step parts (publish_op event) s idle closing host other = rw idle refl
  closing-step parts begin_close_op s idle closing host other = rw closing refl
  closing-step parts end_close_op s idle closing host other = absurd (other refl)

  closing-run :
      (ops : List (Parts H R × Op)) (s : EngineSessionService H R)
      → s.is_initialized ≡ false
      → s.closing ≡ true
      → s.session_host ≡ none
      → All NotEnd ops
      → run ops s ≡ s
  unfolding run
  closing-run [] s idle closing host others = refl
  closing-run ((parts, op) ∷ ops) s idle closing host others =
      ap (run ops) (closing-step parts op s idle closing host others.0)
      ∙ closing-run ops s idle closing host others.1

-- A close excludes other calls. After the first part of a close that goes on, no calls change the
-- service until the last part, also where a call that opens a session has done its first part before.
pub close_excludes :
    {H R : Type 0} (parts : Parts H R) (ops : List (Parts H R × Op)) (s : EngineSessionService H R)
    → s.is_initialized ≡ true
    → s.closing ≡ false
    → All NotEnd ops
    → run ops (begin_close parts s).1 ≡ (begin_close parts s).1
unfolding begin_close
close_excludes parts ops s done plain others =
    rw (plain, done) (closing-run ops _ refl refl refl others)
