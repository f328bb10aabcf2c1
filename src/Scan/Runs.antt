-- ===== src/Scan/Runs.antt =====
-- The runs of the session service of virus_executor_service/src/service/ves_session_service.cpp.
use mem.Prelude.{◌⊎◌, inl, inr, if-split, not, ◌||◌, Option, List, [], ◌∷◌, ◌==◌, refl, if-kept}
use mem.Types.{StatusCode}
use mem.Scan.Sessions.{
  Parts, EngineSessionService, open_locked, publish_event_blocking, begin_close, end_close,
}
use mem.Scan.Consistent.{
  IsConsistent, IsServed, IsSound, Op, ensure_op, open_locked_op, publish_op, begin_close_op,
  end_close_op, step, run, EnsureFails, fails_later,
}
use mem.Scan.Holds.{
  ensure-IsServed, ensure-IsSound, open-IsServed, open-IsSound, publish-IsServed, publish-IsSound,
  unserving, resting, sound-IsServed, is_left,
}

module _ {H R : Type 0} (parts : Parts H R) where
  step-IsServed : (op : Op) (s : EngineSessionService H R) → IsServed s → IsServed (step parts op s)
  unfolding step open_locked publish_event_blocking begin_close end_close
  step-IsServed ensure_op s c = ensure-IsServed parts s c
  step-IsServed (open_locked_op handles) s c = open-IsServed parts s.session_host handles s c
  step-IsServed (publish_op event) s c =
      if-split (not s.is_initialized || s.session_id == 0)
        (λ (x : StatusCode × EngineSessionService H R). IsServed x.1) (λ refused. c)
        (λ fine.
          publish-IsServed parts event s.rpc_server s c
            (is_left s.is_initialized (s.session_id == 0) fine))
  step-IsServed begin_close_op s c =
      if-kept (s.closing || not s.is_initialized)
        (λ (x : Option (Option R × Option H) × EngineSessionService H R). IsServed x.1) c
        (unserving _ refl refl)
  step-IsServed end_close_op s c = record {
    served = c.served;
    hosted = c.hosted;
    opened = λ e. refl;
    unserved = c.unserved;
  }

  -- A step keeps the service sound, or `EnsureSession` fails in it.
  step-IsSound :
      (op : Op) (ops : List (Parts H R × Op)) (s : EngineSessionService H R)
      → IsSound s
      → IsSound (step parts op s) ⊎ EnsureFails ((parts, op) ∷ ops) s
  unfolding step open_locked publish_event_blocking begin_close end_close
  step-IsSound ensure_op ops s c = ensure-IsSound parts ops s c
  step-IsSound (open_locked_op handles) ops s c =
      inl (open-IsSound parts s.session_host handles s refl c)
  step-IsSound (publish_op event) ops s c = inl (
      if-split (not s.is_initialized || s.session_id == 0)
        (λ (x : StatusCode × EngineSessionService H R). IsSound x.1) (λ refused. c)
        (λ fine.
          publish-IsSound parts event s.rpc_server s c
            (is_left s.is_initialized (s.session_id == 0) fine)))
  step-IsSound begin_close_op ops s c = inl (
      if-kept (s.closing || not s.is_initialized)
        (λ (x : Option (Option R × Option H) × EngineSessionService H R). IsSound x.1) c
        (resting _ refl refl refl refl refl))
  step-IsSound end_close_op ops s c =
      let k = c.consistent in
      inl (record {
        consistent = record {
          served = k.served;
          hosted = k.hosted;
          opened = λ e. refl;
          unserved = k.unserved;
          no_session = k.no_session;
          no_publisher = k.no_publisher;
        };
        no_host = c.no_host;
      })

module _ {H R : Type 0} where
  runs-IsServed :
      (ops : List (Parts H R × Op)) (s : EngineSessionService H R)
      → IsServed s
      → IsServed (run ops s)
  unfolding run
  runs-IsServed [] s c = c
  runs-IsServed ((parts, op) ∷ ops) s c =
      runs-IsServed ops (step parts op s) (step-IsServed parts op s c)

  runs-IsSound :
      (ops : List (Parts H R × Op)) (s : EngineSessionService H R)
      → IsSound s
      → IsConsistent (run ops s) ⊎ EnsureFails ops s
  unfolding run
  runs-IsSound [] s c = inl c.consistent
  runs-IsSound ((parts, op) ∷ ops) s c = elim (step-IsSound parts op ops s c) [
    | inr failed ↦ inr failed
    | inl sound ↦ elim (runs-IsSound ops (step parts op s) sound) [
      | inl consistent ↦ inl consistent
      | inr failed ↦ inr (fails_later parts op ops s failed)
    ]
  ]

-- The session service stays consistent. Over every run of its calls, other calls between the two holds
-- of the lock in `OpenSession` and in `CloseSession` included, whatever is outside answers: a service
-- that is initialised has a server and a host and is not closing, and one that is not has no server.
-- It also has no session and no event publisher, or the `EnsureSession` of a host failed in the run;
-- before the run all this holds, and a service that is not initialised has no host.
pub run-IsConsistent :
    {H R : Type 0} (ops : List (Parts H R × Op)) (s : EngineSessionService H R)
    → IsSound s
    → IsServed (run ops s) × (IsConsistent (run ops s) ⊎ EnsureFails ops s)
run-IsConsistent ops s sound =
    (runs-IsServed ops s (sound-IsServed s sound), runs-IsSound ops s sound)
