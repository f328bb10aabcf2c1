-- ===== src/Scan/Holds.antt =====
-- Single holds of the lock of the session service of
-- virus_executor_service/src/service/ves_session_service.cpp, and what they keep.
use mem.Prelude.{
  ◌≢◌, ◌⊎◌, Bool-cases, inl, inr, arith, if-split, Bool, true, false, not, ◌||◌, Option, none, some,
  List, ◌∷◌, ◌≡◌, refl, sym, ◌∙◌, false-ne-true, if-kept,
}
use mem.Types.{StatusCode, BootstrapHandles}
use mem.Client.{RpcEvent}
use mem.Session.{is_ok}
use mem.Scan.Sessions.{
  host_or_new, Parts, EngineSessionService, after_start, after_ensure, ensure_session_initialized,
  start_event_publisher, after_open, open_on, publish_on,
}
use mem.Scan.Consistent.{IsConsistent, IsServed, IsSound, Op, ensure_op, EnsureFails, fails_now}

not_lem : (a : Bool) → not a ≡ false → a ≡ true
not_lem a h = ground arith

none-ne-some : {A : Type 0} {a : A} → none ≢ some a
none-ne-some = cc

pub is_left : (a b : Bool) → (not a || b) ≡ false → a ≡ true
is_left a b h = ground arith

module _ {H R : Type 0} where
  pub IsConsistent-IsServed : (s : EngineSessionService H R) → IsConsistent s → IsServed s
  IsConsistent-IsServed s c = record {
    served = c.served;
    hosted = c.hosted;
    opened = c.opened;
    unserved = c.unserved;
  }

  serving :
      (s : EngineSessionService H R) (r : R) (h : H)
      → s.rpc_server ≡ some r
      → s.session_host ≡ some h
      → s.closing ≡ false
      → s.is_initialized ≡ true
      → IsSound s
  serving s r h server host plain done = record {
    consistent = record {
      served = λ e. (r, server);
      hosted = λ e. (h, host);
      opened = λ e. plain;
      unserved = λ e. absurd (false-ne-true (sym e ∙ done));
      no_session = λ e. absurd (false-ne-true (sym e ∙ done));
      no_publisher = λ e. absurd (false-ne-true (sym e ∙ done));
    };
    no_host = λ e. absurd (false-ne-true (sym e ∙ done));
  }

  pub unserving :
      (s : EngineSessionService H R) → s.is_initialized ≡ false → s.rpc_server ≡ none → IsServed s
  unserving s not_yet server = record {
    served = λ e. absurd (false-ne-true (sym not_yet ∙ e));
    hosted = λ e. absurd (false-ne-true (sym not_yet ∙ e));
    opened = λ e. absurd (false-ne-true (sym not_yet ∙ e));
    unserved = λ e. server;
  }

  pub resting :
      (s : EngineSessionService H R)
      → s.is_initialized ≡ false
      → s.rpc_server ≡ none
      → s.session_host ≡ none
      → s.session_id ≡ 0
      → s.event_publisher_running ≡ false
      → IsSound s
  resting s not_yet server host session publisher = record {
    consistent = record {
      served = λ e. absurd (false-ne-true (sym not_yet ∙ e));
      hosted = λ e. absurd (false-ne-true (sym not_yet ∙ e));
      opened = λ e. absurd (false-ne-true (sym not_yet ∙ e));
      unserved = λ e. server;
      no_session = λ e. session;
      no_publisher = λ e. publisher;
    };
    no_host = λ e. host;
  }

  pub sound-IsServed : (s : EngineSessionService H R) → IsSound s → IsServed s
  sound-IsServed s c = IsConsistent-IsServed s c.consistent

module _ {H R : Type 0} (parts : Parts H R) where
  -- `EnsureInitialized` beyond its tests.
  start-IsServed :
      (started : StatusCode × R) (s : EngineSessionService H R) (h : H)
      → s.session_host ≡ some h
      → s.is_initialized ≡ false
      → s.closing ≡ false
      → IsServed (after_start parts started s).1
  start-IsServed (status, r) s h host not_yet plain =
      if-kept (is_ok status) (λ (x : StatusCode × EngineSessionService H R). IsServed x.1)
        (sound-IsServed _ (serving _ r h refl host plain refl)) (unserving _ not_yet refl)

  ensured-IsServed :
      (ensured : StatusCode × H) (s : EngineSessionService H R)
      → IsServed s
      → s.is_initialized ≡ false
      → s.closing ≡ false
      → IsServed (after_ensure parts ensured s).1
  ensured-IsServed (status, h) s c not_yet plain =
      if-kept (is_ok status) (λ (x : StatusCode × EngineSessionService H R). IsServed x.1)
        (start-IsServed _ (record s { session_host = some h }) h refl not_yet plain)
        (unserving _ not_yet (c.unserved not_yet))

  pub ensure-IsServed :
      (s : EngineSessionService H R) → IsServed s → IsServed (ensure_session_initialized parts s).1
  unfolding ensure_session_initialized
  ensure-IsServed s c =
      if-split s.closing (λ (x : StatusCode × EngineSessionService H R). IsServed x.1)
        (λ closing. c)
        (λ plain.
          if-split s.is_initialized (λ (x : StatusCode × EngineSessionService H R). IsServed x.1)
            (λ done. c) (λ not_yet. ensured-IsServed _ s c not_yet plain))

  start-IsSound :
      (started : StatusCode × R) (s : EngineSessionService H R) (h : H)
      → s.session_host ≡ some h
      → s.is_initialized ≡ false
      → s.closing ≡ false
      → s.session_id ≡ 0
      → s.event_publisher_running ≡ false
      → IsSound (after_start parts started s).1
  start-IsSound (status, r) s h host not_yet plain session publisher =
      if-kept (is_ok status) (λ (x : StatusCode × EngineSessionService H R). IsSound x.1)
        (serving _ r h refl host plain refl) (resting _ not_yet refl refl session publisher)

  ensured-IsSound :
      (ensured : StatusCode × H) (s : EngineSessionService H R)
      → IsSound s
      → s.is_initialized ≡ false
      → s.closing ≡ false
      → IsSound (after_ensure parts ensured s).1 ⊎ (is_ok ensured.0 ≡ false)
  ensured-IsSound (status, h) s c not_yet plain =
      if-split (is_ok status)
        (λ (x : StatusCode × EngineSessionService H R). IsSound x.1 ⊎ (is_ok status ≡ false))
        (λ fine. inl (
          start-IsSound _ (record s { session_host = some h }) h refl not_yet plain
            (c.consistent.no_session not_yet) (c.consistent.no_publisher not_yet)))
        (λ failed. inr failed)

  -- A first hold keeps the service sound, or `EnsureSession` fails in it.
  pub ensure-IsSound :
      (ops : List (Parts H R × Op)) (s : EngineSessionService H R)
      → IsSound s
      → IsSound (ensure_session_initialized parts s).1 ⊎ EnsureFails ((parts, ensure_op) ∷ ops) s
  unfolding ensure_session_initialized
  ensure-IsSound ops s c =
      let Result : StatusCode × EngineSessionService H R → Type 0 =
        λ x. IsSound x.1 ⊎ EnsureFails ((parts, ensure_op) ∷ ops) s in
      if-split s.closing Result (λ closing. inl c)
        (λ plain.
          if-split s.is_initialized Result (λ done. inl c)
            (λ not_yet.
              elim (ensured-IsSound (parts.ensure_session (host_or_new parts s.session_host)) s c
                not_yet plain) [
                  | inl sound ↦ inl sound
                  | inr failed ↦ inr (fails_now parts ops s plain not_yet failed)
                ]))

  opened-IsServed :
      (answer : (StatusCode × BootstrapHandles) × H) (s : EngineSessionService H R)
      → IsServed s
      → IsServed (after_open parts answer s).1
  unfolding start_event_publisher
  opened-IsServed ((status, handles), h) s c =
      let with_host : (t : EngineSessionService H R)
          → t.is_initialized ≡ s.is_initialized
          → t.rpc_server ≡ s.rpc_server
          → t.closing ≡ s.closing
          → t.session_host ≡ some h
          → IsServed t =
        λ t init server closing host. record {
          served = λ e. let (r, here) = c.served (sym init ∙ e) in (r, server ∙ here);
          hosted = λ e. (h, host);
          opened = λ e. closing ∙ c.opened (sym init ∙ e);
          unserved = λ e. server ∙ c.unserved (sym init ∙ e);
        } in
      if-kept (is_ok status)
        (λ (x : (StatusCode × BootstrapHandles) × EngineSessionService H R). IsServed x.1)
        (if-kept s.event_publisher_running IsServed (with_host _ refl refl refl refl)
          (with_host _ refl refl refl refl))
        (with_host _ refl refl refl refl)

  pub open-IsServed :
      (o : Option H) (handles : BootstrapHandles) (s : EngineSessionService H R)
      → IsServed s
      → IsServed (open_on parts o handles s).1
  open-IsServed none handles s c = c
  open-IsServed (some h) handles s c = opened-IsServed (parts.open_host h) s c

  opened-IsSound :
      (answer : (StatusCode × BootstrapHandles) × H) (s : EngineSessionService H R)
      → IsSound s
      → s.is_initialized ≡ true
      → IsSound (after_open parts answer s).1
  unfolding start_event_publisher
  opened-IsSound ((status, handles), h) s c done =
      let (r, server) = c.consistent.served done in
      let plain = c.consistent.opened done in
      if-kept (is_ok status)
        (λ (x : (StatusCode × BootstrapHandles) × EngineSessionService H R). IsSound x.1)
        (if-kept s.event_publisher_running IsSound (serving _ r h server refl plain done)
          (serving _ r h server refl plain done))
        (serving _ r h server refl plain done)

  pub open-IsSound :
      (o : Option H) (handles : BootstrapHandles) (s : EngineSessionService H R)
      → s.session_host ≡ o
      → IsSound s
      → IsSound (open_on parts o handles s).1
  open-IsSound none handles s here c = c
  open-IsSound (some h) handles s here c = elim (Bool-cases s.is_initialized) [
    | inl done ↦ opened-IsSound (parts.open_host h) s c done
    | inr idle ↦ absurd (none-ne-some (sym (c.no_host idle) ∙ here))
  ]

  pub publish-IsServed :
      (event : RpcEvent) (o : Option R) (s : EngineSessionService H R)
      → IsServed s
      → s.is_initialized ≡ true
      → IsServed (publish_on parts event o s).1
  publish-IsServed event none s c done = c
  publish-IsServed event (some r) s c done =
      let (h, host) = c.hosted done in
      sound-IsServed _ (serving _ (parts.publish event r).1 h refl host (c.opened done) done)

  pub publish-IsSound :
      (event : RpcEvent) (o : Option R) (s : EngineSessionService H R)
      → IsSound s
      → s.is_initialized ≡ true
      → IsSound (publish_on parts event o s).1
  publish-IsSound event none s c done = c
  publish-IsSound event (some r) s c done =
      let (h, host) = c.consistent.hosted done in
      serving _ (parts.publish event r).1 h refl host (c.consistent.opened done) done
