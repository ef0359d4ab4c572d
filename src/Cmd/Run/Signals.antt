-- ===== src/Cmd/Run/Signals.antt =====
-- The end of main in cmd/main.go where static manifests are configured.
use spire_controller_manager.Prelude.{
  Str, Bool, true, false, Option, none, some, List, [], ◌∷◌, ◌≡◌, ◌⊎◌, inl, inr, refl, ◌||◌,
  Bool-cases, arith,
}
use spire_controller_manager.Prelude.Results.{ok}
use spire_controller_manager.ManagerConfig.Loader.{Loading}
use spire_controller_manager.Cmd.{Environment, Flags, Config}
use spire_controller_manager.Cmd.Logger.{ZapOptions}
use spire_controller_manager.Cmd.Parse.{parse_config}
use spire_controller_manager.Cmd.Run.{
  Call, Deferred, Reply, Event, Outside, Outcome, succeeds, fails, panics, exits, called, undone,
  returned, failed, panicked, exited, close_client, remove_cert_dir, setup_signal_handler,
  trust_domain_from_string, unwind, execute, after_call, run, static_run, exit_if_failed,
  after_static, start, run_parsed, main, static_rest, push_deferred,
}

-- ctrl.SetupSignalHandler has been called
is_signal_event : Event → Bool
is_signal_event (called setup_signal_handler r) = true
is_signal_event e = false

unfoldable pub signals_set_up : List Event → Bool
unfolding is_signal_event
signals_set_up [] = false
signals_set_up (e ∷ h) = is_signal_event e || signals_set_up h

-- What the packages document: SetupSignalHandler panics when it is called twice, and whether a text
-- is a trust domain does not depend on what has happened.
pub record OutsideLaws (out : Outside) : Type 0 where
  pub second_setup :
      (h : List Event) → signals_set_up h ≡ true → out.reply h setup_signal_handler ≡ panics
  pub same_trust_domain :
      (h : List Event) (s : Str)
      → out.reply h (trust_domain_from_string s) ≡ out.reply [] (trust_domain_from_string s)

remembered : (e : Event) (h : List Event) → signals_set_up h ≡ true → signals_set_up (e ∷ h) ≡ true
unfolding signals_set_up
remembered e h s = ground (arith, s)

module _ (out : Outside) where
  unwind-outcome :
      (o : Outcome) (ds : List Deferred) (h : List Event)
      → ((unwind out o ds h).0 ≡ o) ⊎ ((unwind out o ds h).0 ≡ exited)
  unfolding unwind
  unwind-outcome o [] h = inl refl
  unwind-outcome o (close_client ∷ ds) h = unwind-outcome o ds _
  unwind-outcome o (remove_cert_dir ∷ ds) h = elim (Bool-cases (out.remove_fails h)) [
    | inl y ↦ rw y (inr refl)
    | inr n ↦ rw n (unwind-outcome o ds _)
  ]

  unwind-signals :
      (o : Outcome) (ds : List Deferred) (h : List Event)
      → signals_set_up h ≡ true
      → signals_set_up ((unwind out o ds h).1) ≡ true
  unfolding unwind signals_set_up is_signal_event
  unwind-signals o [] h s = s
  unwind-signals o (close_client ∷ ds) h s = unwind-signals o ds (undone close_client ∷ h) s
  unwind-signals o (remove_cert_dir ∷ ds) h s = elim (Bool-cases (out.remove_fails h)) [
    | inl y ↦ rw y s
    | inr n ↦ rw n (unwind-signals o ds (undone remove_cert_dir ∷ h) s)
  ]

  after_call-signals :
      (r : Reply) (ds : List Deferred) (h : List Event) (rest : Outcome × List Event)
      → signals_set_up h ≡ true
      → signals_set_up (rest.1) ≡ true
      → signals_set_up ((after_call out r ds h rest).1) ≡ true
  unfolding after_call
  after_call-signals succeeds ds h rest s t = t
  after_call-signals fails ds h rest s t = unwind-signals failed ds h s
  after_call-signals panics ds h rest s t = unwind-signals panicked ds h s
  after_call-signals exits ds h rest s t = s

  -- once the handler is set up, it stays so
  execute-signals :
      (cs : List Call) (ds : List Deferred) (h : List Event)
      → signals_set_up h ≡ true
      → signals_set_up ((execute out cs ds h).1) ≡ true
  unfolding execute
  execute-signals [] ds h s = unwind-signals returned ds h s
  execute-signals (c ∷ cs) ds h s =
      after_call-signals (out.reply h c) ds (called c (out.reply h c) ∷ h)
        (execute out cs (push_deferred c ds) (called c (out.reply h c) ∷ h)) (remembered _ h s)
        (execute-signals cs (push_deferred c ds) (called c (out.reply h c) ∷ h) (remembered _ h s))

  after_call-returned :
      (r : Reply) (ds : List Deferred) (h : List Event) (rest : Outcome × List Event)
      → (after_call out r ds h rest).0 ≡ returned
      → (r ≡ succeeds) × ((rest.0) ≡ returned)
  unfolding after_call
  after_call-returned succeeds ds h rest e = (refl, e)
  after_call-returned fails ds h rest e =
      absurd (elim (unwind-outcome failed ds h) [ inl a ↦ cc | inr a ↦ cc ])
  after_call-returned panics ds h rest e =
      absurd (elim (unwind-outcome panicked ds h) [ inl a ↦ cc | inr a ↦ cc ])
  after_call-returned exits ds h rest e = cc

  execute-returned :
      (c : Call) (cs : List Call) (ds : List Deferred) (h : List Event)
      → (execute out (c ∷ cs) ds h).0 ≡ returned
      → out.reply h c ≡ succeeds
  unfolding execute
  execute-returned c cs ds h e = (after_call-returned (out.reply h c) ds _ _ e).0

  execute-step :
      (c : Call) (cs : List Call) (ds : List Deferred) (h : List Event)
      → out.reply h c ≡ succeeds
      → execute out (c ∷ cs) ds h ≡ execute out cs (push_deferred c ds) (called c succeeds ∷ h)
  unfolding execute after_call
  execute-step c cs ds h e = rw e refl

  execute-set_up :
      (cs : List Call) (ds : List Deferred) (h : List Event)
      → signals_set_up ((execute out (setup_signal_handler ∷ cs) ds h).1) ≡ true
  unfolding execute signals_set_up is_signal_event
  execute-set_up cs ds h =
      let h' = called setup_signal_handler (out.reply h setup_signal_handler) ∷ h in
      after_call-signals (out.reply h setup_signal_handler) ds h' (execute out cs ds h') refl
        (execute-signals cs ds h' refl)

  set_up_second :
      (c : Call) (cs : List Call)
      → (execute out (c ∷ setup_signal_handler ∷ cs) [] []).0 ≡ returned
      → signals_set_up ((execute out (c ∷ setup_signal_handler ∷ cs) [] []).1) ≡ true
  set_up_second c cs e =
      rw
        (execute-step c (setup_signal_handler ∷ cs) [] []
          (execute-returned c (setup_signal_handler ∷ cs) [] [] e))
        (execute-set_up cs (push_deferred c []) (called c succeeds ∷ []))

module _ (out : Outside) (laws : OutsideLaws out) {env : Environment} {ld : Loading}
    (webhooks : Bool) (c : Config env ld) where
  static_run-signals :
      (static_run out c []).0 ≡ returned → signals_set_up ((static_run out c []).1) ≡ true
  unfolding static_run
  static_run-signals e =
      set_up_second out (trust_domain_from_string c.ctrl_config.trust_domain) (static_rest c) e

  run_again-panics :
      (h : List Event)
      → signals_set_up h ≡ true
      → out.reply [] (trust_domain_from_string c.ctrl_config.trust_domain) ≡ succeeds
      → (run out webhooks c h).0 ≡ panicked
  unfolding run execute after_call unwind
  run_again-panics h s t =
      rw
        (
          laws.same_trust_domain h c.ctrl_config.trust_domain,
          t,
          laws.second_setup
              (called (trust_domain_from_string c.ctrl_config.trust_domain) succeeds ∷ h)
              (remembered (called (trust_domain_from_string c.ctrl_config.trust_domain) succeeds) h
                s),
        )
        refl

  trust_domain_taken :
      (static_run out c []).0 ≡ returned
      → out.reply [] (trust_domain_from_string c.ctrl_config.trust_domain) ≡ succeeds
  unfolding static_run
  trust_domain_taken e =
      execute-returned out (trust_domain_from_string c.ctrl_config.trust_domain)
        (setup_signal_handler ∷ static_rest c) [] [] e

  after_static-panics :
      (r : Outcome × List Event)
      → r.0 ≡ returned
      → signals_set_up (r.1) ≡ true
      → out.reply [] (trust_domain_from_string c.ctrl_config.trust_domain) ≡ succeeds
      → (after_static out webhooks c r).0 ≡ panicked
  unfolding after_static exit_if_failed
  after_static-panics (returned, h) e s t =
      panics_kept (run out webhooks c h) (run_again-panics h s t)
    where
      panics_kept : (r : Outcome × List Event) → r.0 ≡ panicked → (exit_if_failed r).0 ≡ panicked
      panics_kept (panicked, h) e = refl
      panics_kept (returned, h) e = cc
      panics_kept (failed, h) e = cc
      panics_kept (exited, h) e = cc
  after_static-panics (failed, h) e s t = cc
  after_static-panics (panicked, h) e s t = cc
  after_static-panics (exited, h) e s t = cc

  start-panics :
      (path : Option Str) (p : Str)
      → path ≡ some p
      → (static_run out c []).0 ≡ returned
      → (start out webhooks c path).0 ≡ panicked
  unfolding start
  start-panics none p e r = cc
  start-panics (some path) p e r =
      after_static-panics (static_run out c []) r (static_run-signals r) (trust_domain_taken r)

module _ (out : Outside) (laws : OutsideLaws out) {env : Environment} {ld : Loading} where
  -- Where static manifests are configured, main does not end well: when staticRun returns without an
  -- error, run sets up the signal handler again, and main panics.
  pub main-static_panics :
      (webhooks : Bool) (flags : Flags) (opts : ZapOptions env) (c : Config env ld) (path : Str)
      → parse_config flags opts ≡ ok c
      → c.ctrl_config.spec.static_manifest_path ≡ some path
      → (static_run out c []).0 ≡ returned
      → (main env ld out webhooks flags opts).0 ≡ panicked
  unfolding main run_parsed
  main-static_panics webhooks flags opts c path e s r =
      rw e (start-panics out laws webhooks c c.ctrl_config.spec.static_manifest_path path s r)
