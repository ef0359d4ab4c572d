-- ===== src/Cmd/Run.antt =====
-- cmd/main.go: main, run, staticRun and dialSPIREServer, as sequences of the calls that may fail.
-- The packages that they call answer each call, given all that has happened before; what is logged
-- and the arguments of the reconcilers and controllers are not modelled.
pub mod Closing
pub mod Signals
use spire_controller_manager.Prelude.{
  Str, is_empty, not, ◌||◌, ◌++◌, Bool, Option, none, some, List, [], ◌∷◌, if◌then◌else◌,
}
use spire_controller_manager.Prelude.Results.{Result, ok, err}
use spire_controller_manager.ManagerConfig.{ControllerManagerConfig}
use spire_controller_manager.ManagerConfig.Loader.{Loading}
use spire_controller_manager.SpireEntry.Config.{ReconcileConfig}
use spire_controller_manager.Cmd.{Environment, Flags, Config, ConfigError}
use spire_controller_manager.Cmd.Logger.{ZapOptions}
use spire_controller_manager.Cmd.Parse.{parse_config}

pub data Controller : Type 0 where
  federated_trust_domain_controller spiffe_id_controller static_entry_controller pod_controller
        endpoints_controller :
      Controller

pub data Runnable : Type 0 where
  entry_reconciler federation_relationship_reconciler webhook_manager : Runnable

pub data Call : Type 0 where
  trust_domain_from_string : Str → Call
  dial_mtls dial_socket : Str → Call
  setup_signal_handler make_cert_dir in_cluster_config new_for_config webhook_id webhook_init
        get_config_or_die new_manager federated_trust_domain_webhook spiffe_id_webhook
        add_healthz_check add_readyz_check wait start_manager :
      Call
  setup_controller : Controller → Call
  add_runnable go_run : Runnable → Call

-- the calls that are deferred
pub data Deferred : Type 0 where
  close_client remove_cert_dir : Deferred

-- a call returns, returns an error, panics, or ends the process
pub data Reply : Type 0 where
  succeeds fails panics exits : Reply

pub data Event : Type 0 where
  called : Call → Reply → Event
  undone : Deferred → Event

-- what the outside answers, given the events so far, the last one first
pub record Outside : Type 0 where
  pub reply : List Event → Call → Reply
  -- os.RemoveAll returns an error
  pub remove_fails : List Event → Bool

pub data Outcome : Type 0 where
  returned failed panicked exited : Outcome

-- the undoing that a successful call defers
abbrev pub push_deferred : Call → List Deferred → List Deferred
push_deferred (dial_mtls address) ds = close_client ∷ ds
push_deferred (dial_socket path) ds = close_client ∷ ds
push_deferred make_cert_dir ds = remove_cert_dir ∷ ds
push_deferred c ds = ds

-- the deferred calls, last one first; a directory that cannot be removed ends the process
unfoldable pub unwind : Outside → Outcome → List Deferred → List Event → Outcome × List Event
unwind out o [] h = (o, h)
unwind out o (close_client ∷ ds) h = unwind out o ds (undone close_client ∷ h)
unwind out o (remove_cert_dir ∷ ds) h =
    let rest = unwind out o ds (undone remove_cert_dir ∷ h) in
    if out.remove_fails h then (exited, undone remove_cert_dir ∷ h) else rest

after_call :
    Outside → Reply → List Deferred → List Event → Outcome × List Event → Outcome × List Event
unfolding unwind
after_call out succeeds ds h rest = rest
after_call out fails ds h rest = unwind out failed ds h
after_call out panics ds h rest = unwind out panicked ds h
after_call out exits ds h rest = (exited, h)

-- the calls in order, up to the first that does not succeed
unfoldable pub execute : Outside → List Call → List Deferred → List Event → Outcome × List Event
unfolding after_call unwind
execute out [] ds h = unwind out returned ds h
execute out (c ∷ cs) ds h =
    let reply = out.reply h c in
    after_call out reply ds (called c reply ∷ h)
      (execute out cs (push_deferred c ds) (called c reply ∷ h))

abbrev pub when : Bool → List Call → List Call
when b calls = if b then calls else []

abbrev pub dial_spire_server : ControllerManagerConfig → Call
dial_spire_server c =
    if not (is_empty c.spire_server_address)
    then dial_mtls c.spire_server_address
    else dial_socket c.spire_server_socket_path

-- what run does where webhooks are enabled
abbrev pub webhook_calls : List Call
webhook_calls = make_cert_dir ∷ in_cluster_config ∷ new_for_config ∷ webhook_id ∷ webhook_init ∷ []

-- what run does with the manager, up to its start
abbrev pub manager_calls : Bool → ReconcileConfig → List Call
manager_calls webhooks r =
    get_config_or_die
      ∷ new_manager
      ∷ when r.cluster_federated_trust_domains
          (setup_controller federated_trust_domain_controller ∷ [])
    ++ (when r.cluster_spiffe_ids (setup_controller spiffe_id_controller ∷ [])
        ++ (when r.cluster_static_entries (setup_controller static_entry_controller ∷ [])
            ++ (when webhooks (federated_trust_domain_webhook ∷ spiffe_id_webhook ∷ [])
                ++ (when r.cluster_spiffe_ids
                      (setup_controller pod_controller ∷ setup_controller endpoints_controller ∷ [])
                    ++ (when (r.cluster_spiffe_ids || r.cluster_static_entries)
                          (add_runnable entry_reconciler ∷ [])
                        ++ (when r.cluster_federated_trust_domains
                              (add_runnable federation_relationship_reconciler ∷ [])
                            ++ (when webhooks (add_runnable webhook_manager ∷ [])
                                ++ (add_healthz_check ∷ add_readyz_check ∷ start_manager
                                    ∷ []))))))))

-- if err := run(mainConfig); err != nil { os.Exit(1) }
exit_if_failed : Outcome × List Event → Outcome × List Event
exit_if_failed (failed, h) = (exited, h)
exit_if_failed (o, h) = (o, h)

module _ {env : Environment} {ld : Loading} where
  abbrev pub run_calls : Bool → Config env ld → List Call
  run_calls webhooks c =
      trust_domain_from_string c.ctrl_config.trust_domain
        ∷ setup_signal_handler
        ∷ dial_spire_server c.ctrl_config
        ∷ when webhooks webhook_calls
      ++ manager_calls webhooks c.reconcile

  -- what staticRun does behind the signal handler
  abbrev pub static_rest : Config env ld → List Call
  static_rest c =
      dial_spire_server c.ctrl_config
        ∷ new_manager
        ∷ when c.reconcile.cluster_static_entries (go_run entry_reconciler ∷ [])
      ++ (when c.reconcile.cluster_federated_trust_domains
            (go_run federation_relationship_reconciler ∷ [])
          ++ (add_healthz_check ∷ add_readyz_check ∷ wait ∷ start_manager ∷ []))

  abbrev pub static_calls : Config env ld → List Call
  static_calls c =
      trust_domain_from_string c.ctrl_config.trust_domain ∷ setup_signal_handler ∷ static_rest c

  unfoldable pub run : Outside → Bool → Config env ld → List Event → Outcome × List Event
  unfolding execute
  run out webhooks c h = execute out (run_calls webhooks c) [] h

  unfoldable pub static_run : Outside → Config env ld → List Event → Outcome × List Event
  unfolding execute
  static_run out c h = execute out (static_calls c) [] h

  -- what main does behind staticRun
  after_static : Outside → Bool → Config env ld → Outcome × List Event → Outcome × List Event
  unfolding run exit_if_failed
  after_static out webhooks c (returned, h) = exit_if_failed (run out webhooks c h)
  after_static out webhooks c (o, h) = exit_if_failed (o, h)

  start : Outside → Bool → Config env ld → Option Str → Outcome × List Event
  unfolding static_run run after_static exit_if_failed
  start out webhooks c none = exit_if_failed (run out webhooks c [])
  start out webhooks c (some path) = after_static out webhooks c (static_run out c [])

  run_parsed : Outside → Bool → Result ConfigError (Config env ld) → Outcome × List Event
  unfolding start
  run_parsed out webhooks (err e) = (exited, [])
  run_parsed out webhooks (ok c) = start out webhooks c c.ctrl_config.spec.static_manifest_path

module _ (env : Environment) (ld : Loading) where
  -- main, with ENABLE_WEBHOOKS, the flags, and the log options of the flags
  unfoldable pub main : Outside → Bool → Flags → ZapOptions env → Outcome × List Event
  unfolding run_parsed
  main out webhooks flags opts = run_parsed {ld = ld} out webhooks (parse_config flags opts)
