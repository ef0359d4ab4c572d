-- ===== src/Examples/Startup.antt =====
-- The configuration, the connection and main.
use spire_controller_manager.Prelude.{
  ℕ, suc, ◌-◌, Str, str_eq, codes, true, false, none, some, List, [], ◌≡◌, refl, sym, ap,
  if◌then◌else◌, arith,
}
use spire_controller_manager.Prelude.Int.{pos}
use spire_controller_manager.Prelude.Results.{ok, value_or, try_all}
use spire_controller_manager.SpireApi.Connection.{Network, MtlsConfig, dial_mtls}
use spire_controller_manager.SpireApi.Connection.Closing.{Counts, closed_after, dial_mtls-closed}
use spire_controller_manager.ManagerConfig.{ControllerManagerConfigurationSpec}
use spire_controller_manager.ManagerConfig.Loader.{
  Loading, Options, add_options_from_config_spec, load_options_from_file,
}
use spire_controller_manager.ManagerConfig.Loader.Merged.{
  IsMerged, add_options_from_config_spec-IsMerged,
}
use spire_controller_manager.Cmd.{Environment, Flags, Config}
use spire_controller_manager.Cmd.Defaults.{default_config, zero_options, zero_spec}
use spire_controller_manager.Cmd.Logger.{ZapOptions, set_logger}
use spire_controller_manager.Cmd.Parse.{parse_config}
use spire_controller_manager.Cmd.ClusterDomain.{ends_with_dot}
use spire_controller_manager.Cmd.Parse.Valid.{IsValid, parse_config-IsValid}
use spire_controller_manager.Cmd.Run.{
  remove_cert_dir, Outside, Call, Event, Reply, succeeds, fails, panics, setup_signal_handler,
  webhook_init, returned, panicked, failed, run, static_run, main,
}
use spire_controller_manager.Cmd.Run.Signals.{OutsideLaws, signals_set_up, main-static_panics}
use spire_controller_manager.Cmd.Run.Closing.{acquired, released, run-released}
use spire_controller_manager.Examples.Fixtures.{plain}

abbrev environment : Environment
environment = record {
  Regex = Str;
  Template = Str;
  Level = ℕ;
  Encoder = ℕ;
  to_lower = λ s. s;
  lookup_cname = some (codes "kubernetes.default.svc.cluster.local.");
  compile = λ s. some s;
  parse_template = λ s. some s;
  debug_level = 0;
  info_level = 1;
  warn_level = 2;
  error_level = 3;
  console_encoder = 0;
  json_encoder = 1;
}

-- a file that holds a configuration with static manifests at its own text
abbrev loading : Loading
loading = record {
  LabelSelector = ℕ;
  FieldSelector = ℕ;
  label_selector_from_set = λ s. 0;
  field_selector_from_set = λ s. 0;
  read_file = λ p. some p;
  expand_env = λ s. s;
  decode_into = λ s c. some (record c {
    trust_domain = codes "a.org";
    cluster_name = codes "demo";
    spec = record zero_spec {
      entry_id_prefix = codes "demo";
      entry_id_prefix_cleanup = some [];
      enable_entry_list_cache = true;
      static_manifest_path = some s;
    };
  });
}

abbrev flags : Flags
flags = record { config = codes "/etc/m.yaml"; spire_api_socket = []; expand_env = false }

abbrev zap_options : ZapOptions environment
zap_options = record { level = none; encoder = none }

abbrev parsed : Config environment loading
parsed =
    value_or
      record {
        ctrl_config = default_config;
        options = zero_options;
        ignore_namespaces_regex = [];
        parent_id_template = none;
        reconcile = record {
          cluster_spiffe_ids = true;
          cluster_federated_trust_domains = true;
          cluster_static_entries = true;
        };
      }
      (parse_config flags zap_options)

is_parsed : parse_config {ld = loading} flags zap_options ≡ ok parsed
unfolding parse_config value_or load_options_from_file try_all set_logger str_eq ends_with_dot
is_parsed = refl

parse_config-IsValid_example : IsValid parsed
parse_config-IsValid_example = parse_config-IsValid flags zap_options parsed is_parsed

-- every call succeeds but a second setup of the signal handler, and the webhook's initialisation
reply_to : List Event → Call → Reply
unfolding signals_set_up
reply_to h setup_signal_handler = if signals_set_up h then panics else succeeds
reply_to h webhook_init = fails
reply_to h c = succeeds

abbrev outside : Outside
outside = record { reply = reply_to; remove_fails = λ h. false }

outside_laws : OutsideLaws outside
unfolding reply_to
outside_laws = record { second_setup = λ h e. rw e refl; same_trust_domain = λ h s. refl }

statically_run : (static_run outside parsed []).0 ≡ returned
unfolding static_run reply_to signals_set_up parse_config value_or load_options_from_file try_all
    set_logger str_eq ends_with_dot
statically_run = refl

is_static : parsed.ctrl_config.spec.static_manifest_path ≡ some flags.config
unfolding parse_config value_or load_options_from_file try_all set_logger str_eq ends_with_dot
is_static = refl

main-static_panics_example : (main environment loading outside true flags zap_options).0 ≡ panicked
main-static_panics_example =
    main-static_panics outside outside_laws true flags zap_options parsed flags.config is_parsed
      is_static statically_run

run_fails : (run outside true parsed []).0 ≡ failed
unfolding run reply_to signals_set_up parse_config value_or load_options_from_file try_all
    set_logger str_eq ends_with_dot
run_fails = refl

run-released_example :
    released remove_cert_dir ((run outside true parsed []).1)
    ≡ acquired remove_cert_dir ((run outside true parsed []).1)
run-released_example = run-released outside remove_cert_dir true parsed (λ e. cc (run_fails, e))

-- a world of ten sources, in which gRPC cannot be dialed
abbrev network : Network plain ℕ
network = record {
  Creds = ℕ;
  Source = ℕ;
  Svid = ℕ;
  Bundle = ℕ;
  Conn = ℕ;
  insecure = 0;
  new_x509_source = λ path w. (some w, suc w);
  close_source = λ s w. w - 1;
  load_svid = λ c k w. none;
  load_bundle = λ td p w. none;
  source_credentials = λ s id. s;
  static_credentials = λ s b id. s;
  new_client = λ t os w. (none, w);
  close_conn = λ c w. w;
}

counted : Counts network (λ w. w)
counted = record {
  new_source = λ path w s w' e. sym (ap (λ r. r.1) e);
  no_source = λ path w w' e. cc (e);
  closed = λ s w e. omega (arith, e);
  client = λ t os w. refl;
  conn_closed = λ c w. refl;
}

abbrev mtls : MtlsConfig
mtls = record {
  workload_api_socket_path = codes "/run/agent.sock";
  cert_path = [];
  key_path = [];
  bundle_path = [];
  server_spiffe_id = codes "spiffe://a.org/spire/server";
}

dial_mtls-closed_example :
    closed_after network
      (λ w. w)
      counted
      (dial_mtls network (codes "spire:8081") (some mtls) none 10)
    ≡ 10
dial_mtls-closed_example =
    dial_mtls-closed network (λ w. w) counted (codes "spire:8081") (some mtls) none 10

-- leader election in a file
abbrev with_leader : ControllerManagerConfigurationSpec
with_leader = record zero_spec {
  leader_election = some (record {
    leader_elect = some true;
    lease_duration = pos 15;
    renew_deadline = pos 0;
    retry_period = pos 2;
    resource_lock = codes "leases";
    resource_name = codes "manager";
    resource_namespace = [];
  });
  cache_namespace = codes "apps";
  sync_period = some (pos 9);
}

-- the ID of the lock is set already
abbrev set_before : Options loading
set_before = record zero_options { leader_election_id = codes "mine" }

abbrev options : Options loading
options = value_or zero_options (add_options_from_config_spec loading set_before with_leader)

added : add_options_from_config_spec loading set_before with_leader ≡ ok options
unfolding add_options_from_config_spec value_or
added = refl

add_options_from_config_spec-IsMerged_example :
    IsMerged loading with_leader set_before options
    × (add_options_from_config_spec loading options with_leader ≡ ok options)
add_options_from_config_spec-IsMerged_example =
    add_options_from_config_spec-IsMerged loading with_leader set_before options added
