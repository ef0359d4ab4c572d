-- ===== src/Cmd/Defaults.antt =====
-- cmd/main.go: the values that parseConfig begins with.
use spire_controller_manager.Prelude.{◌*◌, Str, codes, false, none, [], ◌∷◌}
use spire_controller_manager.Prelude.Int.{ℤ, pos}
use spire_controller_manager.ManagerConfig.{
  ControllerManagerConfig, ControllerManagerConfigurationSpec,
}
use spire_controller_manager.ManagerConfig.Loader.{Loading, Options}

abbrev pub default_spire_server_socket_path : Str
default_spire_server_socket_path = codes "/spire-server/api.sock"

-- ten seconds
abbrev pub default_gc_interval : ℤ
default_gc_interval = pos (10 * 1000000000)

-- the zero value of the part of the configuration that has no defaults
abbrev pub zero_spec : ControllerManagerConfigurationSpec
zero_spec = record {
  sync_period = none;
  leader_election = none;
  cache_namespace = [];
  cache_namespaces = [];
  graceful_shutdown_timeout = none;
  controller = none;
  metrics_bind_address = [];
  health = record {
    health_probe_bind_address = [];
    readiness_endpoint_name = [];
    liveness_endpoint_name = [];
  };
  webhook = record { port = none; host = []; cert_dir = [] };
  class_name = [];
  watch_classless = false;
  parent_id_template = [];
  reconcile = none;
  entry_id_prefix = [];
  entry_id_prefix_cleanup = none;
  static_manifest_path = none;
  expand_env_static_manifests = false;
  enable_entry_render_cache = false;
  entry_render_cache_size = pos 0;
  enable_entry_list_cache = false;
  entry_list_cache_reload_interval = pos 0;
  enable_entry_list_hint_filter = false;
}

-- "Set default values"
abbrev pub default_config : ControllerManagerConfig
default_config = record {
  spec = zero_spec;
  cluster_name = [];
  cluster_domain = [];
  trust_domain = [];
  ignore_namespaces = codes "kube-system" ∷ codes "kube-public" ∷ codes "spire-system" ∷ [];
  validating_webhook_configuration_name = codes "spire-controller-manager-webhook";
  gc_interval = default_gc_interval;
  spire_server_socket_path = [];
  spire_server_address = [];
  spire_server_mtls = none;
  log_level = codes "info";
  log_encoding = codes "console";
  grpc = none;
}

module _ {ld : Loading} where
  abbrev pub zero_options : Options ld
  zero_options = record {
    leader_election = false;
    leader_election_resource_lock = [];
    leader_election_namespace = [];
    leader_election_id = [];
    lease_duration = none;
    renew_deadline = none;
    retry_period = none;
    sync_period = none;
    default_namespaces = [];
    metrics_bind_address = [];
    health_probe_bind_address = [];
    readiness_endpoint_name = [];
    liveness_endpoint_name = [];
    cache_sync_timeout = pos 0;
    group_kind_concurrency = [];
  }
