-- ===== src/ManagerConfig.antt =====
-- api/v1alpha1/controllermanagerconfig_types.go: the configuration of the controller manager, without
-- the metadata of the API type. A duration is a number of nanoseconds; a map is an association list.
pub mod Loader
use spire_controller_manager.Prelude.{Str, Bool, Option, List}
use spire_controller_manager.Prelude.Assoc.{Assoc}
use spire_controller_manager.Prelude.Int.{ℤ}
use spire_controller_manager.SpireApi.Connection.{MtlsConfig, GrpcConfig}
use spire_controller_manager.SpireEntry.Config.{ReconcileConfig}

-- configv1alpha1.LeaderElectionConfiguration, of k8s.io/component-base, as the loader reads it
pub record LeaderElectionConfiguration : Type 0 where
  pub leader_elect : Option Bool
  pub lease_duration : ℤ
  pub renew_deadline : ℤ
  pub retry_period : ℤ
  pub resource_lock : Str
  pub resource_name : Str
  pub resource_namespace : Str

pub record NamespaceConfig : Type 0 where
  pub label_selectors : Assoc Str
  pub field_selectors : Assoc Str

pub record ControllerConfigurationSpec : Type 0 where
  pub group_kind_concurrency : Assoc ℤ
  pub cache_sync_timeout : Option ℤ
  pub recover_panic : Option Bool

pub record ControllerHealth : Type 0 where
  pub health_probe_bind_address : Str
  pub readiness_endpoint_name : Str
  pub liveness_endpoint_name : Str

pub record ControllerWebhook : Type 0 where
  pub port : Option ℤ
  pub host : Str
  pub cert_dir : Str

-- `metrics` is ControllerMetrics, which has a bind address only.
pub record ControllerManagerConfigurationSpec : Type 0 where
  pub sync_period : Option ℤ
  pub leader_election : Option LeaderElectionConfiguration
  pub cache_namespace : Str
  pub cache_namespaces : Assoc (Option NamespaceConfig)
  pub graceful_shutdown_timeout : Option ℤ
  pub controller : Option ControllerConfigurationSpec
  pub metrics_bind_address : Str
  pub health : ControllerHealth
  pub webhook : ControllerWebhook
  pub class_name : Str
  pub watch_classless : Bool
  pub parent_id_template : Str
  pub reconcile : Option ReconcileConfig
  pub entry_id_prefix : Str
  pub entry_id_prefix_cleanup : Option Str
  pub static_manifest_path : Option Str
  pub expand_env_static_manifests : Bool
  pub enable_entry_render_cache : Bool
  pub entry_render_cache_size : ℤ
  pub enable_entry_list_cache : Bool
  pub entry_list_cache_reload_interval : ℤ
  pub enable_entry_list_hint_filter : Bool

pub record ControllerManagerConfig : Type 0 where
  pub spec : ControllerManagerConfigurationSpec
  pub cluster_name : Str
  pub cluster_domain : Str
  pub trust_domain : Str
  pub ignore_namespaces : List Str
  pub validating_webhook_configuration_name : Str
  pub gc_interval : ℤ
  pub spire_server_socket_path : Str
  pub spire_server_address : Str
  pub spire_server_mtls : Option MtlsConfig
  pub log_level : Str
  pub log_encoding : Str
  pub grpc : Option GrpcConfig
