-- ===== src/Cmd.antt =====
-- cmd/main.go: the configuration that the program starts with, and the packages that it asks for it.
pub mod ClusterDomain
pub mod Defaults
pub mod Logger
pub mod Parse
pub mod Run
use spire_controller_manager.Prelude.{Str, Bool, Option, List}
use spire_controller_manager.ManagerConfig.{ControllerManagerConfig}
use spire_controller_manager.ManagerConfig.Loader.{Loading, Options, LoadError}
use spire_controller_manager.SpireEntry.Config.{ReconcileConfig}

-- strings.ToLower, net.LookupCNAME of the default service, regexp.Compile, text/template and zap
pub record Environment : Type 1 where
  pub Regex : Type 0
  pub Template : Type 0
  pub Level : Type 0
  pub Encoder : Type 0
  pub to_lower : Str → Str
  pub lookup_cname : Option Str
  pub compile : Str → Option Regex
  pub parse_template : Str → Option Template
  pub debug_level : Level
  pub info_level : Level
  pub warn_level : Level
  pub error_level : Level
  pub console_encoder : Encoder
  pub json_encoder : Encoder

pub record Flags : Type 0 where
  pub config : Str
  pub spire_api_socket : Str
  pub expand_env : Bool

pub data LogError : Type 0 where
  invalid_log_level unrecognized_log_encoding : LogError

pub data ConfigError : Type 0 where
  not_loaded : LoadError → ConfigError
  bad_logger : LogError → ConfigError
  bad_namespace_regex address_and_socket_path address_and_socket_flag mtls_required
        bad_parent_id_template static_leader_election static_cluster_spiffe_ids cleanup_is_prefix
        trust_domain_required cluster_name_required webhook_name_required list_cache_without_prefix
        hint_filter_without_prefix :
      ConfigError

-- the struct Config
pub record Config (env : Environment) (ld : Loading) : Type 0 where
  pub ctrl_config : ControllerManagerConfig
  pub options : Options ld
  pub ignore_namespaces_regex : List env.Regex
  pub parent_id_template : Option env.Template
  pub reconcile : ReconcileConfig
