-- ===== src/Cmd/Parse.antt =====
-- cmd/main.go: addDotSuffix and parseConfig. Flags come parsed; what is logged is not modelled.
pub mod Valid
use spire_controller_manager.Prelude.{
  ℕ, ◌*◌, Str, codes, str_eq, is_empty, not, ◌&&◌, ◌||◌, ◌++◌, Bool, true, false, Option, none,
  some, List, [], ◌∷◌, if◌then◌else◌,
}
use spire_controller_manager.Prelude.Int.{ℤ, pos, ltb_ℤ}
use spire_controller_manager.Prelude.Results.{
  Result, ok, err, ◌>>=◌, ◌>>◌, fail_if, or_fail, try_all, with_error,
}
use spire_controller_manager.ManagerConfig.{
  ControllerManagerConfig, ControllerManagerConfigurationSpec,
}
use spire_controller_manager.ManagerConfig.Loader.{Loading, Options, load_options_from_file}
use spire_controller_manager.SpireApi.Connection.{MtlsConfig}
use spire_controller_manager.SpireEntry.Config.{ReconcileConfig}
use spire_controller_manager.Cmd.{
  Environment, Flags, Config, ConfigError, not_loaded, bad_logger, bad_namespace_regex,
  address_and_socket_path, address_and_socket_flag, mtls_required, bad_parent_id_template,
  static_leader_election, static_cluster_spiffe_ids, cleanup_is_prefix, trust_domain_required,
  cluster_name_required, webhook_name_required, list_cache_without_prefix,
  hint_filter_without_prefix,
}
use spire_controller_manager.Cmd.Defaults.{
  default_spire_server_socket_path, default_gc_interval, default_config, zero_options,
}
use spire_controller_manager.Cmd.ClusterDomain.{
  DomainError, ends_with_dot, auto_detect_cluster_domain,
}
use spire_controller_manager.Cmd.Logger.{ZapOptions, set_logger}

unfoldable pub add_dot_suffix : Str → Str
add_dot_suffix s = if not (is_empty s) && not (ends_with_dot s) then s ++ codes "." else s

-- if GCInterval <= 0 { GCInterval = defaultGCInterval }
unfoldable pub gc_interval_or_default : ℤ → ℤ
gc_interval_or_default n = if ltb_ℤ (pos 0) n then n else default_gc_interval

-- the SPIRE server's socket path that the configuration and the deprecated flag give
unfoldable pub socket_path : Str → Str → Str
socket_path [] [] = default_spire_server_socket_path
socket_path (a ∷ path) flag = a ∷ path
socket_path [] (a ∷ flag) = a ∷ flag

-- the socket path behind the checks: none with an address
unfoldable pub endpoint_path : Str → Str → Option MtlsConfig → Str → Result ConfigError Str
unfolding socket_path
endpoint_path [] path mtls flag = ok (socket_path path flag)
endpoint_path (a ∷ address) path mtls flag =
    fail_if (not (is_empty path)) address_and_socket_path
    >> (fail_if (not (is_empty flag)) address_and_socket_flag
        >> (or_fail mtls mtls_required >>= λ _. ok path))

-- "Determine the SPIRE Server API endpoint."
unfoldable pub server_endpoint :
    ControllerManagerConfig → Str → Result ConfigError ControllerManagerConfig
unfolding endpoint_path
server_endpoint c flag =
    endpoint_path c.spire_server_address c.spire_server_socket_path c.spire_server_mtls flag
    >>= λ path. ok record c { spire_server_socket_path = path }

module _ (env : Environment) (ld : Loading) where
  pub record Loaded : Type 0 where
    pub options : Options ld
    pub ctrl_config : ControllerManagerConfig
    pub regexes : List env.Regex

  -- if configFileFlag != "" { ... }
  unfoldable pub load_config : Str → Bool → Result ConfigError Loaded
  unfolding gc_interval_or_default
  load_config [] expand =
      ok record { options = zero_options; ctrl_config = default_config; regexes = [] }
  load_config (a ∷ path) expand =
      with_error not_loaded
        (load_options_from_file ld (a ∷ path) zero_options default_config expand)
      >>= λ loaded.
          try_all (λ n. or_fail (env.compile n) bad_namespace_regex) (loaded.1).ignore_namespaces
          >>= λ regexes. ok record {
            options = loaded.0;
            ctrl_config = record (loaded.1) {
              gc_interval = gc_interval_or_default (loaded.1).gc_interval;
            };
            regexes = regexes;
          }

  -- a domain that could not be detected is empty
  detected_or_empty : Result DomainError Str → Str
  detected_or_empty (ok d) = d
  detected_or_empty (err e) = []

  -- "Attempt to auto detect cluster domain if it wasn't specified"
  with_cluster_domain : ControllerManagerConfig → ControllerManagerConfig
  unfolding detected_or_empty
  with_cluster_domain c =
      if is_empty c.cluster_domain
      then record c { cluster_domain = detected_or_empty (auto_detect_cluster_domain env) }
      else c

  parse_parent_id_template : Str → Result ConfigError (Option env.Template)
  parse_parent_id_template [] = ok none
  parse_parent_id_template (a ∷ s) =
      or_fail (env.parse_template (a ∷ s)) bad_parent_id_template >>= λ t. ok (some t)

is_some : {A : Type 0} → Option A → Bool
is_some none = false
is_some (some a) = true

-- if ctrlConfig.Reconcile == nil { defaults }
unfoldable pub reconcile_or_default : Option ReconcileConfig → Option Str → ReconcileConfig
unfolding is_some
reconcile_or_default (some r) manifest = r
reconcile_or_default none manifest = record {
  cluster_spiffe_ids = not (is_some manifest);
  cluster_federated_trust_domains = true;
  cluster_static_entries = true;
}

-- the checks for static manifests, of leader election and of ClusterSPIFFEIDs
unfoldable pub static_mode : Option Str → Bool → ReconcileConfig → Result ConfigError (Unit {0})
static_mode none leader r = ok tt
static_mode (some path) leader r =
    fail_if leader static_leader_election
    >> (fail_if r.cluster_spiffe_ids static_cluster_spiffe_ids >> ok tt)

-- the cleanup prefix with its dot, if there is one, against the prefix
unfoldable pub cleanup_prefix : Str → Option Str → Result ConfigError (Option Str)
unfolding add_dot_suffix
cleanup_prefix prefix none = ok none
cleanup_prefix prefix (some s) =
    fail_if (not (is_empty prefix) && str_eq prefix (add_dot_suffix s)) cleanup_is_prefix
    >> ok (some (add_dot_suffix s))

-- the last switch
unfoldable pub required : ControllerManagerConfig → Result ConfigError ControllerManagerConfig
required c =
    fail_if (is_empty c.trust_domain) trust_domain_required
    >> (fail_if (is_empty c.cluster_name) cluster_name_required
        >> (fail_if (is_empty c.validating_webhook_configuration_name) webhook_name_required
            >> (fail_if (c.spec.enable_entry_list_cache && is_empty c.spec.entry_id_prefix)
                  list_cache_without_prefix
                >> (fail_if
                      (c.spec.enable_entry_list_hint_filter && is_empty c.spec.entry_id_prefix)
                      hint_filter_without_prefix
                    >> ok c))))

-- the configuration with the two prefixes set
abbrev with_prefixes : ControllerManagerConfig → Str → Option Str → ControllerManagerConfig
with_prefixes c prefix cleanup = record c {
  spec = record (c.spec) { entry_id_prefix = prefix; entry_id_prefix_cleanup = cleanup };
}

module _ {env : Environment} {ld : Loading} where
  -- from "Attempt to auto detect cluster domain" to the end
  unfoldable pub checked :
      Options ld → List env.Regex → ControllerManagerConfig → Result ConfigError (Config env ld)
  unfolding with_cluster_domain parse_parent_id_template reconcile_or_default static_mode
      add_dot_suffix cleanup_prefix required
  checked options regexes config =
      let c = with_cluster_domain env ld config in
      let reconcile = reconcile_or_default c.spec.reconcile c.spec.static_manifest_path in
      let prefix = add_dot_suffix c.spec.entry_id_prefix in
      parse_parent_id_template env ld c.spec.parent_id_template >>= λ template.
      static_mode c.spec.static_manifest_path options.leader_election reconcile >>= λ _.
      cleanup_prefix prefix c.spec.entry_id_prefix_cleanup >>= λ cleanup.
      required (with_prefixes c prefix cleanup) >>= λ c. ok record {
        ctrl_config = c;
        options = options;
        ignore_namespaces_regex = regexes;
        parent_id_template = template;
        reconcile = reconcile;
      }

  unfoldable pub parse_config : Flags → ZapOptions env → Result ConfigError (Config env ld)
  unfolding load_config server_endpoint checked
  parse_config flags opts = load_config env ld flags.config flags.expand_env >>= λ loaded.
      with_error bad_logger
        (set_logger env opts loaded.ctrl_config.log_level loaded.ctrl_config.log_encoding)
      >>= λ _. server_endpoint loaded.ctrl_config flags.spire_api_socket >>= λ c.
          checked loaded.options loaded.regexes c
