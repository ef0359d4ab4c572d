-- ===== src/ManagerConfig/Loader.antt =====
-- api/v1alpha1/controllermanagerconfig_loader.go: the options of the manager from the file. Reading
-- and decoding the file, and the selectors of the package cache, are parameters.
pub mod Again
pub mod Merged
use spire_controller_manager.Prelude.{
  Str, Bool, true, false, not, ◌&&◌, Option, none, some, List, [], ◌∷◌, is_empty, if◌then◌else◌,
  map,
}
use spire_controller_manager.Prelude.Assoc.{Assoc}
use spire_controller_manager.Prelude.Int.{ℤ, pos, eqb_ℤ}
use spire_controller_manager.Prelude.Results.{Result, ok, err, ◌>>=◌, or_fail}
use spire_controller_manager.ManagerConfig.{
  ControllerManagerConfig, ControllerManagerConfigurationSpec, LeaderElectionConfiguration,
  NamespaceConfig, ControllerConfigurationSpec,
}

-- os.ReadFile, os.ExpandEnv, runtime.DecodeInto, and SelectorFromSet of labels and of fields
pub record Loading : Type 1 where
  pub LabelSelector : Type 0
  pub FieldSelector : Type 0
  pub label_selector_from_set : Assoc Str → LabelSelector
  pub field_selector_from_set : Assoc Str → FieldSelector
  pub read_file : Str → Option Str
  pub expand_env : Str → Str
  pub decode_into : Str → ControllerManagerConfig → Option ControllerManagerConfig

pub data LoadError : Type 0 where
  could_not_read could_not_decode both_cache_namespaces : LoadError

module _ (ld : Loading) where
  -- cache.Config, as far as the loader sets it
  pub record CacheConfig : Type 0 where
    pub label_selector : Option ld.LabelSelector
    pub field_selector : Option ld.FieldSelector

  -- ctrl.Options, as far as the program sets it
  pub record Options : Type 0 where
    pub leader_election : Bool
    pub leader_election_resource_lock : Str
    pub leader_election_namespace : Str
    pub leader_election_id : Str
    pub lease_duration : Option ℤ
    pub renew_deadline : Option ℤ
    pub retry_period : Option ℤ
    pub sync_period : Option ℤ
    pub default_namespaces : Assoc CacheConfig
    pub metrics_bind_address : Str
    pub health_probe_bind_address : Str
    pub readiness_endpoint_name : Str
    pub liveness_endpoint_name : Str
    pub cache_sync_timeout : ℤ
    pub group_kind_concurrency : Assoc ℤ

-- if o == "" && c != "" { o = c }
unfoldable pub text_or : Str → Str → Str
text_or o c = if is_empty o && not (is_empty c) then c else o

-- if !o && c != nil { o = *c }
unfoldable pub flag_or : Bool → Option Bool → Bool
flag_or false (some b) = b
flag_or o _ = o

-- if o == nil && c != nil { o = c }
unfoldable pub pointer_or : Option ℤ → Option ℤ → Option ℤ
pointer_or none c = c
pointer_or (some d) c = some d

-- if o == nil && c != 0 { o = &c }
unfoldable pub duration_or : Option ℤ → ℤ → Option ℤ
duration_or none c = if eqb_ℤ c (pos 0) then none else some c
duration_or (some d) c = some d

-- if o == 0 && c != nil { o = *c }
unfoldable pub timeout_or : ℤ → Option ℤ → ℤ
timeout_or o none = o
timeout_or o (some c) = if eqb_ℤ o (pos 0) then c else o

-- if len(o) == 0 && len(c) > 0 { o = c }
unfoldable pub map_or : Assoc ℤ → Assoc ℤ → Assoc ℤ
map_or [] c = c
map_or (e ∷ o) c = e ∷ o

module _ (ld : Loading) where
  -- if len(set) > 0 { selector = SelectorFromSet(set) }
  selector_of : {S : Type 0} → (Assoc Str → S) → Assoc Str → Option S
  selector_of f [] = none
  selector_of f (e ∷ set) = some (f (e ∷ set))

  cache_config : Option NamespaceConfig → CacheConfig ld
  unfolding selector_of
  cache_config none = record { label_selector = none; field_selector = none }
  cache_config (some o) = record {
    label_selector = selector_of ld.label_selector_from_set o.label_selectors;
    field_selector = selector_of ld.field_selector_from_set o.field_selectors;
  }

  config_namespaces :
      Str → Assoc (Option NamespaceConfig) → Result LoadError (Assoc (CacheConfig ld))
  unfolding cache_config
  config_namespaces [] [] = ok []
  config_namespaces [] (e ∷ es) = ok (map (λ p. (p.0, cache_config (p.1))) (e ∷ es))
  config_namespaces (c ∷ ns) [] =
      ok ((c ∷ ns, record { label_selector = none; field_selector = none }) ∷ [])
  config_namespaces (c ∷ ns) (e ∷ es) = err both_cache_namespaces

  -- if len(o.Cache.DefaultNamespaces) == 0 { switch ... }
  unfoldable pub namespaces_or :
      Assoc (CacheConfig ld)
      → ControllerManagerConfigurationSpec
      → Result LoadError (Assoc (CacheConfig ld))
  unfolding config_namespaces
  namespaces_or [] c = config_namespaces c.cache_namespace c.cache_namespaces
  namespaces_or (e ∷ o) c = ok (e ∷ o)

  leader_election_from : Options ld → Option LeaderElectionConfiguration → Options ld
  unfolding flag_or text_or duration_or
  leader_election_from o none = o
  leader_election_from o (some l) = record o {
    leader_election = flag_or o.leader_election l.leader_elect;
    leader_election_resource_lock = text_or o.leader_election_resource_lock l.resource_lock;
    leader_election_namespace = text_or o.leader_election_namespace l.resource_namespace;
    leader_election_id = text_or o.leader_election_id l.resource_name;
    lease_duration = duration_or o.lease_duration l.lease_duration;
    renew_deadline = duration_or o.renew_deadline l.renew_deadline;
    retry_period = duration_or o.retry_period l.retry_period;
  }

  unfoldable pub set_leader_election_config :
      Options ld → ControllerManagerConfigurationSpec → Options ld
  unfolding leader_election_from
  set_leader_election_config o c = leader_election_from o c.leader_election

  controller_from : Options ld → Option ControllerConfigurationSpec → Options ld
  unfolding timeout_or map_or
  controller_from o none = o
  controller_from o (some c) = record o {
    cache_sync_timeout = timeout_or o.cache_sync_timeout c.cache_sync_timeout;
    group_kind_concurrency = map_or o.group_kind_concurrency c.group_kind_concurrency;
  }

  unfoldable pub merge_options :
      Options ld → ControllerManagerConfigurationSpec → Assoc (CacheConfig ld) → Options ld
  unfolding set_leader_election_config pointer_or text_or controller_from
  merge_options o c namespaces =
      controller_from
        (record (set_leader_election_config o c) {
          sync_period = pointer_or o.sync_period c.sync_period;
          default_namespaces = namespaces;
          metrics_bind_address = text_or o.metrics_bind_address c.metrics_bind_address;
          health_probe_bind_address =
              text_or o.health_probe_bind_address c.health.health_probe_bind_address;
          readiness_endpoint_name =
              text_or o.readiness_endpoint_name c.health.readiness_endpoint_name;
          liveness_endpoint_name = text_or o.liveness_endpoint_name c.health.liveness_endpoint_name;
        })
        c.controller

  unfoldable pub add_options_from_config_spec :
      Options ld → ControllerManagerConfigurationSpec → Result LoadError (Options ld)
  unfolding merge_options namespaces_or
  add_options_from_config_spec o c =
      namespaces_or o.default_namespaces c >>= λ namespaces. ok (merge_options o c namespaces)

  unfoldable pub load_file :
      Str → ControllerManagerConfig → Bool → Result LoadError ControllerManagerConfig
  load_file path config expand = or_fail (ld.read_file path) could_not_read >>= λ content.
      or_fail (ld.decode_into (if expand then ld.expand_env content else content) config)
        could_not_decode

  unfoldable pub load_options_from_file :
      Str
      → Options ld
      → ControllerManagerConfig
      → Bool
      → Result LoadError (Options ld × ControllerManagerConfig)
  unfolding load_file add_options_from_config_spec
  load_options_from_file path o config expand = load_file path config expand >>= λ config.
      add_options_from_config_spec o config.spec >>= λ o. ok (o, config)
