-- ===== src/Cmd/Parse/Valid.antt =====
-- What parseConfig of cmd/main.go promises of a configuration that it returns.
use spire_controller_manager.Prelude.{
  Str, str_eq, str_eq_iff, is_empty, not, ◌&&◌, Bool, true, false, Option, none, some, List, [],
  ◌∷◌, ◌++◌, ◌≡◌, ◌≢◌, ◌⊎◌, refl, sym, ◌∙◌, ap, inl, inr, Bool-cases, codes,
}
use mathlib.Core.Path.{subst}
use spire_controller_manager.Prelude.Int.{ℤ, pos, ltb_ℤ}
use spire_controller_manager.Prelude.Results.{
  ok, >>=-ok, fail_if-ok, ok-injective, or_fail, try_all, with_error,
}
use spire_controller_manager.ManagerConfig.{ControllerManagerConfig}
use spire_controller_manager.ManagerConfig.Loader.{Loading, Options, load_options_from_file}
use spire_controller_manager.SpireApi.Connection.{MtlsConfig}
use spire_controller_manager.SpireEntry.Config.{ReconcileConfig}
use spire_controller_manager.Cmd.{
  Environment, Flags, Config, not_loaded, bad_logger, bad_namespace_regex,
}
use spire_controller_manager.Cmd.ClusterDomain.{ends_with_dot}
use spire_controller_manager.Cmd.Logger.{ZapOptions, set_logger}
use spire_controller_manager.Cmd.Parse.{
  add_dot_suffix, gc_interval_or_default, socket_path, server_endpoint, endpoint_path, static_mode,
  cleanup_prefix, required, checked, parse_config, load_config, with_cluster_domain, with_prefixes,
  reconcile_or_default, parse_parent_id_template, Loaded,
}
use spire_controller_manager.Cmd.Defaults.{default_config, zero_options}

-- a text that is empty or ends with a dot
abbrev pub IsDotted : Str → Type 0
IsDotted s = (is_empty s ≡ true) ⊎ (ends_with_dot s ≡ true)

-- either an address with mTLS and no socket, or a socket and no address
abbrev pub HasEndpoint : Str → Str → Option MtlsConfig → Type 0
HasEndpoint [] path mtls = is_empty path ≡ false
HasEndpoint (a ∷ address) path none = ⊥
HasEndpoint (a ∷ address) path (some m) = path ≡ []

-- the cleanup prefix is dotted, and another than the prefix if there is one
abbrev pub CleanupDiffers : Str → Option Str → Type 0
CleanupDiffers prefix none = Unit
CleanupDiffers prefix (some s) = IsDotted s × ((prefix ≡ []) ⊎ (s ≢ prefix))

-- static manifests go without leader election and ClusterSPIFFEIDs
abbrev pub StaticAllows : Option Str → Bool → ReconcileConfig → Type 0
StaticAllows none leader r = Unit
StaticAllows (some path) leader r = (leader ≡ false) × (r.cluster_spiffe_ids ≡ false)

abbrev pub HasServer : ControllerManagerConfig → Type 0
HasServer c = HasEndpoint c.spire_server_address c.spire_server_socket_path c.spire_server_mtls

abbrev pub HasInterval : ControllerManagerConfig → Type 0
HasInterval c = ltb_ℤ (pos 0) c.gc_interval ≡ true

pub record IsComplete (c : ControllerManagerConfig) : Type 0 where
  pub trust_domain : is_empty c.trust_domain ≡ false
  pub cluster_name : is_empty c.cluster_name ≡ false
  pub webhook_name : is_empty c.validating_webhook_configuration_name ≡ false
  pub list_cache : (c.spec.enable_entry_list_cache && is_empty c.spec.entry_id_prefix) ≡ false
  pub hint_filter :
      (c.spec.enable_entry_list_hint_filter && is_empty c.spec.entry_id_prefix) ≡ false

pub record IsValid {env : Environment} {ld : Loading} (c : Config env ld) : Type 0 where
  pub server : HasServer c.ctrl_config
  pub interval : HasInterval c.ctrl_config
  pub complete : IsComplete c.ctrl_config
  pub dotted : IsDotted c.ctrl_config.spec.entry_id_prefix
  pub cleanup :
      CleanupDiffers c.ctrl_config.spec.entry_id_prefix c.ctrl_config.spec.entry_id_prefix_cleanup
  pub manifests :
      StaticAllows c.ctrl_config.spec.static_manifest_path c.options.leader_election c.reconcile

append_dot : (s : Str) → ends_with_dot (s ++ codes ".") ≡ true
unfolding ends_with_dot
append_dot [] = refl
append_dot (a ∷ []) = refl
append_dot (a ∷ b ∷ s) = append_dot (b ∷ s)

pub add_dot_suffix-IsDotted : (s : Str) → IsDotted (add_dot_suffix s)
unfolding add_dot_suffix
add_dot_suffix-IsDotted [] = inl refl
add_dot_suffix-IsDotted (a ∷ s) = elim (Bool-cases (ends_with_dot (a ∷ s))) [
  | inl e ↦ inr (rw (e, e) refl)
  | inr e ↦ inr (rw e (append_dot (a ∷ s)))
]

socket_path-nonempty : (path flag : Str) → is_empty (socket_path path flag) ≡ false
unfolding socket_path
socket_path-nonempty [] [] = refl
socket_path-nonempty (a ∷ path) flag = refl
socket_path-nonempty [] (a ∷ flag) = refl

endpoint_path-HasEndpoint :
    (address path : Str) (mtls : Option MtlsConfig) (flag path' : Str)
    → endpoint_path address path mtls flag ≡ ok path'
    → HasEndpoint address path' mtls
unfolding endpoint_path
endpoint_path-HasEndpoint [] path mtls flag path' h =
    subst (λ p. is_empty p ≡ false) (ok-injective h) (socket_path-nonempty path flag)
endpoint_path-HasEndpoint (a ∷ address) [] none [] path' h = cc
endpoint_path-HasEndpoint (a ∷ address) [] none (b ∷ flag) path' h = cc
endpoint_path-HasEndpoint (a ∷ address) (b ∷ path) none flag path' h = cc
endpoint_path-HasEndpoint (a ∷ address) [] (some m) [] path' h = sym (ok-injective h)
endpoint_path-HasEndpoint (a ∷ address) [] (some m) (b ∷ flag) path' h = cc
endpoint_path-HasEndpoint (a ∷ address) (b ∷ path) (some m) flag path' h = cc

-- what the stages before the last ones establish
record IsPlaced (c c' : ControllerManagerConfig) : Type 0 where
  server : HasServer c'
  same_interval : c'.gc_interval ≡ c.gc_interval
  same_domain : c'.trust_domain ≡ c.trust_domain

server_endpoint-IsPlaced :
    (c : ControllerManagerConfig) (flag : Str) (c' : ControllerManagerConfig)
    → server_endpoint c flag ≡ ok c'
    → IsPlaced c c'
unfolding server_endpoint
server_endpoint-IsPlaced c flag c' h =
    let (path, e, f) =
      >>=-ok
        (endpoint_path c.spire_server_address c.spire_server_socket_path c.spire_server_mtls flag) _
        h in
    subst (IsPlaced c) (ok-injective f) record {
      server =
          endpoint_path-HasEndpoint c.spire_server_address c.spire_server_socket_path
            c.spire_server_mtls flag path e;
      same_interval = refl;
      same_domain = refl;
    }

required-IsComplete :
    (c c' : ControllerManagerConfig) → required c ≡ ok c' → IsComplete c × (c ≡ c')
unfolding required
required-IsComplete c c' h =
    let (a, h) = fail_if-ok (is_empty c.trust_domain) _ h in
    let (b, h) = fail_if-ok (is_empty c.cluster_name) _ h in
    let (d, h) = fail_if-ok (is_empty c.validating_webhook_configuration_name) _ h in
    let (e, h) =
      fail_if-ok (c.spec.enable_entry_list_cache && is_empty c.spec.entry_id_prefix) _ h in
    let (f, h) =
      fail_if-ok (c.spec.enable_entry_list_hint_filter && is_empty c.spec.entry_id_prefix) _ h in
    (
      record {
        trust_domain = a;
        cluster_name = b;
        webhook_name = d;
        list_cache = e;
        hint_filter = f;
      },
      ok-injective h,
    )

static_mode-StaticAllows :
    (m : Option Str) (leader : Bool) (r : ReconcileConfig) {u : Unit {0}}
    → static_mode m leader r ≡ ok u
    → StaticAllows m leader r
unfolding static_mode
static_mode-StaticAllows none leader r h = tt
static_mode-StaticAllows (some m) leader r h =
    let (a, h) = fail_if-ok leader _ h in let (b, h) = fail_if-ok r.cluster_spiffe_ids _ h in (a, b)

cleanup_prefix-CleanupDiffers :
    (prefix : Str) (s o : Option Str) → cleanup_prefix prefix s ≡ ok o → CleanupDiffers prefix o
unfolding cleanup_prefix
cleanup_prefix-CleanupDiffers prefix none o h = subst (CleanupDiffers prefix) (ok-injective h) tt
cleanup_prefix-CleanupDiffers prefix (some s) o h =
    let (a, h) = fail_if-ok (not (is_empty prefix) && str_eq prefix (add_dot_suffix s)) _ h in
    subst (CleanupDiffers prefix) (ok-injective h) (add_dot_suffix-IsDotted s, differs prefix a)
  where
    differs :
        (p : Str)
        → (not (is_empty p) && str_eq p (add_dot_suffix s)) ≡ false
        → (p ≡ []) ⊎ (add_dot_suffix s ≢ p)
    differs [] a = inl refl
    differs (b ∷ p) a = inr (λ e. cc (a, (str_eq_iff (b ∷ p) (add_dot_suffix s)).1 (sym e)))

module _ (env : Environment) (ld : Loading) where
  with_cluster_domain-IsPlaced :
      (c : ControllerManagerConfig) → HasServer c → IsPlaced c (with_cluster_domain env ld c)
  unfolding with_cluster_domain
  with_cluster_domain-IsPlaced c h = elim (Bool-cases (is_empty c.cluster_domain)) [
    | inl e ↦ rw e record { server = h; same_interval = refl; same_domain = refl }
    | inr e ↦ rw e record { server = h; same_interval = refl; same_domain = refl }
  ]

  checked-IsValid :
      (options : Options ld) (regexes : List env.Regex) (c : ControllerManagerConfig)
      (cfg : Config env ld)
      → HasServer c
      → HasInterval c
      → checked options regexes c ≡ ok cfg
      → IsValid cfg × (c.trust_domain ≡ cfg.ctrl_config.trust_domain)
  unfolding checked
  checked-IsValid options regexes config cfg server interval h =
      let c = with_cluster_domain env ld config in
      let placed = with_cluster_domain-IsPlaced config server in
      let reconcile = reconcile_or_default c.spec.reconcile c.spec.static_manifest_path in
      let prefix = add_dot_suffix c.spec.entry_id_prefix in
      let (template, _, h) =
        >>=-ok (parse_parent_id_template env ld c.spec.parent_id_template) _ h in
      let (u, m, h) =
        >>=-ok (static_mode c.spec.static_manifest_path options.leader_election reconcile) _ h in
      let (cleanup, k, h) = >>=-ok (cleanup_prefix prefix c.spec.entry_id_prefix_cleanup) _ h in
      let (last, r, h) = >>=-ok (required (with_prefixes c prefix cleanup)) _ h in
      let (complete, same) = required-IsComplete (with_prefixes c prefix cleanup) last r in
      subst (λ x. IsValid x × (config.trust_domain ≡ x.ctrl_config.trust_domain))
        (ap
            (λ x. record {
              ctrl_config = x;
              options = options;
              ignore_namespaces_regex = regexes;
              parent_id_template = template;
              reconcile = reconcile;
            })
            same
          ∙ ok-injective h)
        (
          record {
            server = placed.server;
            interval = rw placed.same_interval interval;
            complete = complete;
            dotted = add_dot_suffix-IsDotted c.spec.entry_id_prefix;
            cleanup = cleanup_prefix-CleanupDiffers prefix c.spec.entry_id_prefix_cleanup cleanup k;
            manifests =
                static_mode-StaticAllows c.spec.static_manifest_path options.leader_election
                  reconcile m;
          },
          sym placed.same_domain,
        )

gc_interval-positive : (n : ℤ) → ltb_ℤ (pos 0) (gc_interval_or_default n) ≡ true
unfolding gc_interval_or_default
gc_interval-positive n = elim (Bool-cases (ltb_ℤ (pos 0) n)) [
  | inl e ↦ rw (e, e) refl
  | inr e ↦ rw e refl
]

module _ {env : Environment} {ld : Loading} where
  load_config-HasInterval :
      (path : Str) (expand : Bool) (l : Loaded env ld)
      → load_config env ld path expand ≡ ok l
      → HasInterval l.ctrl_config
  unfolding load_config
  load_config-HasInterval [] expand l h =
      subst (λ x. HasInterval x.ctrl_config) (ok-injective h) refl
  load_config-HasInterval (a ∷ path) expand l h =
      let (loaded, _, h) =
        >>=-ok
          (with_error not_loaded
            (load_options_from_file ld (a ∷ path) zero_options default_config expand))
          _ h in
      let (regexes, _, h) =
        >>=-ok
          (try_all (λ n. or_fail (env.compile n) bad_namespace_regex) (loaded.1).ignore_namespaces)
          _ h in
      subst (λ x. HasInterval x.ctrl_config) (ok-injective h)
        (gc_interval-positive (loaded.1).gc_interval)

  parse_config-keeps :
      (flags : Flags) (opts : ZapOptions env) (c : Config env ld)
      → parse_config flags opts ≡ ok c
      → (l : Loaded env ld) × (load_config env ld flags.config flags.expand_env ≡ ok l)
        × IsValid c
        × (l.ctrl_config.trust_domain ≡ c.ctrl_config.trust_domain)
  unfolding parse_config
  parse_config-keeps flags opts c h =
      let (l, e, h) = >>=-ok (load_config env ld flags.config flags.expand_env) _ h in
      let (_, _, h) =
        >>=-ok
          (with_error bad_logger
            (set_logger env opts l.ctrl_config.log_level l.ctrl_config.log_encoding))
          _ h in
      let (placed, f, h) = >>=-ok (server_endpoint l.ctrl_config flags.spire_api_socket) _ h in
      let p = server_endpoint-IsPlaced l.ctrl_config flags.spire_api_socket placed f in
      let (valid, same) =
        checked-IsValid env ld l.options l.regexes placed c p.server
          (rw p.same_interval (load_config-HasInterval flags.config flags.expand_env l e)) h in
      (l, e, valid, sym p.same_domain ∙ same)

  -- A configuration that parseConfig returns is valid: it has either an address with mTLS and no
  -- socket path, or a socket path and no address; an interval above nothing; a trust domain, a
  -- cluster name and the name of a webhook; a prefix that is empty or ends with a dot, and is not
  -- empty where the list cache or the hint filter is on; another prefix for the cleanup; and no
  -- leader election or ClusterSPIFFEIDs with static manifests.
  pub parse_config-IsValid :
      (flags : Flags) (opts : ZapOptions env) (c : Config env ld)
      → parse_config flags opts ≡ ok c
      → IsValid c
  parse_config-IsValid flags opts c h =
      let (_, _, valid, _) = parse_config-keeps flags opts c h in valid

  -- Without a configuration file parseConfig returns an error, whatever the other flags are.
  pub parse_config-no_file :
      (flags : Flags) (opts : ZapOptions env) (c : Config env ld)
      → flags.config ≡ []
      → parse_config flags opts ≢ ok c
  unfolding load_config
  parse_config-no_file flags opts c e h =
      let (l, f, valid, same) = parse_config-keeps flags opts c h in
      let g = subst (λ p. load_config env ld p flags.expand_env ≡ ok l) e f in
      cc (ap (λ x. x.ctrl_config.trust_domain) (ok-injective g), same, valid.complete.trust_domain)
