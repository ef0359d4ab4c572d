-- ===== src/ManagerConfig/Loader/Merged.antt =====
-- Which value each option has behind api/v1alpha1/controllermanagerconfig_loader.go: the one that was
-- set before, or else the file's.
use spire_controller_manager.Prelude.{
  Str, Bool, true, false, Option, none, some, [], ◌∷◌, map, is_empty, if◌then◌else◌, ◌≡◌, ◌≢◌, refl,
  ap, sym, inl, inr, Option-cases, Bool-cases,
}
use mathlib.Core.Path.{subst}
use spire_controller_manager.Prelude.Assoc.{Assoc}
use spire_controller_manager.Prelude.Int.{ℤ, pos, eqb_ℤ, eqb_ℤ_iff}
use spire_controller_manager.Prelude.Results.{ok, >>=-ok, ok-injective}
use spire_controller_manager.ManagerConfig.{
  ControllerManagerConfigurationSpec, LeaderElectionConfiguration, ControllerConfigurationSpec,
  NamespaceConfig,
}
use spire_controller_manager.ManagerConfig.Loader.{
  Loading, Options, text_or, flag_or, pointer_or, duration_or, timeout_or, map_or, namespaces_or,
  config_namespaces, cache_config, leader_election_from, controller_from, merge_options,
  set_leader_election_config, add_options_from_config_spec, CacheConfig,
}
use spire_controller_manager.ManagerConfig.Loader.Again.{
  merge_options-namespaces, add_options_from_config_spec-again,
}

-- b is o where that is set, and c where it is not
abbrev IsFirst : {A : Type 0} → A → A → A → A → Type 0
IsFirst unset o c b = (o ≢ unset → b ≡ o) × (o ≡ unset → b ≡ c)

-- a field of a part of the file that may be missing
abbrev given : {P A : Type 0} → A → (P → A) → Option P → A
given unset f none = unset
given unset f (some p) = f p

abbrev set_to : {A : Type 0} → A → Option A → A
set_to unset none = unset
set_to unset (some a) = a

-- a duration of the file that is zero is not set
abbrev unless_zero : ℤ → Option ℤ
unless_zero d = if eqb_ℤ d (pos 0) then none else some d

kept-IsFirst : {A : Type 0} (unset o : A) → IsFirst unset o unset o
kept-IsFirst unset o = ((λ n. refl), (λ e. e))

text-IsFirst : (o c : Str) → IsFirst [] o c (text_or o c)
unfolding text_or
text-IsFirst [] [] = ((λ n. refl), (λ e. refl))
text-IsFirst [] (a ∷ c) = ((λ n. absurd (n refl)), (λ e. refl))
text-IsFirst (b ∷ o) c = ((λ n. refl), (λ e. cc e))

flag-IsFirst : (o : Bool) (c : Option Bool) → IsFirst false o (set_to false c) (flag_or o c)
unfolding flag_or
flag-IsFirst true c = ((λ n. refl), (λ e. cc e))
flag-IsFirst false none = ((λ n. refl), (λ e. refl))
flag-IsFirst false (some b) = ((λ n. absurd (n refl)), (λ e. refl))

pointer-IsFirst : (o c : Option ℤ) → IsFirst none o c (pointer_or o c)
unfolding pointer_or
pointer-IsFirst none c = ((λ n. absurd (n refl)), (λ e. refl))
pointer-IsFirst (some d) c = ((λ n. refl), (λ e. cc e))

duration-IsFirst : (o : Option ℤ) (c : ℤ) → IsFirst none o (unless_zero c) (duration_or o c)
unfolding duration_or
duration-IsFirst none c = ((λ n. absurd (n refl)), (λ e. refl))
duration-IsFirst (some d) c = ((λ n. refl), (λ e. cc e))

timeout-IsFirst : (o : ℤ) (c : Option ℤ) → IsFirst (pos 0) o (set_to (pos 0) c) (timeout_or o c)
unfolding timeout_or
timeout-IsFirst o none = ((λ n. refl), (λ e. e))
timeout-IsFirst o (some c) = elim (Bool-cases (eqb_ℤ o (pos 0))) [
  | inl y ↦ rw y ((λ n. absurd (n ((eqb_ℤ_iff o (pos 0)).0 y))), (λ e. refl))
  | inr n ↦ rw n ((λ m. refl), (λ e. cc ((eqb_ℤ_iff o (pos 0)).1 e, n)))
]

map-IsFirst : (o c : Assoc ℤ) → IsFirst [] o c (map_or o c)
unfolding map_or
map-IsFirst [] c = ((λ n. absurd (n refl)), (λ e. refl))
map-IsFirst (x ∷ o) c = ((λ n. refl), (λ e. cc e))

module _ (ld : Loading) where
  abbrev LeaderMerged : Option LeaderElectionConfiguration → Options ld → Options ld → Type 0
  LeaderMerged l o b =
      IsFirst false o.leader_election (given false (λ l. set_to false l.leader_elect) l)
        b.leader_election
      × IsFirst [] o.leader_election_resource_lock (given [] (λ l. l.resource_lock) l)
          b.leader_election_resource_lock
      × IsFirst [] o.leader_election_namespace (given [] (λ l. l.resource_namespace) l)
          b.leader_election_namespace
      × IsFirst [] o.leader_election_id (given [] (λ l. l.resource_name) l) b.leader_election_id
      × IsFirst none o.lease_duration (given none (λ l. unless_zero l.lease_duration) l)
          b.lease_duration
      × IsFirst none o.renew_deadline (given none (λ l. unless_zero l.renew_deadline) l)
          b.renew_deadline
      × IsFirst none o.retry_period (given none (λ l. unless_zero l.retry_period) l) b.retry_period

  leader_election_from-Merged :
      (l : Option LeaderElectionConfiguration) (o : Options ld)
      → LeaderMerged l o (leader_election_from ld o l)
  unfolding leader_election_from
  leader_election_from-Merged none o = (
    kept-IsFirst false o.leader_election,
    kept-IsFirst [] o.leader_election_resource_lock,
    kept-IsFirst [] o.leader_election_namespace,
    kept-IsFirst [] o.leader_election_id,
    kept-IsFirst none o.lease_duration,
    kept-IsFirst none o.renew_deadline,
    kept-IsFirst none o.retry_period,
  )
  leader_election_from-Merged (some l) o = (
    flag-IsFirst o.leader_election l.leader_elect,
    text-IsFirst o.leader_election_resource_lock l.resource_lock,
    text-IsFirst o.leader_election_namespace l.resource_namespace,
    text-IsFirst o.leader_election_id l.resource_name,
    duration-IsFirst o.lease_duration l.lease_duration,
    duration-IsFirst o.renew_deadline l.renew_deadline,
    duration-IsFirst o.retry_period l.retry_period,
  )

  abbrev ControllerMerged : Option ControllerConfigurationSpec → Options ld → Options ld → Type 0
  ControllerMerged k o b =
      IsFirst (pos 0) o.cache_sync_timeout
        (given (pos 0) (λ k. set_to (pos 0) k.cache_sync_timeout) k) b.cache_sync_timeout
      × IsFirst [] o.group_kind_concurrency (given [] (λ k. k.group_kind_concurrency) k)
          b.group_kind_concurrency

  controller_from-Merged :
      (k : Option ControllerConfigurationSpec) (o : Options ld)
      → ControllerMerged k o (controller_from ld o k)
  unfolding controller_from
  controller_from-Merged none o =
      (kept-IsFirst (pos 0) o.cache_sync_timeout, kept-IsFirst [] o.group_kind_concurrency)
  controller_from-Merged (some k) o = (
    timeout-IsFirst o.cache_sync_timeout k.cache_sync_timeout,
    map-IsFirst o.group_kind_concurrency k.group_kind_concurrency,
  )

  abbrev AddressesMerged : ControllerManagerConfigurationSpec → Options ld → Options ld → Type 0
  AddressesMerged c o b =
      IsFirst none o.sync_period c.sync_period b.sync_period
      × IsFirst [] o.metrics_bind_address c.metrics_bind_address b.metrics_bind_address
      × IsFirst [] o.health_probe_bind_address c.health.health_probe_bind_address
          b.health_probe_bind_address
      × IsFirst [] o.readiness_endpoint_name c.health.readiness_endpoint_name
          b.readiness_endpoint_name
      × IsFirst [] o.liveness_endpoint_name c.health.liveness_endpoint_name b.liveness_endpoint_name

  -- the namespaces that were set, or those of the file, which gives one or a map of them
  abbrev NamespacesMerged :
      ControllerManagerConfigurationSpec → Assoc (CacheConfig ld) → Assoc (CacheConfig ld) → Type 0
  NamespacesMerged c o b =
      (o ≢ [] → b ≡ o)
      × (o ≡ []
          → map (λ p. p.0) b ≡ (
              if is_empty c.cache_namespace
              then map (λ p. p.0) c.cache_namespaces
              else c.cache_namespace ∷ []))

  names_kept :
      (ns : Assoc (Option NamespaceConfig))
      → map (λ p. p.0) (map {B = Str × CacheConfig ld} (λ p. (p.0, cache_config ld (p.1))) ns)
        ≡ map (λ p. p.0) ns
  names_kept [] = refl
  names_kept (n ∷ ns) = ap (◌∷◌ (n.0)) (names_kept ns)

  config_namespaces-names :
      (n : Str) (ns : Assoc (Option NamespaceConfig)) (m : Assoc (CacheConfig ld))
      → config_namespaces ld n ns ≡ ok m
      → map (λ p. p.0) m ≡ (if is_empty n then map (λ p. p.0) ns else n ∷ [])
  unfolding config_namespaces
  config_namespaces-names [] [] m h = rw (← ok-injective h) refl
  config_namespaces-names [] (e ∷ es) m h = rw (← ok-injective h) (names_kept (e ∷ es))
  config_namespaces-names (a ∷ n) [] m h = rw (← ok-injective h) refl
  config_namespaces-names (a ∷ n) (e ∷ es) m h = cc h

  namespaces_or-Merged :
      (c : ControllerManagerConfigurationSpec) (o m : Assoc (CacheConfig ld))
      → namespaces_or ld o c ≡ ok m
      → NamespacesMerged c o m
  unfolding namespaces_or
  namespaces_or-Merged c [] m h = (
    (λ n. absurd (n refl)),
    (λ e. config_namespaces-names c.cache_namespace c.cache_namespaces m h),
  )
  namespaces_or-Merged c (x ∷ o) m h = ((λ n. sym (ok-injective h)), (λ e. cc e))

  -- each option is the one that was set, or else the file's
  pub record IsMerged (c : ControllerManagerConfigurationSpec) (o b : Options ld) : Type 0 where
    pub leader : LeaderMerged c.leader_election o b
    pub controller : ControllerMerged c.controller o b
    pub addresses : AddressesMerged c o b
    pub namespaces : NamespacesMerged c o.default_namespaces b.default_namespaces

  merge_options-Addresses :
      (c : ControllerManagerConfigurationSpec) (o : Options ld) (m : Assoc (CacheConfig ld))
      → AddressesMerged c o (merge_options ld o c m)
  unfolding merge_options controller_from
  merge_options-Addresses c o m =
      let merged : AddressesMerged c o (merge_options ld o (record c { controller = none }) m) = (
        pointer-IsFirst o.sync_period c.sync_period,
        text-IsFirst o.metrics_bind_address c.metrics_bind_address,
        text-IsFirst o.health_probe_bind_address c.health.health_probe_bind_address,
        text-IsFirst o.readiness_endpoint_name c.health.readiness_endpoint_name,
        text-IsFirst o.liveness_endpoint_name c.health.liveness_endpoint_name,
      ) in
      elim (Option-cases c.controller) [ inl k ↦ rw k merged | inr (_, k) ↦ rw k merged ]

  merge_options-IsMerged :
      (c : ControllerManagerConfigurationSpec) (o : Options ld) (m : Assoc (CacheConfig ld))
      → NamespacesMerged c o.default_namespaces m
      → IsMerged c o (merge_options ld o c m)
  unfolding merge_options set_leader_election_config leader_election_from controller_from
  merge_options-IsMerged c o m n = record {
    leader = elim (Option-cases c.controller) [
      | inl k ↦ rw k (leader_election_from-Merged c.leader_election o)
      | inr (_, k) ↦ rw k (leader_election_from-Merged c.leader_election o)
    ];
    controller = elim (Option-cases c.leader_election) [
      | inl l ↦ rw l (controller_from-Merged c.controller _)
      | inr (_, l) ↦ rw l (controller_from-Merged c.controller _)
    ];
    addresses = merge_options-Addresses c o m;
    namespaces = rw (merge_options-namespaces ld o c m) n;
  }

  -- Where adding the options of a file succeeds, each option is what it was before, if it was set, and
  -- otherwise what the file says; the namespaces of the cache are those that were set or those that
  -- the file names; and adding the options again changes nothing.
  pub add_options_from_config_spec-IsMerged :
      (c : ControllerManagerConfigurationSpec) (o b : Options ld)
      → add_options_from_config_spec ld o c ≡ ok b
      → IsMerged c o b × (add_options_from_config_spec ld b c ≡ ok b)
  unfolding add_options_from_config_spec
  add_options_from_config_spec-IsMerged c o b h =
      let (m, e, f) = >>=-ok (namespaces_or ld o.default_namespaces c) _ h in
      (
        subst (IsMerged c o) (ok-injective f)
            (merge_options-IsMerged c o m (namespaces_or-Merged c o.default_namespaces m e)),
        add_options_from_config_spec-again ld o c b h,
      )
