-- ===== src/SpireEntry/RenderCache.antt =====
-- The renderPodEntry of the reconciler, with its LRU cache of rendered entries.
pub mod Laws
pub mod Soundness
pub mod Uncached
use spire_controller_manager.Prelude.{
  Str, str_eq, join, Bool, true, false, List, [], ◌∷◌, Option, none, some, map, ◌&&◌, if◌then◌else◌,
}
use spire_controller_manager.Prelude.Assoc.{Assoc, lookup, insert}
use spire_controller_manager.Spiffe.{Spiffe}
use spire_controller_manager.SpireApi.Types.{Entry}
use spire_controller_manager.SpireEntry.Config.{ReconcilerConfig}
use spire_controller_manager.SpireEntry.Kube.{
  Kube, KubeClient, Endpoints, Listed, listed, not_found, list_failed,
}
use spire_controller_manager.SpireEntry.Render.{ParsedClusterSpiffeIdSpec, render_entry}

pub record CachedEntry (sp : Spiffe) : Type 0 where
  pub entry : Entry sp
  pub pod_rv : Str
  pub node_rv : Str
  pub spec_hash : Str
  pub endpoints_rv : Str

-- lru.Cache of golang-lru, which the program does not contain: a reading changes the recency
pub record Lru (sp : Spiffe) (C : Type 0) : Type 0 where
  pub get : Str → C → Option (CachedEntry sp) × C
  pub add : Str → CachedEntry sp → C → C

is_valid : {sp : Spiffe} → CachedEntry sp → Str → Str → Str → Str → Bool
is_valid c pod_rv node_rv spec_hash endpoints_rv =
    str_eq c.pod_rv pod_rv
    && str_eq c.node_rv node_rv
    && str_eq c.spec_hash spec_hash
    && str_eq c.endpoints_rv endpoints_rv

-- 44 is the comma
pub compute_endpoints_rv : List Endpoints → Str
compute_endpoints_rv items = join (map (λ e. e.resource_version) items) (44 ∷ [])

unfoldable pub build_node_map : (k : Kube) → List k.Node → Assoc k.Node → Assoc k.Node
unfolding insert
build_node_map k [] m = m
build_node_map k (n ∷ ns) m = build_node_map k ns (insert (k.node_name n) n m)

module _ {sp : Spiffe} {k : Kube} {W C : Type 0} (config : ReconcilerConfig sp)
    (kube : KubeClient k W) (lru : Lru sp C) (parent_template : k.Template) where
  -- the entry of the cache, if there is one and it is still valid
  still_valid : Option (CachedEntry sp) → Str → Str → Str → Str → Option (Entry sp)
  unfolding is_valid
  still_valid none pod_rv node_rv spec_hash endpoints_rv = none
  still_valid (some c) pod_rv node_rv spec_hash endpoints_rv =
      if is_valid c pod_rv node_rv spec_hash endpoints_rv then some c.entry else none

  -- what was rendered is returned and cached; an error is returned
  keep_rendered : Option (Entry sp) → Str → Str → Str → Str → Str → C → Option (Entry sp) × C
  keep_rendered none uid pod_rv node_rv spec_hash endpoints_rv c = (none, c)
  keep_rendered (some e) uid pod_rv node_rv spec_hash endpoints_rv c = (
    some e,
    lru.add uid
        (record {
          entry = e;
          pod_rv = pod_rv;
          node_rv = node_rv;
          spec_hash = spec_hash;
          endpoints_rv = endpoints_rv;
        })
        c,
  )

  reuse_or : Option (Entry sp) → Option (Entry sp) × C → C → Option (Entry sp) × C
  reuse_or none rendered c = rendered
  reuse_or (some e) rendered c = (some e, c)

  -- the entry or an error, and the cache behind it
  cached_render :
      ParsedClusterSpiffeIdSpec sp k
      → k.Node
      → k.Pod
      → List Endpoints
      → Str
      → C
      → Option (Entry sp) × C
  unfolding still_valid keep_rendered reuse_or compute_endpoints_rv
  cached_render spec node pod endpoints spec_hash c =
      let uid = k.pod_uid pod in
      let pod_rv = k.pod_resource_version pod in
      let node_rv = k.node_resource_version node in
      let endpoints_rv = compute_endpoints_rv endpoints in
      let got = lru.get uid c in
      reuse_or (still_valid got.0 pod_rv node_rv spec_hash endpoints_rv)
        (keep_rendered (render_entry k config parent_template spec node pod endpoints) uid pod_rv
          node_rv spec_hash endpoints_rv got.1)
        got.1

  -- if r.renderCache != nil
  render_with :
      ParsedClusterSpiffeIdSpec sp k
      → k.Node
      → k.Pod
      → List Endpoints
      → Str
      → Option C
      → Option (Entry sp) × Option C
  unfolding cached_render
  render_with spec node pod endpoints spec_hash none =
      (render_entry k config parent_template spec node pod endpoints, none)
  render_with spec node pod endpoints spec_hash (some c) =
      let (e, c') = cached_render spec node pod endpoints spec_hash c in (e, some c')

  -- err != nil && !apierrors.IsNotFound(err)
  endpoints_of : Listed Endpoints → Option (List Endpoints)
  endpoints_of (listed es) = some es
  endpoints_of not_found = some []
  endpoints_of list_failed = none

  -- the Endpoints to render with, where AutoPopulateDNSNames asks for them; none for an error
  pod_endpoints : Bool → k.Pod → W → Option (List Endpoints) × W
  unfolding endpoints_of
  pod_endpoints false pod w = (some [], w)
  pod_endpoints true pod w =
      let (reply, w') = kube.list_endpoints (k.pod_namespace pod) (k.pod_uid pod) w in
      (endpoints_of reply, w')

  render_having :
      ParsedClusterSpiffeIdSpec sp k
      → k.Node
      → k.Pod
      → Str
      → Option (List Endpoints)
      → Option C
      → Option (Entry sp) × Option C
  unfolding render_with
  render_having spec node pod spec_hash none cache = (none, cache)
  render_having spec node pod spec_hash (some es) cache =
      render_with spec node pod es spec_hash cache

  -- the part behind the lookup of the node
  render_on :
      Option k.Node
      → ParsedClusterSpiffeIdSpec sp k
      → k.Pod
      → Str
      → Option C
      → W
      → Option (Entry sp) × Option C × W
  unfolding pod_endpoints render_having
  render_on none spec pod spec_hash cache w = (none, cache, w)
  render_on (some node) spec pod spec_hash cache w =
      let (endpoints, w') = pod_endpoints spec.auto_populate_dns_names pod w in
      let (e, cache') = render_having spec node pod spec_hash endpoints cache in (e, cache', w')

  unfoldable pub render_pod_entry :
      ParsedClusterSpiffeIdSpec sp k
      → k.Pod
      → Str
      → Assoc k.Node
      → Option C
      → W
      → Option (Entry sp) × Option C × W
  unfolding lookup render_on
  render_pod_entry spec pod spec_hash nodes cache w =
      render_on (lookup (k.pod_node_name pod) nodes) spec pod spec_hash cache w
