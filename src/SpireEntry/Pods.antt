-- ===== src/SpireEntry/Pods.antt =====
-- addClusterStaticEntryEntriesState and addClusterSPIFFEIDEntriesState: what the resources declare.
-- The counters of Prometheus and the logs are left out.
pub mod Walk
pub mod Declared
pub mod Served
pub mod Fallback
use spire_controller_manager.Prelude.{
  ◌+◌, Str, str_eq, Bool, true, false, not, ◌&&◌, List, [], ◌∷◌, Option, none, some, any, length,
  if◌then◌else◌,
}
use spire_controller_manager.Prelude.Assoc.{Assoc}
use spire_controller_manager.Prelude.Sort.{sort}
use spire_controller_manager.Spiffe.{Spiffe}
use spire_controller_manager.SpireApi.Types.{Entry}
use spire_controller_manager.SpireEntry.Config.{ReconcilerConfig}
use spire_controller_manager.SpireEntry.Kube.{Kube, KubeClient, ClusterStaticEntry, ClusterSpiffeId}
use spire_controller_manager.SpireEntry.Preference.{ByRef, static_entry, spiffe_id}
use spire_controller_manager.SpireEntry.Render.{
  ParsedClusterSpiffeIdSpec, render_static_entry, parse_cluster_spiffe_id_spec,
}
use spire_controller_manager.SpireEntry.RenderCache.{Lru, render_pod_entry}
use spire_controller_manager.SpireEntry.State.{EntriesState, add_declared}
use spire_controller_manager.SpireEntry.Status.{
  Statuses, ClusterSpiffeIdStats, on_static_entry, on_spiffe_id,
}

-- IsIgnored of pkg/namespace; `matches` is MatchString of the package regexp
unfoldable pub is_ignored : {R : Type 0} → (R → Str → Bool) → List R → Str → Bool
unfolding any
is_ignored matches ignored namespace = any (λ r. matches r namespace) ignored

-- the statuses of the resource that a reference points to
rendered_as : Bool → ByRef → Statuses → Statuses
unfolding on_static_entry
rendered_as b (static_entry i) h = on_static_entry i (λ s. record s { rendered = b }) h
rendered_as b (spiffe_id i) h = h

count : (ClusterSpiffeIdStats → ClusterSpiffeIdStats) → ByRef → Statuses → Statuses
unfolding on_spiffe_id
count f (static_entry i) h = h
count f (spiffe_id i) h = on_spiffe_id i f h

module _ {sp : Spiffe} (hash : Str → Str) where
  declare_static :
      Option (Entry sp)
      → ClusterStaticEntry
      → EntriesState sp × Statuses
      → EntriesState sp × Statuses
  unfolding rendered_as add_declared
  declare_static none c (es, h) = (es, rendered_as false c.object.ref h)
  declare_static (some e) c (es, h) =
      (add_declared hash e c.object es, rendered_as true c.object.ref h)

  unfoldable pub add_static_entries :
      List ClusterStaticEntry → EntriesState sp × Statuses → EntriesState sp × Statuses
  unfolding declare_static render_static_entry
  add_static_entries [] s = s
  add_static_entries (c ∷ cs) s =
      add_static_entries cs (declare_static (render_static_entry c.spec) c s)

module _ {k : Kube} where
  -- the fallback ones last, each kind in its order
  unfoldable pub fallback_last : List (ClusterSpiffeId k) → List (ClusterSpiffeId k)
  unfolding sort
  fallback_last = sort (λ x y. not x.spec.fallback && y.spec.fallback)

-- What the loops over the ClusterSPIFFEIDs change; `applied` is podsWithNonFallbackApplied.
pub record Pass (sp : Spiffe) (C W : Type 0) : Type 0 where
  pub entries : EntriesState sp
  pub statuses : Statuses
  pub cache : Option C
  pub applied : List Str
  pub world : W

-- `hash` is that of the entry keys and `spec_hash_of` is computeObjectHash.
module _ {sp : Spiffe} {k : Kube} {W C R : Type 0} (config : ReconcilerConfig sp)
    (kube : KubeClient k W) (lru : Lru sp C) (parent_template : k.Template) (hash : Str → Str)
    (spec_hash_of : ParsedClusterSpiffeIdSpec sp k → Option Str) (matches : R → Str → Bool)
    (ignored : List R) where
  -- the switch behind renderPodEntry, whose entry is nil only with an error
  declare_pod : Option (Entry sp) → ClusterSpiffeId k → k.Pod → Pass sp C W → Pass sp C W
  unfolding count add_declared
  declare_pod none c pod p = record p {
    statuses =
        count (λ s. record s { pod_entry_render_failures = s.pod_entry_render_failures + 1 })
          c.object.ref p.statuses;
  }
  declare_pod (some e) c pod p = record p {
    entries = add_declared hash e c.object p.entries;
    applied = if c.spec.fallback then p.applied else k.pod_uid pod ∷ p.applied;
  }

  pub add_pod :
      ClusterSpiffeId k
      → ParsedClusterSpiffeIdSpec sp k
      → Str
      → Assoc k.Node
      → k.Pod
      → Pass sp C W
      → Pass sp C W
  unfolding declare_pod render_pod_entry any
  add_pod c spec spec_hash nodes pod p =
      if any (str_eq (k.pod_uid pod)) p.applied && c.spec.fallback
      then p
      else (let (e, cache, w) =
            render_pod_entry config kube lru parent_template spec pod spec_hash nodes p.cache
              p.world in
          declare_pod e c pod (record p { cache = cache; world = w }))

  add_pods :
      ClusterSpiffeId k
      → ParsedClusterSpiffeIdSpec sp k
      → Str
      → Assoc k.Node
      → List k.Pod
      → Pass sp C W
      → Pass sp C W
  unfolding add_pod
  add_pods c spec spec_hash nodes [] p = p
  add_pods c spec spec_hash nodes (pod ∷ pods) p =
      add_pods c spec spec_hash nodes pods (add_pod c spec spec_hash nodes pod p)

  -- behind ListNamespacePods
  add_listed_pods :
      ClusterSpiffeId k
      → ParsedClusterSpiffeIdSpec sp k
      → Str
      → Assoc k.Node
      → Option (List k.Pod)
      → Pass sp C W
      → Pass sp C W
  unfolding add_pods count
  add_listed_pods c spec spec_hash nodes none p = p
  add_listed_pods c spec spec_hash nodes (some pods) p =
      add_pods c spec spec_hash nodes pods (record p {
        statuses =
            count (λ s. record s { pods_selected = s.pods_selected + length pods }) c.object.ref
              p.statuses;
      })

  add_namespaces :
      ClusterSpiffeId k
      → ParsedClusterSpiffeIdSpec sp k
      → Str
      → Assoc k.Node
      → List Str
      → Pass sp C W
      → Pass sp C W
  unfolding add_listed_pods is_ignored count
  add_namespaces c spec spec_hash nodes [] p = p
  add_namespaces c spec spec_hash nodes (ns ∷ rest) p =
      let next =
        if is_ignored matches ignored ns
        then record p {
          statuses =
              count (λ s. record s { namespaces_ignored = s.namespaces_ignored + 1 }) c.object.ref
                p.statuses;
        }
        else (let (pods, w) = kube.list_namespace_pods ns spec.pod_selector p.world in
            add_listed_pods c spec spec_hash nodes pods (record p { world = w })) in
      add_namespaces c spec spec_hash nodes rest next

  -- behind ListNamespaces
  add_listed_namespaces :
      ClusterSpiffeId k
      → ParsedClusterSpiffeIdSpec sp k
      → Str
      → Assoc k.Node
      → Option (List Str)
      → Pass sp C W
      → Pass sp C W
  unfolding add_namespaces count
  add_listed_namespaces c spec spec_hash nodes none p = p
  add_listed_namespaces c spec spec_hash nodes (some namespaces) p =
      add_namespaces c spec spec_hash nodes namespaces (record p {
        statuses =
            count
              (λ s. record s { namespaces_selected = s.namespaces_selected + length namespaces })
              c.object.ref p.statuses;
      })

  -- the hash of the spec, computed only where there is a cache
  hash_if_cached : Option C → ParsedClusterSpiffeIdSpec sp k → Option Str
  hash_if_cached none spec = some []
  hash_if_cached (some c) spec = spec_hash_of spec

  add_hashed :
      ClusterSpiffeId k
      → ParsedClusterSpiffeIdSpec sp k
      → Option Str
      → Assoc k.Node
      → Pass sp C W
      → Pass sp C W
  unfolding add_listed_namespaces
  add_hashed c spec none nodes p = p
  add_hashed c spec (some spec_hash) nodes p =
      let (namespaces, w) = kube.list_namespaces spec.namespace_selector p.world in
      add_listed_namespaces c spec spec_hash nodes namespaces (record p { world = w })

  pub add_parsed :
      ClusterSpiffeId k
      → Option (ParsedClusterSpiffeIdSpec sp k)
      → Assoc k.Node
      → Pass sp C W
      → Pass sp C W
  unfolding add_hashed hash_if_cached
  add_parsed c none nodes p = p
  add_parsed c (some spec) nodes p = add_hashed c spec (hash_if_cached p.cache spec) nodes p

  pub add_each : List (ClusterSpiffeId k) → Assoc k.Node → Pass sp C W → Pass sp C W
  unfolding add_parsed parse_cluster_spiffe_id_spec
  add_each [] nodes p = p
  add_each (c ∷ cs) nodes p =
      add_each cs nodes (add_parsed c (parse_cluster_spiffe_id_spec c.spec) nodes p)

  unfoldable pub add_spiffe_ids :
      List (ClusterSpiffeId k) → Assoc k.Node → Pass sp C W → Pass sp C W
  unfolding add_each fallback_last
  add_spiffe_ids cs nodes p = add_each (fallback_last cs) nodes (record p { applied = [] })
