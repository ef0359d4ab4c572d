-- ===== src/SpireEntry/Pods/Walk.antt =====
-- The loops of addClusterSPIFFEIDEntriesState: what each pod preserves, the whole walk preserves.
use spire_controller_manager.Prelude.{
  Str, Bool, true, false, List, [], ◌∷◌, Option, none, some, if◌then◌else◌, All,
}
use spire_controller_manager.Prelude.Assoc.{Assoc}
use spire_controller_manager.Spiffe.{Spiffe}
use spire_controller_manager.SpireEntry.Config.{ReconcilerConfig}
use spire_controller_manager.SpireEntry.Kube.{Kube, KubeClient, ClusterSpiffeId}
use spire_controller_manager.SpireEntry.Render.{ParsedClusterSpiffeIdSpec}
use spire_controller_manager.SpireEntry.RenderCache.{Lru}
use spire_controller_manager.SpireEntry.State.{EntriesState}
use spire_controller_manager.SpireEntry.Status.{Statuses}
use spire_controller_manager.SpireEntry.Pods.{
  Pass, is_ignored, add_pod, add_pods, add_listed_pods, add_namespaces, add_listed_namespaces,
  add_hashed, add_parsed, add_each,
}

-- J is a predicate on the entries, the pods with an entry, and the cache.
module _ {sp : Spiffe} {k : Kube} {W C R : Type 0} (config : ReconcilerConfig sp)
    (kube : KubeClient k W) (lru : Lru sp C) (parent_template : k.Template) (hash : Str → Str)
    (spec_hash_of : ParsedClusterSpiffeIdSpec sp k → Option Str) (matches : R → Str → Bool)
    (ignored : List R) (J : EntriesState sp → List Str → Option C → Type 0) where
  unfoldable pub Holds : Pass sp C W → Type 0
  Holds p = J p.entries p.applied p.cache

  Holds-record :
      (p : Pass sp C W) (h : Statuses) (w : W)
      → Holds p
      → Holds (record p { statuses = h; world = w })
  unfolding Holds
  Holds-record p h w j = j

  Holds-if : (b : Bool) (p q : Pass sp C W) → Holds p → Holds q → Holds (if b then p else q)
  Holds-if true p q i j = i
  Holds-if false p q i j = j

  -- whatever pod a resource is applied to, and however its spec parses
  abbrev pub KeptBy : ClusterSpiffeId k → Type 0
  KeptBy c =
      (spec : ParsedClusterSpiffeIdSpec sp k) (h : Str) (nodes : Assoc k.Node) (pod : k.Pod)
      (p : Pass sp C W)
      → Holds p
      → Holds (
          add_pod config kube lru parent_template hash spec_hash_of matches ignored c spec h nodes
            pod p)

  module _ (c : ClusterSpiffeId k) (kept : KeptBy c) (nodes : Assoc k.Node) where
    add_pods-Holds :
        (spec : ParsedClusterSpiffeIdSpec sp k) (h : Str) (pods : List k.Pod) (p : Pass sp C W)
        → Holds p
        → Holds (
            add_pods config kube lru parent_template hash spec_hash_of matches ignored c spec h
              nodes pods p)
    unfolding add_pods
    add_pods-Holds spec h [] p j = j
    add_pods-Holds spec h (pod ∷ pods) p j =
        add_pods-Holds spec h pods _ (kept spec h nodes pod p j)

    add_listed_pods-Holds :
        (spec : ParsedClusterSpiffeIdSpec sp k) (h : Str) (pods : Option (List k.Pod))
        (p : Pass sp C W)
        → Holds p
        → Holds (
            add_listed_pods config kube lru parent_template hash spec_hash_of matches ignored c spec
              h nodes pods p)
    unfolding add_listed_pods
    add_listed_pods-Holds spec h none p j = j
    add_listed_pods-Holds spec h (some pods) p j =
        add_pods-Holds spec h pods _ (Holds-record p _ p.world j)

    add_namespaces-Holds :
        (spec : ParsedClusterSpiffeIdSpec sp k) (h : Str) (namespaces : List Str) (p : Pass sp C W)
        → Holds p
        → Holds (
            add_namespaces config kube lru parent_template hash spec_hash_of matches ignored c spec
              h nodes namespaces p)
    unfolding add_namespaces
    add_namespaces-Holds spec h [] p j = j
    add_namespaces-Holds spec h (ns ∷ rest) p j =
        let (pods, w) = kube.list_namespace_pods ns spec.pod_selector p.world in
        add_namespaces-Holds spec h rest _ (
          Holds-if (is_ignored matches ignored ns) _ _ (Holds-record p _ p.world j)
            (add_listed_pods-Holds spec h pods _ (Holds-record p p.statuses w j)))

    add_listed_namespaces-Holds :
        (spec : ParsedClusterSpiffeIdSpec sp k) (h : Str) (namespaces : Option (List Str))
        (p : Pass sp C W)
        → Holds p
        → Holds (
            add_listed_namespaces config kube lru parent_template hash spec_hash_of matches ignored
              c spec h nodes namespaces p)
    unfolding add_listed_namespaces
    add_listed_namespaces-Holds spec h none p j = j
    add_listed_namespaces-Holds spec h (some namespaces) p j =
        add_namespaces-Holds spec h namespaces _ (Holds-record p _ p.world j)

    add_hashed-Holds :
        (spec : ParsedClusterSpiffeIdSpec sp k) (h : Option Str) (p : Pass sp C W)
        → Holds p
        → Holds (
            add_hashed config kube lru parent_template hash spec_hash_of matches ignored c spec h
              nodes p)
    unfolding add_hashed
    add_hashed-Holds spec none p j = j
    add_hashed-Holds spec (some h) p j =
        let (namespaces, w) = kube.list_namespaces spec.namespace_selector p.world in
        add_listed_namespaces-Holds spec h namespaces _ (Holds-record p p.statuses w j)

    pub add_parsed-Holds :
        (spec : Option (ParsedClusterSpiffeIdSpec sp k)) (p : Pass sp C W)
        → Holds p
        → Holds (
            add_parsed config kube lru parent_template hash spec_hash_of matches ignored c spec
              nodes p)
    unfolding add_parsed
    add_parsed-Holds none p j = j
    add_parsed-Holds (some spec) p j = add_hashed-Holds spec _ p j

  pub add_each-Holds :
      (cs : List (ClusterSpiffeId k)) (nodes : Assoc k.Node) (p : Pass sp C W)
      → All KeptBy cs
      → Holds p
      → Holds
          (add_each config kube lru parent_template hash spec_hash_of matches ignored cs nodes p)
  unfolding add_each
  add_each-Holds [] nodes p a j = j
  add_each-Holds (c ∷ cs) nodes p a j =
      add_each-Holds cs nodes _ a.1 (add_parsed-Holds c a.0 nodes _ p j)
