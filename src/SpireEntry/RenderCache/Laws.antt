-- ===== src/SpireEntry/RenderCache/Laws.antt =====
-- What the cache of rendered entries relies on: golang-lru, and the resource versions of Kubernetes.
use spire_controller_manager.Prelude.{
  Str, str_eq, str_eq_iff, List, [], ◌∷◌, some, ◌≡◌, ◌⊎◌, inl, inr, refl, sym, ◌∙◌, arith,
  Bool-cases,
}
use spire_controller_manager.Prelude.Assoc.{Assoc, lookup, insert, lookup-insert}
use spire_controller_manager.Spiffe.{Spiffe}
use spire_controller_manager.SpireEntry.Kube.{Kube, KubeClient, Endpoints, listed}
use spire_controller_manager.SpireEntry.RenderCache.{
  CachedEntry, Lru, compute_endpoints_rv, build_node_map,
}

-- golang-lru: what is read was added under its key and is the last that was; entries may vanish.
pub record LruLaws {sp : Spiffe} {C : Type 0} (lru : Lru sp C) : Type 0 where
  pub get-get :
      (i j : Str) (c : C) (x : CachedEntry sp)
      → (lru.get i (lru.get j c).1).0 ≡ some x
      → (lru.get i c).0 ≡ some x
  pub get-add :
      (i j : Str) (y : CachedEntry sp) (c : C) (x : CachedEntry sp)
      → (lru.get i (lru.add j y c)).0 ≡ some x
      → ((i ≡ j) × (x ≡ y)) ⊎ ((lru.get i c).0 ≡ some x)

-- Kubernetes: the resource version of an object changes whenever the object does. `Seen` are the
-- lists of Endpoints that the API may return for a pod.
pub record Versioned (k : Kube) {W : Type 0} (kube : KubeClient k W)
    (Seen : k.Pod → List Endpoints → Type 0) : Type 0 where
  pub pods :
      (p q : k.Pod)
      → k.pod_uid p ≡ k.pod_uid q
      → k.pod_resource_version p ≡ k.pod_resource_version q
      → p ≡ q
  pub nodes :
      (m n : k.Node)
      → k.node_name m ≡ k.node_name n
      → k.node_resource_version m ≡ k.node_resource_version n
      → m ≡ n
  pub endpoints :
      (p : k.Pod) (es fs : List Endpoints)
      → Seen p es
      → Seen p fs
      → compute_endpoints_rv es ≡ compute_endpoints_rv fs
      → es ≡ fs
  pub no_endpoints : (p : k.Pod) → Seen p []
  pub replies :
      (p : k.Pod) (w : W) (es : List Endpoints)
      → (kube.list_endpoints (k.pod_namespace p) (k.pod_uid p) w).0 ≡ listed es
      → Seen p es

-- the keys of the map are the names of the nodes
abbrev pub NamesNodes : (k : Kube) → Assoc k.Node → Type 0
NamesNodes k m = (name : Str) (n : k.Node) → lookup name m ≡ some n → k.node_name n ≡ name

build_node_map-from :
    (k : Kube) (ns : List k.Node) (m : Assoc k.Node)
    → NamesNodes k m
    → NamesNodes k (build_node_map k ns m)
unfolding build_node_map
build_node_map-from k [] m h = h
build_node_map-from k (x ∷ ns) m h =
    build_node_map-from k ns (insert (k.node_name x) x m) (λ name n e.
      elim (Bool-cases (str_eq (k.node_name x) name)) [
        | inl y ↦
            ground
              (arith, e, lookup-insert (k.node_name x) name x m, str_eq_iff (k.node_name x) name)
        | inr other ↦ h name n (sym (lookup-insert (k.node_name x) name x m ∙ rw other refl) ∙ e)
      ])

-- buildNodeMap maps names to nodes of these names.
pub build_node_map-NamesNodes :
    (k : Kube) (ns : List k.Node) → NamesNodes k (build_node_map k ns [])
unfolding lookup
build_node_map-NamesNodes k ns = build_node_map-from k ns [] (λ name n e. cc e)
