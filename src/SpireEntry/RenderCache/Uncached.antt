-- ===== src/SpireEntry/RenderCache/Uncached.antt =====
-- renderPodEntry without a cache: what it renders is of the pod.
use spire_controller_manager.Prelude.{Str, codes, ◌++◌, List, Option, none, some, ◌≡◌, refl, head?}
use spire_controller_manager.Prelude.Assoc.{Assoc, lookup}
use spire_controller_manager.Spiffe.{Spiffe}
use spire_controller_manager.SpireApi.Types.{Entry, Selector}
use spire_controller_manager.SpireEntry.Config.{ReconcilerConfig}
use spire_controller_manager.SpireEntry.Kube.{Kube, KubeClient, Endpoints}
use spire_controller_manager.SpireEntry.Render.{ParsedClusterSpiffeIdSpec}
use spire_controller_manager.SpireEntry.Render.WellFormed.{render_entry-IsPodEntry}
use spire_controller_manager.SpireEntry.RenderCache.{
  Lru, render_pod_entry, render_on, render_having, render_with,
}

-- the selector by which an entry is that of a pod
abbrev pub pod_selector : Str → Selector
pod_selector uid = record { type = codes "k8s"; value = codes "pod-uid:" ++ uid }

module _ {sp : Spiffe} {k : Kube} {W C : Type 0} (config : ReconcilerConfig sp)
    (kube : KubeClient k W) (lru : Lru sp C) (parent_template : k.Template) where
  abbrev IsUncached : k.Pod → Option (Entry sp) × Option C → Type 0
  IsUncached pod r =
      (r.1 ≡ none)
      × ((e : Entry sp) → r.0 ≡ some e → head? e.selectors ≡ some (pod_selector (k.pod_uid pod)))

  having-IsUncached :
      (spec : ParsedClusterSpiffeIdSpec sp k) (node : k.Node) (pod : k.Pod) (h : Str)
      (es : Option (List Endpoints))
      → IsUncached pod (render_having config kube lru parent_template spec node pod h es none)
  unfolding render_having render_with
  having-IsUncached spec node pod h none = (refl, λ e q. cc q)
  having-IsUncached spec node pod h (some es) = (
    refl,
    λ e q.
        let (_, _, _, s, _) =
          render_entry-IsPodEntry k config parent_template spec node pod es e q in
        s,
  )

  on-IsUncached :
      (node : Option k.Node) (spec : ParsedClusterSpiffeIdSpec sp k) (pod : k.Pod) (h : Str) (w : W)
      → IsUncached pod (
        (render_on config kube lru parent_template node spec pod h none w).0,
        (render_on config kube lru parent_template node spec pod h none w).1,
      )
  unfolding render_on
  on-IsUncached none spec pod h w = (refl, λ e q. cc q)
  on-IsUncached (some node) spec pod h w = having-IsUncached spec node pod h _

  -- no cache stays no cache, and an entry has the selector of the pod's UID first
  pub render_pod_entry-uncached :
      (spec : ParsedClusterSpiffeIdSpec sp k) (pod : k.Pod) (h : Str) (nodes : Assoc k.Node)
      (cache : Option C) (w : W)
      → cache ≡ none
      → ((render_pod_entry config kube lru parent_template spec pod h nodes cache w).1 ≡ none)
        × ((e : Entry sp)
            → (render_pod_entry config kube lru parent_template spec pod h nodes cache w).0 ≡ some e
            → head? e.selectors ≡ some (pod_selector (k.pod_uid pod)))
  unfolding render_pod_entry
  render_pod_entry-uncached spec pod h nodes cache w e =
      rw e (on-IsUncached (lookup (k.pod_node_name pod) nodes) spec pod h w)
