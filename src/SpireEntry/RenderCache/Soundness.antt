-- ===== src/SpireEntry/RenderCache/Soundness.antt =====
-- What the cache of rendered entries returns is what a rendering would return, up to specs of one
-- hash.
use mathlib.Core.Path.{subst}
use spire_controller_manager.Prelude.{
  Str, str_eq_iff, Bool, true, false, List, Option, none, some, ◌≡◌, ◌⊎◌, inl, inr, refl, ap, sym,
  ◌∙◌, arith, Bool-cases, Option-cases, ◌>>=◌, some-injective,
}
use spire_controller_manager.Prelude.Assoc.{Assoc, lookup}
use spire_controller_manager.Spiffe.{Spiffe}
use spire_controller_manager.SpireApi.Types.{Entry}
use spire_controller_manager.SpireEntry.Config.{ReconcilerConfig}
use spire_controller_manager.SpireEntry.Kube.{
  Kube, KubeClient, Endpoints, Listed, listed, not_found, list_failed,
}
use spire_controller_manager.SpireEntry.Render.{ParsedClusterSpiffeIdSpec, render_entry}
use spire_controller_manager.SpireEntry.RenderCache.{
  CachedEntry, Lru, is_valid, compute_endpoints_rv, still_valid, keep_rendered, reuse_or,
  cached_render, endpoints_of, pod_endpoints, render_having, render_on, render_pod_entry,
}
use spire_controller_manager.SpireEntry.RenderCache.Laws.{LruLaws, Versioned, NamesNodes}

is_valid_lem :
    {sp : Spiffe} (c : CachedEntry sp) (p n h e : Str)
    → is_valid c p n h e ≡ true
    → (c.pod_rv ≡ p) × (c.node_rv ≡ n) × (c.spec_hash ≡ h) × (c.endpoints_rv ≡ e)
unfolding is_valid
is_valid_lem c p n h e v = ground (
  arith,
  str_eq_iff c.pod_rv p,
  str_eq_iff c.node_rv n,
  str_eq_iff c.spec_hash h,
  str_eq_iff c.endpoints_rv e,
)

module _ {sp : Spiffe} {k : Kube} {W C : Type 0} (config : ReconcilerConfig sp)
    (kube : KubeClient k W) (lru : Lru sp C) (parent_template : k.Template)
    (Seen : k.Pod → List Endpoints → Type 0)
    (hash : ParsedClusterSpiffeIdSpec sp k → Option Str) where
  -- a rendering with these versions gave the entry
  pub record IsRendering (uid : Str) (c : CachedEntry sp) : Type 0 where
    pub spec : ParsedClusterSpiffeIdSpec sp k
    pub node : k.Node
    pub pod : k.Pod
    pub endpoints : List Endpoints
    pub on_node : k.node_name node ≡ k.pod_node_name pod
    pub seen : Seen pod endpoints
    pub of_uid : k.pod_uid pod ≡ uid
    pub of_pod : k.pod_resource_version pod ≡ c.pod_rv
    pub of_node : k.node_resource_version node ≡ c.node_rv
    pub of_spec : hash spec ≡ some c.spec_hash
    pub of_endpoints : compute_endpoints_rv endpoints ≡ c.endpoints_rv
    pub rendered : render_entry k config parent_template spec node pod endpoints ≡ some c.entry

  -- whatever can be read from the cache was rendered
  abbrev pub Sound : Option C → Type 0
  Sound none = Unit
  Sound (some c) = (uid : Str) (x : CachedEntry sp) → (lru.get uid c).0 ≡ some x → IsRendering uid x

  -- what a rendering by a spec gives, on the node and the Endpoints that another spec asks for
  unfoldable pub rendered_by :
      ParsedClusterSpiffeIdSpec sp k → Bool → k.Pod → Assoc k.Node → W → Option (Entry sp)
  unfolding lookup pod_endpoints
  rendered_by s auto pod nodes w = lookup (k.pod_node_name pod) nodes >>= λ node.
      (pod_endpoints config kube lru parent_template auto pod w).0 >>= λ es.
      render_entry k config parent_template s node pod es

  module _ (laws : LruLaws lru) (versions : Versioned k kube Seen) where
    reuse-eq :
        (node : k.Node) (pod : k.Pod) (es : List Endpoints) (h : Str) (x : CachedEntry sp)
        → k.node_name node ≡ k.pod_node_name pod
        → Seen pod es
        → (r : IsRendering (k.pod_uid pod) x)
        → is_valid x
            (k.pod_resource_version pod)
            (k.node_resource_version node)
            h
            (compute_endpoints_rv es)
          ≡ true
        → (hash r.spec ≡ some h)
          × (render_entry k config parent_template r.spec node pod es ≡ some x.entry)
    reuse-eq node pod es h x on seen r v =
        let (vp, vn, vh, ve) = is_valid_lem x _ _ _ _ v in
        let same_pod = versions.pods r.pod pod r.of_uid (r.of_pod ∙ vp) in
        let same_node =
          versions.nodes r.node node (r.on_node ∙ (ap k.pod_node_name same_pod ∙ sym on))
            (r.of_node ∙ vn) in
        let same_endpoints =
          versions.endpoints pod r.endpoints es (subst (λ p. Seen p r.endpoints) same_pod r.seen)
            seen (r.of_endpoints ∙ ve) in
        (
          r.of_spec ∙ ap some vh,
          ap (λ n. render_entry k config parent_template r.spec n pod es) (sym same_node)
              ∙ (ap (λ p. render_entry k config parent_template r.spec r.node p es) (sym same_pod)
                  ∙ (ap (λ l. render_entry k config parent_template r.spec r.node r.pod l)
                        (sym same_endpoints)
                      ∙ r.rendered)),
        )

    -- the entry, or its absence, is what a spec of this hash renders
    abbrev FromHash : Str → k.Node → k.Pod → List Endpoints → Option (Entry sp) → Type 0
    FromHash h node pod es o =
        (s : ParsedClusterSpiffeIdSpec sp k) × (hash s ≡ some h)
        × (o ≡ render_entry k config parent_template s node pod es)

    -- reading keeps the cache sound
    got-Sound : (uid : Str) (c : C) → Sound (some c) → Sound (some (lru.get uid c).1)
    got-Sound uid c s j x e = s j x (laws.get-get j uid c x e)

    reuse-cases :
        (node : k.Node) (pod : k.Pod) (es : List Endpoints) (h : Str) (o : Option (CachedEntry sp))
        → k.node_name node ≡ k.pod_node_name pod
        → Seen pod es
        → ((x : CachedEntry sp) → o ≡ some x → IsRendering (k.pod_uid pod) x)
        → (still_valid config kube lru parent_template o
              (k.pod_resource_version pod)
              (k.node_resource_version node)
              h
              (compute_endpoints_rv es)
            ≡ none)
          ⊎ ((e : Entry sp) × (still_valid config kube lru parent_template o
                  (k.pod_resource_version pod)
                  (k.node_resource_version node)
                  h
                  (compute_endpoints_rv es)
                ≡ some e)
              × FromHash h node pod es (some e))
    unfolding still_valid
    reuse-cases node pod es h none on seen r = inl refl
    reuse-cases node pod es h (some x) on seen r =
        elim (Bool-cases (
          is_valid x (k.pod_resource_version pod) (k.node_resource_version node) h
            (compute_endpoints_rv es))) [
              | inl v ↦
                  let (hs, e) = reuse-eq node pod es h x on seen (r x refl) v in
                  inr (x.entry, rw v refl, ((r x refl).spec, hs, sym e))
              | inr v ↦ inl (rw v refl)
            ]

    keep-Sound :
        (spec : ParsedClusterSpiffeIdSpec sp k) (node : k.Node) (pod : k.Pod) (es : List Endpoints)
        (h : Str) (o : Option (Entry sp)) (c : C)
        → hash spec ≡ some h
        → k.node_name node ≡ k.pod_node_name pod
        → Seen pod es
        → render_entry k config parent_template spec node pod es ≡ o
        → Sound (some c)
        → ((keep_rendered config kube lru parent_template o
              (k.pod_uid pod)
              (k.pod_resource_version pod)
              (k.node_resource_version node)
              h
              (compute_endpoints_rv es)
              c).0
            ≡ o)
          × Sound (
              some
                (keep_rendered config kube lru parent_template o
                  (k.pod_uid pod)
                  (k.pod_resource_version pod)
                  (k.node_resource_version node)
                  h
                  (compute_endpoints_rv es)
                  c).1)
    unfolding keep_rendered
    keep-Sound spec node pod es h none c hs on seen e s = (refl, s)
    keep-Sound spec node pod es h (some x) c hs on seen e s = (
      refl,
      λ uid y g. elim (laws.get-add uid (k.pod_uid pod) _ c y g) [
        | inl q ↦
            subst (λ i. IsRendering i y) (sym q.0)
              (subst (IsRendering (k.pod_uid pod)) (sym q.1) (record {
                spec = spec;
                node = node;
                pod = pod;
                endpoints = es;
                on_node = on;
                seen = seen;
                of_uid = refl;
                of_pod = refl;
                of_node = refl;
                of_spec = hs;
                of_endpoints = refl;
                rendered = e;
              }))
        | inr q ↦ s uid y q
      ],
    )

    cached-Sound :
        (spec : ParsedClusterSpiffeIdSpec sp k) (node : k.Node) (pod : k.Pod) (es : List Endpoints)
        (h : Str) (c : C)
        → hash spec ≡ some h
        → k.node_name node ≡ k.pod_node_name pod
        → Seen pod es
        → Sound (some c)
        → FromHash h node pod es
            (cached_render config kube lru parent_template spec node pod es h c).0
          × Sound (some (cached_render config kube lru parent_template spec node pod es h c).1)
    unfolding cached_render reuse_or
    cached-Sound spec node pod es h c hs on seen s =
        elim (reuse-cases node pod es h (lru.get (k.pod_uid pod) c).0 on seen (s (k.pod_uid pod))) [
          | inl e ↦
              let (kept, sound) =
                keep-Sound spec node pod es h _ _ hs on seen refl (got-Sound (k.pod_uid pod) c s) in
              rw e ((spec, hs, kept), sound)
          | inr (x, e, r) ↦ rw e (r, got-Sound (k.pod_uid pod) c s)
        ]

    reply-Seen :
        (pod : k.Pod) (w : W) (r : Listed Endpoints) (es : List Endpoints)
        → (kube.list_endpoints (k.pod_namespace pod) (k.pod_uid pod) w).0 ≡ r
        → endpoints_of config kube lru parent_template r ≡ some es
        → Seen pod es
    unfolding endpoints_of
    reply-Seen pod w (listed fs) es q e =
        versions.replies pod w es (q ∙ ap listed (some-injective e))
    reply-Seen pod w not_found es q e =
        subst (Seen pod) (some-injective e) (versions.no_endpoints pod)
    reply-Seen pod w list_failed es q e = cc

    endpoints-Seen :
        (auto : Bool) (pod : k.Pod) (w : W) (es : List Endpoints)
        → (pod_endpoints config kube lru parent_template auto pod w).0 ≡ some es
        → Seen pod es
    unfolding pod_endpoints
    endpoints-Seen false pod w es e =
        subst (Seen pod) (some-injective e) (versions.no_endpoints pod)
    endpoints-Seen true pod w es e = reply-Seen pod w _ es refl e

    having-cached :
        (spec : ParsedClusterSpiffeIdSpec sp k) (node : k.Node) (pod : k.Pod) (h : Str)
        (o : Option (List Endpoints)) (c : C)
        → hash spec ≡ some h
        → k.node_name node ≡ k.pod_node_name pod
        → ((es : List Endpoints) → o ≡ some es → Seen pod es)
        → Sound (some c)
        → ((s : ParsedClusterSpiffeIdSpec sp k) × (hash s ≡ some h)
            × ((render_having config kube lru parent_template spec node pod h o (some c)).0
                ≡ (o >>= λ es. render_entry k config parent_template s node pod es)))
          × Sound (render_having config kube lru parent_template spec node pod h o (some c)).1
    unfolding render_having
    having-cached spec node pod h none c hs on seen s = ((spec, hs, refl), s)
    having-cached spec node pod h (some es) c hs on seen s =
        cached-Sound spec node pod es h c hs on (seen es refl) s

    on-cached :
        (o : Option k.Node) (spec : ParsedClusterSpiffeIdSpec sp k) (pod : k.Pod) (h : Str) (c : C)
        (w : W)
        → hash spec ≡ some h
        → ((node : k.Node) → o ≡ some node → k.node_name node ≡ k.pod_node_name pod)
        → Sound (some c)
        → ((s : ParsedClusterSpiffeIdSpec sp k) × (hash s ≡ some h)
            × ((render_on config kube lru parent_template o spec pod h (some c) w).0 ≡ (
                o >>= λ node.
                (pod_endpoints config kube lru parent_template spec.auto_populate_dns_names pod w).0
                >>= λ es. render_entry k config parent_template s node pod es)))
          × Sound (render_on config kube lru parent_template o spec pod h (some c) w).1
    unfolding render_on
    on-cached none spec pod h c w hs on s = ((spec, hs, refl), s)
    on-cached (some node) spec pod h c w hs on s =
        having-cached spec node pod h _ c hs (on node refl)
          (endpoints-Seen spec.auto_populate_dns_names pod w) s

    -- Without a cache, renderPodEntry returns what its spec renders.
    render_pod_entry-direct :
        (spec : ParsedClusterSpiffeIdSpec sp k) (pod : k.Pod) (h : Str) (nodes : Assoc k.Node)
        (w : W)
        → (render_pod_entry config kube lru parent_template spec pod h nodes none w).0
          ≡ rendered_by spec spec.auto_populate_dns_names pod nodes w
    unfolding render_pod_entry rendered_by
    render_pod_entry-direct spec pod h nodes w =
        elim (Option-cases (lookup (k.pod_node_name pod) nodes)) [
          | inl n ↦ rw n refl
          | inr (node, n) ↦
              elim (Option-cases
                (pod_endpoints config kube lru parent_template spec.auto_populate_dns_names pod
                  w).0) [ inl e ↦ rw (n, e) refl | inr (es, e) ↦ rw (n, e) refl ]
        ]

    -- With a sound cache, renderPodEntry returns what it would return without a cache for a spec of the
    -- same hash, on the node and the Endpoints that it finds now; and the cache stays sound: every
    -- entry that can be read from it was rendered by a spec and objects with the recorded hash and
    -- versions. The pod, the node and the Endpoints are told apart by their versions, and the cache
    -- keeps to its documentation. Of the hash nothing is assumed.
    pub render_pod_entry-cached :
        (spec : ParsedClusterSpiffeIdSpec sp k) (pod : k.Pod) (h : Str) (nodes : Assoc k.Node)
        (c : C) (w : W)
        → hash spec ≡ some h
        → NamesNodes k nodes
        → Sound (some c)
        → ((s : ParsedClusterSpiffeIdSpec sp k) × (hash s ≡ some h)
            × ((render_pod_entry config kube lru parent_template spec pod h nodes (some c) w).0
                ≡ rendered_by s spec.auto_populate_dns_names pod nodes w))
          × Sound (render_pod_entry config kube lru parent_template spec pod h nodes (some c) w).1
    unfolding render_pod_entry rendered_by
    render_pod_entry-cached spec pod h nodes c w hs named s =
        on-cached (lookup (k.pod_node_name pod) nodes) spec pod h c w hs
          (named (k.pod_node_name pod)) s

    -- the same, where all specs of the hash render alike
    render_pod_entry-alike :
        (spec : ParsedClusterSpiffeIdSpec sp k) (pod : k.Pod) (h : Str) (nodes : Assoc k.Node)
        (c : C) (w : W)
        → hash spec ≡ some h
        → NamesNodes k nodes
        → Sound (some c)
        → ((s : ParsedClusterSpiffeIdSpec sp k)
            → hash s ≡ some h
            → rendered_by s spec.auto_populate_dns_names pod nodes w
              ≡ rendered_by spec spec.auto_populate_dns_names pod nodes w)
        → (render_pod_entry config kube lru parent_template spec pod h nodes (some c) w).0
          ≡ (render_pod_entry config kube lru parent_template spec pod h nodes none w).0
    render_pod_entry-alike spec pod h nodes c w hs named s alike =
        let ((t, ht, e), sound) = render_pod_entry-cached spec pod h nodes c w hs named s in
        e ∙ (alike t ht ∙ sym (render_pod_entry-direct spec pod h nodes w))
