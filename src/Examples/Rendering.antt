-- ===== src/Examples/Rendering.antt =====
-- Rendered entries and their cache, over a Kubernetes with one node and one pod.
use spire_controller_manager.Prelude.{
  ℕ, Str, str_eq, str_eq_iff, cut_byte, Bool-cases, some-injective, ap, ◌∙◌, ◌⊎◌, if◌then◌else◌,
  codes, true, false, List, [], ◌∷◌, Option, none, some, ◌≡◌, ◌↔◌, refl, sym, inl, inr,
}
use spire_controller_manager.Prelude.Int.{pos}
use spire_controller_manager.SpireApi.Types.{Entry}
use spire_controller_manager.SpireEntry.Kube.{Kube, KubeClient, Endpoints, listed}
use spire_controller_manager.SpireEntry.Render.{
  ParsedClusterSpiffeIdSpec, parse_selector, render_entry,
}
use spire_controller_manager.SpireEntry.Render.WellFormed.{
  selector_text, IsSelector, parse_selector_iff, IsPodEntry, render_entry-IsPodEntry,
}
use spire_controller_manager.SpireEntry.RenderCache.{
  Lru, CachedEntry, build_node_map, render_pod_entry,
}
use spire_controller_manager.SpireEntry.RenderCache.Laws.{
  LruLaws, Versioned, build_node_map-NamesNodes,
}
use spire_controller_manager.SpireEntry.RenderCache.Soundness.{
  rendered_by, Sound, render_pod_entry-cached,
}
use spire_controller_manager.Examples.Fixtures.{plain, selector, config}

parse_selector_iff_example :
    (parse_selector (codes "k8s:ns:a") ≡ some selector)
    ↔ ((codes "k8s:ns:a" ≡ selector_text selector) × IsSelector selector)
parse_selector_iff_example = parse_selector_iff (codes "k8s:ns:a") selector

-- a template is the text that it renders to
abbrev pub one_pod : Kube
one_pod = record {
  Node = Unit {0};
  Pod = Unit {0};
  LabelSelector = Unit {0};
  Selector = Unit {0};
  Template = Str;
  node_name = λ n. codes "n";
  node_resource_version = λ n. codes "1";
  pod_uid = λ p. codes "u";
  pod_resource_version = λ p. codes "2";
  pod_namespace = λ p. codes "ns";
  pod_node_name = λ p. codes "n";
  label_selector_as_selector = λ s. some s;
  parse_template = λ s. some s;
  execute = λ t td name domain node pod. some t;
}

abbrev spec : ParsedClusterSpiffeIdSpec plain one_pod
spec = record {
  spiffe_id_template = codes "spiffe://example.org/w";
  namespace_selector = none;
  pod_selector = none;
  ttl = pos 0;
  jwt_ttl = pos 0;
  federates_with = [];
  dns_name_templates = codes "a" ∷ codes "a" ∷ [];
  workload_selector_templates = codes "k8s:ns:a" ∷ [];
  admin = false;
  downstream = false;
  auto_populate_dns_names = true;
  hint = [];
}

abbrev pub parent : Str
parent = codes "spiffe://example.org/node"

abbrev rendered : Entry plain
rendered = record {
  id = [];
  spiffe_id = (codes "example.org", codes "/w");
  parent_id = (codes "example.org", codes "/node");
  selectors = record { type = codes "k8s"; value = codes "pod-uid:u" } ∷ selector ∷ [];
  x509_svid_ttl = pos 0;
  jwt_svid_ttl = pos 0;
  federates_with = [];
  admin = false;
  downstream = false;
  dns_names = codes "a" ∷ [];
  hint = [];
  store_svid = false;
}

renders : render_entry {sp = plain} one_pod config parent spec tt tt [] ≡ some rendered
unfolding render_entry str_eq cut_byte
renders = refl

render_entry-IsPodEntry_example : IsPodEntry one_pod config parent tt rendered
render_entry-IsPodEntry_example =
    render_entry-IsPodEntry one_pod config parent spec tt tt [] rendered renders

abbrev pub kube : KubeClient one_pod ℕ
kube = record {
  list_nodes = λ w. (some (tt ∷ []), w);
  list_namespaces = λ s w. (some (codes "ns" ∷ []), w);
  list_namespace_pods = λ ns s w. (some (tt ∷ []), w);
  list_endpoints = λ ns uid w. (listed [], w);
  list_cluster_static_entries = λ w. (some [], w);
  list_cluster_spiffe_ids = λ w. (some [], w);
  update_static_entry = λ i s w. w;
  update_spiffe_id = λ i s w. w;
}

-- a cache of one slot
abbrev pub one_slot : Lru plain (Option (Str × CachedEntry plain))
one_slot = record { get = λ k c. (read k c, c); add = λ k x c. some (k, x) }
  where
    read : Str → Option (Str × CachedEntry plain) → Option (CachedEntry plain)
    read k none = none
    read k (some (j, x)) = if str_eq j k then some x else none

one_slot_laws : LruLaws one_slot
one_slot_laws = record {
  get-get = λ i j c x e. e;
  get-add = λ i j y c x e. added i j y c x (Bool-cases (str_eq j i)) e;
}
  where
    added :
        (i j : Str) (y : CachedEntry plain) (c : Option (Str × CachedEntry plain))
        (x : CachedEntry plain)
        → (str_eq j i ≡ true) ⊎ (str_eq j i ≡ false)
        → (one_slot.get i (some (j, y))).0 ≡ some x
        → ((i ≡ j) × (x ≡ y)) ⊎ ((one_slot.get i c).0 ≡ some x)
    added i j y c x (inl s) e = inl (
      sym ((str_eq_iff j i).0 s),
      some-injective (sym e ∙ ap (λ b. if b then some y else none) s),
    )
    added i j y c x (inr s) e = absurd (cc (sym e ∙ ap (λ b. if b then some y else none) s))

kube_versions : Versioned one_pod kube (λ p es. es ≡ [])
kube_versions = record {
  pods = λ p q u v. refl;
  nodes = λ m n u v. refl;
  endpoints = λ p es fs s t v. s ∙ sym t;
  no_endpoints = λ p. refl;
  replies = λ p w es e. replied es e;
}
  where
    replied : (es : List Endpoints) → listed [] ≡ listed es → es ≡ []
    replied es e = cc e

-- a spec with nothing but an ID template
abbrev bare : Str → ParsedClusterSpiffeIdSpec plain one_pod
bare t = record {
  spiffe_id_template = t;
  namespace_selector = none;
  pod_selector = none;
  ttl = pos 0;
  jwt_ttl = pos 0;
  federates_with = [];
  dns_name_templates = [];
  workload_selector_templates = [];
  admin = false;
  downstream = false;
  auto_populate_dns_names = true;
  hint = [];
}

-- a hash that tells the ID templates apart and forgets the rest
abbrev hash_of : ParsedClusterSpiffeIdSpec plain one_pod → Option Str
hash_of s = some s.spiffe_id_template

abbrev text : Str
text = codes "spiffe://example.org/w"

render_pod_entry-cached_example :
    ((s : ParsedClusterSpiffeIdSpec plain one_pod) × (◌≡◌ {A = Option Str}
        (some s.spiffe_id_template)
        (some text))
      × ((render_pod_entry config kube one_slot parent
            (bare text)
            tt
            text
            (build_node_map one_pod (tt ∷ []) [])
            (some none)
            0).0
          ≡ rendered_by config kube one_slot parent
              (λ p es. es ≡ [])
              hash_of
              s
              true
              tt
              (build_node_map one_pod (tt ∷ []) [])
              0))
    × Sound config kube one_slot parent
        (λ p es. es ≡ [])
        hash_of
        (render_pod_entry config kube one_slot parent
          (bare text)
          tt
          text
          (build_node_map one_pod (tt ∷ []) [])
          (some none)
          0).1
render_pod_entry-cached_example =
    render_pod_entry-cached config kube one_slot parent (λ p es. es ≡ []) hash_of one_slot_laws
      kube_versions (bare text) tt text (build_node_map one_pod (tt ∷ []) []) none 0 refl
      (build_node_map-NamesNodes one_pod (tt ∷ [])) (λ uid x e. cc e)
