-- ===== src/SpireEntry/Render.antt =====
-- entries.go, and ParseClusterSPIFFEIDSpec of api/v1alpha1/clusterspiffeid_webhook.go: from the
-- specs of the resources to entries.
pub mod WellFormed
use spire_controller_manager.Prelude.{
  Str, codes, str_eq, str_lt, cut_byte, Bool, true, false, not, List, [], ◌∷◌, ◌++◌, Option, none,
  some, map, any, is_empty, if◌then◌else◌, ◌>>=◌, ◌>>◌, guard, traverse,
}
use spire_controller_manager.Prelude.Sort.{sort}
use spire_controller_manager.Prelude.Int.{ℤ}
use spire_controller_manager.Spiffe.{Spiffe}
use spire_controller_manager.SpireApi.Types.{Entry, Selector}
use spire_controller_manager.SpireEntry.Config.{ReconcilerConfig}
use spire_controller_manager.SpireEntry.Kube.{
  Kube, Endpoints, ClusterStaticEntrySpec, ClusterSpiffeIdSpec,
}

-- strings.SplitN(selector, ":", 2) and the switch over the parts; 58 is the colon
unfoldable pub parse_selector : Str → Option Selector
unfolding cut_byte
parse_selector selector = do
  parts ← cut_byte 58 selector
  guard (not (is_empty parts.0))
  guard (not (is_empty parts.1))
  some (record { type = parts.0; value = parts.1 })

unfoldable pub parse_selectors : List Str → Option (List Selector)
unfolding traverse parse_selector
parse_selectors = traverse parse_selector

append_item : Str → List Str × List Str → List Str × List Str
unfolding any
append_item x (slice, set) =
    if◌then◌else◌ {A = List Str × List Str} (any (str_eq x) set) (slice, set)
      (slice ++ x ∷ [], x ∷ set)

-- The list and the set of its elements, as they are after the loop over the items.
unfoldable pub append_if_not_exists : List Str → List Str → List Str → List Str × List Str
unfolding append_item
append_if_not_exists slice set [] = (slice, set)
append_if_not_exists slice set (x ∷ xs) =
    let next = append_item x (slice, set) in append_if_not_exists next.0 next.1 xs

-- 46 is the dot
service_names : Str → Endpoints → List Str
service_names cluster_domain e =
    let qualified = e.name ++ 46 ∷ e.namespace in
    e.name
    ∷ qualified
    ∷ (qualified ++ codes ".svc")
    ∷ (if is_empty cluster_domain
        then []
        else (qualified ++ (codes ".svc." ++ cluster_domain)) ∷ [])

all_service_names : Str → List Endpoints → List Str
all_service_names cluster_domain [] = []
all_service_names cluster_domain (e ∷ es) =
    service_names cluster_domain e ++ all_service_names cluster_domain es

unfoldable pub dns_names_from_endpoints : List Endpoints → Str → List Str
unfolding sort all_service_names service_names
dns_names_from_endpoints endpoints cluster_domain =
    sort str_lt (all_service_names cluster_domain endpoints)

module _ {sp : Spiffe} where
  unfoldable pub render_static_entry : ClusterStaticEntrySpec → Option (Entry sp)
  unfolding traverse parse_selectors
  render_static_entry spec = do
    spiffe_id ← sp.id_from_string spec.spiffe_id
    parent_id ← sp.id_from_string spec.parent_id
    selectors ← parse_selectors spec.selectors
    federates_with ← traverse sp.td_from_string spec.federates_with
    some (record {
      id = [];
      spiffe_id = spiffe_id;
      parent_id = parent_id;
      selectors = selectors;
      x509_svid_ttl = spec.x509_svid_ttl;
      jwt_svid_ttl = spec.jwt_svid_ttl;
      federates_with = federates_with;
      admin = spec.admin;
      downstream = spec.downstream;
      dns_names = spec.dns_names;
      hint = spec.hint;
      store_svid = spec.store_svid;
    })

pub record ParsedClusterSpiffeIdSpec (sp : Spiffe) (k : Kube) : Type 0 where
  pub spiffe_id_template : k.Template
  pub namespace_selector : Option k.Selector
  pub pod_selector : Option k.Selector
  pub ttl : ℤ
  pub jwt_ttl : ℤ
  pub federates_with : List sp.TrustDomain
  pub dns_name_templates : List k.Template
  pub workload_selector_templates : List k.Template
  pub admin : Bool
  pub downstream : Bool
  pub auto_populate_dns_names : Bool
  pub hint : Str

module _ (k : Kube) where
  -- if spec.…Selector != nil { LabelSelectorAsSelector }
  selector_of : Option k.LabelSelector → Option (Option k.Selector)
  selector_of none = some none
  selector_of (some s) = k.label_selector_as_selector s >>= λ t. some (some t)

module _ {sp : Spiffe} {k : Kube} where
  unfoldable pub parse_cluster_spiffe_id_spec :
      ClusterSpiffeIdSpec k → Option (ParsedClusterSpiffeIdSpec sp k)
  unfolding selector_of traverse
  parse_cluster_spiffe_id_spec spec = do
    guard (not (is_empty spec.spiffe_id_template))
    spiffe_id_template ← k.parse_template spec.spiffe_id_template
    namespace_selector ← selector_of k spec.namespace_selector
    pod_selector ← selector_of k spec.pod_selector
    federates_with ← traverse sp.td_from_string spec.federates_with
    dns_name_templates ← traverse k.parse_template spec.dns_name_templates
    workload_selector_templates ← traverse k.parse_template spec.workload_selector_templates
    some (record {
      spiffe_id_template = spiffe_id_template;
      namespace_selector = namespace_selector;
      pod_selector = pod_selector;
      ttl = spec.ttl;
      jwt_ttl = spec.jwt_ttl;
      federates_with = federates_with;
      dns_name_templates = dns_name_templates;
      workload_selector_templates = workload_selector_templates;
      admin = spec.admin;
      downstream = spec.downstream;
      auto_populate_dns_names = spec.auto_populate_dns_names;
      hint = spec.hint;
    })

-- `parent_template` is ParentIDTemplate, or the default where it is nil.
module _ {sp : Spiffe} (k : Kube) (config : ReconcilerConfig sp)
    (parent_template : k.Template) where
  render_template : k.Template → k.Node → Option k.Pod → Option Str
  render_template t node pod =
      k.execute t (sp.td_name config.trust_domain) config.cluster_name config.cluster_domain node
        pod

  unfoldable pub render_spiffe_id : k.Template → k.Node → Option k.Pod → Option sp.SpiffeId
  unfolding render_template
  render_spiffe_id t node pod = do
    rendered ← render_template t node pod
    id ← sp.id_from_string rendered
    guard (sp.td_eq (sp.id_trust_domain id) config.trust_domain)
    some id

  -- the loop of renderDNSNames, from a list and a set on
  render_dns_names :
      List Str → List Str → List k.Template → k.Node → Option k.Pod → Option (List Str × List Str)
  unfolding render_template append_if_not_exists
  render_dns_names names set [] node pod = some (names, set)
  render_dns_names names set (t ∷ ts) node pod = render_template t node pod >>= λ name.
      let next = append_if_not_exists names set (name ∷ []) in
      render_dns_names next.0 next.1 ts node pod

  render_selector : k.Template → k.Node → Option k.Pod → Option Selector
  unfolding render_template parse_selector
  render_selector t node pod = render_template t node pod >>= parse_selector

  -- renderPodEntry of entries.go
  unfoldable pub render_entry :
      ParsedClusterSpiffeIdSpec sp k → k.Node → k.Pod → List Endpoints → Option (Entry sp)
  unfolding render_spiffe_id render_dns_names render_selector append_if_not_exists traverse
      dns_names_from_endpoints
  render_entry spec node pod endpoints = do
    parent_id ← render_spiffe_id parent_template node none
    spiffe_id ← render_spiffe_id spec.spiffe_id_template node (some pod)
    dns ← render_dns_names [] [] spec.dns_name_templates node (some pod)
    let dns_names =
        (append_if_not_exists dns.0 dns.1
          (dns_names_from_endpoints endpoints config.cluster_domain)).0
    selectors ← traverse (λ t. render_selector t node (some pod)) spec.workload_selector_templates
    some (record {
      id = [];
      spiffe_id = spiffe_id;
      parent_id = parent_id;
      selectors =
          record { type = codes "k8s"; value = codes "pod-uid:" ++ k.pod_uid pod } ∷ selectors;
      x509_svid_ttl = spec.ttl;
      jwt_svid_ttl = spec.jwt_ttl;
      federates_with = spec.federates_with;
      admin = spec.admin;
      downstream = spec.downstream;
      dns_names = dns_names;
      hint = spec.hint;
      store_svid = false;
    })
