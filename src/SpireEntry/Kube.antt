-- ===== src/SpireEntry/Kube.antt =====
-- What the entry reconciler uses of Kubernetes and of text/template, which are not part of the
-- program, and the two kinds of resource that declare entries.
use spire_controller_manager.Prelude.{ℕ, Str, Bool, List, Option}
use spire_controller_manager.Prelude.Int.{ℤ}
use spire_controller_manager.SpireEntry.Preference.{ByObject}
use spire_controller_manager.SpireEntry.Status.{ClusterStaticEntryStatus, ClusterSpiffeIdStats}

pub record Kube : Type 1 where
  pub Node : Type 0
  pub Pod : Type 0
  -- metav1.LabelSelector and labels.Selector
  pub LabelSelector : Type 0
  pub Selector : Type 0
  pub Template : Type 0
  pub node_name : Node → Str
  pub node_resource_version : Node → Str
  pub pod_uid : Pod → Str
  pub pod_resource_version : Pod → Str
  pub pod_namespace : Pod → Str
  pub pod_node_name : Pod → Str
  pub label_selector_as_selector : LabelSelector → Option Selector
  pub parse_template : Str → Option Template
  -- Execute on a templateData: the names of the trust domain, the cluster and the cluster's domain,
  -- the node, and the pod, which is nil for the parent ID
  pub execute : Template → Str → Str → Str → Node → Option Pod → Option Str

-- the fields of corev1.Endpoints that are read
pub record Endpoints : Type 0 where
  pub name : Str
  pub namespace : Str
  pub resource_version : Str

pub record ClusterStaticEntrySpec : Type 0 where
  pub spiffe_id : Str
  pub parent_id : Str
  pub selectors : List Str
  pub federates_with : List Str
  pub x509_svid_ttl : ℤ
  pub jwt_svid_ttl : ℤ
  pub dns_names : List Str
  pub hint : Str
  pub admin : Bool
  pub downstream : Bool
  pub store_svid : Bool
  pub class_name : Str

pub record ClusterSpiffeIdSpec (k : Kube) : Type 0 where
  pub spiffe_id_template : Str
  pub ttl : ℤ
  pub jwt_ttl : ℤ
  pub dns_name_templates : List Str
  pub workload_selector_templates : List Str
  pub federates_with : List Str
  pub namespace_selector : Option k.LabelSelector
  pub pod_selector : Option k.LabelSelector
  pub admin : Bool
  pub downstream : Bool
  pub auto_populate_dns_names : Bool
  pub class_name : Str
  pub fallback : Bool
  pub hint : Str

-- A resource as the reconciler holds it, with the status that was read. `object.ref` is its
-- position among the resources of its kind, where its next status is.
pub record ClusterStaticEntry : Type 0 where
  pub spec : ClusterStaticEntrySpec
  pub object : ByObject
  pub status : ClusterStaticEntryStatus

pub record ClusterSpiffeId (k : Kube) : Type 0 where
  pub spec : ClusterSpiffeIdSpec k
  pub object : ByObject
  pub status : ClusterSpiffeIdStats

-- The reply of a call that lists objects, with IsNotFound told from the other errors.
pub data Listed (A : Type 0) : Type 0 where
  listed : List A → Listed A
  not_found list_failed : Listed A

-- The calls of the Kubernetes API. A namespace is its name. ListNamespacePods fails with `none`,
-- whichever the error is.
pub record KubeClient (k : Kube) (W : Type 0) : Type 0 where
  pub list_nodes : W → Option (List k.Node) × W
  pub list_namespaces : Option k.Selector → W → Option (List Str) × W
  pub list_namespace_pods : Str → Option k.Selector → W → Option (List k.Pod) × W
  -- the Endpoints of a namespace that refer to the UID of a pod
  pub list_endpoints : Str → Str → W → Listed Endpoints × W
  -- ListClusterStaticEntries and ListClusterSPIFFEIDs
  pub list_cluster_static_entries : W → Option (List ClusterStaticEntry) × W
  pub list_cluster_spiffe_ids : W → Option (List (ClusterSpiffeId k)) × W
  -- Status().Update of the resource at a position; its error is only logged
  pub update_static_entry : ℕ → ClusterStaticEntryStatus → W → W
  pub update_spiffe_id : ℕ → ClusterSpiffeIdStats → W → W
