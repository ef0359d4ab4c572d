-- ===== src/Controllers.antt =====
-- internal/controller: the handlers of the watches, which trigger the loop of pkg/reconciler, and the
-- UIDs of pods under which SetupWithManager of the pod controller indexes Endpoints.
pub mod Index
use spire_controller_manager.Prelude.{
  Str, str_eq, codes, Bool, List, [], ◌∷◌, ◌++◌, Option, none, some, if◌then◌else◌,
}
use spire_controller_manager.Reconciler.{Loop, trigger, step}
use spire_controller_manager.SpireEntry.Pods.{is_ignored}

-- The request of a controller. The objects of SPIRE have no namespace that is looked at.
pub data Request : Type 0 where
  cluster_spiffe_id cluster_static_entry cluster_federated_trust_domain : Request
  pod endpoints : Str → Request

module _ {R : Type 0} (matches : R → Str → Bool) (ignored : List R) where
  trigger_unless_ignored : Str → Loop → Loop
  unfolding is_ignored step
  trigger_unless_ignored namespace l =
      if is_ignored matches ignored namespace then l else step trigger l

  -- Reconcile of the five controllers, on the loop that the controller triggers
  unfoldable pub handle : Request → Loop → Loop
  unfolding trigger_unless_ignored step
  handle (pod namespace) l = trigger_unless_ignored namespace l
  handle (endpoints namespace) l = trigger_unless_ignored namespace l
  handle _ l = step trigger l

-- the fields of corev1.ObjectReference that the index reads
pub record TargetRef : Type 0 where
  pub kind : Str
  pub uid : Str

-- corev1.EndpointSubset; an address is its TargetRef, which may be nil
pub record Subset : Type 0 where
  pub addresses : List (Option TargetRef)
  pub not_ready_addresses : List (Option TargetRef)

unfoldable pub is_pod : TargetRef → Bool
is_pod t = str_eq t.kind (codes "Pod")

unfoldable pub target_uids : List (Option TargetRef) → List Str
unfolding is_pod
target_uids [] = []
target_uids (none ∷ ts) = target_uids ts
target_uids (some t ∷ ts) = let rest = target_uids ts in if is_pod t then t.uid ∷ rest else rest

unfoldable pub pod_uids : List Subset → List Str
unfolding target_uids
pod_uids [] = []
pod_uids (s ∷ ss) = target_uids s.addresses ++ (target_uids s.not_ready_addresses ++ pod_uids ss)
