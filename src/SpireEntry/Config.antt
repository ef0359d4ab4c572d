-- ===== src/SpireEntry/Config.antt =====
-- The part of ReconcilerConfig that the modelled code reads.
use spire_controller_manager.Prelude.{Str, Bool, Option}
use spire_controller_manager.Spiffe.{Spiffe}

-- spirev1alpha1.ReconcileConfig
pub record ReconcileConfig : Type 0 where
  pub cluster_spiffe_ids : Bool
  pub cluster_federated_trust_domains : Bool
  pub cluster_static_entries : Bool

pub record ReconcilerConfig (sp : Spiffe) : Type 0 where
  pub trust_domain : sp.TrustDomain
  pub cluster_name : Str
  pub cluster_domain : Str
  pub class_name : Str
  pub watch_classless : Bool
  pub reconcile : ReconcileConfig
  pub entry_id_prefix : Str
  pub entry_id_prefix_cleanup : Option Str
  pub enable_entry_list_hint_filter : Bool
