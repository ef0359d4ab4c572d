-- ===== src/SpireEntry.antt =====
-- pkg/spireentry: the reconciler that makes the registration entries of the SPIRE server match the
-- declared resources. The modules below follow the parts of reconciler.go, entries.go, by.go and
-- entry_list_cache.go.
pub mod Fields
pub mod Preference
pub mod Key
pub mod JoinToken
pub mod Config
pub mod Partition
pub mod ListCache
pub mod Client
pub mod Listing
pub mod Status
pub mod State
pub mod Plan
pub mod Apply
pub mod Kube
pub mod Render
pub mod RenderCache
pub mod Pods
pub mod Reconcile
