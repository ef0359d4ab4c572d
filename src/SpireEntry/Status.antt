-- ===== src/SpireEntry/Status.antt =====
-- The next statuses of the resources (by.go, api/v1alpha1/clusterspiffeid_types.go and
-- clusterstaticentry_types.go). Declared entries point to their resources, so the statuses are a
-- heap: one status for each position in the two lists of resources. Counters are not bounded.
use spire_controller_manager.Prelude.{ℕ, ◌+◌, Bool, true, false, ◌==◌, if◌then◌else◌}
use spire_controller_manager.SpireEntry.Preference.{ByRef, static_entry, spiffe_id}

pub record ClusterStaticEntryStatus : Type 0 where
  pub rendered : Bool
  pub masked : Bool
  pub set : Bool

pub record ClusterSpiffeIdStats : Type 0 where
  pub namespaces_selected : ℕ
  pub namespaces_ignored : ℕ
  pub pods_selected : ℕ
  pub pod_entry_render_failures : ℕ
  pub entries_masked : ℕ
  pub entries_to_set : ℕ
  pub entry_failures : ℕ

pub record Statuses : Type 0 where
  pub static_entries : ℕ → ClusterStaticEntryStatus
  pub spiffe_ids : ℕ → ClusterSpiffeIdStats

-- the zero values that NextStatus begins with
abbrev pub initial : Statuses
initial = record {
  static_entries = λ i. record { rendered = false; masked = false; set = false };
  spiffe_ids = λ i. record {
    namespaces_selected = 0;
    namespaces_ignored = 0;
    pods_selected = 0;
    pod_entry_render_failures = 0;
    entries_masked = 0;
    entries_to_set = 0;
    entry_failures = 0;
  };
}

abbrev pub at_index {ℓ} : {A : Type ℓ} → ℕ → (A → A) → (ℕ → A) → ℕ → A
at_index i f h j = if i == j then f (h j) else h j

unfoldable pub on_static_entry :
    ℕ → (ClusterStaticEntryStatus → ClusterStaticEntryStatus) → Statuses → Statuses
on_static_entry i f h = record h { static_entries = at_index i f h.static_entries }

unfoldable pub on_spiffe_id :
    ℕ → (ClusterSpiffeIdStats → ClusterSpiffeIdStats) → Statuses → Statuses
on_spiffe_id i f h = record h { spiffe_ids = at_index i f h.spiffe_ids }

unfoldable pub increment_entries_to_set : ByRef → Statuses → Statuses
unfolding on_spiffe_id
increment_entries_to_set (static_entry i) h = h
increment_entries_to_set (spiffe_id i) h =
    on_spiffe_id i (λ s. record s { entries_to_set = s.entries_to_set + 1 }) h

unfoldable pub increment_entries_masked : ByRef → Statuses → Statuses
unfolding on_spiffe_id on_static_entry
increment_entries_masked (static_entry i) h = on_static_entry i (λ s. record s { masked = true }) h
increment_entries_masked (spiffe_id i) h =
    on_spiffe_id i (λ s. record s { entries_masked = s.entries_masked + 1 }) h

unfoldable pub increment_entry_success : ByRef → Statuses → Statuses
unfolding on_static_entry
increment_entry_success (static_entry i) h = on_static_entry i (λ s. record s { set = true }) h
increment_entry_success (spiffe_id i) h = h

unfoldable pub increment_entry_failures : ByRef → Statuses → Statuses
unfolding on_spiffe_id
increment_entry_failures (static_entry i) h = h
increment_entry_failures (spiffe_id i) h =
    on_spiffe_id i (λ s. record s { entry_failures = s.entry_failures + 1 }) h
