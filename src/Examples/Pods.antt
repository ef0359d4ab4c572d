-- ===== src/Examples/Pods.antt =====
-- One pod, a fallback ClusterSPIFFEID and one that is none.
use spire_controller_manager.Prelude.{
  ℕ, Str, codes, Bool, true, false, [], ◌∷◌, Option, none, some, head?, ◌==◌, refl,
}
use spire_controller_manager.Prelude.Int.{pos}
use spire_controller_manager.SpireEntry.Kube.{ClusterSpiffeId}
use spire_controller_manager.SpireEntry.Preference.{spiffe_id}
use spire_controller_manager.SpireEntry.RenderCache.{CachedEntry}
use spire_controller_manager.SpireEntry.Status.{initial}
use spire_controller_manager.SpireEntry.Pods.{Pass, add_spiffe_ids}
use spire_controller_manager.SpireEntry.Pods.Declared.{EveryDeclared}
use spire_controller_manager.SpireEntry.Pods.Served.{Served}
use spire_controller_manager.SpireEntry.Pods.Fallback.{add_spiffe_ids-Served}
use spire_controller_manager.Examples.Fixtures.{plain, object, config}
use spire_controller_manager.Examples.Rendering.{one_pod, parent, kube, one_slot}

abbrev resource : ℕ → Bool → ClusterSpiffeId one_pod
resource i fallback = record {
  spec = record {
    spiffe_id_template = codes "spiffe://example.org/w";
    ttl = pos 0;
    jwt_ttl = pos 0;
    dns_name_templates = [];
    workload_selector_templates = codes "k8s:ns:a" ∷ [];
    federates_with = [];
    namespace_selector = none;
    pod_selector = none;
    admin = false;
    downstream = false;
    auto_populate_dns_names = false;
    class_name = [];
    fallback = fallback;
    hint = [];
  };
  object = object (spiffe_id i);
  status = initial.spiffe_ids 0;
}

abbrev begun : Pass plain (Option (Str × CachedEntry plain)) ℕ
begun = record { entries = []; statuses = initial; cache = none; applied = []; world = 0 }

-- the resource at position 0 is the fallback
abbrev is_fallback : ℕ → Bool
is_fallback i = i == 0

abbrev walked : Pass plain (Option (Str × CachedEntry plain)) ℕ
walked =
    add_spiffe_ids {R = ℕ} config kube one_slot parent (λ s. s) (λ spec. some []) (λ r ns. false) []
      (resource 0 true ∷ resource 1 false ∷ []) ((codes "n", tt) ∷ []) begun

add_spiffe_ids-Served_example :
    EveryDeclared
      (λ d. Served is_fallback walked.applied d.by.ref (head? d.entry.selectors))
      walked.entries
add_spiffe_ids-Served_example =
    add_spiffe_ids-Served {R = ℕ} config kube one_slot parent (λ s. s) (λ spec. some [])
      (λ r ns. false) [] is_fallback (resource 0 true ∷ resource 1 false ∷ [])
      ((codes "n", tt) ∷ []) begun (refl, (refl, tt)) tt refl
