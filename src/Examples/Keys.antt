-- ===== src/Examples/Keys.antt =====
-- Keys, fields, preference and the partition of the listed entries.
use mathlib.Core.List.Perm
use spire_controller_manager.Prelude.{codes, true, false, [], ◌∷◌, ◌≡◌, ◌↔◌, refl, Perm, All, some}
use spire_controller_manager.Prelude.Int.{pos, ltb_ℤ, ◌≤ℤ◌, to_int64, ◌-ℤ◌}
use spire_controller_manager.SpireEntry.Key.{make_entry_key}
use spire_controller_manager.SpireEntry.Key.Identity.{make_entry_key-perm, make_entry_key_ambiguous}
use spire_controller_manager.SpireEntry.Fields.{outdated_entry_fields}
use spire_controller_manager.SpireEntry.Fields.Matching.{IsUpToDate, outdated_none_iff}
use spire_controller_manager.SpireEntry.Preference.{object_cmp, sort_declared, static_entry}
use spire_controller_manager.SpireEntry.Preference.Order.{
  IsPreferred, object_cmp_iff, sort_declared-first,
}
use spire_controller_manager.SpireEntry.Partition.{should_process_or_delete_entry_id}
use spire_controller_manager.SpireEntry.Partition.Ownership.{
  Owned, ForCleanup, should_process_or_delete_iff,
}
use spire_controller_manager.Examples.Fixtures.{
  plain, plain_laws, selector, other_selector, entry, object, older, declared, config,
  object-IsTimely, older-IsTimely,
}

make_entry_key-perm_example :
    make_entry_key plain (λ s. s) (record (entry []) { selectors = other_selector ∷ selector ∷ [] })
    ≡ make_entry_key plain (λ s. s) (entry [])
make_entry_key-perm_example =
    make_entry_key-perm {sp = plain} (λ s. s) (entry []) (other_selector ∷ selector ∷ [])
      (Perm.swap _ _ _)

make_entry_key_ambiguous_example :
    make_entry_key plain
      (λ s. s)
      (record (entry []) { selectors = record { type = codes "k8sn"; value = codes "s:a" } ∷ [] })
    ≡ make_entry_key plain
        (λ s. s)
        (record (entry []) { selectors = record { type = codes "k8s"; value = codes "ns:a" } ∷ [] })
make_entry_key_ambiguous_example =
    make_entry_key_ambiguous {sp = plain} (λ s. s) (entry []) (codes "k8s") (codes "n")
      (codes "s:a")

outdated_none_iff_example :
    (outdated_entry_fields plain (entry []) (entry (codes "m.1")) (λ f. false) ≡ [])
    ↔ IsUpToDate (entry []) (entry (codes "m.1")) (λ f. false)
outdated_none_iff_example =
    outdated_none_iff plain_laws (entry []) (entry (codes "m.1")) (λ f. false)

object_cmp_iff_example :
    (ltb_ℤ (object_cmp older (object (static_entry 0))) (pos 0) ≡ true)
    ↔ IsPreferred older (object (static_entry 0))
object_cmp_iff_example =
    object_cmp_iff (pos 0) older (object (static_entry 0)) older-IsTimely
      (object-IsTimely (static_entry 0))

sort_declared-first_example :
    Perm
      (record { entry = entry []; by = older } ∷ declared (static_entry 0) ∷ [])
      (declared (static_entry 0) ∷ record { entry = entry []; by = older } ∷ [])
    × All (λ e. pos 0 ≤ℤ object_cmp e.by older) (declared (static_entry 0) ∷ [])
unfolding sort_declared object_cmp to_int64 ◌-ℤ◌
sort_declared-first_example =
    sort_declared-first (pos 0)
      (declared (static_entry 0) ∷ record { entry = entry []; by = older } ∷ [])
      (record { entry = entry []; by = older }) (declared (static_entry 0) ∷ [])
      (object-IsTimely (static_entry 0), (older-IsTimely, tt)) refl

should_process_or_delete_iff_example :
    (((should_process_or_delete_entry_id config (entry (codes "old.7"))).0 ≡ true)
      ↔ Owned config (entry (codes "old.7")))
    × (((should_process_or_delete_entry_id config (entry (codes "old.7"))).1 ≡ true) ↔ (
        ¬ Owned config (entry (codes "old.7"))
        × ForCleanup config (some (codes "old.")) (codes "old.7")))
should_process_or_delete_iff_example = should_process_or_delete_iff config (entry (codes "old.7"))
