-- ===== src/Examples/Passes.antt =====
-- Planning passes and listings.
use mathlib.Core.List.Perm
use spire_controller_manager.Prelude.{
  ℕ, Str, str_eq, codes, false, List, [], ◌∷◌, ◌++◌, ◌≡◌, refl, All, none, some,
}
use spire_controller_manager.Prelude.Int.{pos, ◌+ℤ◌}
use spire_controller_manager.SpireApi.Types.{FieldSet}
use spire_controller_manager.SpireEntry.Client.{EntryClient}
use spire_controller_manager.SpireEntry.Preference.{static_entry, spiffe_id}
use spire_controller_manager.SpireEntry.Status.{initial}
use spire_controller_manager.SpireEntry.State.{EntryState}
use spire_controller_manager.SpireEntry.Plan.{empty_plan, plan_all}
use spire_controller_manager.SpireEntry.Plan.Surplus.{
  surplus, HasPrefix, plan_all-deletes, plan_all-creates_own,
}
use spire_controller_manager.SpireEntry.Plan.Carried.{PlansNothing}
use spire_controller_manager.SpireEntry.Plan.Convergence.{settle_all, plan_all-settles}
use spire_controller_manager.SpireEntry.ListCache.{EntryListCache, zero_time, fresh}
use spire_controller_manager.SpireEntry.Listing.{EntryReconciler, list_entries}
use spire_controller_manager.SpireEntry.Listing.Caching.{SameAnswer, list_entries-cached}
use spire_controller_manager.Examples.Fixtures.{plain, plain_laws, entry, declared, config}

-- one key with a surplus entry, and one with nothing on the server
abbrev states : List (EntryState plain)
states =
    record {
      current = entry (codes "m.1") ∷ entry (codes "m.2") ∷ [];
      declared = declared (static_entry 0) ∷ [];
    }
    ∷ record { current = []; declared = declared (spiffe_id 0) ∷ declared (static_entry 1) ∷ [] }
    ∷ []

abbrev all_supported : FieldSet
all_supported = λ f. false

abbrev uuid : ℕ → Str
uuid n = n ∷ []

plan_all-settles_example : PlansNothing (
    plan_all
      (codes "m.")
      all_supported
      uuid
      (settle_all plain_laws (codes "m.") all_supported uuid initial 0 states)
      (empty_plan initial 9))
unfolding str_eq
plan_all-settles_example =
    plan_all-settles plain_laws (codes "m.") all_supported uuid states initial initial 0 9
      (((refl, tt), (tt, tt)), (tt, tt))

plan_all-deletes_example :
    (plan_all (codes "m.") all_supported uuid states (empty_plan initial 0)).to_delete
    ≡ [] ++ surplus states
plan_all-deletes_example =
    plan_all-deletes (codes "m.") all_supported uuid states (empty_plan initial 0)

plan_all-creates_own_example :
    All
      (HasPrefix (codes "m."))
      (plan_all (codes "m.") all_supported uuid states (empty_plan initial 0)).to_create
plan_all-creates_own_example =
    plan_all-creates_own (codes "m.") all_supported uuid states (empty_plan initial 0) refl
      ((refl, tt), ((refl, (refl, tt)), tt)) tt

-- a server that has two entries, and counts its calls
abbrev server : EntryClient plain ℕ
server = record {
  list_entries = λ hints w. (some (entry (codes "m.1") ∷ entry (codes "old.2") ∷ []), 7);
  create_entries = λ es w. (none, w);
  update_entries = λ es w. (none, w);
  delete_entries = λ ids w. (none, w);
  get_unsupported_fields = λ td prefix w. (none, w);
}

abbrev cold : EntryListCache plain
cold = record { reload_after = pos 100; entries = none; next_reload = zero_time; filter_key = [] }

abbrev reconciler : EntryReconciler plain
reconciler = record {
  unsupported_fields = all_supported;
  next_get_unsupported_fields = zero_time;
  entry_cache = some cold;
  entry_list_cache_hits = 0;
  entry_list_server_calls = 0;
}

list_entries-cached_example :
    SameAnswer
      (list_entries config server
        (λ m. m)
        (pos 50)
        (pos 50)
        []
        (list_entries config server (λ m. m) (pos 5) (pos 6) [] reconciler 0).1
        (list_entries config server (λ m. m) (pos 5) (pos 6) [] reconciler 0).2).0
      (list_entries config server (λ m. m) (pos 5) (pos 6) [] reconciler 0).0
    × ((list_entries config server
          (λ m. m)
          (pos 50)
          (pos 50)
          []
          (list_entries config server (λ m. m) (pos 5) (pos 6) [] reconciler 0).1
          (list_entries config server (λ m. m) (pos 5) (pos 6) [] reconciler 0).2).2
        ≡ (list_entries config server (λ m. m) (pos 5) (pos 6) [] reconciler 0).2)
    × ((list_entries config server
          (λ m. m)
          (pos 50)
          (pos 50)
          []
          (list_entries config server (λ m. m) (pos 5) (pos 6) [] reconciler 0).1
          (list_entries config server
            (λ m. m)
            (pos 5)
            (pos 6)
            []
            reconciler
            0).2).1.entry_list_server_calls
        ≡ (list_entries config server
            (λ m. m)
            (pos 5)
            (pos 6)
            []
            reconciler
            0).1.entry_list_server_calls)
unfolding fresh str_eq ◌+ℤ◌
list_entries-cached_example =
    list_entries-cached config server (λ m. m) Perm.refl (pos 5) (pos 6) (pos 50) (pos 50) []
      reconciler cold 0 7 (entry (codes "m.1") ∷ entry (codes "old.2") ∷ []) refl refl refl
      ((refl, tt), (tt, tt)) refl
