-- ===== src/Examples/Calls.antt =====
-- The calls of the server, the mirror and the statuses behind them.
use spire_controller_manager.Prelude.{◌+◌, codes, List, [], ◌∷◌, some, ◌≡◌, refl, inr}
use spire_controller_manager.Prelude.Int.{pos}
use spire_controller_manager.Prelude.Assoc.{Assoc}
use spire_controller_manager.SpireApi.Types.{Entry, Status, code_ok}
use spire_controller_manager.SpireEntry.Preference.{DeclaredEntry, static_entry, spiffe_id}
use spire_controller_manager.SpireEntry.Status.{initial}
use spire_controller_manager.SpireEntry.Apply.{Applied, after_create, after_update, after_delete}
use spire_controller_manager.SpireEntry.Apply.Coherence.{
  Coherent, server_upserts, server_deletes, after_create-Coherent, after_update-Coherent,
  after_delete-Coherent,
}
use spire_controller_manager.SpireEntry.Apply.Recorded.{
  failures_at, set_at, failure_count, after_create-failures, after_update-set,
}
use spire_controller_manager.Examples.Fixtures.{plain, entry, declared}

abbrev on_server : Assoc (Entry plain)
on_server = (codes "m.1", entry (codes "m.1")) ∷ []

abbrev applied : Applied plain
applied = record {
  cache = some (record {
    reload_after = pos 100;
    entries = some on_server;
    next_reload = pos 500;
    filter_key = [];
  });
  statuses = initial;
}

abbrev sent : List (DeclaredEntry plain)
sent =
    record { entry = entry (codes "m.2"); by = (declared (static_entry 0)).by }
    ∷ record { entry = entry (codes "m.3"); by = (declared (spiffe_id 0)).by }
    ∷ []

abbrev one_fails : List Status
one_fails = record { code = code_ok; message = [] } ∷ record { code = 13; message = [] } ∷ []

after_create-Coherent_example :
    Coherent
      (after_create sent (some one_fails) applied).cache
      (server_upserts sent one_fails on_server)
after_create-Coherent_example =
    after_create-Coherent sent (some one_fails) applied on_server
      (server_upserts sent one_fails on_server) (inr (λ id. refl)) refl

after_update-Coherent_example :
    Coherent
      (after_update sent (some one_fails) applied).cache
      (server_upserts sent one_fails on_server)
after_update-Coherent_example =
    after_update-Coherent sent (some one_fails) applied on_server
      (server_upserts sent one_fails on_server) (inr (λ id. refl)) refl

after_delete-Coherent_example :
    Coherent
      (after_delete (entry (codes "m.1") ∷ entry (codes "m.2") ∷ []) (some one_fails) applied).cache
      (server_deletes (entry (codes "m.1") ∷ entry (codes "m.2") ∷ []) one_fails on_server)
after_delete-Coherent_example =
    after_delete-Coherent (entry (codes "m.1") ∷ entry (codes "m.2") ∷ []) (some one_fails) applied
      on_server
      (server_deletes (entry (codes "m.1") ∷ entry (codes "m.2") ∷ []) one_fails on_server)
      (inr (λ id. refl)) refl

after_create-failures_example :
    failures_at (after_create sent (some one_fails) applied).statuses 0
    ≡ failures_at initial 0 + failure_count 0 sent (some one_fails)
after_create-failures_example = after_create-failures 0 sent (some one_fails) applied

after_update-set_example :
    set_at (after_update sent (some one_fails) applied).statuses 0 ≡ set_at initial 0
after_update-set_example = after_update-set 0 sent (some one_fails) applied
