-- ===== src/SpireEntry/Client.antt =====
-- The interfaces through which the reconciler acts on what lies outside of it. W is the state of
-- everything outside: the SPIRE server, the Kubernetes API, the clock. An error of a call is `none`.
use spire_controller_manager.Prelude.{Str, List, Option}
use spire_controller_manager.Spiffe.{Spiffe}
use spire_controller_manager.SpireApi.Types.{Entry, Status, FieldSet}

-- spireapi.EntryClient
pub record EntryClient (sp : Spiffe) (W : Type 0) : Type 0 where
  pub list_entries : List Str → W → Option (List (Entry sp)) × W
  pub create_entries : List (Entry sp) → W → Option (List Status) × W
  pub update_entries : List (Entry sp) → W → Option (List Status) × W
  pub delete_entries : List Str → W → Option (List Status) × W
  pub get_unsupported_fields : Str → Str → W → Option FieldSet × W
