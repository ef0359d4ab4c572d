-- ===== src/SpireApi/TrustDomains.antt =====
-- trustdomainapi.go: the calls of the server's API of federation relationships.
use spire_controller_manager.Prelude.{ℕ, Str, Option, none, some, List, [], map, ◌>>=◌, traverse}
use spire_controller_manager.Spiffe.{Spiffe}
use spire_controller_manager.SpireApi.Types.{Status, FederationRelationship}
use spire_controller_manager.SpireApi.Convert.{
  ApiStatus, ApiFederationRelationship, Url, federation_relationship_to_api,
  federation_relationship_from_api,
}
use spire_controller_manager.SpireApi.Clients.{
  Page, list_pages, send_all, create_batch_size, update_batch_size, delete_batch_size,
  list_page_size,
}

-- trustdomainv1.TrustDomainClient
pub record TrustDomainApi (A W : Type 0) : Type 0 where
  pub list_federation_relationships : Str → ℕ → W → Option (Page (ApiFederationRelationship A)) × W
  pub batch_create : List (ApiFederationRelationship A) → W → Option (List (Option ApiStatus)) × W
  pub batch_update : List (ApiFederationRelationship A) → W → Option (List (Option ApiStatus)) × W
  pub batch_delete : List Str → W → Option (List (Option ApiStatus)) × W

-- A batch of relationships is converted in the callback, and nothing is sent if one of them fails.
send_converted :
    {A W : Type 0}
    → (List (ApiFederationRelationship A) → W → Option (List (Option ApiStatus)) × W)
    → Option (List (ApiFederationRelationship A))
    → W
    → Option (List (Option ApiStatus)) × W
send_converted call none w = (none, w)
send_converted call (some frs) w = call frs w

unfoldable pub delete_federation_relationships :
    {A W : Type 0} (sp : Spiffe)
    → TrustDomainApi A W
    → List sp.TrustDomain
    → W
    → Option (List Status) × W
unfolding send_all
delete_federation_relationships sp api =
    send_all (λ tds. api.batch_delete (map sp.td_name tds)) delete_batch_size

module _ {sp : Spiffe} {B A W : Type 0} (parse_url : Str → Option Url) (to_api : B → Option A)
    (from_api : A → Option B) (api : TrustDomainApi A W) where
  to_api_all : List (FederationRelationship sp B) → Option (List (ApiFederationRelationship A))
  unfolding traverse federation_relationship_to_api
  to_api_all = traverse (federation_relationship_to_api sp parse_url to_api)

  unfoldable pub create_federation_relationships :
      List (FederationRelationship sp B) → W → Option (List Status) × W
  unfolding send_all send_converted to_api_all
  create_federation_relationships =
      send_all (λ frs w. send_converted api.batch_create (to_api_all frs) w) create_batch_size

  unfoldable pub update_federation_relationships :
      List (FederationRelationship sp B) → W → Option (List Status) × W
  unfolding send_all send_converted to_api_all
  update_federation_relationships =
      send_all (λ frs w. send_converted api.batch_update (to_api_all frs) w) update_batch_size

  unfoldable pub list_federation_relationships :
      ℕ → W → Option (List (FederationRelationship sp B)) × W
  unfolding list_pages traverse federation_relationship_from_api
  list_federation_relationships fuel w =
      let (frs, w') =
        list_pages (λ token. api.list_federation_relationships token list_page_size) fuel [] [] w in
      (frs >>= traverse (federation_relationship_from_api sp parse_url from_api), w')
