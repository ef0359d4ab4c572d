-- ===== src/Examples/Api.antt =====
-- The conversions, the batches and the pages.
use spire_controller_manager.Prelude.{
  ℕ, ◌-◌, ◌%◌, ◌≤◌, Str, codes, true, [], ◌∷◌, ◌++◌, Option, some, contains_byte, ltb,
  if◌then◌else◌, ◌+◌, ◌≡◌, refl, arith, sym, str_eq, cut_byte, false,
}
use spire_controller_manager.Prelude.Int.{pos, scale}
use spire_controller_manager.SpireApi.Convert.{
  entry_to_api, entry_from_api, ttl_to_api, ttl_from_api, second,
}
use spire_controller_manager.SpireApi.Convert.Entries.{
  IsSendable, entry_from_api-to_api, ttl-truncated,
}
use spire_controller_manager.Prelude.{◌>>=◌, some-injective, ◌∙◌}
use mathlib.Core.Path.{subst}
use spire_controller_manager.Prelude.Int.{eqb_ℤ, quot, to_int64}
use spire_controller_manager.Prelude.Assoc.{insert}
use spire_controller_manager.SpireApi.Bundles.{
  Authorities, Bundle, ApiBundle, bundle_to_api, bundle_from_api,
}
use spire_controller_manager.SpireApi.Types.{FederationRelationship, https_spiffe}
use spire_controller_manager.SpireApi.Convert.{
  ApiFederationRelationship, api_https_spiffe, Url, federation_relationship_to_api,
  federation_relationship_from_api,
}
use spire_controller_manager.SpireApi.Convert.Relationships.{
  IsReadable, federation_relationship_from_api-to_api,
}
use spire_controller_manager.SpireApi.Batch.{Callback, run_batch}
use spire_controller_manager.SpireApi.Batch.Coverage.{
  collect, run_batch-covers, run_batch-preserves,
}
use spire_controller_manager.SpireApi.Clients.{Page, list_pages}
use spire_controller_manager.SpireApi.Clients.Pages.{last, more, concat, list_pages-all}
use spire_controller_manager.Examples.Fixtures.{plain, plain_laws, entry}

entry-IsSendable : IsSendable plain_laws (entry (codes "m.1"))
unfolding scale contains_byte
entry-IsSendable = record {
  selectors = ((refl, refl, refl), ((refl, refl, refl), tt));
  x509 = (pos 3, (omega arith, omega arith), refl);
  jwt = (pos 0, (omega arith, omega arith), refl);
  has_spiffe_id = refl;
  has_parent_id = refl;
  has_federates_with = (refl, (refl, tt));
}

entry_from_api-to_api_example :
    entry_from_api plain (some (entry_to_api plain (entry (codes "m.1"))))
    ≡ some (entry (codes "m.1"))
entry_from_api-to_api_example =
    entry_from_api-to_api plain_laws (entry (codes "m.1")) entry-IsSendable

-- certificates and keys that are their bytes
abbrev authorities : Authorities
authorities = record {
  Certificate = Str;
  PublicKey = Str;
  raw = λ c. c;
  parse_certificate = λ s. some s;
  marshal_public_key = λ k. some k;
  parse_public_key = λ s. some s;
}

abbrev bundle : Bundle plain authorities
bundle = record {
  trust_domain = codes "b.org";
  x509_authorities = codes "root" ∷ [];
  jwt_authorities = (codes "k", codes "key") ∷ [];
  sequence_number = some 3;
  refresh_hint = some (pos 5000000000);
}

abbrev sent_bundle : ApiBundle
sent_bundle = record {
  trust_domain = codes "b.org";
  x509_authorities = codes "root" ∷ [];
  jwt_authorities = record { key_id = codes "k"; public_key = codes "key" } ∷ [];
  sequence_number = 3;
  refresh_hint = pos 5;
}

abbrev bundle_out : Bundle plain authorities → Option ApiBundle
bundle_out b = bundle_to_api authorities plain (λ m. m) b

abbrev bundle_in : ApiBundle → Option (Bundle plain authorities)
bundle_in b = bundle_from_api authorities plain (some b) >>= λ o. o

bundle_out_lem : bundle_out bundle ≡ some sent_bundle
unfolding bundle_to_api quot to_int64
bundle_out_lem = refl

bundle_in_lem : bundle_in sent_bundle ≡ some bundle
unfolding bundle_from_api scale to_int64 eqb_ℤ insert str_eq
bundle_in_lem = refl

bundle_returns :
    (b : Bundle plain authorities) (c : ApiBundle)
    → ◌≡◌ {A = Option (Bundle plain authorities)} (some bundle) (some b)
    → bundle_out b ≡ some c
    → bundle_in c ≡ some b
bundle_returns b c e f =
    subst (λ x. bundle_out x ≡ some c → bundle_in c ≡ some x) (some-injective e)
      (λ g.
        subst (λ x. bundle_in x ≡ some bundle) (some-injective (sym bundle_out_lem ∙ g))
          bundle_in_lem)
      f

-- a relationship with a bundle, whose endpoint has a SPIFFE ID
abbrev endpoint : Str × Str
endpoint = (codes "b.org", codes "/server")

abbrev relationship : FederationRelationship plain (Bundle plain authorities)
relationship = record {
  trust_domain = codes "b.org";
  bundle_endpoint_url = codes "https://b.org/bundle";
  bundle_endpoint_profile = https_spiffe endpoint;
  trust_domain_bundle = some bundle;
}

abbrev sent : ApiFederationRelationship ApiBundle
sent = record {
  trust_domain = codes "b.org";
  bundle_endpoint_url = codes "https://b.org/bundle";
  trust_domain_bundle = some sent_bundle;
  bundle_endpoint_profile = api_https_spiffe (some (codes "spiffe://b.org/server"));
}

abbrev url : Str → Option Url
url s = some (record { scheme = codes "https"; host = codes "b.org"; has_user = false })

converted : federation_relationship_to_api plain url bundle_out relationship ≡ some sent
unfolding federation_relationship_to_api str_eq bundle_to_api quot to_int64
converted = refl

endpoint-IsReadable : IsReadable plain_laws (https_spiffe endpoint)
unfolding IsReadable cut_byte
endpoint-IsReadable = refl

federation_relationship_from_api-to_api_example :
    federation_relationship_from_api plain url bundle_in sent ≡ some relationship
federation_relationship_from_api-to_api_example =
    federation_relationship_from_api-to_api plain_laws url bundle_out bundle_in relationship
      endpoint-IsReadable bundle_returns converted

ttl-truncated_example :
    ttl_from_api (ttl_to_api (pos 1500000000)) ≡ pos (1500000000 - 1500000000 % second)
ttl-truncated_example = ttl-truncated 1500000000 (omega arith)

run_batch-covers_example :
    run_batch (collect {A = ℕ} (1 ∷ 2 ∷ 3 ∷ [])) 3 2 [] ≡ (true, 1 ∷ 2 ∷ 3 ∷ [])
run_batch-covers_example = run_batch-covers {A = ℕ} (1 ∷ 2 ∷ 3 ∷ []) 2

-- a callback that keeps the largest batch
abbrev longest : Callback ℕ
longest start end s = (true, if ltb s (end - start) then end - start else s)

run_batch-preserves_example : (run_batch longest 7 3 0).1 ≤ 3
run_batch-preserves_example =
    run_batch-preserves longest (λ s. s ≤ 3) 7 3 0 (omega arith)
      (λ start end s h i j p. ground arith) (omega arith)

-- a server with two pages
abbrev two_pages : Str → ℕ → Option (Page ℕ) × ℕ
two_pages [] w = (some (1 ∷ 2 ∷ [], codes "next"), w + 1)
two_pages (c ∷ token) w = (some (3 ∷ [], []), w + 1)

list_pages-all_example :
    list_pages two_pages 5 [] [] 0 ≡ (some ((1 ∷ 2 ∷ []) ++ concat two_pages ((3 ∷ []) ∷ [])), 2)
list_pages-all_example =
    list_pages-all two_pages 5 0 2 (1 ∷ 2 ∷ []) ((3 ∷ []) ∷ []) (more refl refl (last refl))
      (omega arith)
