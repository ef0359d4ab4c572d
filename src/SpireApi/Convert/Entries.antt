-- ===== src/SpireApi/Convert/Entries.antt =====
-- An entry that goes to the server and comes back.
use spire_controller_manager.Prelude.{
  ℕ, ◌-◌, ◌%◌, ◌*◌, ◌<◌, ◌^◌, contains_byte, false, List, [], ◌∷◌, some, map, is_empty, traverse,
  ◌≡◌, refl, ap, arith, All,
}
use spire_controller_manager.Prelude.Int.{
  ℤ, pos, negsuc, quot, scale, to_int32, to_int64, InInt32, InInt64, to_int32_id, to_int64_id,
}
use spire_controller_manager.Spiffe.{Spiffe, SpiffeLaws}
use spire_controller_manager.SpireApi.Types.{Entry, Selector}
use spire_controller_manager.SpireApi.Convert.{
  second, ttl_to_api, ttl_from_api, selector_from_api, spiffe_id_to_api, spiffe_id_from_api,
  entry_to_api, entry_from_api,
}

-- whole seconds, as many as an int32 counts
abbrev pub IsTtl : ℤ → Type 0
IsTtl d = (s : ℤ) × InInt32 s × (d ≡ scale s second)

quot-scale : (s : ℤ) → quot (scale s second) second ≡ s
unfolding quot scale
quot-scale (pos n) = ap pos (omega arith)
quot-scale (negsuc n) = ground arith

scale-InInt64 : (s : ℤ) → InInt32 s → InInt64 (scale s second)
unfolding scale
scale-InInt64 (pos n) h = ground arith
scale-InInt64 (negsuc n) h = ground arith

ttl-back : (d : ℤ) → IsTtl d → ttl_from_api (ttl_to_api d) ≡ d
unfolding ttl_from_api ttl_to_api
ttl-back d (s, h, e) =
    rw (e, quot-scale s, to_int32_id s h) (to_int64_id (scale s second) (scale-InInt64 s h))

-- what the server accepts: a selector's parts are not empty and its type has no colon
abbrev pub IsApiSelector : Selector → Type 0
IsApiSelector s =
    (is_empty s.type ≡ false) × (is_empty s.value ≡ false) × (contains_byte 58 s.type ≡ false)

module _ {sp : Spiffe} (laws : SpiffeLaws sp) where
  pub record IsSendable (e : Entry sp) : Type 0 where
    pub selectors : All IsApiSelector e.selectors
    pub x509 : IsTtl e.x509_svid_ttl
    pub jwt : IsTtl e.jwt_svid_ttl
    pub has_spiffe_id : sp.td_is_zero (sp.id_trust_domain e.spiffe_id) ≡ false
    pub has_parent_id : sp.td_is_zero (sp.id_trust_domain e.parent_id) ≡ false
    pub has_federates_with : All (λ td. sp.td_is_zero td ≡ false) e.federates_with

  id-back :
      (i : sp.SpiffeId)
      → sp.td_is_zero (sp.id_trust_domain i) ≡ false
      → spiffe_id_from_api sp (some (spiffe_id_to_api sp i)) ≡ some i
  unfolding spiffe_id_from_api spiffe_id_to_api
  id-back i n = rw (laws.td_from_name (sp.id_trust_domain i) n) (laws.id_from_parts i n)

  selectors-back :
      (ss : List Selector) → All IsApiSelector ss → traverse selector_from_api ss ≡ some ss
  unfolding traverse selector_from_api
  selectors-back [] h = refl
  selectors-back (s ∷ ss) h = rw (h.0.0, h.0.1, h.0.2, selectors-back ss h.1) refl

  names-back :
      (tds : List sp.TrustDomain)
      → All (λ td. sp.td_is_zero td ≡ false) tds
      → traverse sp.td_from_string (map sp.td_name tds) ≡ some tds
  unfolding traverse
  names-back [] n = refl
  names-back (t ∷ tds) n = rw (laws.td_from_name t n.0, names-back tds n.1) refl

  -- An entry with acceptable selectors, TTLs of whole seconds, and SPIFFE IDs and trust domains that
  -- are not zero comes back from the API as it was sent.
  pub entry_from_api-to_api :
      (e : Entry sp) → IsSendable e → entry_from_api sp (some (entry_to_api sp e)) ≡ some e
  unfolding entry_from_api entry_to_api
  entry_from_api-to_api e h =
      rw
        (
          id-back e.spiffe_id h.has_spiffe_id,
          id-back e.parent_id h.has_parent_id,
          selectors-back e.selectors h.selectors,
          names-back e.federates_with h.has_federates_with,
          ttl-back e.x509_svid_ttl h.x509,
          ttl-back e.jwt_svid_ttl h.jwt,
        )
        refl

-- A TTL of at least no and less than 2^31 seconds loses its fraction of a second on the way.
pub ttl-truncated :
    (n : ℕ) → n < 2 ^ 31 * second → ttl_from_api (ttl_to_api (pos n)) ≡ pos (n - n % second)
unfolding ttl_from_api ttl_to_api quot scale to_int32 to_int64
ttl-truncated n h = ground arith
