-- ===== src/SpireEntry/Key/Identity.antt =====
-- What the key of an entry does and does not tell apart.
use spire_controller_manager.Prelude.{
  Str, str_lt_irrefl, str_lt_trans, str_lt_total, false, List, [], ◌∷◌, ◌++◌, ◌≡◌, Perm, arith,
  append_assoc,
}
use spire_controller_manager.Prelude.Sort.{StrictOrder, sort-eq_of_perm}
use spire_controller_manager.Spiffe.{Spiffe}
use spire_controller_manager.SpireApi.Types.{Selector, Entry}
use spire_controller_manager.SpireEntry.Key.{selector_less, make_entry_key}

selector_total : (a b : Selector) → selector_less a b ≡ false → selector_less b a ≡ false → a ≡ b
unfolding selector_less
selector_total a b h k = ground (arith, str_lt_total a.type b.type, str_lt_total a.value b.value)

selector_order : StrictOrder selector_less
unfolding selector_less
selector_order = record {
  irrefl = λ a. ground (arith, str_lt_irrefl a.type, str_lt_irrefl a.value);
  trans = λ a b c h k. ground (
    arith,
    str_lt_trans a.type b.type c.type,
    str_lt_total a.type b.type,
    str_lt_total b.type c.type,
    str_lt_trans a.value b.value c.value,
    str_lt_trans b.type a.type c.type,
    str_lt_trans c.type a.type b.type,
    str_lt_trans b.type c.type a.type,
    str_lt_trans c.type b.type a.type,
    str_lt_total a.type c.type,
  );
  total = selector_total;
}

selectors_set : IsSet (List Selector)
selectors_set = hlevel

module _ {sp : Spiffe} (hash : Str → Str) where
  -- The order in which an entry lists its selectors does not change its key.
  pub make_entry_key-perm :
      (e : Entry sp) (selectors : List Selector)
      → Perm e.selectors selectors
      → make_entry_key sp hash (record e { selectors = selectors }) ≡ make_entry_key sp hash e
  unfolding make_entry_key
  make_entry_key-perm e selectors p = rw (sort-eq_of_perm selector_order selectors_set p)

  -- The key does not tell apart two entries whose one selector splits the same bytes into type and
  -- value at different places: "k8s" with "ns:a" and "k8sn" with "s:a" have one key.
  pub make_entry_key_ambiguous :
      (e : Entry sp) (a b c : Str)
      → make_entry_key sp hash (record e { selectors = record { type = a ++ b; value = c } ∷ [] })
        ≡ make_entry_key sp hash (record e { selectors = record { type = a; value = b ++ c } ∷ [] })
  unfolding make_entry_key
  make_entry_key_ambiguous e a b c = simp append_assoc
