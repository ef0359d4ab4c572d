-- ===== src/SpireEntry/Key.antt =====
-- makeEntryKey and sortSelectors: entries with one key stand for one registration. SHA-256 and the
-- hexadecimal encoding are the parameter `hash`, from the bytes written to the key.
pub mod Identity
use spire_controller_manager.Prelude.{
  Str, str_lt, Bool, true, false, List, [], ◌∷◌, ◌++◌, if◌then◌else◌,
}
use spire_controller_manager.Prelude.Sort.{sort}
use spire_controller_manager.Spiffe.{Spiffe}
use spire_controller_manager.SpireApi.Types.{Selector, Entry}

selector_less : Selector → Selector → Bool
selector_less a b =
    if str_lt a.type b.type
    then true
    else if str_lt b.type a.type
    then false
    else str_lt a.value b.value

unfoldable pub sort_selectors : List Selector → List Selector
unfolding selector_less sort
sort_selectors = sort selector_less

-- the loop that writes the selectors
write_selectors : List Selector → Str
write_selectors [] = []
write_selectors (s ∷ rest) = s.type ++ (s.value ++ write_selectors rest)

module _ (sp : Spiffe) (hash : Str → Str) where
  -- what is hashed
  key_bytes : Entry sp → Str
  unfolding write_selectors sort_selectors
  key_bytes entry =
      sp.id_string entry.spiffe_id
      ++ (sp.id_string entry.parent_id ++ write_selectors (sort_selectors entry.selectors))

  unfoldable pub make_entry_key : Entry sp → Str
  unfolding key_bytes
  make_entry_key entry = hash (key_bytes entry)
