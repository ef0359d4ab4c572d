-- ===== src/SpireEntry/JoinToken.antt =====
-- isJoinTokenEntry and filterJoinTokenEntries: entries that the server keeps for join tokens.
use spire_controller_manager.Prelude.{
  Str, codes, str_eq, has_prefix, Bool, false, not, List, any, keep, if◌then◌else◌,
}
use spire_controller_manager.Spiffe.{Spiffe}
use spire_controller_manager.SpireApi.Types.{Entry}

abbrev pub join_token_spiffe_prefix : Str
join_token_spiffe_prefix = codes "/spire/agent/join_token/"

abbrev pub join_token_selector_type : Str
join_token_selector_type = codes "spiffe_id"

module _ (sp : Spiffe) where
  unfoldable pub is_join_token_entry : Entry sp → Bool
  unfolding any
  is_join_token_entry entry =
      if not (has_prefix join_token_spiffe_prefix (sp.id_path entry.parent_id))
      then false
      else any (λ selector. str_eq selector.type join_token_selector_type) entry.selectors

  unfoldable pub filter_join_token_entries : List (Entry sp) → List (Entry sp)
  unfolding keep is_join_token_entry
  filter_join_token_entries entries = keep (λ entry. not (is_join_token_entry entry)) entries
