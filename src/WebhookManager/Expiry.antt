-- ===== src/WebhookManager/Expiry.antt =====
-- pkg/webhookmanager/manager.go: when the certificate of the webhook is minted.
pub mod Validity
use spire_controller_manager.Prelude.{
  ℕ, ◌*◌, ◌/◌, ◌^◌, ◌-◌, Str, Bool, true, false, not, Option, none, some, List, [], ◌∷◌,
  if◌then◌else◌, ltb,
}
use spire_controller_manager.Prelude.Int.{ℤ, pos, negsuc, ltb_ℤ, eqb_ℤ, quot, ◌-ℤ◌}
use spire_controller_manager.SpireApi.Convert.{second}
use spire_controller_manager.WebhookManager.Names.{dns_names_equal}

abbrev pub hour : ℕ
hour = 3600 * second

abbrev pub day : ℕ
day = 24 * hour

abbrev pub week : ℕ
week = 7 * day

abbrev pub monthish : ℕ
monthish = 30 * day

-- t.Sub(u), which saturates
unfoldable pub sub_time : ℤ → ℤ → ℤ
sub_time t u = saturated (t -ℤ u)
  where
    saturated : ℤ → ℤ
    saturated (pos n) = if ltb n (2 ^ 63) then pos n else pos (2 ^ 63 - 1)
    saturated (negsuc n) = if ltb n (2 ^ 63) then negsuc n else negsuc (2 ^ 63 - 1)

-- the least remaining time that is not soon
unfoldable pub soon : ℤ → ℤ
soon lifetime =
    if ltb_ℤ (pos monthish) lifetime
    then pos week
    else if ltb_ℤ (pos week) lifetime
    then pos (week / 2)
    else if ltb_ℤ (pos day) lifetime
    then pos (day / 2)
    else if ltb_ℤ (pos hour) lifetime
    then pos (hour / 2)
    else quot lifetime 2

unfoldable pub expires_soon : ℤ → ℤ → Bool
unfolding soon
expires_soon lifetime expires_in = ltb_ℤ expires_in (soon lifetime)

pub data Reason : Type 0 where
  initializing expiring expired stale_dns_names : Reason

-- the second switch of mintX509SVIDIfNeeded; none where nothing is minted
unfoldable pub mint_reason : ℤ → ℤ → List Str → List Str → Option Reason
unfolding expires_soon dns_names_equal
mint_reason lifetime expires_in names current =
    if eqb_ℤ lifetime (pos 0)
    then some initializing
    else if expires_soon lifetime expires_in
    then some expiring
    else if ltb_ℤ expires_in (pos 0)
    then some expired
    else if not (dns_names_equal names current)
    then some stale_dns_names
    else none

-- the lifetime and the time left, both nothing before the first certificate
unfoldable pub lifetime_of : Option ℤ → ℤ → ℤ → ℤ × ℤ
unfolding sub_time
lifetime_of none expires_at now = (pos 0, pos 0)
lifetime_of (some rotated_at) expires_at now =
    (sub_time expires_at rotated_at, sub_time expires_at now)
