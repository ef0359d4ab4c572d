-- ===== src/WebhookManager/Expiry/Validity.antt =====
-- The certificate that mintX509SVIDIfNeeded of pkg/webhookmanager leaves in place.
use spire_controller_manager.Prelude.{
  Str, str_eq_iff, true, false, none, some, List, [], ◌∷◌, ◌≡◌, ◌≢◌, ◌↔◌, refl, arith,
}
use spire_controller_manager.Prelude.Int.{
  ℤ, pos, negsuc, ltb_ℤ, eqb_ℤ_iff, quot, ◌-ℤ◌, ◌≤ℤ◌, IsModerate,
}
use spire_controller_manager.WebhookManager.Expiry.{
  sub_time, soon, expires_soon, expired, mint_reason, lifetime_of,
}
use spire_controller_manager.WebhookManager.Names.{dns_names_equal}

sub_time_moderate : (t u : ℤ) → IsModerate t → IsModerate u → sub_time t u ≡ t -ℤ u
unfolding sub_time ◌-ℤ◌
sub_time_moderate t u ht hu = ground arith

dns_names_equal_iff : (a b : List Str) → (dns_names_equal a b ≡ true) ↔ (a ≡ b)
unfolding dns_names_equal
dns_names_equal_iff [] [] = (λ _. refl, λ _. refl)
dns_names_equal_iff [] (b ∷ bs) = ground arith
dns_names_equal_iff (a ∷ xs) [] = ground arith
dns_names_equal_iff (a ∷ xs) (b ∷ bs) = ground (arith, str_eq_iff a b, dns_names_equal_iff xs bs)

soon_nonneg : (l : ℤ) → pos 0 ≤ℤ l → pos 0 ≤ℤ soon l
unfolding soon quot
soon_nonneg (pos n) h = ground arith
soon_nonneg (negsuc n) h = ground arith

-- nothing that has expired is left over by the test before
expired_soon : (l e : ℤ) → e ≤ℤ l → ltb_ℤ e (pos 0) ≡ true → expires_soon l e ≡ true
unfolding expires_soon soon quot
expired_soon (pos n) (pos e) h k = ground arith
expired_soon (negsuc n) (pos e) h k = ground arith
expired_soon (pos n) (negsuc e) h k = ground arith
expired_soon (negsuc n) (negsuc e) h k = ground arith

mint_reason-none :
    (l e : ℤ) (names current : List Str)
    → (mint_reason l e names current ≡ none)
      ↔ ((l ≢ pos 0) × (expires_soon l e ≡ false) × (ltb_ℤ e (pos 0) ≡ false) × (names ≡ current))
unfolding mint_reason
mint_reason-none l e names current =
    ground (arith, eqb_ℤ_iff l (pos 0), dns_names_equal_iff names current)

mint_reason_not_expired :
    (l e : ℤ) (names current : List Str) → e ≤ℤ l → mint_reason l e names current ≢ some expired
unfolding mint_reason
mint_reason_not_expired l e names current h = ground (arith, expired_soon l e h)

sub_mono : (t u v : ℤ) → u ≤ℤ v → (t -ℤ v) ≤ℤ (t -ℤ u)
unfolding ◌-ℤ◌
sub_mono t u v h = ground arith

not_soon : (l e : ℤ) → (expires_soon l e ≡ false) ↔ (soon l ≤ℤ e)
unfolding expires_soon
not_soon l e = ground arith

time_left : (x n : ℤ) → (ltb_ℤ (x -ℤ n) (pos 0) ≡ false) ↔ (n ≤ℤ x)
unfolding ◌-ℤ◌
time_left x n = ground arith

no_lifetime : (x r : ℤ) → ((x -ℤ r) ≢ pos 0) ↔ (x ≢ r)
unfolding ◌-ℤ◌
no_lifetime x r = ground arith

-- After the first certificate, nothing is minted exactly where the certificate has a lifetime, has
-- not expired and does not expire soon, and its DNS names are those that are needed; and the reason
-- "has expired" is never given. The clock is not before the rotation, and times lie within 2^62
-- nanoseconds.
pub mint_reason_iff :
    (rotated_at expires_at now : ℤ) (names current : List Str)
    → IsModerate rotated_at
    → IsModerate expires_at
    → IsModerate now
    → rotated_at ≤ℤ now
    → let (lifetime, expires_in) = lifetime_of (some rotated_at) expires_at now in
      ((mint_reason lifetime expires_in names current ≡ none) ↔ (
        (expires_at ≢ rotated_at)
        × (soon (expires_at -ℤ rotated_at) ≤ℤ (expires_at -ℤ now))
        × (now ≤ℤ expires_at)
        × (names ≡ current)))
      × (mint_reason lifetime expires_in names current ≢ some expired)
unfolding lifetime_of
mint_reason_iff r x n names current hr hx hn h =
    rw (sub_time_moderate x r hx hr, sub_time_moderate x n hx hn)
      (
        ground (
          arith,
          mint_reason-none (x -ℤ r) (x -ℤ n) names current,
          not_soon (x -ℤ r) (x -ℤ n),
          time_left x n,
          no_lifetime x r,
        ),
        mint_reason_not_expired (x -ℤ r) (x -ℤ n) names current (sub_mono x r n h),
      )
