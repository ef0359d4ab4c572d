-- ===== src/SpireApi/Connection/Closing.antt =====
-- The source of the Workload API that a connection of pkg/spireapi/client.go holds: it is closed
-- where the dial fails, and with the client otherwise.
use spire_controller_manager.Prelude.{
  Str, Option, none, some, ℕ, suc, ◌≡◌, refl, inl, inr, Bool-cases, Option-cases, is_empty,
}
use spire_controller_manager.Prelude.Results.{Result, ok, err}
use spire_controller_manager.Spiffe.{Spiffe}
use spire_controller_manager.SpireApi.Connection.{
  Network, Dialed, MtlsConfig, GrpcConfig, DialError, dial, dial_mtls, close_client, close_if,
  dial_with, dial_checked, with_closer, source_credentials, file_credentials, get_mtls_credentials,
  combined,
}

-- How many sources are open in a state of the world: a new source is one more, closing it is one
-- less, and the calls of gRPC open and close none.
pub record Counts {sp : Spiffe} {W : Type 0} (net : Network sp W) (opened : W → ℕ) : Type 0 where
  pub new_source :
      (path : Str) (w : W) (s : net.Source) (w' : W)
      → net.new_x509_source path w ≡ (some s, w')
      → opened w' ≡ suc (opened w)
  pub no_source :
      (path : Str) (w w' : W) → net.new_x509_source path w ≡ (none, w') → opened w' ≡ opened w
  pub closed :
      (s : net.Source) (w : W) {n : ℕ} → opened w ≡ suc n → opened (net.close_source s w) ≡ n
  pub client : (target : Str) (os : _) (w : W) → opened ((net.new_client target os w).1) ≡ opened w
  pub conn_closed : (c : net.Conn) (w : W) → opened (net.close_conn c w) ≡ opened w

module _ {sp : Spiffe} {W : Type 0} (net : Network sp W) (opened : W → ℕ)
    (counts : Counts net opened) where
  -- the world behind an attempt to dial, and behind the client's Close if there is a client
  unfoldable pub closed_after : Result DialError (Dialed net) × W → W
  closed_after (err e, w) = w
  closed_after (ok c, w) = close_client net c w

  -- with this closer, so many sources are open that closing it leaves n
  abbrev Holds : Option net.Source → W → ℕ → Type 0
  Holds none w n = opened w ≡ n
  Holds (some s) w n = opened w ≡ suc n

  close_if-Holds :
      (s : Option net.Source) (w : W) (n : ℕ) → Holds s w n → opened (close_if net s w) ≡ n
  unfolding close_if
  close_if-Holds none w n h = h
  close_if-Holds (some s) w n h = counts.closed s w h

  Holds-eq :
      (s : Option net.Source) (w w' : W) (n : ℕ) → opened w' ≡ opened w → Holds s w n → Holds s w' n
  Holds-eq none w w' n e h = cc
  Holds-eq (some s) w w' n e h = cc

  with_closer-closed :
      (s : Option net.Source) (r : Option net.Conn × W) (n : ℕ)
      → Holds s (r.1) n
      → opened (closed_after (with_closer net s r)) ≡ n
  unfolding with_closer closed_after close_client
  with_closer-closed s (none, w) n h = close_if-Holds s w n h
  with_closer-closed s (some c, w) n h =
      close_if-Holds s _ n (Holds-eq s w _ n (counts.conn_closed c w) h)

  dial_with-closed :
      (address : Str) (grpc : Option GrpcConfig) (s : Option net.Source) (creds : net.Creds) (w : W)
      (n : ℕ)
      → Holds s w n
      → opened (closed_after (dial_with net address grpc (ok (creds, s), w))) ≡ n
  unfolding dial_with dial
  dial_with-closed address grpc s creds w n h =
      with_closer-closed s _ n (Holds-eq s w _ n (counts.client address _ w) h)

  abbrev CredentialsHold : Result DialError (net.Creds × Option net.Source) × W → ℕ → Type 0
  CredentialsHold (err e, w) n = opened w ≡ n
  CredentialsHold (ok (creds, s), w) n = Holds s w n

  dial_with-CredentialsHold :
      (address : Str) (grpc : Option GrpcConfig)
      (r : Result DialError (net.Creds × Option net.Source) × W) (n : ℕ)
      → CredentialsHold r n
      → opened (closed_after (dial_with net address grpc r)) ≡ n
  unfolding dial_with closed_after
  dial_with-CredentialsHold address grpc (err e, w) n h = h
  dial_with-CredentialsHold address grpc (ok (creds, s), w) n h =
      dial_with-closed address grpc s creds w n h

  source-CredentialsHold :
      (path : Str) (id : sp.SpiffeId) (w : W) (r : Option net.Source × W)
      → net.new_x509_source path w ≡ r
      → CredentialsHold (source_credentials net id r) (opened w)
  unfolding source_credentials
  source-CredentialsHold path id w (none, w') e = counts.no_source path w w' e
  source-CredentialsHold path id w (some s, w') e = counts.new_source path w s w' e

  file-CredentialsHold :
      (c : MtlsConfig) (id : sp.SpiffeId) (w : W)
      → CredentialsHold (file_credentials net c id w, w) (opened w)
  unfolding file_credentials
  file-CredentialsHold c id w = elim (Bool-cases (is_empty c.cert_path)) [
    | inl a ↦ rw a refl
    | inr a ↦ elim (Bool-cases (is_empty c.key_path)) [
      | inl b ↦ rw (a, b) refl
      | inr b ↦ elim (Bool-cases (is_empty c.bundle_path)) [
        | inl d ↦ rw (a, b, d) refl
        | inr d ↦ elim (Option-cases (net.load_svid c.cert_path c.key_path w)) [
          | inl x ↦ rw (a, b, d, x) refl
          | inr (svid, x) ↦
              elim (Option-cases (net.load_bundle (sp.id_trust_domain id) c.bundle_path w)) [
                | inl y ↦ rw (a, b, d, x, y) refl
                | inr (bundle, y) ↦ rw (a, b, d, x, y) refl
              ]
        ]
      ]
    ]
  ]

  get_mtls_credentials-CredentialsHold :
      (c : MtlsConfig) (id : sp.SpiffeId) (w : W)
      → CredentialsHold (get_mtls_credentials net c id w) (opened w)
  unfolding get_mtls_credentials
  get_mtls_credentials-CredentialsHold c id w =
      elim (Bool-cases (is_empty c.workload_api_socket_path)) [
        | inl a ↦ rw a (file-CredentialsHold c id w)
        | inr a ↦ elim (Bool-cases (combined net c)) [
          | inl b ↦ rw (a, b) refl
          | inr b ↦ rw (a, b) (source-CredentialsHold c.workload_api_socket_path id w _ refl)
        ]
      ]

  dial_checked-closed :
      (address : Str) (grpc : Option GrpcConfig) (r : Result DialError (MtlsConfig × sp.SpiffeId))
      (w : W)
      → opened (closed_after (dial_checked net address grpc r w)) ≡ opened w
  unfolding dial_checked closed_after
  dial_checked-closed address grpc (err e) w = refl
  dial_checked-closed address grpc (ok (c, id)) w =
      dial_with-CredentialsHold address grpc _ _ (get_mtls_credentials-CredentialsHold c id w)

  -- No source of the Workload API stays open: where DialMTLS fails, for whatever reason, as many
  -- are open as before, and where it succeeds as many are once the client is closed.
  pub dial_mtls-closed :
      (address : Str) (mtls : Option MtlsConfig) (grpc : Option GrpcConfig) (w : W)
      → opened (closed_after (dial_mtls net address mtls grpc w)) ≡ opened w
  unfolding dial_mtls
  dial_mtls-closed address mtls grpc w = dial_checked-closed address grpc _ w
