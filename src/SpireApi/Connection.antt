-- ===== src/SpireApi/Connection.antt =====
-- pkg/spireapi/client.go: how the client of the SPIRE server is dialed. The Workload API, the files of
-- credentials and gRPC are parameters; W is the state of everything outside.
pub mod Closing
use spire_controller_manager.Prelude.{
  Str, codes, Bool, true, false, not, Option, none, some, List, [], ◌∷◌, ◌++◌, is_empty, has_prefix,
  ◌||◌, if◌then◌else◌,
}
use spire_controller_manager.Prelude.Int.{ℤ, pos, ltb_ℤ}
use spire_controller_manager.Prelude.Results.{Result, ok, err, ◌>>=◌, ◌>>◌, fail_if, or_fail}
use spire_controller_manager.Spiffe.{Spiffe}

pub record GrpcConfig : Type 0 where
  pub max_call_recv_msg_size : ℤ

pub record MtlsConfig : Type 0 where
  pub workload_api_socket_path : Str
  pub cert_path : Str
  pub key_path : Str
  pub bundle_path : Str
  pub server_spiffe_id : Str

pub data DialError : Type 0 where
  address_required mtls_required server_id_required invalid_server_id workload_api_combined
        source_failed cert_path_required key_path_required bundle_path_required svid_failed
        bundle_failed dial_failed :
      DialError

-- The options of a dial. A call option is grpc.WaitForReady or grpc.MaxCallRecvMsgSize.
pub data CallOption : Type 0 where
  wait_for_ready : Bool → CallOption
  max_call_recv_msg_size : ℤ → CallOption

pub data DialOption (Creds : Type 0) : Type 0 where
  with_transport_credentials : Creds → DialOption Creds
  with_default_call_options : List CallOption → DialOption Creds

-- if n > 0 { callOptions = append(...) }
unfoldable pub call_options : GrpcConfig → List CallOption
call_options c =
    if ltb_ℤ (pos 0) c.max_call_recv_msg_size
    then max_call_recv_msg_size c.max_call_recv_msg_size ∷ []
    else []

unfoldable pub with_call_options : {Creds : Type 0} → List CallOption → List (DialOption Creds)
with_call_options [] = []
with_call_options (o ∷ os) = with_default_call_options (o ∷ os) ∷ []

unfoldable pub get_grpc_config :
    {Creds : Type 0} → Option GrpcConfig → Creds → List (DialOption Creds)
unfolding call_options with_call_options
get_grpc_config none creds = with_transport_credentials creds ∷ []
get_grpc_config (some c) creds =
    with_transport_credentials creds ∷ with_call_options (call_options c)

-- the target of a socket: filepath.IsAbs is a leading slash
unfoldable pub socket_target : Str → Str
socket_target path =
    if has_prefix (codes "/") path then codes "unix://" ++ path else codes "unix:" ++ path

-- The packages that the client calls: workloadapi, x509svid, x509bundle, grpccredentials and grpc.
pub record Network (sp : Spiffe) (W : Type 0) : Type 1 where
  pub Creds : Type 0
  pub Source : Type 0
  pub Svid : Type 0
  pub Bundle : Type 0
  pub Conn : Type 0
  pub insecure : Creds
  pub new_x509_source : Str → W → Option Source × W
  pub close_source : Source → W → W
  pub load_svid : Str → Str → W → Option Svid
  pub load_bundle : sp.TrustDomain → Str → W → Option Bundle
  pub source_credentials : Source → sp.SpiffeId → Creds
  pub static_credentials : Svid → Bundle → sp.SpiffeId → Creds
  pub new_client : Str → List (DialOption Creds) → W → Option Conn × W
  pub close_conn : Conn → W → W

module _ {sp : Spiffe} {W : Type 0} (net : Network sp W) where
  -- Client, with the closer of clientWithCloser if there is one
  pub record Dialed : Type 0 where
    pub conn : net.Conn
    pub closer : Option net.Source

  unfoldable pub dial : Str → net.Creds → Option GrpcConfig → W → Option net.Conn × W
  unfolding get_grpc_config
  dial target creds grpc w =
      net.new_client target
        (get_grpc_config grpc creds ++ with_default_call_options (wait_for_ready true ∷ []) ∷ []) w

  -- the client without a closer
  plain_client : Option net.Conn × W → Result DialError Dialed × W
  plain_client (none, w) = (err dial_failed, w)
  plain_client (some c, w) = (ok record { conn = c; closer = none }, w)

  unfoldable pub dial_socket : Str → Option GrpcConfig → W → Result DialError Dialed × W
  unfolding dial plain_client socket_target
  dial_socket path grpc w = plain_client (dial (socket_target path) net.insecure grpc w)

  combined : MtlsConfig → Bool
  combined c =
      not (is_empty c.cert_path) || not (is_empty c.key_path) || not (is_empty c.bundle_path)

  -- credentials from the Workload API, with the source as their closer
  source_credentials :
      sp.SpiffeId → Option net.Source × W → Result DialError (net.Creds × Option net.Source) × W
  source_credentials server_id (none, w) = (err source_failed, w)
  source_credentials server_id (some s, w) = (ok (net.source_credentials s server_id, some s), w)

  -- credentials from files, which have no closer
  file_credentials : MtlsConfig → sp.SpiffeId → W → Result DialError (net.Creds × Option net.Source)
  file_credentials c server_id w =
      fail_if (is_empty c.cert_path) cert_path_required
      >> (fail_if (is_empty c.key_path) key_path_required
          >> (fail_if (is_empty c.bundle_path) bundle_path_required
              >> (or_fail (net.load_svid c.cert_path c.key_path w) svid_failed >>= λ svid.
                  or_fail (net.load_bundle (sp.id_trust_domain server_id) c.bundle_path w)
                    bundle_failed
                  >>= λ bundle. ok (net.static_credentials svid bundle server_id, none))))

  unfoldable pub get_mtls_credentials :
      MtlsConfig → sp.SpiffeId → W → Result DialError (net.Creds × Option net.Source) × W
  unfolding combined source_credentials file_credentials
  get_mtls_credentials c server_id w =
      if not (is_empty c.workload_api_socket_path)
      then (if combined c
          then (err workload_api_combined, w)
          else source_credentials server_id (net.new_x509_source c.workload_api_socket_path w))
      else (file_credentials c server_id w, w)

  -- if closer != nil { closer.Close() }
  unfoldable pub close_if : Option net.Source → W → W
  close_if none w = w
  close_if (some s) w = net.close_source s w

  with_closer : Option net.Source → Option net.Conn × W → Result DialError Dialed × W
  unfolding close_if
  with_closer closer (none, w) = (err dial_failed, close_if closer w)
  with_closer closer (some c, w) = (ok record { conn = c; closer = closer }, w)

  dial_with :
      Str
      → Option GrpcConfig
      → Result DialError (net.Creds × Option net.Source) × W
      → Result DialError Dialed × W
  unfolding with_closer dial
  dial_with address grpc (err e, w) = (err e, w)
  dial_with address grpc (ok (creds, closer), w) = with_closer closer (dial address creds grpc w)

  -- the checks of DialMTLS before it makes credentials
  server_id_of : Str → Option MtlsConfig → Result DialError (MtlsConfig × sp.SpiffeId)
  server_id_of address none = fail_if (is_empty address) address_required >> err mtls_required
  server_id_of address (some c) =
      fail_if (is_empty address) address_required
      >> (fail_if (is_empty c.server_spiffe_id) server_id_required
          >> (or_fail (sp.id_from_string c.server_spiffe_id) invalid_server_id >>= λ id.
              ok (c, id)))

  dial_checked :
      Str
      → Option GrpcConfig
      → Result DialError (MtlsConfig × sp.SpiffeId)
      → W
      → Result DialError Dialed × W
  unfolding get_mtls_credentials dial_with
  dial_checked address grpc (err e) w = (err e, w)
  dial_checked address grpc (ok (c, id)) w = dial_with address grpc (get_mtls_credentials c id w)

  unfoldable pub dial_mtls :
      Str → Option MtlsConfig → Option GrpcConfig → W → Result DialError Dialed × W
  unfolding dial_checked server_id_of
  dial_mtls address mtls grpc w = dial_checked address grpc (server_id_of address mtls) w

  -- clientWithCloser.Close, and Close of a client without a closer
  unfoldable pub close_client : Dialed → W → W
  unfolding close_if
  close_client c w = close_if c.closer (net.close_conn c.conn w)
