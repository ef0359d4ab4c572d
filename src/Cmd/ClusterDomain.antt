-- ===== src/Cmd/ClusterDomain.antt =====
-- cmd/main.go: autoDetectClusterDomain and parseClusterDomainCNAME.
pub mod Names
use spire_controller_manager.Prelude.{
  ℕ, Str, codes, str_eq, has_prefix, is_empty, length, drop, ◌++◌, Option, none, some, [], ◌∷◌,
  Bool, true, false, if◌then◌else◌, ◌==◌,
}
use spire_controller_manager.Prelude.Results.{Result, ok, err, ◌>>=◌, ◌>>◌, fail_if, or_fail}
use spire_controller_manager.Cmd.{Environment}

pub data DomainError : Type 0 where
  no_cname no_expected_prefix no_cluster_domain : DomainError

abbrev pub k8s_default_service : Str
k8s_default_service = codes "kubernetes.default.svc"

abbrev pub dot : ℕ
dot = 46

-- strings.TrimPrefix(s, prefix)
unfoldable pub trim_prefix : Str → Str → Str
trim_prefix s prefix = if has_prefix prefix s then drop (length prefix) s else s

-- strings.HasSuffix(s, ".")
unfoldable pub ends_with_dot : Str → Bool
ends_with_dot [] = false
ends_with_dot (a ∷ []) = a == dot
ends_with_dot (a ∷ b ∷ s) = ends_with_dot (b ∷ s)

-- strings.TrimSuffix(s, ".")
unfoldable pub trim_dot : Str → Str
trim_dot [] = []
trim_dot (a ∷ []) = if a == dot then [] else a ∷ []
trim_dot (a ∷ b ∷ s) = a ∷ trim_dot (b ∷ s)

-- a domain that is not empty
required_domain : Str → Result DomainError Str
required_domain [] = err no_cluster_domain
required_domain (a ∷ s) = ok (a ∷ s)

unfoldable pub domain_behind : Str → Str → Result DomainError Str
unfolding trim_prefix trim_dot required_domain
domain_behind prefix cname =
    let domain = trim_prefix cname prefix in
    fail_if (str_eq domain cname) no_expected_prefix >> required_domain (trim_dot domain)

unfoldable pub parse_cluster_domain_cname : Str → Result DomainError Str
unfolding domain_behind
parse_cluster_domain_cname = domain_behind (k8s_default_service ++ codes ".")

unfoldable pub auto_detect_cluster_domain : Environment → Result DomainError Str
unfolding parse_cluster_domain_cname
auto_detect_cluster_domain env = or_fail env.lookup_cname no_cname >>= parse_cluster_domain_cname
