-- ===== src/Manifests.antt =====
-- api/v1alpha1/clusterstaticentry_loader.go and clusterfederatedtrustdomain_loader.go: the resources
-- of static mode from the files of a directory. The two are one function over the kind. The file
-- system, read at one instant, the environment, path.Join and the decoder are parameters.
pub mod Listing
use spire_controller_manager.Prelude.{
  Str, str_eq, codes, Bool, not, ◌&&◌, ◌||◌, ◌-◌, List, [], ◌∷◌, Option, length, drop,
  if◌then◌else◌,
}
use spire_controller_manager.Prelude.Results.{Result, ok, err, ◌>>=◌, or_fail}

-- a decoded object with its TypeMeta
pub record Manifest (A : Type 0) : Type 0 where
  pub api_version : Str
  pub kind : Str
  pub object : A

pub record Files (A : Type 0) : Type 0 where
  pub read_dir : Str → Option (List Str)
  pub read_file : Str → Option Str
  pub expand_env : Str → Str
  pub join : Str → Str → Str
  pub decode_into : Str → Option (Manifest A)

pub data ManifestError : Type 0 where
  could_not_list could_not_read could_not_decode : ManifestError

-- strings.HasSuffix
has_suffix : Str → Str → Bool
has_suffix s suffix = str_eq (drop (length s - length suffix) s) suffix

unfoldable pub is_yaml : Str → Bool
unfolding has_suffix
is_yaml name = has_suffix name (codes ".yaml")

unfoldable pub is_of_kind : {A : Type 0} → Str → Manifest A → Bool
is_of_kind kind m =
    not (not (str_eq m.api_version (codes "spire.spiffe.io/v1alpha1")) || not (str_eq m.kind kind))

module _ {A : Type 0} (files : Files A) (expand : Bool) where
  -- LoadClusterStaticEntryFile, LoadClusterFederatedTrustDomainFile
  unfoldable pub load_manifest : Str → Result ManifestError (Manifest A)
  load_manifest path = or_fail (files.read_file path) could_not_read >>= λ content.
      or_fail (files.decode_into (if expand then files.expand_env content else content))
        could_not_decode

  unfoldable pub add_manifests : Str → Str → List Str → Result ManifestError (List A)
  unfolding is_yaml is_of_kind load_manifest
  add_manifests kind dir [] = ok []
  add_manifests kind dir (name ∷ names) =
      let rest = add_manifests kind dir names in
      if not (is_yaml name)
      then rest
      else (load_manifest (files.join dir name) >>= λ m.
          if is_of_kind kind m then (rest >>= λ ms. ok (m.object ∷ ms)) else rest)

  -- ListClusterStaticEntries, ListClusterFederatedTrustDomains
  unfoldable pub list_manifests : Str → Str → Result ManifestError (List A)
  unfolding add_manifests
  list_manifests kind dir =
      or_fail (files.read_dir dir) could_not_list >>= λ names. add_manifests kind dir names
