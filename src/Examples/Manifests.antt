-- ===== src/Examples/Manifests.antt =====
-- A directory of manifests, and the requests of the controllers.
use spire_controller_manager.Prelude.{
  ℕ, Str, str_eq, codes, List, [], ◌∷◌, some, none, true, if◌then◌else◌, ◌≡◌, refl,
}
use spire_controller_manager.Prelude.Results.{ok}
use spire_controller_manager.Manifests.{Manifest, Files, is_yaml, load_manifest, list_manifests}
use spire_controller_manager.Manifests.Listing.{Loads, objects, list_manifests-ok}
use spire_controller_manager.Reconciler.{new_trigger_channel, waiting, reconciling}
use spire_controller_manager.Controllers.{pod, handle, Subset, pod_uids}

abbrev version : Str
version = codes "spire.spiffe.io/v1alpha1"

abbrev contents : Str → Manifest ℕ
contents name =
    if str_eq name (codes "a.yaml")
    then record { api_version = version; kind = codes "ClusterStaticEntry"; object = 1 }
    else record { api_version = version; kind = codes "ConfigMap"; object = 2 }

-- a file is read as its name, and decodes to what it holds
abbrev files : Files ℕ
files = record {
  read_dir = λ dir. some (codes "a.yaml" ∷ codes "b.yaml" ∷ codes "notes" ∷ []);
  read_file = λ path. some path;
  expand_env = λ content. content;
  join = λ dir name. name;
  decode_into =
      λ content. if str_eq content (codes "c.yaml") then none else some (contents content);
}

list_manifests_one :
    list_manifests files true (codes "ClusterStaticEntry") (codes "manifests") ≡ ok (1 ∷ [])
unfolding list_manifests str_eq
list_manifests_one = refl

list_manifests-ok_example :
    list_manifests files true (codes "ClusterStaticEntry") (codes "manifests")
    ≡ ok (
        objects
          (codes "ClusterStaticEntry")
          contents
          (codes "a.yaml" ∷ codes "b.yaml" ∷ codes "notes" ∷ []))
unfolding load_manifest is_yaml str_eq Loads
list_manifests-ok_example =
    list_manifests-ok files true (codes "ClusterStaticEntry") (codes "manifests") contents
      (codes "a.yaml" ∷ codes "b.yaml" ∷ codes "notes" ∷ []) refl
      ((λ y. refl), ((λ y. refl), ((λ y. refl), tt)))

abbrev addresses : List Subset
addresses =
    record {
      addresses =
          some (record { kind = codes "Pod"; uid = codes "u1" })
          ∷ none
          ∷ some (record { kind = codes "Node"; uid = codes "n1" })
          ∷ [];
      not_ready_addresses = some (record { kind = codes "Pod"; uid = codes "u2" }) ∷ [];
    }
    ∷ []

pod_uids_two : pod_uids addresses ≡ codes "u1" ∷ codes "u2" ∷ []
unfolding pod_uids str_eq
pod_uids_two = refl

-- a pod of an ignored namespace starts no pass, and another one does
handle_ignored :
    handle str_eq
      (codes "kube-system" ∷ [])
      (pod (codes "kube-system"))
      (record { phase = waiting; passes = 4; channel = new_trigger_channel })
    ≡ record { phase = waiting; passes = 4; channel = new_trigger_channel }
unfolding handle str_eq
handle_ignored = refl

handle_pod :
    handle str_eq
      (codes "kube-system" ∷ [])
      (pod (codes "default"))
      (record { phase = waiting; passes = 4; channel = new_trigger_channel })
    ≡ record { phase = reconciling; passes = 5; channel = new_trigger_channel }
unfolding handle str_eq
handle_pod = refl
