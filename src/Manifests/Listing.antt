-- ===== src/Manifests/Listing.antt =====
-- What the resources of a directory are, and what fails.
use spire_controller_manager.Prelude.{
  Str, Bool, true, List, [], ◌∷◌, ◌++◌, some, keep, map, All, ◌≡◌, refl, Bool-cases, inl, inr,
}
use spire_controller_manager.Prelude.Results.{ok, err}
use spire_controller_manager.Manifests.{
  Manifest, Files, ManifestError, is_yaml, is_of_kind, load_manifest, add_manifests, list_manifests,
}

-- the resources of a kind among the .yaml files
pub objects : {A : Type 0} → Str → (Str → Manifest A) → List Str → List A
unfolding keep
objects kind content names =
    map (λ m. m.object) (keep (is_of_kind kind) (map content (keep is_yaml names)))

module _ {A : Type 0} (files : Files A) (expand : Bool) (kind dir : Str) where
  -- a file that loads as this manifest, if its name ends in .yaml
  unfoldable pub Loads : (Str → Manifest A) → Str → Type 0
  Loads content name =
      is_yaml name ≡ true → load_manifest files expand (files.join dir name) ≡ ok (content name)

  -- the files up to one that does not load
  add_manifests-err :
      (content : Str → Manifest A) (before : List Str) (name : Str) (after : List Str)
      (e : ManifestError)
      → All (Loads content) before
      → is_yaml name ≡ true
      → load_manifest files expand (files.join dir name) ≡ err e
      → add_manifests files expand kind dir (before ++ name ∷ after) ≡ err e
  unfolding add_manifests Loads
  add_manifests-err content [] name after e l y f = rw (y, f) refl
  add_manifests-err content (b ∷ before) name after e l y f = elim (Bool-cases (is_yaml b)) [
    | inl z ↦ elim (Bool-cases (is_of_kind kind (content b))) [
      | inl t ↦ rw (z, l.0 z, t, add_manifests-err content before name after e l.1 y f) refl
      | inr t ↦ rw (z, l.0 z, t) (add_manifests-err content before name after e l.1 y f)
    ]
    | inr n ↦ rw n (add_manifests-err content before name after e l.1 y f)
  ]

  add_manifests-ok :
      (content : Str → Manifest A) (names : List Str)
      → All (Loads content) names
      → add_manifests files expand kind dir names ≡ ok (objects kind content names)
  unfolding add_manifests Loads objects keep
  add_manifests-ok content [] l = refl
  add_manifests-ok content (b ∷ names) l = elim (Bool-cases (is_yaml b)) [
    | inl z ↦ elim (Bool-cases (is_of_kind kind (content b))) [
      | inl t ↦ rw (z, l.0 z, t, add_manifests-ok content names l.1) refl
      | inr t ↦ rw (z, l.0 z, t) (add_manifests-ok content names l.1)
    ]
    | inr n ↦ rw n (add_manifests-ok content names l.1)
  ]

  -- The resources of a directory whose .yaml files all load are those of the kind that is asked for,
  -- in the order of the directory, whatever its other files are.
  pub list_manifests-ok :
      (content : Str → Manifest A) (names : List Str)
      → files.read_dir dir ≡ some names
      → All (Loads content) names
      → list_manifests files expand kind dir ≡ ok (objects kind content names)
  unfolding list_manifests
  list_manifests-ok content names r l = rw r (add_manifests-ok content names l)
