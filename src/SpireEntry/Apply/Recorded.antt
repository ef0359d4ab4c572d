-- ===== src/SpireEntry/Apply/Recorded.antt =====
-- What the calls record in the statuses of the resources.
use spire_controller_manager.Prelude.{
  ℕ, ◌+◌, Bool, List, [], ◌∷◌, Option, none, some, ◌==◌, if◌then◌else◌, ◌≡◌, ◌∙◌, refl, arith, inl,
  inr, Bool-cases,
}
use spire_controller_manager.Spiffe.{Spiffe}
use spire_controller_manager.SpireApi.Types.{Status, code_ok}
use spire_controller_manager.SpireEntry.Preference.{ByRef, DeclaredEntry, static_entry, spiffe_id}
use spire_controller_manager.SpireEntry.Status.{
  Statuses, increment_entry_success, increment_entry_failures,
}
use spire_controller_manager.SpireEntry.Apply.{
  Applied, after_create, after_update, created_one, updated_one, each, fail_all,
}

-- one failure, where the entry is of the i-th ClusterSPIFFEID
charge : ℕ → ByRef → ℕ
charge i (static_entry j) = 0
charge i (spiffe_id j) = if j == i then 1 else 0

pub failures_at : Statuses → ℕ → ℕ
failures_at h i = (h.spiffe_ids i).entry_failures

fails :
    (r : ByRef) (h : Statuses) (i : ℕ)
    → failures_at (increment_entry_failures r h) i ≡ failures_at h i + charge i r
unfolding increment_entry_failures charge failures_at
fails (static_entry j) h i = omega arith
fails (spiffe_id j) h i = ground arith

succeeds :
    (r : ByRef) (h : Statuses) (i : ℕ)
    → failures_at (increment_entry_success r h) i ≡ failures_at h i
unfolding increment_entry_success failures_at
succeeds (static_entry j) h i = refl
succeeds (spiffe_id j) h i = refl

-- which static entries are marked as set
pub set_at : Statuses → ℕ → Bool
set_at h i = (h.static_entries i).set

fails-set :
    (r : ByRef) (h : Statuses) (i : ℕ) → set_at (increment_entry_failures r h) i ≡ set_at h i
unfolding increment_entry_failures set_at
fails-set (static_entry j) h i = refl
fails-set (spiffe_id j) h i = refl

module _ {sp : Spiffe} where
  -- the entries of the i-th ClusterSPIFFEID, and those of them whose status is not OK
  pub declared_by : ℕ → List (DeclaredEntry sp) → ℕ
  declared_by i [] = 0
  declared_by i (d ∷ ds) = charge i d.by.ref + declared_by i ds

  pub failures_of : ℕ → List (DeclaredEntry sp) → List Status → ℕ
  failures_of i [] ss = 0
  failures_of i (d ∷ ds) [] = 0
  failures_of i (d ∷ ds) (s ∷ ss) =
      (if s.code == code_ok then 0 else charge i d.by.ref) + failures_of i ds ss

  abbrev pub failure_count : ℕ → List (DeclaredEntry sp) → Option (List Status) → ℕ
  failure_count i ds none = declared_by i ds
  failure_count i ds (some ss) = failures_of i ds ss

  fail_all-counts :
      (i : ℕ) (ds : List (DeclaredEntry sp)) (h : Statuses)
      → failures_at (fail_all ds h) i ≡ failures_at h i + declared_by i ds
  unfolding after_create declared_by
  fail_all-counts i [] h = omega arith
  fail_all-counts i (d ∷ ds) h =
      omega (arith, fail_all-counts i ds (increment_entry_failures d.by.ref h), fails d.by.ref h i)

  created-counts :
      (i : ℕ) (d : DeclaredEntry sp) (s : Status) (a : Applied sp)
      → failures_at (created_one d s a).statuses i
        ≡ failures_at a.statuses i + (if s.code == code_ok then 0 else charge i d.by.ref)
  unfolding after_create
  created-counts i d s a = elim (Bool-cases (s.code == code_ok)) [
    | inl y ↦ rw y (omega (arith, succeeds d.by.ref a.statuses i))
    | inr n ↦ rw n (fails d.by.ref a.statuses i)
  ]

  updated-counts :
      (i : ℕ) (d : DeclaredEntry sp) (s : Status) (a : Applied sp)
      → failures_at (updated_one d s a).statuses i
        ≡ failures_at a.statuses i + (if s.code == code_ok then 0 else charge i d.by.ref)
  unfolding after_update
  updated-counts i d s a = elim (Bool-cases (s.code == code_ok)) [
    | inl y ↦ rw y (omega arith)
    | inr n ↦ rw n (fails d.by.ref a.statuses i)
  ]

  each-counts :
      (f : DeclaredEntry sp → Status → Applied sp → Applied sp) (i : ℕ)
      → ((d : DeclaredEntry sp) (s : Status) (a : Applied sp)
          → failures_at (f d s a).statuses i
            ≡ failures_at a.statuses i + (if s.code == code_ok then 0 else charge i d.by.ref))
      → (ds : List (DeclaredEntry sp)) (ss : List Status) (a : Applied sp)
      → failures_at (each f ds ss a).statuses i ≡ failures_at a.statuses i + failures_of i ds ss
  unfolding after_create failures_of
  each-counts f i one [] ss a = omega arith
  each-counts f i one (d ∷ ds) [] a = omega arith
  each-counts f i one (d ∷ ds) (s ∷ ss) a =
      omega (arith, each-counts f i one ds ss (f d s a), one d s a)

  -- Creating adds to a ClusterSPIFFEID's failures one for each of its entries whose status is not
  -- OK, and one for each of its entries at all if the call fails; an entry with no status counts
  -- for nothing.
  pub after_create-failures :
      (i : ℕ) (ds : List (DeclaredEntry sp)) (reply : Option (List Status)) (a : Applied sp)
      → failures_at (after_create ds reply a).statuses i
        ≡ failures_at a.statuses i + failure_count i ds reply
  unfolding after_create
  after_create-failures i ds none a = fail_all-counts i ds a.statuses
  after_create-failures i ds (some ss) a = each-counts created_one i (created-counts i) ds ss a

  -- Updating adds to a ClusterSPIFFEID's failures one for each of its entries whose status is not OK,
  -- and one for each of its entries at all if the call fails; an entry with no status counts for
  -- nothing.
  after_update-failures :
      (i : ℕ) (ds : List (DeclaredEntry sp)) (reply : Option (List Status)) (a : Applied sp)
      → failures_at (after_update ds reply a).statuses i
        ≡ failures_at a.statuses i + failure_count i ds reply
  unfolding after_update
  after_update-failures i ds none a = fail_all-counts i ds a.statuses
  after_update-failures i ds (some ss) a = each-counts updated_one i (updated-counts i) ds ss a

  fail_all-set :
      (i : ℕ) (ds : List (DeclaredEntry sp)) (h : Statuses) → set_at (fail_all ds h) i ≡ set_at h i
  unfolding after_create
  fail_all-set i [] h = refl
  fail_all-set i (d ∷ ds) h =
      fail_all-set i ds (increment_entry_failures d.by.ref h) ∙ fails-set d.by.ref h i

  updated-set :
      (i : ℕ) (d : DeclaredEntry sp) (s : Status) (a : Applied sp)
      → set_at (updated_one d s a).statuses i ≡ set_at a.statuses i
  unfolding after_update
  updated-set i d s a = elim (Bool-cases (s.code == code_ok)) [
    | inl y ↦ rw y refl
    | inr n ↦ rw n (fails-set d.by.ref a.statuses i)
  ]

  each-updated-set :
      (i : ℕ) (ds : List (DeclaredEntry sp)) (ss : List Status) (a : Applied sp)
      → set_at (each updated_one ds ss a).statuses i ≡ set_at a.statuses i
  unfolding after_update
  each-updated-set i [] ss a = refl
  each-updated-set i (d ∷ ds) [] a = refl
  each-updated-set i (d ∷ ds) (s ∷ ss) a =
      each-updated-set i ds ss (updated_one d s a) ∙ updated-set i d s a

  -- No update marks a static entry as set, whatever the server answers: the mark is as it was
  -- before the call.
  pub after_update-set :
      (i : ℕ) (ds : List (DeclaredEntry sp)) (reply : Option (List Status)) (a : Applied sp)
      → set_at (after_update ds reply a).statuses i ≡ set_at a.statuses i
  unfolding after_update
  after_update-set i ds none a = fail_all-set i ds a.statuses
  after_update-set i ds (some ss) a = each-updated-set i ds ss a
